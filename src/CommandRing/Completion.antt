-- ===== src/CommandRing/Completion.antt =====
-- src/device/xhci/command_ring.rs: every command is completed by one event, with what the slot worker says.
use usbvfiod.Prelude.{
  ℕ, ◌≡◌, refl, ◌⊎◌, inl, inr, true, Option, some, M, pure, subst, bind_some, ◌∙◌, ◌>>=◌, bit_and,
  ==_iff,
}
use usbvfiod.Bus.Device.{Device}
use usbvfiod.Trb.Types.{CompletionCode, success, trb_error}
use usbvfiod.Trb.Event.{EventTrb, command_completion, new_command_completion_event_trb}
use usbvfiod.Trb.Command.{
  CommandTrb, CommandTrbVariant, no_op, enable_slot, disable_slot, address_device,
  configure_endpoint, evaluate_context, reset_endpoint, stop_endpoint, set_tr_dequeue_pointer,
  reset_device, force_header, unrecognized,
}
use usbvfiod.LinkedRing
use usbvfiod.SlotManager.{Answer, gone, done, ◌>>?◌}
use usbvfiod.SlotManager.Table.{Allocated, ok, err}
use usbvfiod.CommandRing.{looking_for_new_command, CommandRing, event, Slots}
use usbvfiod.CommandRing.Worker.{Round, enabled, report, send, completion_event, processing}

module _ {S : Type 0} (slots : Slots S) where
  -- Which answer of the slot worker a command is completed with: its code and its slot.
  abbrev pub Served : CommandTrbVariant → S → CompletionCode → ℕ → S → Type 0
  Served no_op s code slot t = (code ≡ success) × (slot ≡ 0) × (t ≡ s)
  Served enable_slot s code slot t =
      ((slots.enable_slot s ≡ some (done (ok slot), t)) × (code ≡ success))
      ⊎ ((slots.enable_slot s ≡ some (done (err code), t)) × (slot ≡ 0))
  Served (disable_slot d) s code slot t =
      (slots.disable_slot d.slot_id s ≡ some (done code, t)) × (slot ≡ d.slot_id)
  Served (address_device d) s code slot t =
      (slots.address_device d s ≡ some (done code, t)) × (slot ≡ d.slot_id)
  Served (configure_endpoint d) s code slot t =
      (slots.configure_endpoint d s ≡ some (done code, t)) × (slot ≡ d.slot_id)
  Served (evaluate_context d) s code slot t =
      (slots.evaluate_context d s ≡ some (done code, t)) × (slot ≡ d.slot_id)
  Served (reset_endpoint d) s code slot t =
      (slots.reset_endpoint d.slot_id d.endpoint_id s ≡ some (done code, t)) × (slot ≡ d.slot_id)
  Served (stop_endpoint d) s code slot t =
      (slots.stop_endpoint d.slot_id d.endpoint_id s ≡ some (done code, t)) × (slot ≡ d.slot_id)
  Served (set_tr_dequeue_pointer d) s code slot t =
      (slots.set_tr_dequeue_pointer d s ≡ some (done code, t)) × (slot ≡ d.slot_id)
  Served (reset_device d) s code slot t =
      (slots.reset_device d.slot_id s ≡ some (done code, t)) × (slot ≡ d.slot_id)
  Served force_header s code slot t = ⊥
  Served (unrecognized b e) s code slot t = (code ≡ trb_error) × (slot ≡ 0) × (t ≡ s)

-- The event that completes a command.
abbrev pub completion : ℕ → CompletionCode → ℕ → EventTrb
completion address code slot = command_completion (record {
  command_trb_pointer = address;
  command_completion_parameter = 0;
  completion_code = code;
  slot_id = slot;
})

pub event_of_aligned :
    (address : ℕ) (code : CompletionCode) (slot : ℕ)
    → bit_and address 0xf ≡ 0
    → new_command_completion_event_trb address 0 code slot ≡ some (completion address code slot)
unfolding new_command_completion_event_trb
event_of_aligned address code slot h = rw ((==_iff (bit_and address 0xf) 0).1 h) refl

module _ {S A B : Type 0} (m : M S (Answer A)) (f : A → M S (Answer B)) (s t : S) (b : B) where
  -- An answer comes of an answer.
  answer_some :
      (m >>? f) s ≡ some (done b, t)
      → (a : A) × (u : S) × (m s ≡ some (done a, u)) × (f a u ≡ some (done b, t))
  answer_some h = let (r, u, run, last) = bind_some m _ s t (done b) h in answered r u run last
    where
      answered :
          (r : Answer A) (u : S)
          → m s ≡ some (r, u)
          → (elim r as (λ _. M S (Answer B)) [ gone ↦ pure gone | done a ↦ f a ]) u
            ≡ some (done b, t)
          → (a : A) × (u : S) × (m s ≡ some (done a, u)) × (f a u ≡ some (done b, t))
      answered gone u run last = absurd cc
      answered (done a) u run last = (a, u, run, last)

module _ {S : Type 0} (dma : Device S) (slots : Slots S) (address : ℕ) (s t : S) where
  abbrev Reports : CommandTrbVariant → Option EventTrb → Type 0
  Reports v e =
      (code : CompletionCode) × (slot : ℕ) × Served slots v s code slot t
      × (e ≡ new_command_completion_event_trb address 0 code slot)

  report_inv :
      (m : M S (Answer CompletionCode)) (slot : ℕ) (e : Option EventTrb)
      → report dma slots address slot m s ≡ some (done e, t)
      → (code : CompletionCode) × (m s ≡ some (done code, t))
        × (e ≡ new_command_completion_event_trb address 0 code slot)
  report_inv m slot e h =
      let (code, u, run, last) = answer_some m _ s t e h in
      let same : u ≡ t = cc in (code, subst (λ x. m s ≡ some (done code, x)) same run, cc)

  -- What is reported is what the slot worker has answered.
  completion_event-Reports :
      (v : CommandTrbVariant) (e : Option EventTrb)
      → completion_event dma slots address v s ≡ some (done e, t)
      → Reports v e
  unfolding completion_event
  completion_event-Reports no_op e h = (success, 0, (refl, refl, cc), cc)
  completion_event-Reports enable_slot e h =
      let (a, u, run, last) = answer_some slots.enable_slot _ s t e h in
      let same : u ≡ t = cc in
      allotted a (subst (λ x. slots.enable_slot s ≡ some (done a, x)) same run) cc
    where
      allotted :
          (a : Allocated)
          → slots.enable_slot s ≡ some (done a, t)
          → e ≡ enabled dma slots address a
          → Reports enable_slot e
      allotted (ok slot) run same = (success, slot, inl (run, refl), same)
      allotted (err code) run same = (code, 0, inr (run, refl), same)
  completion_event-Reports (disable_slot d) e h =
      let (code, run, same) = report_inv (slots.disable_slot d.slot_id) d.slot_id e h in
      (code, d.slot_id, (run, refl), same)
  completion_event-Reports (address_device d) e h =
      let (code, run, same) = report_inv (slots.address_device d) d.slot_id e h in
      (code, d.slot_id, (run, refl), same)
  completion_event-Reports (configure_endpoint d) e h =
      let (code, run, same) = report_inv (slots.configure_endpoint d) d.slot_id e h in
      (code, d.slot_id, (run, refl), same)
  completion_event-Reports (evaluate_context d) e h =
      let (code, run, same) = report_inv (slots.evaluate_context d) d.slot_id e h in
      (code, d.slot_id, (run, refl), same)
  completion_event-Reports (reset_endpoint d) e h =
      let (code, run, same) =
        report_inv (slots.reset_endpoint d.slot_id d.endpoint_id) d.slot_id e h in
      (code, d.slot_id, (run, refl), same)
  completion_event-Reports (stop_endpoint d) e h =
      let (code, run, same) =
        report_inv (slots.stop_endpoint d.slot_id d.endpoint_id) d.slot_id e h in
      (code, d.slot_id, (run, refl), same)
  completion_event-Reports (set_tr_dequeue_pointer d) e h =
      let (code, run, same) = report_inv (slots.set_tr_dequeue_pointer d) d.slot_id e h in
      (code, d.slot_id, (run, refl), same)
  completion_event-Reports (reset_device d) e h =
      let (code, run, same) = report_inv (slots.reset_device d.slot_id) d.slot_id e h in
      (code, d.slot_id, (run, refl), same)
  completion_event-Reports force_header e h = absurd cc
  completion_event-Reports (unrecognized b z) e h = (trb_error, 0, (refl, refl, cc), cc)

  -- What the slot worker has answered is reported.
  Served-completion_event :
      (v : CommandTrbVariant) (code : CompletionCode) (slot : ℕ)
      → Served slots v s code slot t
      → completion_event dma slots address v s
        ≡ some (done (new_command_completion_event_trb address 0 code slot), t)
  unfolding completion_event
  Served-completion_event no_op code slot (c, i, e) = rw (c, i, e) refl
  Served-completion_event enable_slot code slot (inl (run, c)) = rw (run, ◌>>=◌, c) refl
  Served-completion_event enable_slot code slot (inr (run, i)) = rw (run, ◌>>=◌, i) refl
  Served-completion_event (disable_slot d) code slot (run, i) = rw (run, ◌>>=◌, i) refl
  Served-completion_event (address_device d) code slot (run, i) = rw (run, ◌>>=◌, i) refl
  Served-completion_event (configure_endpoint d) code slot (run, i) = rw (run, ◌>>=◌, i) refl
  Served-completion_event (evaluate_context d) code slot (run, i) = rw (run, ◌>>=◌, i) refl
  Served-completion_event (reset_endpoint d) code slot (run, i) = rw (run, ◌>>=◌, i) refl
  Served-completion_event (stop_endpoint d) code slot (run, i) = rw (run, ◌>>=◌, i) refl
  Served-completion_event (set_tr_dequeue_pointer d) code slot (run, i) = rw (run, ◌>>=◌, i) refl
  Served-completion_event (reset_device d) code slot (run, i) = rw (run, ◌>>=◌, i) refl
  Served-completion_event force_header code slot h = absurd h
  Served-completion_event (unrecognized b e) code slot (c, i, k) = rw (c, i, k) refl

-- The worker looks for the next command.
abbrev pub past : CommandRing → CommandRing
past c = record c { ring = LinkedRing.advance c.ring; state = looking_for_new_command }

-- The command is completed by one event, and the worker looks for the next.
abbrev pub completes : CommandRing → CommandTrb → CompletionCode → ℕ → Round
completes c trb code slot = (past c, some (event (completion trb.address code slot)))

sent :
    {S : Type 0} (c : CommandRing) (x : EventTrb) (s t : S) (r : Round)
    → c.listened ≡ true
    → send c (some x) s ≡ some (done r, t)
    → (s ≡ t) × (r ≡ (c, some (event x)))
unfolding send
sent c x s t r l h = let h' = rw l at h in (cc, cc)

module _ {S : Type 0} (dma : Device S) (slots : Slots S) where
  -- Of a command at an aligned address, while events are received: where the slot worker answers it, the
  -- round completes it by one event, which names the command, the slot and the code that the slot
  -- worker has answered, or success or a TRB error where the slot worker is not asked; the ring then
  -- stands after the command, and the worker looks for the next one. And a round that comes to its end
  -- is one of these: where the slot worker gives no answer, and for Force Header, there is no event.
  pub processing-completes :
      (c : CommandRing) (trb : CommandTrb) (s t : S)
      → bit_and trb.address 0xf ≡ 0
      → c.listened ≡ true
      → ((code : CompletionCode) (slot : ℕ)
          → Served slots trb.variant s code slot t
          → processing dma slots c trb s ≡ some (done (completes c trb code slot), t))
        × ((r : Round)
            → processing dma slots c trb s ≡ some (done r, t)
            → (code : CompletionCode) × (slot : ℕ) × Served slots trb.variant s code slot t
              × (r ≡ completes c trb code slot))
  unfolding processing send
  processing-completes c trb s t aligned listened = (
    λ code slot served.
        rw
          (
            Served-completion_event dma slots trb.address s t trb.variant code slot served,
            ◌>>=◌,
            event_of_aligned trb.address code slot aligned,
            listened,
          )
          refl,
    λ r h.
        let (e, u, run, last) =
          answer_some (completion_event dma slots trb.address trb.variant) _ s t r h in
        let (code, slot, served, same) =
          completion_event-Reports dma slots trb.address s u trb.variant e run in
        let known : e ≡ some (completion trb.address code slot) =
          same ∙ event_of_aligned trb.address code slot aligned in
        let (ends, result) =
          sent (past c) (completion trb.address code slot) u t r listened
            (subst (λ o. send (past c) o u ≡ some (done r, t)) known last) in
        (code, slot, subst (λ x. Served slots trb.variant s code slot x) ends served, result),
  )
