-- ===== src/CommandRing/Control.antt =====
-- src/device/xhci/command_ring.rs: what a driver's writes to CRCR and its doorbell do to the ring.
use usbvfiod.Prelude.{
  ℕ, ◌*◌, ◌/◌, ◌%◌, ◌^◌, ◌<◌, ◌==◌, ◌≡◌, ◌≢◌, refl, sym, inl, inr, Bool, true, false, ◌||◌, Option,
  none, some, List, [], ◌∷◌, M, pure, ◌>>=◌, bit_and, ==_iff, arith, bind_some, subst, Option-cases,
}
use usbvfiod.Prelude.Bits.{bit_and-not_63, bit_and_1}
use usbvfiod.Bus.Device.{Device}
use usbvfiod.Trb.Types.{command_ring_stopped}
use usbvfiod.Trb.Command
use usbvfiod.LinkedRing
use usbvfiod.LinkedRing.{LinkedRing, RawTrb, next_trb}
use usbvfiod.SlotManager.{Answer, done}
use usbvfiod.CommandRing.{
  WorkerState, stopped, idle, looking_for_new_command, stopping, WorkerMessage, stop, reset,
  CommandRing, Output, event, reset_done, Slots,
}
use usbvfiod.CommandRing.Register.{
  rcs, cs, ca, crr, masked, send_to_worker, ring_doorbell, control, status,
}
use usbvfiod.CommandRing.Worker.{
  rs, Round, in_stopped, in_idle, consume, send, in_stopping, take_command, look, look_after,
  looking, round,
}
use usbvfiod.CommandRing.Completion.{completion, event_of_aligned}

-- A ring that rests: stopped or idle, with an empty channel.
abbrev pub at_rest : Bool → WorkerState → LinkedRing → Bool → CommandRing
at_rest running state ring listened = record {
  running = running;
  inbox = [];
  abandoned = false;
  state = state;
  ring = ring;
  listened = listened;
}

module _ {S : Type 0} (dma : Device S) (slots : Slots S) where
  -- A round of the worker, with this value of USBCMD.
  abbrev pub Turns : CommandRing → ℕ → S → CommandRing → Option Output → S → Type 0
  Turns c usbcmd s c' out t =
      (m : M S (Answer Round)) × (round dma slots c usbcmd c.state ≡ some m)
      × (m s ≡ some (done (c', out), t))

  masked-rcs : (value : ℕ) → masked value rcs ≡ (value % 2 == 1)
  masked-rcs value = rw (bit_and_1 value) (ground arith)

  stop_sent :
      (value : ℕ) (c : CommandRing)
      → c.running ≡ true
      → (masked value ca || masked value cs) ≡ true
      → control c value ≡ send_to_worker c stop
  unfolding control
  stop_sent value c on h = ground arith

  -- A driver that writes CRCR while the ring is stopped and rings the doorbell while the controller
  -- runs: after two rounds the ring runs, at the pointer that was written, aligned down to 64 bytes,
  -- with the cycle state that was written.
  pub control-starts :
      (value usbcmd : ℕ) (ring : LinkedRing) (listened : Bool) (s : S)
      → value < 2 ^ 64
      → bit_and usbcmd rs ≡ rs
      → (mid : CommandRing) × Turns
          (ring_doorbell (control (at_rest false stopped ring listened) value))
          usbcmd
          s
          mid
          none
          s
        × Turns mid usbcmd s
            (at_rest true looking_for_new_command
              (record { dequeue_pointer = value / 64 * 64; cycle_state = value % 2 == 1 })
              listened)
            none
            s
  unfolding control send_to_worker ring_doorbell round in_stopped LinkedRing.set_dequeue_pointer
  control-starts value usbcmd ring listened s h on =
      let starts = (==_iff (bit_and usbcmd rs) rs).1 on in
      let pointer = bit_and-not_63 value h in
      let cycle = masked-rcs value in
      (_, (_, refl, refl), (_, refl, rw (starts, pointer, cycle) refl))

  -- A driver that writes CRCR with the stop or the abort bit while the ring is idle: after two rounds an
  -- event has told it where the ring stopped, and the ring does not run any more.
  pub control-stops :
      (value usbcmd : ℕ) (ring : LinkedRing) (s : S)
      → (masked value ca || masked value cs) ≡ true
      → bit_and ring.dequeue_pointer 0xf ≡ 0
      → (mid : CommandRing) × Turns
          (control (at_rest true idle ring true) value)
          usbcmd
          s
          mid
          none
          s
        × Turns mid usbcmd s
            (at_rest false stopped ring true)
            (some (event (completion ring.dequeue_pointer command_ring_stopped 0)))
            s
        × (status (at_rest false stopped ring true) ≡ 0)
  unfolding send_to_worker round in_idle in_stopping send status LinkedRing.get_dequeue_pointer
  control-stops value usbcmd ring s h aligned =
      let sends = stop_sent value (at_rest true idle ring true) refl h in
      let says = event_of_aligned ring.dequeue_pointer command_ring_stopped 0 aligned in
      (
        record (at_rest true idle ring true) { state = stopping },
        rw sends (_, refl, refl),
        (_, refl, rw says refl),
        refl,
      )

  -- A worker that finds the controller stopped stops too, and the register still shows a running ring:
  -- a pointer that the driver then writes to it is thrown away.
  pub looking-stale :
      (value usbcmd : ℕ) (ring : LinkedRing) (listened : Bool) (s : S)
      → bit_and usbcmd rs ≡ 0
      → masked value ca ≡ false
      → masked value cs ≡ false
      → Turns
          (at_rest true looking_for_new_command ring listened)
          usbcmd
          s
          (at_rest true stopped ring listened)
          none
          s
        × (status (at_rest true stopped ring listened) ≡ crr)
        × (control (at_rest true stopped ring listened) value ≡ at_rest true stopped ring listened)
  unfolding round looking consume look status control
  looking-stale value usbcmd ring listened s off no_ca no_cs =
      let stops = (==_iff (bit_and usbcmd rs) 0).1 off in
      ((_, refl, rw stops refl), refl, rw (no_ca, no_cs) refl)

  Kept : CommandRing → Option (CommandRing × S) → Type 0
  Kept c none = Unit
  Kept c (some (c', t)) = (c'.running ≡ c.running) × (c'.inbox ≡ c.inbox) × (c'.state ≢ stopped)

  take_command-Kept :
      (c : CommandRing) (o : Option RawTrb) (s : S) → Kept c (take_command dma slots c o s)
  unfolding take_command Kept
  take_command-Kept c none s = (refl, refl, λ e. cc)
  take_command-Kept c (some trb) s = elim (Option-cases (Command.parse trb.buffer)) [
    | inl bad ↦ rw (bad, Kept) tt
    | inr (v, good) ↦ rw (good, Kept) (refl, refl, λ e. cc)
  ]

  round_same :
      (c c' : CommandRing) (out out' : Option Output) (s t : S)
      → ◌≡◌ {A = Option (Answer Round × S)} (some (done (c, out), s)) (some (done (c', out'), t))
      → (c ≡ c') × (out ≡ out')
  round_same c c' out out' s t e = (cc, cc)

  look_states :
      (c c' : CommandRing) (usbcmd : ℕ) (out out' : Option Output) (s t : S)
      → bit_and usbcmd rs ≡ rs
      → look dma slots c usbcmd out s ≡ some (done (c', out'), t)
      → (c'.running ≡ c.running) × (out' ≡ out) × (c'.inbox ≡ c.inbox) × (c'.state ≢ stopped)
  unfolding look Kept
  look_states c c' usbcmd out out' s t on run =
      let stays : (bit_and usbcmd rs == 0) ≡ false = rw on refl in
      let (r, u, _, rest) =
        bind_some (next_trb dma c.ring)
          (λ (r : Option RawTrb × LinkedRing).
            take_command dma slots (record c { ring = r.1 }) r.0 >>= λ c'. pure (done (c', out)))
          s t (done (c', out')) (rw stays at run) in
      let (c₁, v, takes, last) =
        bind_some (take_command dma slots (record c { ring = r.1 }) r.0)
          (λ c'. pure (done (c', out))) u t (done (c', out')) rest in
      let kept =
        subst (Kept (record c { ring = r.1 })) takes
          (take_command-Kept (record c { ring = r.1 }) r.0 u) in
      let (same, sent) = round_same c₁ c' out out' v t last in
      let kept' =
        subst
          (λ (x : CommandRing). (x.running ≡ c.running) × (x.inbox ≡ c.inbox) × (x.state ≢ stopped))
          same kept in
      (kept'.0, sym sent, kept'.1, kept'.2)

  -- A worker that is reset while it looks for a command and the controller runs says that the reset is
  -- done, clears the flag and then goes on with the ring: it is not stopped.
  pub looking-reset :
      (c c' : CommandRing) (msgs : List WorkerMessage) (id usbcmd : ℕ) (out : Option Output)
      (s t : S)
      → c.inbox ≡ reset id ∷ msgs
      → bit_and usbcmd rs ≡ rs
      → looking dma slots c usbcmd s ≡ some (done (c', out), t)
      → (c'.running ≡ false)
        × (out ≡ some (reset_done id))
        × (c'.inbox ≡ msgs)
        × (c'.state ≢ stopped)
  unfolding looking consume look
  looking-reset c c' msgs id usbcmd out s t e on run =
      look_states (record c { inbox = msgs; running = false; state = stopped }) c' usbcmd
        (some (reset_done id)) out s t on
        (subst (λ l. look_after dma slots usbcmd (consume c l) s ≡ some (done (c', out), t)) e run)
