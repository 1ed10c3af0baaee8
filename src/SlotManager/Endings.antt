-- ===== src/SlotManager/Endings.antt =====
-- What src/device/xhci/slot_manager.rs calls on the way comes back, and leaves a slot all its places.
use usbvfiod.Prelude.{
  ℕ, zero, suc, ◌+◌, ◌*◌, ◌%◌, ◌≡◌, ◌≤◌, ◌<◌, subst, sym, ◌∙◌, refl, true, Option, none, some, List,
  [], ◌∷◌, M, pure, ◌>>=◌, Option-cases, Bool-cases, inl, inr, All, length, length-set, ltb, lt→ltb,
  arith,
}
use usbvfiod.Bus.Request.{Request, size1}
use usbvfiod.Bus.Device.{Device}
use usbvfiod.Trb.Types.{CompletionCode, success}
use usbvfiod.SlotManager.{Answer, gone, done, Workers, ◌>>?◌}
use usbvfiod.SlotManager.Returns.{Holds, Holds-any}
use usbvfiod.SlotManager.Slot.{
  SlotState, enabled, default, addressed, configured, Slot, endpoint_sender, put_sender, flagged,
  has_flag, one_indexed, wrapping_add, write_slot_state, dma_copy_slot_context, dma_copy_ep_context,
  root_hub_port, deconfigure_endpoint, configure_endpoint, deconfigure_all, configure_all,
  enter_address,
}
use usbvfiod.SlotManager.Handlers.{numbers_from}

-- From every state there is a result: no panic.
abbrev pub Responds : {S A : Type 0} → M S A → Type 0
Responds {S} {A} m = (s : S) → (a : A) × (t : S) × (m s ≡ some (a, t))

-- From every state there is a result, and the claim `P` holds of it where it is no error.
abbrev pub Ends : {S A : Type 0} → M S (Answer A) → (A → Type 0) → Type 0
Ends {S} {A} m P = (s : S) → (r : Answer A) × (t : S) × (m s ≡ some (r, t)) × Holds P r

-- Guest memory and the endpoints' tasks respond.
pub record Environment {S E : Type 0} (dma : Device S) (workers : Workers S E) : Type 0 where
  pub reads : (q : Request) → Responds (dma.read q)
  pub writes : (q : Request) (v : ℕ) → Responds (dma.write q v)
  pub bulk_reads : (a n : ℕ) → Responds (dma.read_bulk a n)
  pub bulk_writes : (a : ℕ) (bs : List ℕ) → Responds (dma.write_bulk a bs)
  pub launches : (slot ep port context : ℕ) → Responds (workers.request_launch slot ep port context)
  pub terminates : (e : E) → Responds (workers.terminate e)

-- A slot with its 31 places for endpoints, and their numbers.
abbrev pub IsFull : {E : Type 0} → Slot E → Type 0
IsFull slot = length slot.endpoint_senders ≡ 31

abbrev pub IsEndpoint : ℕ → Type 0
IsEndpoint i = (1 ≤ i) × (i ≤ 31)

pub numbers_from-All :
    (start n : ℕ) → 1 ≤ start → start + n ≤ 32 → All IsEndpoint (numbers_from start n)
numbers_from-All start zero h k = tt
numbers_from-All start (suc n) h k =
    ((h, omega arith), numbers_from-All (start + 1) n (omega arith) (omega arith))

pub flagged-All :
    (bits start n : ℕ) → 1 ≤ start → start + n ≤ 32 → All IsEndpoint (flagged bits start n)
unfolding flagged
flagged-All bits start zero h k = tt
flagged-All bits start (suc n) h k =
    let rest = flagged-All bits (start + 1) n (omega arith) (omega arith) in
    elim (Bool-cases (has_flag bits start)) [
      | inl set ↦ rw set ((h, omega arith), rest)
      | inr clear ↦ rw clear rest
    ]

module _ {S : Type 0} where
  pub Responds-bind :
      {A B : Type 0} (m : M S A) (f : A → M S B)
      → Responds m
      → ((a : A) → Responds (f a))
      → Responds (m >>= f)
  Responds-bind m f h k s =
      let (a, t, run) = h s in let (b, u, last) = k a t in (b, u, rw (run, ◌>>=◌) last)

  pub Ends-done : {A : Type 0} (P : A → Type 0) (a : A) → P a → Ends (pure {S = S} (done a)) P
  Ends-done P a p s = (done a, s, refl, p)

  pub Ends-bind :
      {A B : Type 0} (P : B → Type 0) (m : M S A) (f : A → M S (Answer B))
      → Responds m
      → ((a : A) → Ends (f a) P)
      → Ends (m >>= f) P
  Ends-bind P m f h k s =
      let (a, t, run) = h s in let (b, u, last, p) = k a t in (b, u, rw (run, ◌>>=◌) last, p)

  pub Ends-answer :
      {A B : Type 0} (Q : A → Type 0) (P : B → Type 0) (m : M S (Answer A)) (f : A → M S (Answer B))
      → Ends m Q
      → ((a : A) → Q a → Ends (f a) P)
      → Ends (m >>? f) P
  Ends-answer {A = A} {B = B} Q P m f h k s =
      let (r, t, run, q) = h s in
      let (b, u, last, p) = answered r q t in (b, u, rw (run, ◌>>=◌) last, p)
    where
      answered :
          (r : Answer A)
          → Holds Q r
          → Ends (elim r as (λ _. M S (Answer B)) [ gone ↦ pure gone | done a ↦ f a ]) P
      answered gone q t = (gone, t, refl, tt)
      answered (done a) q t = k a q t

  -- A call of which nothing is claimed but that it responds.
  Ends-call : {A : Type 0} (m : M S (Answer A)) → Responds m → Ends m (λ _. Unit {0})
  Ends-call m h s = let (r, t, run) = h s in (r, t, run, Holds-any r)

  put_sender-IsFull :
      {E : Type 0} (slot : Slot E) (i : ℕ) (value : Option E)
      → IsFull slot
      → IsEndpoint i
      → Ends (put_sender {S = S} slot i value) IsFull
  unfolding put_sender
  put_sender-IsFull slot i value full (low, high) s =
      let inside : ltb (one_indexed i) (length slot.endpoint_senders) ≡ true =
        lt→ltb (one_indexed i) (length slot.endpoint_senders)
          (subst (λ n. one_indexed i < n) (sym full) (omega arith)) in
      rw inside (done _, s, refl, length-set slot.endpoint_senders (one_indexed i) value ∙ full)

module _ {S E : Type 0} (dma : Device S) (workers : Workers S E)
    (env : Environment dma workers) where
  -- The state of a slot is written in states with a base address only.
  unfoldable pub HasBase : SlotState → Type 0
  HasBase enabled = ⊥
  HasBase (default a) = Unit {0}
  HasBase (addressed a) = Unit {0}
  HasBase (configured a) = Unit {0}

  pub write_slot_state-Responds :
      (st : SlotState) → HasBase st → Responds (write_slot_state dma workers st)
  unfolding write_slot_state HasBase
  write_slot_state-Responds enabled h = absurd h
  write_slot_state-Responds (default a) h = env.writes _ _
  write_slot_state-Responds (addressed a) h = env.writes _ _
  write_slot_state-Responds (configured a) h = env.writes _ _

  dma_copy_ep_context-Responds :
      (i input base : ℕ) → Responds (dma_copy_ep_context dma workers i input base)
  unfolding dma_copy_ep_context
  dma_copy_ep_context-Responds i input base =
      Responds-bind (dma.read_bulk (wrapping_add input ((i + 1) * 32)) 32) _ (env.bulk_reads _ _)
        (λ bs. env.bulk_writes _ bs)

  dma_copy_slot_context-Responds :
      (input base : ℕ) → Responds (dma_copy_slot_context dma workers input base)
  unfolding dma_copy_slot_context
  dma_copy_slot_context-Responds input base =
      Responds-bind (dma.read_bulk (wrapping_add input 32) 32) _ (env.bulk_reads _ _)
        (λ bs. env.bulk_writes base bs)

  root_hub_port-Responds : (base : ℕ) → Responds (root_hub_port dma workers base)
  unfolding root_hub_port
  root_hub_port-Responds base =
      Responds-bind (dma.read (record { addr = wrapping_add base 6; size = size1 })) _ (env.reads _)
        (λ v s. (v % 256, s, refl))

  pub deconfigure_endpoint-Ends :
      (slot : Slot E) (i : ℕ)
      → IsFull slot
      → IsEndpoint i
      → Ends (deconfigure_endpoint dma workers slot i) IsFull
  unfolding deconfigure_endpoint
  deconfigure_endpoint-Ends slot i full h = elim (Option-cases (endpoint_sender slot i)) [
    | inl e ↦ rw (deconfigure_endpoint, e) (Ends-done IsFull slot full)
    | inr (sender, e) ↦
        rw (deconfigure_endpoint, e)
          (Ends-answer (λ _. Unit {0}) IsFull (workers.terminate sender) _
            (Ends-call (workers.terminate sender) (env.terminates sender))
            (λ _ _. put_sender-IsFull slot i none full h))
  ]

  configure_endpoint-Ends :
      (slot : Slot E) (i base : ℕ)
      → IsFull slot
      → IsEndpoint i
      → Ends (configure_endpoint dma workers slot i base) IsFull
  unfolding configure_endpoint
  configure_endpoint-Ends slot i base full h =
      Ends-bind IsFull (root_hub_port dma workers base) _ (root_hub_port-Responds base) (λ port.
        let launch = workers.request_launch slot.id i port (wrapping_add base (i * 32)) in
        Ends-answer (λ _. Unit {0}) IsFull launch _ (Ends-call launch (env.launches _ _ _ _))
          (λ sender _. put_sender-IsFull slot i (some sender) full h))

  pub deconfigure_all-Ends :
      (slot : Slot E) (eps : List ℕ)
      → IsFull slot
      → All IsEndpoint eps
      → Ends (deconfigure_all dma workers slot eps) IsFull
  unfolding deconfigure_all
  deconfigure_all-Ends slot [] full h = Ends-done IsFull slot full
  deconfigure_all-Ends slot (i ∷ eps) full (h, hs) =
      Ends-answer IsFull IsFull (deconfigure_endpoint dma workers slot i) _
        (deconfigure_endpoint-Ends slot i full h)
        (λ next next_full. deconfigure_all-Ends next eps next_full hs)

  pub configure_all-Ends :
      (slot : Slot E) (input base : ℕ) (eps : List ℕ)
      → IsFull slot
      → All IsEndpoint eps
      → Ends (configure_all dma workers slot input base eps) IsFull
  unfolding configure_all
  configure_all-Ends slot input base [] full h = Ends-done IsFull slot full
  configure_all-Ends slot input base (i ∷ eps) full (h, hs) =
      Ends-bind IsFull (dma_copy_ep_context dma workers i input base) _
        (dma_copy_ep_context-Responds i input base)
        (λ _.
          Ends-answer IsFull IsFull (configure_endpoint dma workers slot i base) _
            (configure_endpoint-Ends slot i base full h)
            (λ next next_full. configure_all-Ends next input base eps next_full hs))

  -- A handler's slot.
  abbrev pub Leaves : M S (Answer (CompletionCode × Slot E)) → Type 0
  Leaves m = Ends m (λ r. IsFull r.1)

  pub enter_address-Ends :
      (slot : Slot E) (input base : ℕ)
      → HasBase slot.state
      → IsFull slot
      → Leaves (enter_address dma workers slot input base)
  unfolding enter_address
  enter_address-Ends slot input base h full =
      Ends-bind _ (dma_copy_slot_context dma workers input base) _
        (dma_copy_slot_context-Responds input base)
        (λ _.
          Ends-bind _ (write_slot_state dma workers slot.state) _
            (write_slot_state-Responds slot.state h)
            (λ _.
              Ends-bind _ (dma_copy_ep_context dma workers 1 input base) _
                (dma_copy_ep_context-Responds 1 input base)
                (λ _.
                  Ends-answer IsFull _ (configure_endpoint dma workers slot 1 base) _
                    (configure_endpoint-Ends slot 1 base full (omega arith, omega arith))
                    (λ next next_full. Ends-done _ (success, next) next_full))))
