-- ===== src/Handover/Runs.antt =====
-- Runs of src/shared_backend.rs: the connections and the control socket one call after another.
use usbvfiod.Prelude.{
  ℕ, ◌==◌, ◌≡◌, ◌≤◌, refl, ◌∙◌, sym, inl, inr, leb, false, Option, none, some, subst, Bool-cases,
  arith, Ends,
}
use usbvfiod.SlotManager.{Answer}
use usbvfiod.Handover.{Registration, Candidate, Ownership, Verdict, Backend}
use usbvfiod.Handover.Policy.{no_owner, new, note_controller_seen, note_device_inventory}
use usbvfiod.Handover.Preflight.{expire_candidate}
use usbvfiod.Handover.Control.{
  handover_ready, handover_abort, handover_commit, handover_reclaim, ready_with, abort_with,
}
use usbvfiod.Handover.Connection.{
  Served, disconnect, dma_map, dma_unmap, reset, set_irqs, wake, is_candidate,
}
use usbvfiod.Handover.Validity.{Staged, IsValid, Moves, Next}
use usbvfiod.Handover.Changes.{Next-quiet, Staged-same, expire_candidate-IsValid, dropped-IsValid}
use usbvfiod.Handover.Commands.{Leaves, handover_commit-Next, handover_reclaim-Next}
use usbvfiod.Handover.Steps.{
  disconnect-Next, dma_map-Next, dma_unmap-Next, reset-Next, set_irqs-Next,
}

module _ {F : Type 0} where
  pub ready_with-Next :
      (o : Ownership F) (expired : Option ℕ) (id : ℕ) (c : Option (Candidate F))
      → Staged o c
      → IsValid o
      → Next o (ready_with o expired id c).1
  ready_with-Next o expired id none s v = (v, inl (refl, refl))
  ready_with-Next o expired id (some c) s v = elim (Bool-cases (c.id == id)) [
    | inl mine ↦
        rw (mine, ready_with)
          (record { owned = v.owned; previous = v.previous; staged = s }, inl (refl, refl))
    | inr other ↦ rw (other, ready_with) (v, inl (refl, refl))
  ]

  handover_ready-Next :
      (o : Ownership F) (now id : ℕ) → IsValid o → Next o (handover_ready o now id).1
  unfolding handover_ready
  handover_ready-Next o now id v =
      let (v₁, q) = expire_candidate-IsValid o now v in
      let (expired, o₁) = expire_candidate o now in
      Next-quiet o o₁ _ q (ready_with-Next o₁ expired id o₁.candidate v₁.staged v₁)

  abort_with-Next :
      (o : Ownership F) (id : ℕ) (c : Option (Candidate F))
      → IsValid o
      → Next o (abort_with o id c).1
  abort_with-Next o id none v = (v, inl (refl, refl))
  abort_with-Next o id (some c) v = elim (Bool-cases (c.id == id)) [
    | inl mine ↦ rw (mine, abort_with) (dropped-IsValid o v, inl (refl, refl))
    | inr other ↦ rw (other, abort_with) (v, inl (refl, refl))
  ]

  handover_abort-Next :
      (o : Ownership F) (now id : ℕ) → IsValid o → Next o (handover_abort o now id).1
  unfolding handover_abort
  handover_abort-Next o now id v =
      let (v₁, q) = expire_candidate-IsValid o now v in
      let o₁ = (expire_candidate o now).1 in
      Next-quiet o o₁ _ q (abort_with-Next o₁ id o₁.candidate v₁)

  Woken : (Ownership F → Type 0) → Option (Answer (Unit {0}) × Ownership F) → Type 0
  Woken P none = Unit
  Woken P (some (r, o)) = P o

  wake-Next :
      (o : Ownership F) (now id deadline : ℕ) → IsValid o → Woken (Next o) (wake o now id deadline)
  unfolding wake Woken
  wake-Next o now id deadline v = elim (Bool-cases (o.owner == id)) [
    | inl mine ↦ rw (mine, wake, Woken) (v, inl (refl, refl))
    | inr other ↦ elim (Bool-cases (is_candidate id o.candidate)) [
      | inr dropped ↦ rw (other, dropped, wake, Woken) (v, inl (refl, refl))
      | inl waits ↦ elim (Bool-cases (leb deadline now)) [
        | inl late ↦ rw (other, waits, late, wake, Woken) (dropped-IsValid o v, inl (refl, refl))
        | inr early ↦ rw (other, waits, early, wake, Woken) tt
      ]
    ]
  ]

-- One call. Connections have numbers below `NO_OWNER`.
pub data Step {B F : Type 0} (backend : Backend B F)
    : Ownership F → B → Ownership F → B → Type 0 where
  status : {o : Ownership F} {b : B} → (now : ℕ) → Step backend o b (expire_candidate o now).1 b
  ready : {o : Ownership F} {b : B} → (now id : ℕ) → Step backend o b (handover_ready o now id).1 b
  abort : {o : Ownership F} {b : B} → (now id : ℕ) → Step backend o b (handover_abort o now id).1 b
  commit :
      {o o' : Ownership F} {b b' : B} {v : Verdict}
      → (now id epoch : ℕ) → handover_commit backend o now id epoch b ≡ some ((v, o'), b')
      → Step backend o b o' b'
  reclaim :
      {o o' : Ownership F} {b b' : B} {v : Verdict}
      → (now id epoch : ℕ) → handover_reclaim backend o now id epoch b ≡ some ((v, o'), b')
      → Step backend o b o' b'
  leave :
      {o o' : Ownership F} {b b' : B}
      → (now id : ℕ) → disconnect backend o now id b ≡ some (o', b')
      → Step backend o b o' b'
  map_memory :
      {o o' : Ownership F} {b b' : B} {a : Answer (Unit {0})}
      → (id flags offset address size : ℕ)
      → dma_map backend o id flags offset address size b ≡ some ((a, o'), b')
      → Step backend o b o' b'
  unmap_memory :
      {o o' : Ownership F} {b b' : B} {a : Answer (Unit {0})}
      → (id flags address size : ℕ)
      → dma_unmap backend o id flags address size b ≡ some ((a, o'), b')
      → Step backend o b o' b'
  reset_device :
      {o o' : Ownership F} {b b' : B} {a : Answer (Unit {0})}
      → (id : ℕ) → reset backend o id b ≡ some ((a, o'), b')
      → Step backend o b o' b'
  irqs :
      {o o' : Ownership F} {b b' : B} {a : Served}
      → (now id : ℕ) (reg : Registration F) → (id == no_owner) ≡ false
      → set_irqs backend o now id reg b ≡ some ((a, o'), b')
      → Step backend o b o' b'
  woken :
      {o o' : Ownership F} {b : B} {a : Answer (Unit {0})}
      → (now id deadline : ℕ) → wake o now id deadline ≡ some (a, o')
      → Step backend o b o' b
  seen : {o : Ownership F} {b : B} → Step backend o b (note_controller_seen o) b
  inventory : {o : Ownership F} {b : B} → (n : ℕ) → Step backend o b (note_device_inventory o n) b

-- Any number of calls.
pub data Reach {B F : Type 0} (backend : Backend B F) (o : Ownership F) (b : B)
    : Ownership F → B → Type 0 where
  here : Reach backend o b o b
  next :
      {o₁ o₂ : Ownership F} {b₁ b₂ : B}
      → Reach backend o b o₁ b₁
      → Step backend o₁ b₁ o₂ b₂
      → Reach backend o b o₂ b₂

module _ {B F : Type 0} (backend : Backend B F) where
  Step-Next : {o o' : Ownership F} {b b' : B} → Step backend o b o' b' → IsValid o → Next o o'
  unfolding Woken note_controller_seen note_device_inventory
  Step-Next (status {o = o} now) v = let (v₁, q) = expire_candidate-IsValid o now v in (v₁, inl q)
  Step-Next (ready {o = o} now id) v = handover_ready-Next o now id v
  Step-Next (abort {o = o} now id) v = handover_abort-Next o now id v
  Step-Next (commit {o = o} {b = b} now id epoch e) v =
      subst (Leaves backend (Next o)) e (handover_commit-Next backend o now id epoch b v)
  Step-Next (reclaim {o = o} {b = b} now id epoch e) v =
      subst (Leaves backend (Next o)) e (handover_reclaim-Next backend o now id epoch b v)
  Step-Next (leave {o = o} {b = b} now id e) v =
      subst (Ends (λ o' b'. Next o o')) e (disconnect-Next backend o now id b v)
  Step-Next (map_memory {o = o} {b = b} id flags offset address size e) v =
      subst (Leaves backend (Next o)) e (dma_map-Next backend o id flags offset address size b v)
  Step-Next (unmap_memory {o = o} {b = b} id flags address size e) v =
      subst (Leaves backend (Next o)) e (dma_unmap-Next backend o id flags address size b v)
  Step-Next (reset_device {o = o} {b = b} id e) v =
      subst (Leaves backend (Next o)) e (reset-Next backend o id b v)
  Step-Next (irqs {o = o} {b = b} now id reg h e) v =
      subst (Leaves backend (Next o)) e (set_irqs-Next backend o now id reg b h v)
  Step-Next (woken {o = o} now id deadline e) v =
      subst (Woken (Next o)) e (wake-Next o now id deadline v)
  Step-Next (seen {o = o}) v = (
    record {
      owned = v.owned;
      previous = v.previous;
      staged = Staged-same o (note_controller_seen o) o.candidate refl v.staged;
    },
    inl (refl, refl),
  )
  Step-Next (inventory {o = o} n) v = (
    record {
      owned = v.owned;
      previous = v.previous;
      staged = Staged-same o (note_device_inventory o n) o.candidate refl v.staged;
    },
    inl (refl, refl),
  )

  -- The owner is a fact of the epoch: the epoch never goes down, and while it is the same, so is the
  -- owner.
  abbrev pub Later : Ownership F → Ownership F → Type 0
  Later o o' = (o.epoch ≤ o'.epoch) × (o'.epoch ≡ o.epoch → o'.owner ≡ o.owner)

  Later-Moves : (o o₁ o₂ : Ownership F) → Later o o₁ → Moves o₁ o₂ → Later o o₂
  Later-Moves o o₁ o₂ (le, same) (inl (a, b)) = (omega arith, λ e. a ∙ same (sym b ∙ e))
  Later-Moves o o₁ o₂ (le, same) (inr up) = (omega arith, λ e. absurd (omega arith))

  -- Over every run from a state with the invariant, the invariant holds: an owner and a previous owner
  -- have a registration, and a candidate stands beside an owner. The epoch never goes down, and the
  -- owner is the same as long as the epoch is.
  pub Reach-IsValid :
      {o : Ownership F} {b : B} {o' : Ownership F} {b' : B}
      → IsValid o
      → Reach backend o b o' b'
      → IsValid o' × Later o o'
  Reach-IsValid {o = o} v here = (v, (omega arith, λ e. refl))
  Reach-IsValid {o = o} v (next {o₁ = o₁} {o₂ = o₂} r st) =
      let (v₁, later) = Reach-IsValid v r in
      let (v₂, moves) = Step-Next st v₁ in (v₂, Later-Moves o o₁ o₂ later moves)

pub new-IsValid : {F : Type 0} → IsValid (new {F = F})
unfolding new
new-IsValid = record { owned = refl; previous = refl; staged = tt }
