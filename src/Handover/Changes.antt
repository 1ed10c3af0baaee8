-- ===== src/Handover/Changes.antt =====
-- Each change that src/shared_backend.rs makes to the ownership keeps the invariant, and moves the epoch
-- with the owner.
use usbvfiod.Prelude.{
  ℕ, ◌==◌, ◌≡◌, refl, ◌∙◌, ◌⊎◌, inl, inr, leb, true, false, Option, none, some, Bool-cases, arith,
}
use usbvfiod.Handover.{Registration, Candidate, Ownership}
use usbvfiod.Handover.Policy.{no_owner}
use usbvfiod.Handover.Preflight.{expire, expire_candidate}
use usbvfiod.Handover.Control.{committed, reclaimed}
use usbvfiod.Handover.Connection.{make_unowned, fallen_back, promoted, owned_now, staged}
use usbvfiod.Handover.Validity.{Staged, IsValid, Next}

-- A change that leaves the owner and the epoch alone.
abbrev pub Quiet : {F : Type 0} → Ownership F → Ownership F → Type 0
Quiet o o' = (o'.owner ≡ o.owner) × (o'.epoch ≡ o.epoch)

module _ {F : Type 0} where
  pub Next-quiet : (o o₁ o₂ : Ownership F) → Quiet o o₁ → Next o₁ o₂ → Next o o₂
  Next-quiet o o₁ o₂ q (v, inl m) = (v, inl (m.0 ∙ q.0, m.1 ∙ q.1))
  Next-quiet o o₁ o₂ q (v, inr m) = (v, inr (omega (arith)))

  pub Staged-owner :
      (o o' : Ownership F) (c : Option (Candidate F))
      → (o'.owner == no_owner) ≡ false
      → Staged o c
      → Staged o' c
  Staged-owner o o' none h s = tt
  Staged-owner o o' (some c) h s = (h, s.1)

  pub Staged-same :
      (o o' : Ownership F) (c : Option (Candidate F))
      → o'.owner ≡ o.owner
      → Staged o c
      → Staged o' c
  Staged-same o o' none h s = tt
  Staged-same o o' (some c) h s = (rw h s.0, s.1)

  pub expire-IsValid :
      (o : Ownership F) (now : ℕ) (c : Option (Candidate F))
      → IsValid o
      → IsValid (expire o now c).1 × Quiet o (expire o now c).1
  expire-IsValid o now none v = (v, (refl, refl))
  expire-IsValid o now (some c) v = elim (Bool-cases (leb now c.deadline)) [
    | inl early ↦ rw early (v, (refl, refl))
    | inr late ↦
        rw late (record { owned = v.owned; previous = v.previous; staged = tt }, (refl, refl))
  ]

  pub expire_candidate-IsValid :
      (o : Ownership F) (now : ℕ)
      → IsValid o
      → IsValid (expire_candidate o now).1 × Quiet o (expire_candidate o now).1
  unfolding expire_candidate
  expire_candidate-IsValid o now v = expire-IsValid o now o.candidate v

  pub dropped-IsValid : (o : Ownership F) → IsValid o → IsValid (record o { candidate = none })
  dropped-IsValid o v = record { owned = v.owned; previous = v.previous; staged = tt }

  pub committed-Next :
      (o : Ownership F) (now : ℕ) (c : Candidate F)
      → Staged o (some c)
      → IsValid o
      → Next o (committed o now c)
  committed-Next o now c s v =
      (record { owned = rw (s.1) refl; previous = v.owned; staged = tt }, inr refl)

  pub reclaimed-Next :
      (o : Ownership F) (id : ℕ) (reg : Registration F)
      → (id == no_owner) ≡ false
      → IsValid o
      → Next o (reclaimed o id reg)
  reclaimed-Next o id reg h v = (
    record {
      owned = rw h refl;
      previous = refl;
      staged = Staged-owner o (reclaimed o id reg) o.candidate h v.staged;
    },
    inr refl,
  )

  pub fallen_back-Next :
      (o : Ownership F) (now : ℕ) (reg : Registration F)
      → (o.prev == no_owner) ≡ false
      → IsValid o
      → Next o (fallen_back o now reg)
  fallen_back-Next o now reg h v = (
    record {
      owned = rw h refl;
      previous = refl;
      staged = Staged-owner o (fallen_back o now reg) o.candidate h v.staged;
    },
    inr refl,
  )

  pub promoted-Next :
      (o : Ownership F) (now : ℕ) (c : Candidate F) (reg : Registration F)
      → Staged o (some c)
      → IsValid o
      → Next o (promoted o now c reg)
  promoted-Next o now c reg s v =
      (record { owned = rw (s.1) refl; previous = refl; staged = tt }, inr refl)

  pub make_unowned-Next : (o : Ownership F) → Next o (make_unowned o)
  unfolding make_unowned
  make_unowned-Next o = (record { owned = refl; previous = refl; staged = tt }, inr refl)

  pub owned_now-Next :
      (o : Ownership F) (id : ℕ) (reg : Registration F)
      → (id == no_owner) ≡ false
      → ((o.owner == no_owner) ≡ true) ⊎ (o.owner ≡ id)
      → IsValid o
      → Next o (owned_now o id reg)
  owned_now-Next o id reg h how v = (
    record {
      owned = rw h refl;
      previous = v.previous;
      staged = Staged-owner o (owned_now o id reg) o.candidate h v.staged;
    },
    ground arith,
  )

  pub staged-Next :
      (o : Ownership F) (now id : ℕ) (reg : Registration F)
      → (id == no_owner) ≡ false
      → (o.owner == no_owner) ≡ false
      → IsValid o
      → Next o (staged o now id reg)
  staged-Next o now id reg h k v =
      (record { owned = v.owned; previous = v.previous; staged = (k, h) }, inl (refl, refl))
