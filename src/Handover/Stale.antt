-- ===== src/Handover/Stale.antt =====
-- src/shared_backend.rs: what a connection that does not own the device can tear down.
use usbvfiod.Prelude.{
  ℕ, ◌==◌, ◌≡◌, refl, ◌∙◌, inl, inr, leb, true, false, Option, none, some, [], Ends, subst,
  Bool-cases,
}
use usbvfiod.SlotManager.{Answer}
use usbvfiod.Handover.{Registration, Candidate, Ownership, Backend}
use usbvfiod.Handover.Policy.{no_owner}
use usbvfiod.Handover.Preflight.{expire, expire_candidate}
use usbvfiod.Handover.Connection.{
  Served, establish, disconnect, dma_unmap, reset, set_irqs, owns_device, is_stale, disable_irqs,
  irqs_with,
}

-- A call that tears something down, by a connection that is not the owner.
pub data Teardown {B F : Type 0} (backend : Backend B F)
    : Ownership F → B → Ownership F → B → Type 0 where
  unmap :
      {o o' : Ownership F} {b b' : B} {a : Answer (Unit {0})}
      → (id flags address size : ℕ) → (o.owner == id) ≡ false
      → dma_unmap backend o id flags address size b ≡ some ((a, o'), b')
      → Teardown backend o b o' b'
  reset_device :
      {o o' : Ownership F} {b b' : B} {a : Answer (Unit {0})}
      → (id : ℕ) → (o.owner == id) ≡ false
      → reset backend o id b ≡ some ((a, o'), b')
      → Teardown backend o b o' b'
  disable :
      {o o' : Ownership F} {b b' : B} {a : Served}
      → (now id : ℕ) (reg : Registration F) → (o.owner == id) ≡ false
      → reg.fds ≡ []
      → set_irqs backend o now id reg b ≡ some ((a, o'), b')
      → Teardown backend o b o' b'
  leave :
      {o o' : Ownership F} {b b' : B}
      → (now id : ℕ) → (o.owner == id) ≡ false
      → disconnect backend o now id b ≡ some (o', b')
      → Teardown backend o b o' b'

pub data Teardowns {B F : Type 0} (backend : Backend B F) (o : Ownership F) (b : B)
    : Ownership F → B → Type 0 where
  here : Teardowns backend o b o b
  next :
      {o₁ o₂ : Ownership F} {b₁ b₂ : B}
      → Teardowns backend o b o₁ b₁
      → Teardown backend o₁ b₁ o₂ b₂
      → Teardowns backend o b o₂ b₂

-- Some connection owns the device, and the test hook is off.
abbrev pub Guarded : {F : Type 0} → Ownership F → Type 0
Guarded o = ((o.owner == no_owner) ≡ false) × (o.disable_owner_guard ≡ false)

-- What the owner keeps.
abbrev pub Untouched : {F : Type 0} → Ownership F → Ownership F → Type 0
Untouched o o' =
    (o'.owner ≡ o.owner)
    × (o'.disable_owner_guard ≡ o.disable_owner_guard)
    × (o'.owner_reg ≡ o.owner_reg)
    × (o'.epoch ≡ o.epoch)
    × (o'.mapped o.owner ≡ o.mapped o.owner)

module _ {B F : Type 0} (backend : Backend B F) where
  not_owner :
      (o : Ownership F) (id : ℕ) → Guarded o → (o.owner == id) ≡ false → owns_device o id ≡ false
  unfolding owns_device
  not_owner o id g h = rw (g.1, h) refl

  stale :
      (o : Ownership F) (id : ℕ)
      → Guarded o
      → (o.owner == id) ≡ false
      → is_stale (establish o id) id ≡ true
  unfolding is_stale establish
  stale o id g h = rw (not_owner (establish o id) id g h, g.0) refl

  expire-Untouched :
      (o : Ownership F) (now : ℕ) (c : Option (Candidate F)) → Untouched o (expire o now c).1
  expire-Untouched o now none = (refl, refl, refl, refl, refl)
  expire-Untouched o now (some c) = elim (Bool-cases (leb now c.deadline)) [
    | inl early ↦ rw early (refl, refl, refl, refl, refl)
    | inr late ↦ rw late (refl, refl, refl, refl, refl)
  ]

  -- A call that does nothing to the device, nor to its owner.
  abbrev Idle : {A : Type 0} → Ownership F → B → Option ((A × Ownership F) × B) → Type 0
  Idle o b = Ends (λ r b'. (b' ≡ b) × Untouched o r.1)

  dma_unmap-Idle :
      (o : Ownership F) (id flags address size : ℕ) (b : B)
      → Guarded o
      → (o.owner == id) ≡ false
      → Idle o b (dma_unmap backend o id flags address size b)
  unfolding dma_unmap establish
  dma_unmap-Idle o id flags address size b g h =
      rw (stale o id g h, dma_unmap) (refl, (refl, refl, refl, refl, refl))

  reset-Idle :
      (o : Ownership F) (id : ℕ) (b : B)
      → Guarded o
      → (o.owner == id) ≡ false
      → Idle o b (reset backend o id b)
  unfolding reset establish
  reset-Idle o id b g h = rw (stale o id g h, reset) (refl, (refl, refl, refl, refl, refl))

  disable_irqs-Idle :
      (o o₁ : Ownership F) (id : ℕ) (reg : Registration F) (b : B)
      → Untouched o o₁
      → Guarded o
      → (o.owner == id) ≡ false
      → Idle o b (disable_irqs backend o₁ id reg b)
  unfolding disable_irqs
  disable_irqs-Idle o o₁ id reg b u g h =
      rw (not_owner o₁ id (rw u.0 g.0, u.1 ∙ g.1) (rw u.0 h), disable_irqs) (refl, u)

  disabled-Idle :
      (o : Ownership F) (now id : ℕ) (reg : Registration F) (b : B)
      → Guarded o
      → (o.owner == id) ≡ false
      → reg.fds ≡ []
      → Idle o b (set_irqs backend o now id reg b)
  unfolding set_irqs establish expire_candidate
  disabled-Idle o now id reg b g h e =
      rw (e, irqs_with)
        (disable_irqs-Idle o _ id reg b (expire-Untouched (establish o id) now o.candidate) g h)

  disconnect-Idle :
      (o : Ownership F) (now id : ℕ) (b : B)
      → (o.owner == id) ≡ false
      → Ends (λ o' b'. (b' ≡ b) × Untouched o o') (disconnect backend o now id b)
  unfolding disconnect
  disconnect-Idle o now id b h = rw (h, disconnect) (refl, (refl, refl, refl, refl, rw h refl))

  Teardown-Untouched :
      {o : Ownership F} {b : B} {o' : Ownership F} {b' : B}
      → Guarded o
      → Teardown backend o b o' b'
      → (b' ≡ b) × Untouched o o'
  Teardown-Untouched {o = o} {b = b} g (unmap id flags address size h e) =
      subst (Ends (λ r b'. (b' ≡ b) × Untouched o r.1)) e
        (dma_unmap-Idle o id flags address size b g h)
  Teardown-Untouched {o = o} {b = b} g (reset_device id h e) =
      subst (Ends (λ r b'. (b' ≡ b) × Untouched o r.1)) e (reset-Idle o id b g h)
  Teardown-Untouched {o = o} {b = b} g (disable now id reg h empty e) =
      subst (Ends (λ r b'. (b' ≡ b) × Untouched o r.1)) e (disabled-Idle o now id reg b g h empty)
  Teardown-Untouched {o = o} {b = b} g (leave now id h e) =
      subst (Ends (λ o' b'. (b' ≡ b) × Untouched o o')) e (disconnect-Idle o now id b h)

  Untouched-Guarded : (o o' : Ownership F) → Untouched o o' → Guarded o → Guarded o'
  Untouched-Guarded o o' u g = (rw u.0 g.0, u.1 ∙ g.1)

  Untouched-trans : (o o₁ o₂ : Ownership F) → Untouched o o₁ → Untouched o₁ o₂ → Untouched o o₂
  Untouched-trans o o₁ o₂ (a, b, c, d, e) (a', b', c', d', e') =
      (a' ∙ a, b' ∙ b, c' ∙ c, d' ∙ d, rw (a) at e' ∙ e)

  -- While a connection owns the device and the test hook is off, any number of calls that unmap memory,
  -- reset the device, disable the interrupt or disconnect, by connections that do not own it, leave the
  -- controller in the state that it is in, and the owner with its registration, its epoch and its
  -- mapped ranges.
  pub Teardowns-Untouched :
      {o : Ownership F} {b : B} {o' : Ownership F} {b' : B}
      → Guarded o
      → Teardowns backend o b o' b'
      → (b' ≡ b) × Untouched o o'
  Teardowns-Untouched g here = (refl, (refl, refl, refl, refl, refl))
  Teardowns-Untouched {o = o} g (next {o₁ = o₁} {o₂ = o₂} ts t) =
      let (same, u) = Teardowns-Untouched g ts in
      let (same', u') = Teardown-Untouched (Untouched-Guarded o o₁ u g) t in
      (same' ∙ same, Untouched-trans o o₁ o₂ u u')
