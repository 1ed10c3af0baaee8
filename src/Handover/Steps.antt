-- ===== src/Handover/Steps.antt =====
-- Every operation of src/shared_backend.rs keeps the invariant, and moves the epoch with the owner.
use usbvfiod.Prelude.{
  ℕ, ◌==◌, ◌≡◌, refl, ◌∙◌, ◌⊎◌, inl, inr, true, false, Option, none, some, List, [], ◌∷◌, pure,
  Ends, bind-Ends, if-Ends, ==_iff, Bool-cases, Option-cases, arith,
}
use usbvfiod.Handover.{Registration, Candidate, Ownership, Backend}
use usbvfiod.Handover.Policy.{no_owner}
use usbvfiod.Handover.Preflight.{expire_candidate, preflight_hard}
use usbvfiod.Handover.Control.{install_registration}
use usbvfiod.Handover.Connection.{
  establish, make_unowned, promote, promote_with, falls_back, fall_back_with, succeed, forgotten,
  disconnect, dma_map, dma_unmap, reset, register, stage, enable_irqs, disable_irqs, irqs_with,
  set_irqs, validate_irq_request, insert, is_stale, owns_device,
}
use usbvfiod.Handover.Validity.{Staged, IsValid, Next}
use usbvfiod.Handover.Changes.{
  Quiet, Next-quiet, Staged-same, expire_candidate-IsValid, fallen_back-Next, promoted-Next,
  make_unowned-Next, owned_now-Next, staged-Next,
}
use usbvfiod.Handover.Commands.{answer-Ends, Leaves, stays, Ends-map}

module _ {B F : Type 0} (backend : Backend B F) where
  -- The operations that answer nothing.
  abbrev Turns : (Ownership F → Type 0) → Option (Ownership F × B) → Type 0
  Turns P = Ends (λ o b. P o)

  pub promote_with-Next :
      (o : Ownership F) (now : ℕ) (ranges : List (ℕ × ℕ)) (c : Option (Candidate F)) (b : B)
      → Staged o c
      → IsValid o
      → Turns (Next o) (promote_with backend o now ranges c b)
  promote_with-Next o now ranges none b s v = make_unowned-Next o
  promote_with-Next o now ranges (some c) b s v =
      elim (Option-cases (preflight_hard backend o c ranges true)) [
        | inl passes ↦
            rw (passes, promote_with)
              (answer-Ends _ (install_registration backend c.reg) _ b (λ t e. make_unowned-Next o)
                (λ reg t e. promoted-Next o now c reg s v))
        | inr (e, fails) ↦ rw (fails, promote_with) (make_unowned-Next o)
      ]

  pub promote-Next :
      (o : Ownership F) (now : ℕ) (ranges : List (ℕ × ℕ)) (b : B)
      → IsValid o
      → Turns (Next o) (promote backend o now ranges b)
  unfolding promote
  promote-Next o now ranges b v =
      if-Ends _ o.auto_reclaim (promote_with backend o now ranges o.candidate)
        (pure (make_unowned o)) b (promote_with-Next o now ranges o.candidate b v.staged v)
        (make_unowned-Next o)

  pub has_previous : (o : Ownership F) → falls_back o ≡ true → (o.prev == no_owner) ≡ false
  unfolding falls_back
  has_previous o h = ground arith

  pub fall_back_with-Next :
      (o : Ownership F) (now : ℕ) (ranges : List (ℕ × ℕ)) (reg : Option (Registration F)) (b : B)
      → (o.prev == no_owner) ≡ false
      → IsValid o
      → Turns (Next o) (fall_back_with backend o now ranges reg b)
  fall_back_with-Next o now ranges none b h v = promote-Next o now ranges b v
  fall_back_with-Next o now ranges (some reg) b h v =
      answer-Ends _ (install_registration backend reg) _ b (λ t e. promote-Next o now ranges t v)
        (λ reg' t e. fallen_back-Next o now reg' h v)

  pub succeed-Next :
      (o : Ownership F) (now : ℕ) (ranges : List (ℕ × ℕ)) (b : B)
      → IsValid o
      → Turns (Next o) (succeed backend o now ranges b)
  unfolding succeed
  succeed-Next o now ranges b v = elim (Bool-cases (falls_back o)) [
    | inl back ↦
        rw (back, succeed) (fall_back_with-Next o now ranges o.prev_reg b (has_previous o back) v)
    | inr not_back ↦ rw (not_back, succeed) (promote-Next o now ranges b v)
  ]

  pub forgotten-IsValid : (o : Ownership F) (id : ℕ) → IsValid o → IsValid (forgotten o id)
  forgotten-IsValid o id v = record {
    owned = v.owned;
    previous = v.previous;
    staged = Staged-same o (forgotten o id) o.candidate refl v.staged;
  }

  pub Turns-map :
      {P Q : Ownership F → Type 0} (r : Option (Ownership F × B))
      → ((o : Ownership F) → P o → Q o)
      → Turns P r
      → Turns Q r
  Turns-map none h l = tt
  Turns-map (some (o, b)) h l = h o l

  pub disconnect-Next :
      (o : Ownership F) (now id : ℕ) (b : B)
      → IsValid o
      → Turns (Next o) (disconnect backend o now id b)
  unfolding disconnect
  disconnect-Next o now id b v = elim (Bool-cases (o.owner == id)) [
    | inl mine ↦
        rw (mine, disconnect)
          (Turns-map _ (λ o₂ n. Next-quiet o (forgotten o id) o₂ (refl, refl) n)
            (succeed-Next (forgotten o id) now (o.mapped id) b (forgotten-IsValid o id v)))
    | inr other ↦ rw (other, disconnect) (forgotten-IsValid o id v, inl (refl, refl))
  ]

  -- A change of the live connections and of the mappings only.
  pub noted-Next :
      (o : Ownership F) (live : List ℕ) (mapped : ℕ → List (ℕ × ℕ))
      → IsValid o
      → Next o (record o { live = live; mapped = mapped })
  noted-Next o live mapped v = (
    record {
      owned = v.owned;
      previous = v.previous;
      staged = Staged-same o (record o { live = live; mapped = mapped }) o.candidate refl v.staged;
    },
    inl (refl, refl),
  )

  pub establish-Next : (o : Ownership F) (id : ℕ) → IsValid o → Next o (establish o id)
  unfolding establish
  establish-Next o id v = noted-Next o (insert id o.live) o.mapped v

  pub dma_map-Next :
      (o : Ownership F) (id flags offset address size : ℕ) (b : B)
      → IsValid o
      → Leaves backend (Next o) (dma_map backend o id flags offset address size b)
  unfolding dma_map establish
  dma_map-Next o id flags offset address size b v =
      answer-Ends _ (backend.dma_map flags offset address size) _ b (λ t e. establish-Next o id v)
        (λ _ t e. noted-Next o (insert id o.live) _ v)

  pub dma_unmap-Next :
      (o : Ownership F) (id flags address size : ℕ) (b : B)
      → IsValid o
      → Leaves backend (Next o) (dma_unmap backend o id flags address size b)
  unfolding dma_unmap establish
  dma_unmap-Next o id flags address size b v = elim (Bool-cases (is_stale (establish o id) id)) [
    | inl stale ↦ rw (stale, dma_unmap) (establish-Next o id v)
    | inr fresh ↦
        rw (fresh, dma_unmap)
          (answer-Ends _ (backend.dma_unmap flags address size) _ b (λ t e. establish-Next o id v)
            (λ _ t e. noted-Next o (insert id o.live) _ v))
  ]

  pub reset-Next :
      (o : Ownership F) (id : ℕ) (b : B)
      → IsValid o
      → Leaves backend (Next o) (reset backend o id b)
  unfolding reset
  reset-Next o id b v = elim (Bool-cases (is_stale (establish o id) id)) [
    | inl stale ↦ rw (stale, reset) (establish-Next o id v)
    | inr fresh ↦ rw (fresh, reset) (bind-Ends _ backend.reset _ b (λ _ t e. establish-Next o id v))
  ]

  pub register-Next :
      (o : Ownership F) (id : ℕ) (reg : Registration F) (b : B)
      → (id == no_owner) ≡ false
      → ((o.owner == no_owner) ≡ true) ⊎ (o.owner ≡ id)
      → IsValid o
      → Leaves backend (Next o) (register backend o id reg b)
  unfolding register
  register-Next o id reg b h how v =
      answer-Ends _ (backend.try_clone reg.fds) _ b (λ t e. stays backend o v)
        (λ _ t e.
          answer-Ends _ (backend.set_irqs reg.index reg.flags reg.start reg.count reg.fds) _ t
            (λ u k. stays backend o v) (λ _ u k. owned_now-Next o id reg h how v))

  pub enable_irqs-Next :
      (o : Ownership F) (now id : ℕ) (reg : Registration F) (b : B)
      → (id == no_owner) ≡ false
      → IsValid o
      → Leaves backend (Next o) (enable_irqs backend o now id reg b)
  unfolding stage
  enable_irqs-Next o now id reg b h v =
      elim (Bool-cases (validate_irq_request reg.index reg.count)) [
        | inr bad ↦ rw (bad, enable_irqs) (stays backend o v)
        | inl good ↦ elim (Bool-cases (o.owner == no_owner)) [
          | inl unowned ↦
              rw (good, unowned, enable_irqs) (register-Next o id reg b h (inl unowned) v)
          | inr owned ↦ elim (Bool-cases (o.owner == id)) [
            | inl mine ↦
                rw (good, owned, mine, enable_irqs)
                  (register-Next o id reg b h (inr ((==_iff o.owner id).0 mine)) v)
            | inr other ↦ rw (good, owned, other, enable_irqs) (staged-Next o now id reg h owned v)
          ]
        ]
      ]

  pub disable_irqs-Next :
      (o : Ownership F) (id : ℕ) (reg : Registration F) (b : B)
      → IsValid o
      → Leaves backend (Next o) (disable_irqs backend o id reg b)
  unfolding disable_irqs
  disable_irqs-Next o id reg b v = elim (Bool-cases (owns_device o id)) [
    | inr other ↦ rw (other, disable_irqs) (stays backend o v)
    | inl mine ↦
        rw (mine, disable_irqs)
          (bind-Ends _ (backend.set_irqs reg.index reg.flags reg.start reg.count []) _ b
            (λ _ t e. stays backend o v))
  ]

  pub irqs_with-Next :
      (o : Ownership F) (now id : ℕ) (reg : Registration F) (fds : List F) (b : B)
      → (id == no_owner) ≡ false
      → IsValid o
      → Leaves backend (Next o) (irqs_with backend o now id reg fds b)
  irqs_with-Next o now id reg [] b h v = disable_irqs-Next o id reg b v
  irqs_with-Next o now id reg (fd ∷ fds) b h v = enable_irqs-Next o now id reg b h v

  pub Quiet-trans : (o o₁ o₂ : Ownership F) → Quiet o o₁ → Quiet o₁ o₂ → Quiet o o₂
  Quiet-trans o o₁ o₂ (a, b) (c, d) = (c ∙ a, d ∙ b)

  pub set_irqs-Next :
      (o : Ownership F) (now id : ℕ) (reg : Registration F) (b : B)
      → (id == no_owner) ≡ false
      → IsValid o
      → Leaves backend (Next o) (set_irqs backend o now id reg b)
  unfolding set_irqs establish
  set_irqs-Next o now id reg b h v =
      let live = establish o id in
      let (v₁, q) = expire_candidate-IsValid live now (establish-Next o id v).0 in
      let o₁ = (expire_candidate live now).1 in
      Ends-map backend _ (λ o₂ n. Next-quiet o o₁ o₂ q n)
        (irqs_with-Next o₁ now id reg reg.fds b h v₁)
