-- ===== src/Handover/Commands.antt =====
-- The commands of the control socket in src/shared_backend.rs keep the invariant.
use usbvfiod.Prelude.{
  ℕ, ◌+◌, ◌-◌, ◌==◌, ◌≡◌, refl, inl, inr, false, Option, none, some, M, ◌>>=◌, Ends, bind-Ends,
  Bool-cases, Option-cases, arith,
}
use usbvfiod.Bus.Request.{u64_mod}
use usbvfiod.SlotManager.{Answer, gone, done, ◌>>?◌}
use usbvfiod.Handover.{Registration, Candidate, Ownership, HandoverError, Backend}
use usbvfiod.Handover.Policy.{no_owner}
use usbvfiod.Handover.Preflight.{expire_candidate}
use usbvfiod.Handover.Control.{
  handover_commit, handover_reclaim, commit_point, commit_checks, commit_with, reclaim_checks,
  reclaim_with, reclaim_after, install_registration,
}
use usbvfiod.Handover.Validity.{Staged, IsValid, Next}
use usbvfiod.Handover.Changes.{
  Next-quiet, expire_candidate-IsValid, dropped-IsValid, committed-Next, reclaimed-Next,
}

module _ {S A B : Type 0} (P : B → S → Type 0) where
  pub answer-Ends :
      (m : M S (Answer A)) (f : Answer A → M S B) (s : S)
      → ((t : S) → m s ≡ some (gone, t) → Ends P (f gone t))
      → ((a : A) (t : S) → m s ≡ some (done a, t) → Ends P (f (done a) t))
      → Ends P ((m >>= f) s)
  answer-Ends m f s bad good = bind-Ends P m f s both
    where
      both : (r : Answer A) (t : S) → m s ≡ some (r, t) → Ends P (f r t)
      both gone t e = bad t e
      both (done a) t e = good a t e

module _ {S A C B : Type 0} (P : B → S → Type 0) where
  pub asked-Ends :
      (m : M S (Answer A)) (g : A → M S (Answer C)) (f : Answer C → M S B) (s : S)
      → ((t : S) → Ends P (f gone t))
      → ((a : A) (t : S) → Ends P ((g a >>= f) t))
      → Ends P (((m >>? g) >>= f) s)
  asked-Ends m g f s bad good = elim (Option-cases (m s)) [
    | inl e ↦ rw (e, ◌>>=◌) tt
    | inr ((gone, t), e) ↦ rw (e, ◌>>=◌) (bad t)
    | inr ((done a, t), e) ↦ rw (e, ◌>>=◌) (good a t)
  ]

module _ {B F : Type 0} (backend : Backend B F) where
  -- What an operation leaves behind, besides its answer.
  abbrev pub Leaves :
      {A : Type 0} → (Ownership F → Type 0) → Option ((A × Ownership F) × B) → Type 0
  Leaves P = Ends (λ r b. P r.1)

  pub commit_point-Next :
      (o : Ownership F) (now : ℕ) (c : Candidate F) (b : B)
      → Staged o (some c)
      → IsValid o
      → Leaves (Next o) (commit_point backend o now c b)
  unfolding commit_point
  commit_point-Next o now c b s v =
      answer-Ends _ (backend.try_clone c.reg.fds) _ b
        (λ t e. (dropped-IsValid o v, inl (refl, refl)))
        (λ _ t e.
          answer-Ends _ (backend.set_irqs c.reg.index c.reg.flags c.reg.start c.reg.count c.reg.fds)
            _ t (λ u k. (dropped-IsValid o v, inl (refl, refl)))
            (λ _ u k. committed-Next o now c s v))

  pub stays : (o : Ownership F) → IsValid o → Next o o
  stays o v = (v, inl (refl, refl))

  pub without-Next :
      (o : Ownership F) (now : ℕ) (expired : Option ℕ) (id epoch : ℕ) (b : B)
      → IsValid o
      → Leaves (Next o) (commit_with backend o now expired id epoch none b)
  without-Next o now expired id epoch b v = elim (Bool-cases (o.owner == id)) [
    | inr other ↦ rw other (stays o v)
    | inl mine ↦ elim (Bool-cases (epoch == u64_mod - 1)) [
      | inl over ↦ rw (mine, over) tt
      | inr fits ↦ elim (Bool-cases (epoch + 1 == o.epoch)) [
        | inl again ↦ rw (mine, fits, again) (stays o v)
        | inr late ↦ rw (mine, fits, late) (stays o v)
      ]
    ]
  ]

  pub commit_with-Next :
      (o : Ownership F) (now : ℕ) (expired : Option ℕ) (id epoch : ℕ) (c : Option (Candidate F))
      (b : B)
      → Staged o c
      → IsValid o
      → Leaves (Next o) (commit_with backend o now expired id epoch c b)
  commit_with-Next o now expired id epoch none b s v = without-Next o now expired id epoch b v
  commit_with-Next o now expired id epoch (some c) b s v =
      elim (Option-cases (commit_checks backend o c id epoch)) [
        | inl passes ↦ rw (passes, commit_with) (commit_point-Next o now c b s v)
        | inr (e, fails) ↦ rw (fails, commit_with) (stays o v)
      ]

  pub Ends-map :
      {A : Type 0} {P Q : Ownership F → Type 0} (r : Option ((A × Ownership F) × B))
      → ((o : Ownership F) → P o → Q o)
      → Leaves P r
      → Leaves Q r
  Ends-map none h l = tt
  Ends-map (some ((a, o), b)) h l = h o l

  pub handover_commit-Next :
      (o : Ownership F) (now id epoch : ℕ) (b : B)
      → IsValid o
      → Leaves (Next o) (handover_commit backend o now id epoch b)
  unfolding handover_commit
  handover_commit-Next o now id epoch b v =
      let (v₁, q) = expire_candidate-IsValid o now v in
      let o₁ = (expire_candidate o now).1 in
      Ends-map _ (λ o₂ n. Next-quiet o o₁ o₂ q n)
        (commit_with-Next o₁ now (expire_candidate o now).0 id epoch o₁.candidate b v₁.staged v₁)

  pub reclaimer :
      (o : Ownership F) (now id epoch : ℕ)
      → reclaim_checks o now id epoch ≡ none
      → (id == no_owner) ≡ false
  unfolding reclaim_checks
  reclaimer o now id epoch h = ground arith

  pub install-Ends :
      (P : Ownership F → Type 0) {A : Type 0} (reg : Registration F)
      (f : Answer (Registration F) → M B (A × Ownership F)) (b : B)
      → ((t : B) → Leaves P (f gone t))
      → ((t : B) → Leaves P (f (done reg) t))
      → Leaves P ((install_registration backend reg >>= f) b)
  unfolding install_registration
  install-Ends P reg f b bad good =
      let fds = reg.fds in
      let clone = backend.try_clone fds in
      asked-Ends _ clone _ f b bad (λ _ t. asked-Ends _ clone _ f t bad (λ _ u.
        asked-Ends _ (backend.set_irqs reg.index reg.flags reg.start reg.count fds) _ f u bad
          (λ _ w. good w)))

  pub reclaim_with-Next :
      (o : Ownership F) (id : ℕ) (reg : Option (Registration F)) (b : B)
      → (id == no_owner) ≡ false
      → IsValid o
      → Leaves (Next o) (reclaim_with backend o id reg b)
  reclaim_with-Next o id none b h v = stays o v
  reclaim_with-Next o id (some reg) b h v =
      install-Ends (Next o) reg _ b (λ t. stays o v) (λ t. reclaimed-Next o id reg h v)

  pub reclaim_after-Next :
      (o : Ownership F) (now id epoch : ℕ) (checks : Option HandoverError) (b : B)
      → reclaim_checks o now id epoch ≡ checks
      → IsValid o
      → Leaves (Next o) (reclaim_after backend o id checks b)
  reclaim_after-Next o now id epoch (some e) b h v = stays o v
  reclaim_after-Next o now id epoch none b h v =
      reclaim_with-Next o id o.prev_reg b (reclaimer o now id epoch h) v

  pub handover_reclaim-Next :
      (o : Ownership F) (now id epoch : ℕ) (b : B)
      → IsValid o
      → Leaves (Next o) (handover_reclaim backend o now id epoch b)
  unfolding handover_reclaim
  handover_reclaim-Next o now id epoch b v =
      let (v₁, q) = expire_candidate-IsValid o now v in
      let o₁ = (expire_candidate o now).1 in
      Ends-map _ (λ o₂ n. Next-quiet o o₁ o₂ q n)
        (reclaim_after-Next o₁ now id epoch (reclaim_checks o₁ now id epoch) b refl v₁)
