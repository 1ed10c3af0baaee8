-- ===== src/Handover/Commit.antt =====
-- What `handover_commit` of src/shared_backend.rs does to the ownership, by its answer.
use usbvfiod.Prelude.{
  ℕ, ◌+◌, ◌-◌, ◌==◌, ◌≡◌, refl, ◌∙◌, sym, ◌⊎◌, inl, inr, leb, if◌then◌else◌, Bool, true, false, not,
  ◌&&◌, Option, none, some, Ends, ==_iff, Bool-cases, Option-cases, arith, subst,
}
use usbvfiod.Bus.Request.{u64_mod}
use usbvfiod.Handover.{
  Candidate, Ownership, preflight_timeout_error, no_candidate, Verdict, ok, err, Backend,
}
use usbvfiod.Handover.Policy.{render_locked, holds_reply}
use usbvfiod.Handover.Preflight.{expire, expire_candidate, preflight_hard}
use usbvfiod.Handover.Control.{
  handover_commit, committed, commit_point, commit_checks, commit_with, is_id,
}
use usbvfiod.Handover.Commands.{answer-Ends}

-- What a refused hand-over leaves alone.
abbrev pub Kept : {F : Type 0} → Ownership F → Ownership F → Type 0
Kept o o' =
    (o'.owner ≡ o.owner)
    × (o'.owner_reg ≡ o.owner_reg)
    × (o'.prev ≡ o.prev)
    × (o'.prev_reg ≡ o.prev_reg)
    × (o'.epoch ≡ o.epoch)

module _ {B F : Type 0} (backend : Backend B F) where
  -- The candidate may have the device.
  abbrev pub Fit : Ownership F → ℕ → ℕ → ℕ → Candidate F → Type 0
  Fit o now id epoch c =
      (o.candidate ≡ some c)
      × (leb now c.deadline ≡ true)
      × (epoch ≡ o.epoch)
      × (c.id ≡ id)
      × (o.require_ready ≡ true → c.ready ≡ true)
      × (preflight_hard backend o c (o.mapped o.owner) (not (holds_reply o)) ≡ none)

  -- A repeated commit, or the hand-over.
  abbrev pub Handed : Ownership F → ℕ → ℕ → ℕ → Ownership F → Type 0
  Handed o now id epoch o' =
      ((o.owner ≡ id) × (epoch + 1 ≡ o.epoch) × Kept o o')
      ⊎ ((c : Candidate F) × Fit o now id epoch c × (o' ≡ committed o now c))

  abbrev pub Outcome : Ownership F → ℕ → ℕ → ℕ → Verdict × Ownership F → Type 0
  Outcome o now id epoch (err e, o') = Kept o o'
  Outcome o now id epoch (ok st, o') = (st ≡ render_locked o') × Handed o now id epoch o'

  refused :
      (o o₁ : Ownership F) (now id epoch : ℕ) (late : Bool)
      → Kept o o₁
      → Outcome o now id epoch (if late then err preflight_timeout_error else err no_candidate, o₁)
  refused o o₁ now id epoch true k = k
  refused o o₁ now id epoch false k = k

  without-Outcome :
      (o o₁ : Ownership F) (now : ℕ) (expired : Option ℕ) (id epoch : ℕ) (b : B)
      → Kept o o₁
      → Ends (λ r b'. Outcome o now id epoch r) (commit_with backend o₁ now expired id epoch none b)
  without-Outcome o o₁ now expired id epoch b k = elim (Bool-cases (o₁.owner == id)) [
    | inr other ↦ rw other (refused o o₁ now id epoch (is_id expired id) k)
    | inl mine ↦ elim (Bool-cases (epoch == u64_mod - 1)) [
      | inl over ↦ rw (mine, over) tt
      | inr fits ↦ elim (Bool-cases (epoch + 1 == o₁.epoch)) [
        | inl again ↦
            rw (mine, fits, again)
              (
                refl,
                inl (
                  sym k.0 ∙ (==_iff o₁.owner id).0 mine,
                  (==_iff (epoch + 1) o₁.epoch).0 again ∙ k.4,
                  k,
                ),
              )
        | inr late ↦ rw (mine, fits, late) (refused o o₁ now id epoch (is_id expired id) k)
      ]
    ]
  ]

  unstopped :
      {E : Type 0} (stop : Bool) (e : E) (rest : Option E)
      → (if stop then some e else rest) ≡ none
      → (stop ≡ false) × (rest ≡ none)
  unstopped true e rest h = cc
  unstopped false e rest h = (refl, h)

  ready_if_asked :
      (asked is_ready : Bool) → (asked && not is_ready) ≡ false → asked ≡ true → is_ready ≡ true
  ready_if_asked asked is_ready h k = ground arith

  commit_checks-pass :
      (o : Ownership F) (c : Candidate F) (id epoch : ℕ)
      → commit_checks backend o c id epoch ≡ none
      → (epoch ≡ o.epoch)
        × (c.id ≡ id)
        × (o.require_ready ≡ true → c.ready ≡ true)
        × (preflight_hard backend o c (o.mapped o.owner) (not (holds_reply o)) ≡ none)
  unfolding commit_checks
  commit_checks-pass o c id epoch h =
      let (same, h₁) = unstopped (not (epoch == o.epoch)) _ _ h in
      let (mine, h₂) = unstopped (not (c.id == id)) _ _ h₁ in
      let (ready, fit) = unstopped (o.require_ready && not c.ready) _ _ h₂ in
      (ground arith, ground arith, ready_if_asked o.require_ready c.ready ready, fit)

  commit_point-Outcome :
      (o : Ownership F) (now id epoch : ℕ) (c : Candidate F) (b : B)
      → Fit o now id epoch c
      → Ends (λ r b'. Outcome o now id epoch r) (commit_point backend o now c b)
  unfolding commit_point
  commit_point-Outcome o now id epoch c b fit =
      let reg = c.reg in
      answer-Ends _ (backend.try_clone reg.fds) _ b (λ t e. dropped)
        (λ _ t e.
          answer-Ends _ (backend.set_irqs reg.index reg.flags reg.start reg.count reg.fds) _ t
            (λ u k. dropped) (λ _ u k. (refl, inr (c, fit, refl))))
    where
      dropped : Kept o (record o { candidate = none })
      dropped = (refl, refl, refl, refl, refl)

  staged-Outcome :
      (o : Ownership F) (now : ℕ) (expired : Option ℕ) (id epoch : ℕ) (c : Candidate F) (b : B)
      → o.candidate ≡ some c
      → leb now c.deadline ≡ true
      → Ends
          (λ r b'. Outcome o now id epoch r)
          (commit_with backend o now expired id epoch (some c) b)
  staged-Outcome o now expired id epoch c b e early =
      elim (Option-cases (commit_checks backend o c id epoch)) [
        | inl passes ↦
            let (same, mine, ready, fit) = commit_checks-pass o c id epoch passes in
            rw (passes, commit_with)
              (commit_point-Outcome o now id epoch c b (e, early, same, mine, ready, fit))
        | inr (why, fails) ↦ rw (fails, commit_with) (refl, refl, refl, refl, refl)
      ]

  abbrev StagedOutcome : Ownership F → ℕ → ℕ → ℕ → B → Option (Candidate F) → Type 0
  StagedOutcome o now id epoch b c =
      Ends (λ r b'. Outcome o now id epoch r) (commit_with backend o now none id epoch c b)

  with-Outcome :
      (o : Ownership F) (now id epoch : ℕ) (c : Option (Candidate F)) (b : B)
      → o.candidate ≡ c
      → Ends
          (λ r b'. Outcome o now id epoch r)
          (commit_with backend
            (expire o now c).1
            now
            (expire o now c).0
            id
            epoch
            (expire o now c).1.candidate
            b)
  with-Outcome o now id epoch none b e =
      subst (StagedOutcome o now id epoch b) (sym e)
        (without-Outcome o o now none id epoch b (refl, refl, refl, refl, refl))
  with-Outcome o now id epoch (some c) b e = elim (Bool-cases (leb now c.deadline)) [
    | inl early ↦ rw early (
        subst (StagedOutcome o now id epoch b) (sym e)
          (staged-Outcome o now none id epoch c b e early))
    | inr late ↦ rw late (
        without-Outcome o (record o { candidate = none }) now (some c.id) id epoch b
          (refl, refl, refl, refl, refl))
  ]

  -- When `handover_commit` answers an error, the owner, the previous owner, their registrations and the
  -- epoch stay as they were. When it answers a status, this is the one of the state that it leaves, and
  -- either the caller owned the device already and has named the epoch before its own, and nothing is
  -- changed; or the candidate was the caller, in time, with the current epoch, ready where that is
  -- asked for, and past the preflight, and now owns the device at the next epoch, with the owner before
  -- it as the previous owner.
  pub handover_commit-Outcome :
      (o : Ownership F) (now id epoch : ℕ) (b : B) (v : Verdict) (o' : Ownership F) (b' : B)
      → handover_commit backend o now id epoch b ≡ some ((v, o'), b')
      → Outcome o now id epoch (v, o')
  unfolding handover_commit expire_candidate
  handover_commit-Outcome o now id epoch b v o' b' h =
      subst (Ends (λ r b'. Outcome o now id epoch r)) h
        (with-Outcome o now id epoch o.candidate b refl)
