-- ===== src/Handover/Control.antt =====
-- The commands of the control socket in src/shared_backend.rs.
use usbvfiod.Prelude.{
  ℕ, ◌+◌, ◌-◌, ◌==◌, ltb, if◌then◌else◌, Bool, true, false, not, ◌&&◌, Option, none, some, List, M,
  pure, panic, ◌>>=◌, [], ◌∷◌,
}
use usbvfiod.Bus.Request.{u64_mod}
use usbvfiod.SlotManager.{Answer, gone, done, ◌>>?◌}
use usbvfiod.Handover.{
  Registration, Candidate, Ownership, HandoverError, no_candidate, wrong_candidate,
  preflight_timeout_error, not_ready, not_previous_owner, previous_gone, epoch_mismatch,
  lease_expired, backend_error, Verdict, ok, err, Backend,
}
use usbvfiod.Handover.Policy.{no_owner, holds_reply, render_locked}
use usbvfiod.Handover.Preflight.{expire_candidate, preflight_hard}

-- `handover_status`
unfoldable pub handover_status : {F : Type 0} → Ownership F → ℕ → Verdict × Ownership F
unfolding expire_candidate render_locked
handover_status o now = let (_, o') = expire_candidate o now in (ok (render_locked o'), o')

-- The test of `handover_watch` when it wakes: whether it answers, by the epoch that it has started in.
unfoldable pub watch_answers : {F : Type 0} → Ownership F → ℕ → ℕ → ℕ → Bool × Ownership F
unfolding expire_candidate
watch_answers o now start_epoch deadline =
    let (_, o') = expire_candidate o now in
    (
      elim o'.candidate [
        | some c ↦ true
        | none ↦ if not (o'.epoch == start_epoch) then true else not (ltb now deadline)
      ],
      o',
    )

-- `expired == Some(id)`
abbrev pub is_id : Option ℕ → ℕ → Bool
is_id none id = false
is_id (some n) id = n == id

-- What the control commands answer without a candidate.
abbrev pub without_candidate : Option ℕ → ℕ → Verdict
without_candidate expired id =
    if is_id expired id then err preflight_timeout_error else err no_candidate

abbrev pub ready_with :
    {F : Type 0} → Ownership F → Option ℕ → ℕ → Option (Candidate F) → Verdict × Ownership F
ready_with o expired id none = (without_candidate expired id, o)
ready_with o expired id (some c) =
    if c.id == id
    then (let o' = record o { candidate = some (record c { ready = true }) } in
        (ok (render_locked o'), o'))
    else (err wrong_candidate, o)

unfoldable pub handover_ready : {F : Type 0} → Ownership F → ℕ → ℕ → Verdict × Ownership F
unfolding expire_candidate render_locked
handover_ready o now id =
    let (expired, o') = expire_candidate o now in ready_with o' expired id o'.candidate

abbrev pub abort_with :
    {F : Type 0} → Ownership F → ℕ → Option (Candidate F) → Verdict × Ownership F
abort_with o id none = (err no_candidate, o)
abort_with o id (some c) =
    if c.id == id
    then (let o' = record o { candidate = none } in (ok (render_locked o'), o'))
    else (err wrong_candidate, o)

unfoldable pub handover_abort : {F : Type 0} → Ownership F → ℕ → ℕ → Verdict × Ownership F
unfolding expire_candidate render_locked
handover_abort o now id = let (_, o') = expire_candidate o now in abort_with o' id o'.candidate

-- `elapsed() > lease`, or no commit at all.
abbrev pub lease_over : Option ℕ → ℕ → ℕ → Bool
lease_over none now lease = true
lease_over (some t) now lease = ltb lease (now - t)

unfoldable pub contains : List ℕ → ℕ → Bool
contains [] id = false
contains (n ∷ live) id = if n == id then true else contains live id

module _ {F : Type 0} where
  abbrev pub committed : Ownership F → ℕ → Candidate F → Ownership F
  committed o now cand = record o {
    candidate = none;
    prev = o.owner;
    prev_reg = o.owner_reg;
    owner = cand.id;
    owner_reg = some cand.reg;
    epoch = o.epoch + 1;
    committed_at = some now;
  }

  -- The checks of `handover_reclaim`.
  unfoldable pub reclaim_checks : Ownership F → ℕ → ℕ → ℕ → Option HandoverError
  unfolding contains
  reclaim_checks o now id epoch =
      if (o.prev == no_owner)
      then some not_previous_owner
      else if not (o.prev == id)
      then some not_previous_owner
      else if not (contains o.live id)
      then some previous_gone
      else if not (epoch == o.epoch)
      then some epoch_mismatch
      else if lease_over o.committed_at now o.lease
      then some lease_expired
      else none

  abbrev pub reclaimed : Ownership F → ℕ → Registration F → Ownership F
  reclaimed o id reg = record o {
    owner = id;
    prev = no_owner;
    prev_reg = none;
    owner_reg = some reg;
    epoch = o.epoch + 1;
  }

module _ {B F : Type 0} (backend : Backend B F) where
  -- `set_irqs` of the controller with a registration.
  abbrev pub set_line : Registration F → M B (Answer (Unit {0}))
  set_line reg = backend.set_irqs reg.index reg.flags reg.start reg.count reg.fds

  -- The checks of `handover_commit` on a candidate.
  unfoldable pub commit_checks : Ownership F → Candidate F → ℕ → ℕ → Option HandoverError
  unfolding preflight_hard
  commit_checks o cand id epoch =
      if not (epoch == o.epoch)
      then some epoch_mismatch
      else if not (cand.id == id)
      then some wrong_candidate
      else if o.require_ready && not cand.ready
      then some not_ready
      else preflight_hard backend o cand (o.mapped o.owner) (not (holds_reply o))

  -- The commit point. An error of the controller comes after the candidate has been taken.
  unfoldable pub commit_point : Ownership F → ℕ → Candidate F → M B (Verdict × Ownership F)
  unfolding render_locked
  commit_point o now cand = backend.try_clone cand.reg.fds >>= λ copied. elim copied [
    | gone ↦ pure (err backend_error, record o { candidate = none })
    | done _ ↦ set_line cand.reg >>= λ set. elim set [
      | gone ↦ pure (err backend_error, record o { candidate = none })
      | done _ ↦ pure (ok (render_locked (committed o now cand)), committed o now cand)
    ]
  ]

  abbrev pub commit_with :
      Ownership F → ℕ → Option ℕ → ℕ → ℕ → Option (Candidate F) → M B (Verdict × Ownership F)
  commit_with o now expired id epoch none =
      if o.owner == id
      then (if epoch == u64_mod - 1
          then panic
          else if epoch + 1 == o.epoch
          then pure (ok (render_locked o), o)
          else pure (without_candidate expired id, o))
      else pure (without_candidate expired id, o)
  commit_with o now expired id epoch (some cand) = elim (commit_checks o cand id epoch) [
    | some e ↦ pure (err e, o)
    | none ↦ commit_point o now cand
  ]

  unfoldable pub handover_commit : Ownership F → ℕ → ℕ → ℕ → M B (Verdict × Ownership F)
  unfolding expire_candidate commit_checks commit_point render_locked
  handover_commit o now id epoch =
      let (expired, o') = expire_candidate o now in commit_with o' now expired id epoch o'.candidate

  -- `install_registration`: two copies of the descriptors, one to install and one to record.
  unfoldable pub install_registration : Registration F → M B (Answer (Registration F))
  install_registration reg = backend.try_clone reg.fds >>? λ _.
      backend.try_clone reg.fds >>? λ _. set_line reg >>? λ _. pure (done reg)

  abbrev pub reclaim_with : Ownership F → ℕ → Option (Registration F) → M B (Verdict × Ownership F)
  reclaim_with o id none = pure (err not_previous_owner, o)
  reclaim_with o id (some reg) = install_registration reg >>= λ installed. elim installed [
    | gone ↦ pure (err backend_error, o)
    | done recorded ↦ pure (ok (render_locked (reclaimed o id recorded)), reclaimed o id recorded)
  ]

  abbrev pub reclaim_after : Ownership F → ℕ → Option HandoverError → M B (Verdict × Ownership F)
  reclaim_after o id (some e) = pure (err e, o)
  reclaim_after o id none = reclaim_with o id o.prev_reg

  unfoldable pub handover_reclaim : Ownership F → ℕ → ℕ → ℕ → M B (Verdict × Ownership F)
  unfolding expire_candidate reclaim_checks install_registration render_locked
  handover_reclaim o now id epoch =
      let (_, o') = expire_candidate o now in reclaim_after o' id (reclaim_checks o' now id epoch)
