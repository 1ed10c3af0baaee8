-- ===== src/Handover/Preflight.antt =====
-- What a candidate of src/shared_backend.rs has to pass, and how it expires.
use usbvfiod.Prelude.{
  ℕ, ◌+◌, ◌==◌, leb, ltb, if◌then◌else◌, Bool, true, false, not, ◌&&◌, ◌||◌, Option, none, some,
  List, [], ◌∷◌,
}
use usbvfiod.Bus.Request.{u64_mod}
use usbvfiod.Handover.{
  Registration, Candidate, Ownership, HandoverError, bad_event_fd, device_gone, irq_mismatch,
  dma_incomplete, Backend,
}

-- `Ownership::expire_candidate`: the candidate that is dropped, and the state after it.
abbrev pub expire : {F : Type 0} → Ownership F → ℕ → Option (Candidate F) → Option ℕ × Ownership F
expire o now none = (none, o)
expire o now (some c) =
    if leb now c.deadline then (none, o) else (some c.id, record o { candidate = none })

unfoldable pub expire_candidate : {F : Type 0} → Ownership F → ℕ → Option ℕ × Ownership F
expire_candidate o now = expire o now o.candidate

-- The tests of `ranges_cover`. The bus accepts no range that ends after 2^64 - 1, so `ha + hs` is not
-- cut; `a.checked_add(s)` is.
abbrev pub covers : ℕ × ℕ → ℕ × ℕ → Bool
covers (ha, hs) (a, s) = leb ha a && (ltb (a + s) u64_mod && leb (a + s) (ha + hs))

unfoldable pub any_covers : List (ℕ × ℕ) → ℕ × ℕ → Bool
any_covers [] r = false
any_covers (h ∷ have) r = covers h r || any_covers have r

unfoldable pub ranges_cover : List (ℕ × ℕ) → List (ℕ × ℕ) → Bool
ranges_cover have [] = true
ranges_cover have (r ∷ needed) = any_covers have r && ranges_cover have needed

unfoldable pub all_eventfds : {B F : Type 0} → Backend B F → List F → Bool
all_eventfds backend [] = true
all_eventfds backend (fd ∷ fds) = backend.is_eventfd fd && all_eventfds backend fds

abbrev pub no_device : Option ℕ → Bool
no_device none = false
no_device (some n) = n == 0

-- The comparison of the candidate's vector with the owner's.
abbrev pub vectors_differ : {F : Type 0} → Registration F → Option (Registration F) → Bool
vectors_differ reg none = false
vectors_differ reg (some owner) =
    not ((reg.index == owner.index) && ((reg.start == owner.start) && (reg.count == owner.count)))

-- `none` is `Ok(())`.
unfoldable pub preflight_hard :
    {B F : Type 0}
    → Backend B F
    → Ownership F
    → Candidate F
    → List (ℕ × ℕ)
    → Bool
    → Option HandoverError
unfolding all_eventfds ranges_cover any_covers
preflight_hard backend o cand owner_ranges check_dma =
    if not (all_eventfds backend cand.reg.fds)
    then some bad_event_fd
    else if o.require_device && no_device o.device_count
    then some device_gone
    else if vectors_differ cand.reg o.owner_reg
    then some irq_mismatch
    else if not check_dma
    then none
    else if not (ranges_cover (o.mapped cand.id) owner_ranges)
    then some dma_incomplete
    else none
