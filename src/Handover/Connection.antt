-- ===== src/Handover/Connection.antt =====
-- One connection of src/shared_backend.rs: what its client asks of the device (`ServerBackend`), and its
-- end. `id` is the number of the connection.
use usbvfiod.Prelude.{
  ℕ, ◌+◌, ◌==◌, leb, ltb, if◌then◌else◌, Bool, true, false, not, ◌&&◌, Option, none, some, List, [],
  ◌∷◌, ◌++◌, M, pure, ◌>>=◌,
}
use usbvfiod.SlotManager.{Answer, gone, done}
use usbvfiod.Handover.{Registration, Candidate, Ownership, Backend}
use usbvfiod.Handover.Policy.{no_owner, holds_reply}
use usbvfiod.Handover.Preflight.{expire_candidate, preflight_hard}
use usbvfiod.Handover.Control.{contains, install_registration}

-- `HashSet::insert` and `remove`, on the list in order.
unfoldable pub insert : ℕ → List ℕ → List ℕ
insert id [] = id ∷ []
insert id (n ∷ live) =
    let rest = insert id live in
    if n == id then n ∷ live else if ltb id n then id ∷ n ∷ live else n ∷ rest

unfoldable pub remove : ℕ → List ℕ → List ℕ
remove id [] = []
remove id (n ∷ live) = let rest = remove id live in if n == id then live else n ∷ rest

-- `establish`, as `touch` calls it.
unfoldable pub establish : {F : Type 0} → Ownership F → ℕ → Ownership F
unfolding insert
establish o id = record o { live = insert id o.live }

-- `mapped` with other ranges for one connection.
abbrev pub set_mapped : {F : Type 0} → Ownership F → ℕ → List (ℕ × ℕ) → Ownership F
set_mapped o id ranges = record o { mapped = λ n. if n == id then ranges else o.mapped n }

-- `guard_disabled` with the test hook of debug builds.
unfoldable pub owns_device : {F : Type 0} → Ownership F → ℕ → Bool
owns_device o id = if o.disable_owner_guard then true else o.owner == id

unfoldable pub is_stale : {F : Type 0} → Ownership F → ℕ → Bool
unfolding owns_device
is_stale o id = not (owns_device o id) && not (o.owner == no_owner)

-- `ranges.retain(|&(a, s)| !(a == address && s == size))`
unfoldable pub retain_others : ℕ → ℕ → List (ℕ × ℕ) → List (ℕ × ℕ)
retain_others address size [] = []
retain_others address size ((a, s) ∷ ranges) =
    let rest = retain_others address size ranges in
    if (a == address) && (s == size) then rest else (a, s) ∷ rest

-- `make_unowned`
unfoldable pub make_unowned : {F : Type 0} → Ownership F → Ownership F
make_unowned o = record o {
  owner = no_owner;
  owner_reg = none;
  prev = no_owner;
  prev_reg = none;
  candidate = none;
  committed_at = none;
  epoch = o.epoch + 1;
}

-- What `set_irqs` answers: at once, or after it has waited for a decision until an instant.
pub data Served : Type 0 where
  answered : Answer (Unit {0}) → Served
  parks : ℕ → Served

-- `validate_irq_request` of src/xhci_backend.rs; 2 is `VFIO_PCI_MSIX_IRQ_INDEX`.
unfoldable pub validate_irq_request : ℕ → ℕ → Bool
validate_irq_request index count = (index == 2) && leb count 1

module _ {F : Type 0} where
  -- The first option of `disconnect`: the previous owner.
  unfoldable pub falls_back : Ownership F → Bool
  unfolding contains
  falls_back o = o.auto_reclaim && (not (o.prev == no_owner) && contains o.live o.prev)

  abbrev pub fallen_back : Ownership F → ℕ → Registration F → Ownership F
  fallen_back o now reg = record o {
    owner = o.prev;
    prev = no_owner;
    prev_reg = none;
    owner_reg = some reg;
    committed_at = some now;
    epoch = o.epoch + 1;
  }

  abbrev pub promoted : Ownership F → ℕ → Candidate F → Registration F → Ownership F
  promoted o now cand reg = record o {
    candidate = none;
    owner = cand.id;
    prev = no_owner;
    prev_reg = none;
    owner_reg = some reg;
    committed_at = some now;
    epoch = o.epoch + 1;
  }

  abbrev pub forgotten : Ownership F → ℕ → Ownership F
  forgotten o id = record (set_mapped o id []) { live = remove id o.live }

  abbrev pub owned_now : Ownership F → ℕ → Registration F → Ownership F
  owned_now o id reg = record o {
    owner = id;
    owner_reg = some reg;
    epoch = if o.owner == no_owner then o.epoch + 1 else o.epoch;
  }

  abbrev pub still_ready : ℕ → Option (Candidate F) → Bool
  still_ready id none = false
  still_ready id (some c) = (c.id == id) && c.ready

  abbrev pub staged : Ownership F → ℕ → ℕ → Registration F → Ownership F
  staged o now id reg = record o {
    candidate = some (record {
      id = id;
      reg = reg;
      deadline = now + o.preflight_timeout;
      ready = still_ready id o.candidate;
    });
  }

  -- `set_irqs` of a second client. `now` is the last of its readings of the clock, to which the deadline
  -- of the candidate and that of the wait are set.
  unfoldable pub stage : Ownership F → ℕ → ℕ → Registration F → Served × Ownership F
  stage o now id reg = (
    if holds_reply o then parks (now + o.preflight_timeout) else answered (done tt),
    staged o now id reg,
  )

  abbrev pub is_candidate : ℕ → Option (Candidate F) → Bool
  is_candidate id none = false
  is_candidate id (some c) = c.id == id

  -- The loop of a parked `set_irqs` when it wakes; `none` where it waits on.
  unfoldable pub wake : Ownership F → ℕ → ℕ → ℕ → Option (Answer (Unit {0}) × Ownership F)
  wake o now id deadline =
      if o.owner == id
      then some (done tt, o)
      else if not (is_candidate id o.candidate)
      then some (gone, o)
      else if leb deadline now
      then some (gone, record o { candidate = none })
      else none

module _ {B F : Type 0} (backend : Backend B F) where
  -- The second option: a candidate that passes, and the third, no owner.
  abbrev pub promote_with :
      Ownership F → ℕ → List (ℕ × ℕ) → Option (Candidate F) → M B (Ownership F)
  promote_with o now owner_ranges none = pure (make_unowned o)
  promote_with o now owner_ranges (some cand) =
      elim (preflight_hard backend o cand owner_ranges true) [
        | some e ↦ pure (make_unowned o)
        | none ↦ install_registration backend cand.reg >>= λ installed. elim installed [
          | gone ↦ pure (make_unowned o)
          | done recorded ↦ pure (promoted o now cand recorded)
        ]
      ]

  unfoldable pub promote : Ownership F → ℕ → List (ℕ × ℕ) → M B (Ownership F)
  unfolding preflight_hard install_registration make_unowned
  promote o now owner_ranges =
      if o.auto_reclaim then promote_with o now owner_ranges o.candidate else pure (make_unowned o)

  abbrev pub fall_back_with :
      Ownership F → ℕ → List (ℕ × ℕ) → Option (Registration F) → M B (Ownership F)
  fall_back_with o now owner_ranges none = promote o now owner_ranges
  fall_back_with o now owner_ranges (some reg) = install_registration backend reg >>= λ installed.
      elim installed [
        | gone ↦ promote o now owner_ranges
        | done recorded ↦ pure (fallen_back o now recorded)
      ]

  -- `disconnect`, after the connection has been forgotten.
  unfoldable pub succeed : Ownership F → ℕ → List (ℕ × ℕ) → M B (Ownership F)
  unfolding falls_back install_registration promote
  succeed o now owner_ranges =
      if falls_back o
      then fall_back_with o now owner_ranges o.prev_reg
      else promote o now owner_ranges

  unfoldable pub disconnect : Ownership F → ℕ → ℕ → M B (Ownership F)
  unfolding succeed remove
  disconnect o now id =
      if o.owner == id then succeed (forgotten o id) now (o.mapped id) else pure (forgotten o id)

  -- `dma_map`
  unfoldable pub dma_map : Ownership F → ℕ → ℕ → ℕ → ℕ → ℕ → M B (Answer (Unit {0}) × Ownership F)
  unfolding establish
  dma_map o id flags offset address size = backend.dma_map flags offset address size >>= λ result.
      pure (
        result,
        elim result [
          | gone ↦ establish o id
          | done _ ↦ set_mapped (establish o id) id (o.mapped id ++ (address, size) ∷ [])
        ],
      )

  -- `dma_unmap`
  unfoldable pub dma_unmap : Ownership F → ℕ → ℕ → ℕ → ℕ → M B (Answer (Unit {0}) × Ownership F)
  unfolding establish is_stale retain_others
  dma_unmap o id flags address size =
      if is_stale (establish o id) id
      then pure (done tt, establish o id)
      else (backend.dma_unmap flags address size >>= λ result. pure (
        result,
        elim result [
          | gone ↦ establish o id
          | done _ ↦ set_mapped (establish o id) id (retain_others address size (o.mapped id))
        ],
      ))

  -- `reset`
  unfoldable pub reset : Ownership F → ℕ → M B (Answer (Unit {0}) × Ownership F)
  unfolding establish is_stale
  reset o id =
      if is_stale (establish o id) id
      then pure (done tt, establish o id)
      else (backend.reset >>= λ result. pure (result, establish o id))

  -- `set_irqs` of the owner, and of the first client while there is none.
  unfoldable pub register : Ownership F → ℕ → Registration F → M B (Served × Ownership F)
  register o id reg = backend.try_clone reg.fds >>= λ copied. elim copied [
    | gone ↦ pure (answered gone, o)
    | done _ ↦ backend.set_irqs reg.index reg.flags reg.start reg.count reg.fds >>= λ set.
        pure (answered set, elim set [ gone ↦ o | done _ ↦ owned_now o id reg ])
  ]

  abbrev pub enable_irqs : Ownership F → ℕ → ℕ → Registration F → M B (Served × Ownership F)
  enable_irqs o now id reg =
      if not (validate_irq_request reg.index reg.count)
      then pure (answered gone, o)
      else if (o.owner == no_owner)
      then register o id reg
      else if (o.owner == id)
      then register o id reg
      else pure (stage o now id reg)

  -- `set_irqs` without descriptors, which disables the interrupt.
  unfoldable pub disable_irqs : Ownership F → ℕ → Registration F → M B (Served × Ownership F)
  unfolding owns_device
  disable_irqs o id reg =
      if not (owns_device o id)
      then pure (answered (done tt), o)
      else (backend.set_irqs reg.index reg.flags reg.start reg.count [] >>= λ set.
          pure (answered set, o))

  abbrev pub irqs_with : Ownership F → ℕ → ℕ → Registration F → List F → M B (Served × Ownership F)
  irqs_with o now id reg [] = disable_irqs o id reg
  irqs_with o now id reg (fd ∷ fds) = enable_irqs o now id reg

  -- `set_irqs`
  unfoldable pub set_irqs : Ownership F → ℕ → ℕ → Registration F → M B (Served × Ownership F)
  unfolding establish expire_candidate validate_irq_request register stage disable_irqs
  set_irqs o now id reg =
      let (_, o') = expire_candidate (establish o id) now in irqs_with o' now id reg reg.fds
