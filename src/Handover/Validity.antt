-- ===== src/Handover/Validity.antt =====
-- The invariant of the ownership in src/shared_backend.rs, and that each change of it keeps the invariant.
use usbvfiod.Prelude.{◌+◌, ◌==◌, ◌≡◌, ◌⊎◌, Bool, true, false, not, Option, none, some}
use usbvfiod.Handover.{Candidate, Ownership}
use usbvfiod.Handover.Policy.{no_owner}

abbrev pub is_some : {A : Type 0} → Option A → Bool
is_some none = false
is_some (some a) = true

-- A candidate is a connection, and stands beside an owner.
abbrev pub Staged : {F : Type 0} → Ownership F → Option (Candidate F) → Type 0
Staged o none = Unit
Staged o (some c) = ((o.owner == no_owner) ≡ false) × ((c.id == no_owner) ≡ false)

-- An owner has a registration, and so has a previous owner; where there is none, there is none.
pub record IsValid {F : Type 0} (o : Ownership F) : Type 0 where
  pub owned : is_some o.owner_reg ≡ not (o.owner == no_owner)
  pub previous : is_some o.prev_reg ≡ not (o.prev == no_owner)
  pub staged : Staged o o.candidate

-- The epoch stays while the owner does, or goes up by one.
abbrev pub Moves : {F : Type 0} → Ownership F → Ownership F → Type 0
Moves o o' = ((o'.owner ≡ o.owner) × (o'.epoch ≡ o.epoch)) ⊎ (o'.epoch ≡ o.epoch + 1)

abbrev pub Next : {F : Type 0} → Ownership F → Ownership F → Type 0
Next o o' = IsValid o' × Moves o o'
