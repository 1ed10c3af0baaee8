-- ===== src/SlotManager/Table.antt =====
-- The table of slots of `SlotWorker` in src/device/xhci/slot_manager.rs, and the two registers of
-- src/device/xhci/registers.rs that it reads.
use usbvfiod.Prelude.{
  ℕ, zero, suc, ◌+◌, ◌*◌, Option, none, some, List, get_elem?, set, replicate, bit_and,
}
use usbvfiod.Trb.Types.{CompletionCode, no_slots_available_error}
use usbvfiod.SlotManager.Slot
use usbvfiod.SlotManager.Slot.{Slot, one_indexed, wrapping_add}

-- `SlotWorker`, with the values of its registers.
pub record SlotWorker (E : Type 0) : Type 0 where
  pub slots : List (Option (Slot E))
  pub config_reg : ℕ
  pub dcbaap : ℕ

-- `MAX_SLOTS`
abbrev pub max_slots : ℕ
max_slots = 8

-- `SlotWorker::new`, with registers that have been reset.
unfoldable pub new : {E : Type 0} → SlotWorker E
new = record { slots = replicate max_slots none; config_reg = 0; dcbaap = 0 }

-- `ConfigureRegister::num_slots_enabled`
unfoldable pub num_slots_enabled : {E : Type 0} → SlotWorker E → ℕ
num_slots_enabled w = bit_and w.config_reg 0xff

-- The search of `allocate_slot` over the `n` slots from `slot_id` on; `none` outside is an index out of
-- range.
unfoldable pub find_free : {E : Type 0} → List (Option (Slot E)) → ℕ → ℕ → Option (Option ℕ)
find_free slots slot_id zero = some none
find_free slots slot_id (suc n) =
    let rest = find_free slots (slot_id + 1) n in
    elim (get_elem? slots (one_indexed slot_id)) [
      | none ↦ none
      | some none ↦ some (some slot_id)
      | some (some slot) ↦ rest
    ]

-- `Result<u8, CompletionCode>`
pub data Allocated : Type 0 where
  ok : ℕ → Allocated
  err : CompletionCode → Allocated

-- `allocate_slot` on what its search has found.
abbrev pub allocate_found : {E : Type 0} → SlotWorker E → Option ℕ → Allocated × SlotWorker E
allocate_found w none = (err no_slots_available_error, w)
allocate_found w (some slot_id) = (
  ok slot_id,
  record w {
    slots =
        set w.slots (one_indexed slot_id)
          (some (Slot.new slot_id (wrapping_add w.dcbaap (slot_id * 8))));
  },
)

-- `SlotWorker::allocate_slot`; `none` is a panic.
unfoldable pub allocate_slot : {E : Type 0} → SlotWorker E → Option (Allocated × SlotWorker E)
unfolding find_free num_slots_enabled
allocate_slot w = elim (find_free w.slots 1 (num_slots_enabled w)) [
  | none ↦ none
  | some found ↦ some (allocate_found w found)
]
