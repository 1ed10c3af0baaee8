-- ===== src/SlotManager/StateDiagram.antt =====
-- The states of a slot of src/device/xhci/slot_manager.rs, and the steps between them: xHCI
-- specification, figure 4-2.
use usbvfiod.Prelude.{ℕ, ◌≡◌, ◌⊎◌, Bool, true, false}
use usbvfiod.Trb.Types.{CompletionCode, success, context_state_error}
use usbvfiod.SlotManager.Slot.{SlotState, enabled, default, addressed, configured, Slot}

-- Address Device, with its flag `Block Set Address Request`.
pub data Address : Bool → SlotState → SlotState → Type 0 where
  to_default : {a : ℕ} → Address true enabled (default a)
  to_addressed : {a : ℕ} → Address false enabled (addressed a)
  again : {a : ℕ} → Address false (default a) (addressed a)

-- Configure Endpoint, with its flag `Deconfigure`.
pub data Configure : Bool → SlotState → SlotState → Type 0 where
  first : {a : ℕ} → Configure false (addressed a) (configured a)
  more : {a : ℕ} → Configure false (configured a) (configured a)
  nothing : {a : ℕ} → Configure true (addressed a) (addressed a)
  all : {a : ℕ} → Configure true (configured a) (addressed a)

-- Reset Device.
pub data Reset : SlotState → SlotState → Type 0 where
  from_addressed : {a : ℕ} → Reset (addressed a) (default a)
  from_configured : {a : ℕ} → Reset (configured a) (default a)

-- Where the diagram has no step.
pub stuck_addressed : (flag : Bool) (a : ℕ) (t : SlotState) → Address flag (addressed a) t → ⊥
stuck_addressed true a t s = elim s [ ]
stuck_addressed false a t s = elim s [ ]

pub stuck_configured : (flag : Bool) (a : ℕ) (t : SlotState) → Address flag (configured a) t → ⊥
stuck_configured true a t s = elim s [ ]
stuck_configured false a t s = elim s [ ]

pub stuck_enabled : (flag : Bool) (t : SlotState) → Configure flag enabled t → ⊥
stuck_enabled true t s = elim s [ ]
stuck_enabled false t s = elim s [ ]

pub stuck_default : (flag : Bool) (a : ℕ) (t : SlotState) → Configure flag (default a) t → ⊥
stuck_default true a t s = elim s [ ]
stuck_default false a t s = elim s [ ]

-- What a handler answers: a step of the diagram for the same slot, or a context state error where the
-- diagram has no step, with the slot as it was.
abbrev pub Outcome :
    {E : Type 0} → (SlotState → SlotState → Type 0) → Slot E → CompletionCode × Slot E → Type 0
Outcome Step slot r =
    ((r.0 ≡ success) × Step slot.state r.1.state × (r.1.id ≡ slot.id) × (r.1.dcbaae ≡ slot.dcbaae))
    ⊎ ((r.0 ≡ context_state_error) × (r.1 ≡ slot) × ((t : SlotState) → Step slot.state t → ⊥))
