-- ===== src/SlotManager/Tests.antt =====
-- src/device/xhci/slot_manager.rs over memory that reads as zero, with tasks that always answer.
use usbvfiod.Prelude.{
  arith, Option, ℕ, ◌≡◌, refl, ◌+◌, true, false, none, some, [], ◌∷◌, replicate, Bool,
  if◌then◌else◌, ◌==◌,
}
use usbvfiod.Bus.Device.{Device}
use usbvfiod.Trb.Types.{context_state_error}
use usbvfiod.SlotManager.{gone, done, Workers}
use usbvfiod.SlotManager.Slot
use usbvfiod.SlotManager.Slot.{
  SlotState, enabled, addressed, configured, Slot, flagged, handle_address_device,
}
use usbvfiod.SlotManager.Handlers.{handle_configure_endpoint}
use usbvfiod.SlotManager.StateDiagram.{Address, Configure, Outcome}
use usbvfiod.SlotManager.Returns.{Returns}
use usbvfiod.SlotManager.Transitions.{
  handle_address_device-Outcome, handle_configure_endpoint-Outcome,
}
use usbvfiod.SlotManager.Table.{SlotWorker, Allocated, ok, num_slots_enabled, allocate_slot}
use usbvfiod.SlotManager.Allocation.{FirstFree, Result, allocate_slot-FirstFree}
use usbvfiod.SlotManager.Worker.{
  Senders, reset_all_slots, round, reset, drop_all, pre_drop, terminate_all, emptied,
}
use usbvfiod.SlotManager.Resetting.{Asked, all_endpoints, outcome, round-new}

-- The state counts the writes.
abbrev zeros : Device ℕ
zeros = record {
  size = 0x10000;
  read = λ req s. some (0, s);
  write = λ req v s. some (tt, s + 1);
  read_bulk = λ a n s. some (replicate n 0, s);
  write_bulk = λ a bs s. some (tt, s + 1);
}

abbrev tasks : Workers ℕ ℕ
tasks = record {
  request_launch = λ slot ep port context s. some (done ep, s);
  terminate = λ e s. some (done tt, s);
}

abbrev slot_in : SlotState → Slot ℕ
slot_in st = record { id = 1; state = st; dcbaae = 0x108; endpoint_senders = replicate 31 none }

flagged_test : flagged 0x15 0 5 ≡ 0 ∷ 2 ∷ 4 ∷ []
unfolding flagged
flagged_test = refl

address_test :
    handle_address_device zeros tasks (slot_in (configured 64)) 0 false 0
    ≡ some (done (context_state_error, slot_in (configured 64)), 0)
unfolding handle_address_device
address_test = refl

handle_address_device-Outcome_example :
    Returns
      (handle_address_device zeros tasks (slot_in enabled) 0x2000 true)
      (Outcome (Address true) (slot_in enabled))
handle_address_device-Outcome_example =
    handle_address_device-Outcome zeros tasks (slot_in enabled) 0x2000 true

handle_configure_endpoint-Outcome_example :
    Returns
      (handle_configure_endpoint zeros tasks (slot_in (addressed 64)) 0x2000 false)
      (Outcome (Configure false) (slot_in (addressed 64)))
handle_configure_endpoint-Outcome_example =
    handle_configure_endpoint-Outcome zeros tasks (slot_in (addressed 64)) 0x2000 false

-- Two enabled slots, the first in use.
abbrev one_in_use : SlotWorker ℕ
one_in_use = record {
  slots = some (slot_in enabled) ∷ replicate 7 none;
  config_reg = 2;
  dcbaap = 0x100;
}

allocate_test :
    allocate_slot one_in_use
    ≡ some (
      ok 2,
      record one_in_use {
        slots =
            some (slot_in enabled)
            ∷ some (record {
              id = 2;
              state = enabled;
              dcbaae = 0x110;
              endpoint_senders = replicate 31 none;
            })
            ∷ replicate 6 none;
      },
    )
unfolding allocate_slot Slot.new
allocate_test = refl

two_enabled : num_slots_enabled one_in_use ≡ 2
unfolding num_slots_enabled
two_enabled = refl

allocate_slot-FirstFree_example :
    (found : Option ℕ) × (r : Allocated × SlotWorker ℕ) × (allocate_slot one_in_use ≡ some r)
    × FirstFree one_in_use.slots 1 (1 + num_slots_enabled one_in_use) found
    × Result one_in_use found r
allocate_slot-FirstFree_example =
    allocate_slot-FirstFree one_in_use refl (omega (arith, two_enabled))

abbrev senders : Senders ℕ ℕ
senders = record {
  doorbell = λ e s. some (done tt, s);
  stop = λ e s. some (done tt, s);
  reset = λ e s. some (done tt, s);
  set_tr_dequeue_pointer = λ e ptr cs s. some (done tt, s);
}

abbrev busy_slot : Slot ℕ
busy_slot = record {
  id = 2;
  state = configured 64;
  dcbaae = 0x110;
  endpoint_senders = some 1 ∷ none ∷ some 3 ∷ replicate 28 none;
}

abbrev busy_table : SlotWorker ℕ
busy_table = record {
  slots = none ∷ some busy_slot ∷ replicate 6 none;
  config_reg = 8;
  dcbaap = 0x100;
}

-- The endpoint 1 throws the request to terminate away.
abbrev half_deaf : Workers ℕ ℕ
half_deaf = record tasks { terminate = λ e s. some ((if e == 1 then gone else done tt), s + 1) }

round-new_example :
    (b : Bool) × (t : ℕ) × Asked half_deaf (all_endpoints busy_table.slots) 0 b t
    × (round zeros half_deaf senders busy_table reset_all_slots true 0 ≡ some (outcome b, t))
round-new_example = round-new half_deaf (λ e s. (_, s + 1, refl)) zeros senders busy_table 0 refl

asks_both :
    round zeros half_deaf senders busy_table reset_all_slots true 0 ≡ some (outcome false, 2)
unfolding round reset drop_all pre_drop terminate_all emptied
asks_both = refl
