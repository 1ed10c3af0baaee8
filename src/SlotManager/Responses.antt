-- ===== src/SlotManager/Responses.antt =====
-- The handlers of src/device/xhci/slot_manager.rs never panic by themselves.
use usbvfiod.Bus.Device.{Device}
use usbvfiod.SlotManager.Slot.{Slot}
