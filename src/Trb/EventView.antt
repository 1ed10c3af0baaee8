-- ===== src/Trb/EventView.antt =====
-- What a driver reads in an event that src/device/xhci/trb.rs has laid out: xHCI specification,
-- section 6.4.2.
use usbvfiod.Prelude.{ℕ, ◌*◌, ◌%◌, ◌^◌, ◌<◌, ◌≡◌, Bool, true, false, some, take, drop, arith}
use usbvfiod.Prelude.Bits.{bit_and_15, bit_and-high_clear}
use usbvfiod.Prelude.Bytes.{from_le_bytes, from_le_bytes-to_le_bytes}
use usbvfiod.Trb.TrbTypes
use usbvfiod.Trb.Types.{RawTrbBuffer, byte, trb_type, flag, pointer, CompletionCode, success, code}
use usbvfiod.Trb.Event.{
  EventTrb, transfer, command_completion, port_status_change, to_bytes,
  new_command_completion_event_trb,
}

-- The fields of an event.
pub record EventView : Type 0 where
  pub kind : ℕ
  pub parameter : ℕ
  pub low_24_bits : ℕ
  pub completion : ℕ
  pub is_event_data : Bool
  pub cycle : Bool
  pub endpoint : ℕ
  pub slot : ℕ

pub view : RawTrbBuffer → EventView
view b = record {
  kind = trb_type b;
  parameter = pointer b;
  low_24_bits = from_le_bytes (take 3 (drop 8 b));
  completion = byte b 11;
  is_event_data = flag b 12 0x4;
  cycle = flag b 12 0x1;
  endpoint = byte b 14 % 32;
  slot = byte b 15;
}

-- The values fit their fields.
abbrev pub InRange : EventTrb → Type 0
InRange (transfer d) =
    (d.trb_pointer < 2 ^ 64) × (d.trb_transfer_length < 2 ^ 24) × (d.endpoint_id < 32)
InRange (command_completion d) =
    (d.command_trb_pointer < 2 ^ 64) × (d.command_completion_parameter < 2 ^ 24)
InRange (port_status_change d) = d.port_id < 2 ^ 8

-- The fields that the event stands for. A port's number is in the highest byte of the first word.
abbrev pub fields : EventTrb → Bool → EventView
fields (transfer d) cycle = record {
  kind = TrbTypes.transfer_event;
  parameter = d.trb_pointer;
  low_24_bits = d.trb_transfer_length;
  completion = code d.completion_code;
  is_event_data = d.event_data;
  cycle = cycle;
  endpoint = d.endpoint_id;
  slot = d.slot_id;
}
fields (command_completion d) cycle = record {
  kind = TrbTypes.command_completion_event;
  parameter = d.command_trb_pointer;
  low_24_bits = d.command_completion_parameter;
  completion = code d.completion_code;
  is_event_data = false;
  cycle = cycle;
  endpoint = 0;
  slot = d.slot_id;
}
fields (port_status_change d) cycle = record {
  kind = TrbTypes.port_status_change_event;
  parameter = d.port_id * 2 ^ 24;
  low_24_bits = 0;
  completion = code success;
  is_event_data = false;
  cycle = cycle;
  endpoint = 0;
  slot = 0;
}

-- A driver reads from the bytes of an event just the fields that it was made of, with the cycle bit
-- that it was given, where the fields are in range.
pub view-to_bytes :
    (e : EventTrb) (cycle : Bool) → InRange e → view (to_bytes e cycle) ≡ fields e cycle
unfolding view to_bytes
view-to_bytes (transfer d) cycle h = ground (arith, from_le_bytes-to_le_bytes 8 d.trb_pointer)
view-to_bytes (command_completion d) true h =
    ground (arith, from_le_bytes-to_le_bytes 8 d.command_trb_pointer)
view-to_bytes (command_completion d) false h =
    ground (arith, from_le_bytes-to_le_bytes 8 d.command_trb_pointer)
view-to_bytes (port_status_change d) cycle h = ground arith

-- `new_command_completion_event_trb` accepts an aligned pointer with a 24-bit parameter, and such
-- an event is in range.
pub new_command_completion-InRange :
    (p c : ℕ) (completion : CompletionCode) (slot : ℕ) (e : EventTrb)
    → p < 2 ^ 64
    → c < 2 ^ 32
    → new_command_completion_event_trb p c completion slot ≡ some e
    → InRange e × (p % 16 ≡ 0)
unfolding new_command_completion_event_trb
new_command_completion-InRange p c completion slot e hp hc h =
    ground (arith, bit_and_15 p, bit_and-high_clear 24 c)
