-- ===== src/Trb/Event.antt =====
-- The events of src/device/xhci/trb.rs, and how they are laid out.
use usbvfiod.Prelude.{
  ℕ, ◌*◌, ◌%◌, ◌^◌, ◌==◌, ◌&&◌, if◌then◌else◌, Bool, Option, none, some, set, take, copy_at,
  bit_and, bit_or,
}
use usbvfiod.Prelude.Bits.{not_u8}
use usbvfiod.Prelude.Bytes.{to_le_bytes}
use usbvfiod.Trb.TrbTypes
use usbvfiod.Trb.Types.{RawTrbBuffer, zeroed_trb_buffer, byte, bit, CompletionCode, success, code}

pub record CommandCompletionEventTrbData : Type 0 where
  pub command_trb_pointer : ℕ
  pub command_completion_parameter : ℕ
  pub completion_code : CompletionCode
  pub slot_id : ℕ

pub record PortStatusChangeEventTrbData : Type 0 where
  pub port_id : ℕ

pub record TransferEventTrbData : Type 0 where
  pub trb_pointer : ℕ
  pub trb_transfer_length : ℕ
  pub completion_code : CompletionCode
  pub event_data : Bool
  pub endpoint_id : ℕ
  pub slot_id : ℕ

pub data EventTrb : Type 0 where
  transfer : TransferEventTrbData → EventTrb
  command_completion : CommandCompletionEventTrbData → EventTrb
  port_status_change : PortStatusChangeEventTrbData → EventTrb

-- `EventTrb::new_command_completion_event_trb`; `none` is a failed `assert_eq!`.
unfoldable pub new_command_completion_event_trb : ℕ → ℕ → CompletionCode → ℕ → Option EventTrb
new_command_completion_event_trb command_trb_pointer command_completion_parameter completion_code
      slot_id =
    if (bit_and command_trb_pointer 0x0f == 0)
      && (bit_and command_completion_parameter 0xff000000 == 0)
    then some (
        command_completion (record {
          command_trb_pointer = command_trb_pointer;
          command_completion_parameter = command_completion_parameter;
          completion_code = completion_code;
          slot_id = slot_id;
        }))
    else none

unfoldable pub command_completion_to_bytes : CommandCompletionEventTrbData → RawTrbBuffer
command_completion_to_bytes d =
    let trb = copy_at 0 (to_le_bytes 8 d.command_trb_pointer) zeroed_trb_buffer in
    let trb = copy_at 8 (take 3 (to_le_bytes 4 d.command_completion_parameter)) trb in
    let trb = set trb 11 (code d.completion_code) in
    let trb = set trb 13 (TrbTypes.command_completion_event * 2 ^ 2 % 256) in set trb 15 d.slot_id

unfoldable pub port_status_change_to_bytes : PortStatusChangeEventTrbData → RawTrbBuffer
port_status_change_to_bytes d =
    let bytes = set zeroed_trb_buffer 3 d.port_id in
    let bytes = set bytes 11 (code success) in
    set bytes 13 (TrbTypes.port_status_change_event * 2 ^ 2 % 256)

unfoldable pub transfer_to_bytes : TransferEventTrbData → RawTrbBuffer
transfer_to_bytes d =
    let trb = copy_at 0 (to_le_bytes 8 d.trb_pointer) zeroed_trb_buffer in
    let trb = copy_at 8 (take 3 (to_le_bytes 4 d.trb_transfer_length)) trb in
    let trb = set trb 11 (code d.completion_code) in
    let trb = set trb 12 (bit d.event_data * 2 ^ 2) in
    let trb = set trb 13 (TrbTypes.transfer_event * 2 ^ 2 % 256) in
    let trb = set trb 14 d.endpoint_id in set trb 15 d.slot_id

unfoldable pub trb_data : EventTrb → RawTrbBuffer
unfolding transfer_to_bytes command_completion_to_bytes port_status_change_to_bytes
trb_data (transfer d) = transfer_to_bytes d
trb_data (command_completion d) = command_completion_to_bytes d
trb_data (port_status_change d) = port_status_change_to_bytes d

-- `EventTrb::to_bytes`
unfoldable pub to_bytes : EventTrb → Bool → RawTrbBuffer
unfolding trb_data
to_bytes e cycle_bit =
    let b = trb_data e in set b 12 (bit_or (bit_and (byte b 12) (not_u8 1)) (bit cycle_bit))
