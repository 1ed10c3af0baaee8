-- ===== src/Trb/Types.antt =====
-- What the blocks of src/device/xhci/trb.rs share.
use usbvfiod.Prelude.{
  ℕ, ◌/◌, ◌==◌, if◌then◌else◌, Bool, true, false, not, Option, none, some, List, take, replicate,
  get_or, bit_and,
}
use usbvfiod.Prelude.Bytes.{from_le_bytes}

-- `RawTrbBuffer`
abbrev pub RawTrbBuffer : Type 0
RawTrbBuffer = List ℕ

abbrev pub zeroed_trb_buffer : RawTrbBuffer
zeroed_trb_buffer = replicate 16 0

-- `trb_bytes[i]`
abbrev pub byte : RawTrbBuffer → ℕ → ℕ
byte b i = get_or b i 0

-- `trb_bytes[13] >> 2`
abbrev pub trb_type : RawTrbBuffer → ℕ
trb_type b = byte b 13 / 4

-- `trb_bytes[i] & mask != 0`
abbrev pub flag : RawTrbBuffer → ℕ → ℕ → Bool
flag b i mask = not (bit_and (byte b i) mask == 0)

-- `u64::from_le_bytes(trb_bytes[0..8])`
abbrev pub pointer : RawTrbBuffer → ℕ
pointer b = from_le_bytes (take 8 b)

-- `x as u8` of a `bool`.
abbrev pub bit : Bool → ℕ
bit true = 1
bit false = 0

pub data CompletionCode : Type 0 where
  invalid success data_buffer_error babble_detected_error usb_transaction_error : CompletionCode
  trb_error stall_error resource_error bandwidth_error no_slots_available_error : CompletionCode
  invalid_stream_type_error slot_not_enabled_error endpoint_not_enabled_error : CompletionCode
  short_packet ring_underrun ring_overrun vf_event_ring_full_error parameter_error : CompletionCode
  bandwidth_overrun_error context_state_error no_ping_response_error : CompletionCode
  event_ring_full_error incompatible_device_error missed_service_error : CompletionCode
  command_ring_stopped command_aborted stopped stopped_length_invalid : CompletionCode
  stopped_shorted_packet max_exit_latency_too_large_error reserved : CompletionCode
  isoch_buffer_overrun event_lost_error undefined_error invalid_stream_id_error : CompletionCode
  secondary_bandwidth_error split_transaction_error : CompletionCode

-- `CompletionCode as u8`
unfoldable pub code : CompletionCode → ℕ
code invalid = 0
code success = 1
code data_buffer_error = 2
code babble_detected_error = 3
code usb_transaction_error = 4
code trb_error = 5
code stall_error = 6
code resource_error = 7
code bandwidth_error = 8
code no_slots_available_error = 9
code invalid_stream_type_error = 10
code slot_not_enabled_error = 11
code endpoint_not_enabled_error = 12
code short_packet = 13
code ring_underrun = 14
code ring_overrun = 15
code vf_event_ring_full_error = 16
code parameter_error = 17
code bandwidth_overrun_error = 18
code context_state_error = 19
code no_ping_response_error = 20
code event_ring_full_error = 21
code incompatible_device_error = 22
code missed_service_error = 23
code command_ring_stopped = 24
code command_aborted = 25
code stopped = 26
code stopped_length_invalid = 27
code stopped_shorted_packet = 28
code max_exit_latency_too_large_error = 29
code reserved = 30
code isoch_buffer_overrun = 31
code event_lost_error = 32
code undefined_error = 33
code invalid_stream_id_error = 34
code secondary_bandwidth_error = 35
code split_transaction_error = 36

-- `TrbParseError`, without the command's name that the message holds.
pub data TrbParseError : Type 0 where
  unsupported_optional_command unknown_trb_type : ℕ → TrbParseError
  rsvd_z_violation : TrbParseError

pub data ParseResult (A : Type 0) : Type 0 where
  ok : A → ParseResult A
  err : TrbParseError → ParseResult A

-- `TrbData::parse` of a block whose type is not `expected` fails its assertion: `none`.
abbrev pub checked : {A : Type 0} → ℕ → RawTrbBuffer → ParseResult A → Option (ParseResult A)
checked expected b r = if trb_type b == expected then some r else none
