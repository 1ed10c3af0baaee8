-- ===== src/Trb/Command.antt =====
-- The commands of src/device/xhci/trb.rs: `CommandTrbVariant::parse` and the data of each command.
use usbvfiod.Prelude.{ℕ, ◌==◌, if◌then◌else◌, Bool, Option, none, some, set, take, drop, bit_and}
use usbvfiod.Prelude.Bytes.{from_le_bytes}
use usbvfiod.Trb.TrbTypes
use usbvfiod.Trb.Types.{
  RawTrbBuffer, byte, trb_type, flag, pointer, TrbParseError, unsupported_optional_command,
  unknown_trb_type, rsvd_z_violation, ParseResult, ok, err, checked,
}

pub record DisableSlotCommandTrbData : Type 0 where
  pub slot_id : ℕ

pub record AddressDeviceCommandTrbData : Type 0 where
  pub input_context_pointer : ℕ
  pub block_set_address_request : Bool
  pub slot_id : ℕ

pub record ConfigureEndpointCommandTrbData : Type 0 where
  pub input_context_pointer : ℕ
  pub deconfigure : Bool
  pub slot_id : ℕ

pub record EvaluateContextCommandTrbData : Type 0 where
  pub input_context_pointer : ℕ
  pub slot_id : ℕ

pub record ResetEndpointCommandTrbData : Type 0 where
  pub slot_id : ℕ
  pub endpoint_id : ℕ

pub record StopEndpointCommandTrbData : Type 0 where
  pub endpoint_id : ℕ
  pub slot_id : ℕ

pub record SetTrDequeuePointerCommandTrbData : Type 0 where
  pub dequeue_cycle_state : Bool
  pub stream_context_type : ℕ
  pub dequeue_pointer : ℕ
  pub stream_id : ℕ
  pub endpoint_id : ℕ
  pub slot_id : ℕ

pub record ResetDeviceCommandTrbData : Type 0 where
  pub slot_id : ℕ

pub data CommandTrbVariant : Type 0 where
  no_op : CommandTrbVariant
  enable_slot : CommandTrbVariant
  disable_slot : DisableSlotCommandTrbData → CommandTrbVariant
  address_device : AddressDeviceCommandTrbData → CommandTrbVariant
  configure_endpoint : ConfigureEndpointCommandTrbData → CommandTrbVariant
  evaluate_context : EvaluateContextCommandTrbData → CommandTrbVariant
  reset_endpoint : ResetEndpointCommandTrbData → CommandTrbVariant
  stop_endpoint : StopEndpointCommandTrbData → CommandTrbVariant
  set_tr_dequeue_pointer : SetTrDequeuePointerCommandTrbData → CommandTrbVariant
  reset_device : ResetDeviceCommandTrbData → CommandTrbVariant
  force_header : CommandTrbVariant
  unrecognized : RawTrbBuffer → TrbParseError → CommandTrbVariant

pub record CommandTrb : Type 0 where
  pub address : ℕ
  pub variant : CommandTrbVariant

unfoldable pub parse_disable_slot : RawTrbBuffer → Option (ParseResult DisableSlotCommandTrbData)
parse_disable_slot b = checked TrbTypes.disable_slot_command b (ok (record { slot_id = byte b 15 }))

-- The pointer of an input context: its lowest four bits are RsvdZ.
abbrev pub aligned : {A : Type 0} → RawTrbBuffer → A → ParseResult A
aligned b a = if bit_and (pointer b) 0xf == 0 then ok a else err rsvd_z_violation

unfoldable pub parse_address_device :
    RawTrbBuffer → Option (ParseResult AddressDeviceCommandTrbData)
parse_address_device b = checked TrbTypes.address_device_command b (
    aligned b (record {
      input_context_pointer = pointer b;
      block_set_address_request = flag b 13 0x2;
      slot_id = byte b 15;
    }))

unfoldable pub parse_configure_endpoint :
    RawTrbBuffer → Option (ParseResult ConfigureEndpointCommandTrbData)
parse_configure_endpoint b = checked TrbTypes.configure_endpoint_command b (
    aligned b (record {
      input_context_pointer = pointer b;
      deconfigure = flag b 13 0x2;
      slot_id = byte b 15;
    }))

unfoldable pub parse_evaluate_context :
    RawTrbBuffer → Option (ParseResult EvaluateContextCommandTrbData)
parse_evaluate_context b =
    checked TrbTypes.evaluate_context_command b
      (aligned b (record { input_context_pointer = pointer b; slot_id = byte b 15 }))

unfoldable pub parse_reset_endpoint :
    RawTrbBuffer → Option (ParseResult ResetEndpointCommandTrbData)
parse_reset_endpoint b =
    checked TrbTypes.reset_endpoint_command b
      (ok (record { slot_id = byte b 15; endpoint_id = bit_and (byte b 14) 0x1f }))

unfoldable pub parse_stop_endpoint : RawTrbBuffer → Option (ParseResult StopEndpointCommandTrbData)
parse_stop_endpoint b =
    checked TrbTypes.stop_endpoint_command b
      (ok (record { endpoint_id = bit_and (byte b 14) 0x1f; slot_id = byte b 15 }))

-- Unlike its siblings this parser does not assert the block's type.
unfoldable pub parse_set_tr_dequeue_pointer :
    RawTrbBuffer → Option (ParseResult SetTrDequeuePointerCommandTrbData)
parse_set_tr_dequeue_pointer b = some (
    ok (record {
      dequeue_cycle_state = flag b 0 1;
      stream_context_type = bit_and (byte b 0) 0xe;
      dequeue_pointer = from_le_bytes (set (take 8 b) 0 (bit_and (byte b 0) 0xf0));
      stream_id = from_le_bytes (take 2 (drop 11 b));
      endpoint_id = bit_and (byte b 14) 0x1f;
      slot_id = byte b 15;
    }))

unfoldable pub parse_reset_device : RawTrbBuffer → Option (ParseResult ResetDeviceCommandTrbData)
parse_reset_device b = checked TrbTypes.reset_device_command b (ok (record { slot_id = byte b 15 }))

-- The generic `parse` with `TrbVariant::unrecognized` for commands.
abbrev pub variant_of :
    {A : Type 0}
    → (A → CommandTrbVariant)
    → RawTrbBuffer
    → Option (ParseResult A)
    → Option CommandTrbVariant
variant_of constructor b none = none
variant_of constructor b (some (ok d)) = some (constructor d)
variant_of constructor b (some (err e)) = some (unrecognized b e)

-- The arms of the `match` in `CommandTrbVariant::parse`.
unfoldable pub parse_type : ℕ → RawTrbBuffer → Option CommandTrbVariant
parse_type t b =
    if t == TrbTypes.no_op_command
    then some no_op
    else if t == TrbTypes.enable_slot_command
    then some enable_slot
    else if t == TrbTypes.disable_slot_command
    then variant_of disable_slot b (parse_disable_slot b)
    else if t == TrbTypes.address_device_command
    then variant_of address_device b (parse_address_device b)
    else if t == TrbTypes.configure_endpoint_command
    then variant_of configure_endpoint b (parse_configure_endpoint b)
    else if t == TrbTypes.evaluate_context_command
    then variant_of evaluate_context b (parse_evaluate_context b)
    else if t == TrbTypes.reset_endpoint_command
    then variant_of reset_endpoint b (parse_reset_endpoint b)
    else if t == TrbTypes.stop_endpoint_command
    then variant_of stop_endpoint b (parse_stop_endpoint b)
    else if t == TrbTypes.set_tr_dequeue_pointer_command
    then variant_of set_tr_dequeue_pointer b (parse_set_tr_dequeue_pointer b)
    else if t == TrbTypes.reset_device_command
    then variant_of reset_device b (parse_reset_device b)
    else if t == TrbTypes.force_event_command
    then some (unrecognized b (unsupported_optional_command 18))
    else if t == TrbTypes.negotiate_bandwidth_command
    then some (unrecognized b (unsupported_optional_command 19))
    else if t == TrbTypes.set_latency_tolerance_value_command
    then some (unrecognized b (unsupported_optional_command 20))
    else if t == TrbTypes.get_port_bandwidth_command
    then some (unrecognized b (unsupported_optional_command 21))
    else if t == TrbTypes.force_header_command
    then some force_header
    else some (unrecognized b (unknown_trb_type t))

-- `CommandTrbVariant::parse`; `none` is a failed assertion of a parser.
unfoldable pub parse : RawTrbBuffer → Option CommandTrbVariant
unfolding parse_type
parse b = parse_type (trb_type b) b
