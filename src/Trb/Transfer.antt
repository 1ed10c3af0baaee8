-- ===== src/Trb/Transfer.antt =====
-- The transfers of src/device/xhci/trb.rs: `TransferTrbVariant::parse` and the data of each block.
use usbvfiod.Prelude.{
  ℕ, ◌+◌, ◌*◌, ◌%◌, ◌^◌, ◌==◌, if◌then◌else◌, Bool, Option, none, some, [], ◌∷◌, take, drop,
  bit_and,
}
use usbvfiod.Prelude.Bytes.{from_le_bytes}
use usbvfiod.Trb.TrbTypes
use usbvfiod.Trb.Types.{
  RawTrbBuffer, byte, trb_type, flag, pointer, TrbParseError, unknown_trb_type, ParseResult, ok,
  err, checked,
}

pub record NormalTrbData : Type 0 where
  pub data_pointer : ℕ
  pub transfer_length : ℕ
  pub chain : Bool
  pub interrupt_on_completion : Bool
  pub interrupt_on_short : Bool
  pub immediate_data : Bool

pub record SetupStageTrbData : Type 0 where
  pub request_type : ℕ
  pub request : ℕ
  pub value : ℕ
  pub index : ℕ
  pub length : ℕ
  pub interrupt_on_completion : Bool

pub record DataStageTrbData : Type 0 where
  pub data_pointer : ℕ
  pub transfer_length : ℕ
  pub chain : Bool
  pub interrupt_on_completion : Bool
  pub immediate_data : Bool
  pub direction : Bool

pub record StatusStageTrbData : Type 0 where
  pub chain : Bool
  pub interrupt_on_completion : Bool
  pub direction : Bool

pub record EventDataTrbData : Type 0 where
  pub event_data : ℕ
  pub chain : Bool
  pub interrupt_on_completion : Bool

pub record NoOpTrbData : Type 0 where
  pub chain : Bool
  pub interrupt_on_completion : Bool

pub data TransferTrbVariant : Type 0 where
  normal : NormalTrbData → TransferTrbVariant
  setup_stage : SetupStageTrbData → TransferTrbVariant
  data_stage : DataStageTrbData → TransferTrbVariant
  status_stage : StatusStageTrbData → TransferTrbVariant
  isoch : TransferTrbVariant
  event_data : EventDataTrbData → TransferTrbVariant
  no_op : NoOpTrbData → TransferTrbVariant
  unrecognized : RawTrbBuffer → TrbParseError → TransferTrbVariant

pub record TransferTrb : Type 0 where
  pub address : ℕ
  pub variant : TransferTrbVariant

unfoldable pub parse_normal : RawTrbBuffer → Option (ParseResult NormalTrbData)
parse_normal b = checked TrbTypes.normal b (
    ok (record {
      data_pointer = pointer b;
      transfer_length = from_le_bytes (byte b 8 ∷ byte b 9 ∷ bit_and (byte b 10) 0x01 ∷ 0 ∷ []);
      chain = flag b 12 0x10;
      interrupt_on_completion = flag b 12 0x20;
      interrupt_on_short = flag b 12 0x04;
      immediate_data = flag b 12 0x40;
    }))

-- `trb_bytes[i] as u16 + ((trb_bytes[i + 1] as u16) << 8)`
abbrev pub word : RawTrbBuffer → ℕ → ℕ
word b i = byte b i + byte b (i + 1) * 2 ^ 8 % 2 ^ 16

unfoldable pub parse_setup_stage : RawTrbBuffer → Option (ParseResult SetupStageTrbData)
parse_setup_stage b = checked TrbTypes.setup_stage b (
    ok (record {
      request_type = byte b 0;
      request = byte b 1;
      value = word b 2;
      index = word b 4;
      length = word b 6;
      interrupt_on_completion = flag b 12 0x20;
    }))

unfoldable pub parse_data_stage : RawTrbBuffer → Option (ParseResult DataStageTrbData)
parse_data_stage b = checked TrbTypes.data_stage b (
    ok (record {
      data_pointer = pointer b;
      transfer_length = from_le_bytes (take 2 (drop 8 b));
      chain = flag b 12 0x10;
      interrupt_on_completion = flag b 12 0x20;
      immediate_data = flag b 12 0x40;
      direction = flag b 14 0x1;
    }))

unfoldable pub parse_status_stage : RawTrbBuffer → Option (ParseResult StatusStageTrbData)
parse_status_stage b = checked TrbTypes.status_stage b (
    ok (record {
      chain = flag b 12 0x10;
      interrupt_on_completion = flag b 12 0x20;
      direction = flag b 14 0x1;
    }))

unfoldable pub parse_event_data : RawTrbBuffer → Option (ParseResult EventDataTrbData)
parse_event_data b = checked TrbTypes.event_data b (
    ok (record {
      event_data = pointer b;
      chain = flag b 12 0x10;
      interrupt_on_completion = flag b 12 0x20;
    }))

unfoldable pub parse_no_op : RawTrbBuffer → Option (ParseResult NoOpTrbData)
parse_no_op b =
    checked TrbTypes.no_op b
      (ok (record { chain = flag b 12 0x10; interrupt_on_completion = flag b 12 0x20 }))

-- The generic `parse` with `TrbVariant::unrecognized` for transfers.
abbrev pub variant_of :
    {A : Type 0}
    → (A → TransferTrbVariant)
    → RawTrbBuffer
    → Option (ParseResult A)
    → Option TransferTrbVariant
variant_of constructor b none = none
variant_of constructor b (some (ok d)) = some (constructor d)
variant_of constructor b (some (err e)) = some (unrecognized b e)

-- The arms of the `match` in `TransferTrbVariant::parse`.
unfoldable pub parse_type : ℕ → RawTrbBuffer → Option TransferTrbVariant
parse_type t b =
    if t == TrbTypes.normal
    then variant_of normal b (parse_normal b)
    else if t == TrbTypes.setup_stage
    then variant_of setup_stage b (parse_setup_stage b)
    else if t == TrbTypes.data_stage
    then variant_of data_stage b (parse_data_stage b)
    else if t == TrbTypes.status_stage
    then variant_of status_stage b (parse_status_stage b)
    else if t == TrbTypes.isoch
    then some isoch
    else if t == TrbTypes.event_data
    then variant_of event_data b (parse_event_data b)
    else if t == TrbTypes.no_op
    then variant_of no_op b (parse_no_op b)
    else some (unrecognized b (unknown_trb_type t))

-- `TransferTrbVariant::parse`; `none` is a failed assertion of a parser.
unfoldable pub parse : RawTrbBuffer → Option TransferTrbVariant
unfolding parse_type
parse b = parse_type (trb_type b) b
