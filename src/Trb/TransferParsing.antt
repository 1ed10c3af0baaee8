-- ===== src/Trb/TransferParsing.antt =====
-- The transfer blocks that a driver lays out (xHCI specification, section 6.4.1), as
-- src/device/xhci/trb.rs parses them.
use usbvfiod.Prelude.{
  ℕ, ◌+◌, ◌*◌, ◌/◌, ◌%◌, ◌^◌, ◌<◌, ◌≡◌, ◌≢◌, refl, Bool, false, not, ◌==◌, bit_and, none, some, [],
  ◌∷◌, ◌++◌, arith,
}
use usbvfiod.Prelude.Bits.{bit_and_1}
use usbvfiod.Prelude.Bytes.{to_le_bytes, from_le_bytes-to_le_bytes}
use usbvfiod.Trb.Types.{RawTrbBuffer, bit}
use usbvfiod.Trb.Transfer.{
  TransferTrbVariant, normal, setup_stage, data_stage, status_stage, isoch, event_data, no_op,
  unrecognized, parse, parse_normal, parse_setup_stage, parse_data_stage, parse_status_stage,
  parse_event_data, parse_no_op,
}

-- The flags of the last word of a transfer block.
pub record Flags : Type 0 where
  pub cycle : Bool
  pub short : Bool
  pub chain : Bool
  pub completion : Bool
  pub immediate : Bool

abbrev flags : Bool → Bool → Bool → Bool → Bool → Flags
flags cycle short chain completion immediate = record {
  cycle = cycle;
  short = short;
  chain = chain;
  completion = completion;
  immediate = immediate;
}

pub flag_byte : Flags → ℕ
flag_byte f =
    bit f.cycle + 4 * bit f.short + 16 * bit f.chain + 32 * bit f.completion + 64 * bit f.immediate

flag_tests :
    (f : Flags)
    → (not (bit_and (flag_byte f) 0x10 == 0) ≡ f.chain)
      × (not (bit_and (flag_byte f) 0x20 == 0) ≡ f.completion)
      × (not (bit_and (flag_byte f) 0x04 == 0) ≡ f.short)
      × (not (bit_and (flag_byte f) 0x40 == 0) ≡ f.immediate)
unfolding flag_byte
flag_tests f = ground arith

-- A block with the parameter `p`, a transfer length, flags, a type and a direction.
pub transfer_bytes : ℕ → ℕ → Flags → ℕ → Bool → RawTrbBuffer
transfer_bytes p transfer_length f kind direction =
    to_le_bytes 8 p
    ++ to_le_bytes 4 transfer_length
    ++ (flag_byte f ∷ (kind * 4) ∷ bit direction ∷ 0 ∷ [])

-- How a driver lays a block out. What the controller does not recognise is no block.
pub encode_transfer : Bool → TransferTrbVariant → RawTrbBuffer
unfolding transfer_bytes
encode_transfer c (normal d) =
    transfer_bytes d.data_pointer d.transfer_length
      (flags c d.interrupt_on_short d.chain d.interrupt_on_completion d.immediate_data) 1 false
encode_transfer c (setup_stage d) =
    (d.request_type ∷ d.request ∷ [])
    ++ (to_le_bytes 2 d.value
        ++ (to_le_bytes 2 d.index
            ++ (to_le_bytes 2 d.length
                ++ (8
                    ∷ 0
                    ∷ 0
                    ∷ 0
                    ∷ (bit c + 32 * bit d.interrupt_on_completion + 64)
                    ∷ 8
                    ∷ 0
                    ∷ 0
                    ∷ []))))
encode_transfer c (data_stage d) =
    transfer_bytes d.data_pointer d.transfer_length
      (flags c false d.chain d.interrupt_on_completion d.immediate_data) 3 d.direction
encode_transfer c (status_stage d) =
    transfer_bytes 0 0 (flags c false d.chain d.interrupt_on_completion false) 4 d.direction
encode_transfer c isoch = transfer_bytes 0 0 (flags c false false false false) 5 false
encode_transfer c (event_data d) =
    transfer_bytes d.event_data 0 (flags c false d.chain d.interrupt_on_completion false) 7 false
encode_transfer c (no_op d) =
    transfer_bytes 0 0 (flags c false d.chain d.interrupt_on_completion false) 8 false
encode_transfer c (unrecognized b e) = []

-- Values that fit their fields. The length of a normal block has 17 bits; of a data stage the
-- controller reads 16.
abbrev pub InRange : TransferTrbVariant → Type 0
InRange (normal d) = (d.data_pointer < 2 ^ 64) × (d.transfer_length < 2 ^ 17)
InRange (setup_stage d) = (d.value < 2 ^ 16) × (d.index < 2 ^ 16) × (d.length < 2 ^ 16)
InRange (data_stage d) = (d.data_pointer < 2 ^ 64) × (d.transfer_length < 2 ^ 16)
InRange (event_data d) = d.event_data < 2 ^ 64
InRange (unrecognized b e) = ⊥
InRange _ = Unit

setup_tests : (c i : Bool) → not (bit_and (bit c + 32 * bit i + 64) 0x20 == 0) ≡ i
setup_tests c i = ground arith

-- No block makes `TransferTrbVariant::parse` panic.
pub parse_transfer-ne-none : (b : RawTrbBuffer) → parse b ≢ none
unfolding parse parse_normal parse_setup_stage parse_data_stage parse_status_stage parse_event_data
    parse_no_op
parse_transfer-ne-none b = ground arith

-- What a driver lays out is parsed as the block that it meant, whatever the cycle bit.
pub parse-encode_transfer :
    (cycle : Bool) (v : TransferTrbVariant) → InRange v → parse (encode_transfer cycle v) ≡ some v
unfolding parse encode_transfer parse_normal parse_setup_stage parse_data_stage parse_status_stage
    parse_event_data parse_no_op
parse-encode_transfer cycle (normal d) h = ground (
  arith,
  flag_tests (flags cycle d.interrupt_on_short d.chain d.interrupt_on_completion d.immediate_data),
  from_le_bytes-to_le_bytes 8 d.data_pointer,
  bit_and_1 (d.transfer_length / 256 / 256 % 256),
)
parse-encode_transfer cycle (setup_stage d) h =
    ground (arith, setup_tests cycle d.interrupt_on_completion)
parse-encode_transfer cycle (data_stage d) h = ground (
  arith,
  flag_tests (flags cycle false d.chain d.interrupt_on_completion d.immediate_data),
  from_le_bytes-to_le_bytes 8 d.data_pointer,
)
parse-encode_transfer cycle (status_stage d) h =
    ground (arith, flag_tests (flags cycle false d.chain d.interrupt_on_completion false))
parse-encode_transfer cycle isoch h = refl
parse-encode_transfer cycle (event_data d) h = ground (
  arith,
  flag_tests (flags cycle false d.chain d.interrupt_on_completion false),
  from_le_bytes-to_le_bytes 8 d.event_data,
)
parse-encode_transfer cycle (no_op d) h =
    ground (arith, flag_tests (flags cycle false d.chain d.interrupt_on_completion false))
parse-encode_transfer cycle (unrecognized b e) h = absurd h
