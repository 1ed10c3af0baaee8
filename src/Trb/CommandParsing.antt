-- ===== src/Trb/CommandParsing.antt =====
-- The commands that a driver lays out (xHCI specification, section 6.4.3), as src/device/xhci/trb.rs
-- parses them.
use usbvfiod.Prelude.{
  ℕ, ◌+◌, ◌*◌, ◌/◌, ◌%◌, ◌^◌, ◌<◌, ◌≡◌, ◌≢◌, refl, Bool, false, none, some, [], ◌∷◌, ◌++◌, arith,
  bit_and, ◌==◌, ==_iff,
}
use usbvfiod.Prelude.Bits.{bit_and_1, bit_and_15, bit_and_31, holds_below, holds_below-at}
use usbvfiod.Prelude.Bytes.{to_le_bytes, from_le_bytes-to_le_bytes}
use usbvfiod.Trb.Types.{RawTrbBuffer, bit}
use usbvfiod.Trb.Command.{
  CommandTrbVariant, no_op, enable_slot, disable_slot, address_device, configure_endpoint,
  evaluate_context, reset_endpoint, stop_endpoint, set_tr_dequeue_pointer, reset_device,
  force_header, unrecognized, parse, parse_disable_slot, parse_address_device,
  parse_configure_endpoint, parse_evaluate_context, parse_reset_endpoint, parse_stop_endpoint,
  parse_set_tr_dequeue_pointer, parse_reset_device,
}

-- A command with the parameter `p`, the cycle bit, the type `kind`, bit 9 of its last word, an
-- endpoint and a slot.
pub command_bytes : ℕ → Bool → ℕ → Bool → ℕ → ℕ → RawTrbBuffer
command_bytes p cycle kind bit_9 endpoint slot =
    to_le_bytes 8 p
    ++ (0 ∷ 0 ∷ 0 ∷ 0 ∷ bit cycle ∷ (kind * 4 + 2 * bit bit_9) ∷ endpoint ∷ slot ∷ [])

-- How a driver lays a command out. `Set TR Dequeue Pointer` is below, and what the controller does
-- not recognise is no command.
pub encode_command : Bool → CommandTrbVariant → RawTrbBuffer
unfolding command_bytes
encode_command c no_op = command_bytes 0 c 23 false 0 0
encode_command c enable_slot = command_bytes 0 c 9 false 0 0
encode_command c (disable_slot d) = command_bytes 0 c 10 false 0 d.slot_id
encode_command c (address_device d) =
    command_bytes d.input_context_pointer c 11 d.block_set_address_request 0 d.slot_id
encode_command c (configure_endpoint d) =
    command_bytes d.input_context_pointer c 12 d.deconfigure 0 d.slot_id
encode_command c (evaluate_context d) = command_bytes d.input_context_pointer c 13 false 0 d.slot_id
encode_command c (reset_endpoint d) = command_bytes 0 c 14 false d.endpoint_id d.slot_id
encode_command c (stop_endpoint d) = command_bytes 0 c 15 false d.endpoint_id d.slot_id
encode_command c (set_tr_dequeue_pointer d) = []
encode_command c (reset_device d) = command_bytes 0 c 17 false 0 d.slot_id
encode_command c force_header = command_bytes 0 c 22 false 0 0
encode_command c (unrecognized b e) = []

abbrev IsAligned : ℕ → Type 0
IsAligned p = (p < 2 ^ 64) × (p % 16 ≡ 0)

-- The commands of the layout above, with values that fit their fields.
abbrev pub InRange : CommandTrbVariant → Type 0
InRange (address_device d) = IsAligned d.input_context_pointer
InRange (configure_endpoint d) = IsAligned d.input_context_pointer
InRange (evaluate_context d) = IsAligned d.input_context_pointer
InRange (reset_endpoint d) = d.endpoint_id < 32
InRange (stop_endpoint d) = d.endpoint_id < 32
InRange (set_tr_dequeue_pointer d) = ⊥
InRange (unrecognized b e) = ⊥
InRange _ = Unit

-- Every command but Set TR Dequeue Pointer that a driver lays out is parsed as the command that it
-- meant, whatever the cycle bit, where its pointer to an input context is a multiple of 16 below 2 ^ 64
-- and its endpoint's number is below 32. Unrecognised blocks are no commands here.
pub parse-encode_command :
    (cycle : Bool) (v : CommandTrbVariant) → InRange v → parse (encode_command cycle v) ≡ some v
unfolding parse encode_command parse_disable_slot parse_address_device parse_configure_endpoint
    parse_evaluate_context parse_reset_endpoint parse_stop_endpoint parse_reset_device
parse-encode_command cycle no_op h = refl
parse-encode_command cycle enable_slot h = refl
parse-encode_command cycle (disable_slot d) h = ground arith
parse-encode_command cycle (address_device d) h =
    ground (
      arith,
      from_le_bytes-to_le_bytes 8 d.input_context_pointer,
      bit_and_15 d.input_context_pointer,
    )
parse-encode_command cycle (configure_endpoint d) h =
    ground (
      arith,
      from_le_bytes-to_le_bytes 8 d.input_context_pointer,
      bit_and_15 d.input_context_pointer,
    )
parse-encode_command cycle (evaluate_context d) h =
    ground (
      arith,
      from_le_bytes-to_le_bytes 8 d.input_context_pointer,
      bit_and_15 d.input_context_pointer,
    )
parse-encode_command cycle (reset_endpoint d) h = ground (arith, bit_and_31 d.endpoint_id)
parse-encode_command cycle (stop_endpoint d) h = ground (arith, bit_and_31 d.endpoint_id)
parse-encode_command cycle (set_tr_dequeue_pointer d) h = absurd h
parse-encode_command cycle (reset_device d) h = ground arith
parse-encode_command cycle force_header h = refl
parse-encode_command cycle (unrecognized b e) h = absurd h

-- No block makes `CommandTrbVariant::parse` panic: each parser is called for its own type only.
pub parse_command-ne-none : (b : RawTrbBuffer) → parse b ≢ none
unfolding parse parse_disable_slot parse_address_device parse_configure_endpoint
    parse_evaluate_context parse_reset_endpoint parse_stop_endpoint parse_set_tr_dequeue_pointer
    parse_reset_device
parse_command-ne-none b = ground arith

-- The masks of the lowest byte of a dequeue pointer.
mask_tables :
    (y : ℕ)
    → y < 256
    → (bit_and y 0xe ≡ y % 16 / 2 * 2) × (bit_and y 0xf0 ≡ y / 16 * 16) × (bit_and y 1 ≡ y % 2)
unfolding holds_below
mask_tables y h = (
  (==_iff _ _).0 (holds_below-at (λ y. bit_and y 0xe == y % 16 / 2 * 2) 256 y h refl),
  (==_iff _ _).0 (holds_below-at (λ y. bit_and y 0xf0 == y / 16 * 16) 256 y h refl),
  bit_and_1 y,
)

-- `Set TR Dequeue Pointer` (section 6.4.3.9): the pointer's lowest four bits hold the cycle state
-- and the stream context type, and the stream is in the two bytes before the cycle bit.
pub set_tr_dequeue_pointer_bytes : ℕ → Bool → ℕ → ℕ → Bool → ℕ → ℕ → RawTrbBuffer
set_tr_dequeue_pointer_bytes p dcs sct stream cycle endpoint slot =
    to_le_bytes 8 (p + 2 * sct + bit dcs)
    ++ (0 ∷ 0 ∷ (stream % 256) ∷ (stream / 256) ∷ bit cycle ∷ 64 ∷ endpoint ∷ slot ∷ [])

-- `Set TR Dequeue Pointer` is parsed with the pointer, the cycle state, the endpoint and the slot that
-- were laid out, where the pointer is a multiple of 16 below 2 ^ 64, the stream context type below 8
-- and the endpoint below 32. The stream context type comes out doubled, and the stream as its high
-- byte, with the cycle bit as the byte above.
pub parse-set_tr_dequeue_pointer_bytes :
    (p : ℕ) (dcs : Bool) (sct stream : ℕ) (cycle : Bool) (endpoint slot : ℕ)
    → p < 2 ^ 64
    → p % 16 ≡ 0
    → sct < 8
    → endpoint < 32
    → parse (set_tr_dequeue_pointer_bytes p dcs sct stream cycle endpoint slot)
      ≡ some (
          set_tr_dequeue_pointer (record {
            dequeue_cycle_state = dcs;
            stream_context_type = 2 * sct;
            dequeue_pointer = p;
            stream_id = stream / 256 + 256 * bit cycle;
            endpoint_id = endpoint;
            slot_id = slot;
          }))
unfolding parse parse_set_tr_dequeue_pointer set_tr_dequeue_pointer_bytes
parse-set_tr_dequeue_pointer_bytes p dcs sct stream cycle endpoint slot hp ha hs he =
    let q = p + 2 * sct + bit dcs in
    let (low, high, one) = mask_tables (q % 256) (omega arith) in
    ground (arith, low, high, one, bit_and_31 endpoint, from_le_bytes-to_le_bytes 8 q)
