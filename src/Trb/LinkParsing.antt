-- ===== src/Trb/LinkParsing.antt =====
-- The link block of src/device/xhci/trb.rs (xHCI specification, section 6.4.4.1).
use usbvfiod.Prelude.{
  ℕ, ◌+◌, ◌*◌, ◌/◌, ◌^◌, ◌<◌, ◌≡◌, ◌≢◌, Bool, not, none, some, [], ◌∷◌, ◌++◌, ◌==◌, arith, bit_and,
}
use usbvfiod.Prelude.Bits.{bit_and_15, bit_and-not_15}
use usbvfiod.Prelude.Bytes.{to_le_bytes, from_le_bytes-to_le_bytes}
use usbvfiod.Trb.TrbTypes
use usbvfiod.Trb.Types.{RawTrbBuffer, bit, trb_type}
use usbvfiod.Trb.Link.{align_segment, parse}

align_segment_lem : (p : ℕ) → p < 2 ^ 64 → align_segment p ≡ p / 16 * 16
unfolding align_segment
align_segment_lem p h = ground (arith, bit_and_15 p, bit_and-not_15 p h)

-- A link block as a driver lays it out.
pub link_bytes : ℕ → Bool → Bool → Bool → Bool → RawTrbBuffer
link_bytes p cycle toggle chain completion =
    to_le_bytes 8 p
    ++ (0
        ∷ 0
        ∷ 0
        ∷ 0
        ∷ (bit cycle + 2 * bit toggle + 16 * bit chain + 32 * bit completion)
        ∷ 24
        ∷ 0
        ∷ 0
        ∷ [])

link_flags :
    (cycle toggle chain completion : Bool)
    → (not (bit_and (bit cycle + 2 * bit toggle + 16 * bit chain + 32 * bit completion) 0x2 == 0)
        ≡ toggle)
      × (not (bit_and (bit cycle + 2 * bit toggle + 16 * bit chain + 32 * bit completion) 0x20 == 0)
          ≡ completion)
link_flags cycle toggle chain completion = ground arith

-- A link that a driver lays out is parsed with its flags, and with its pointer aligned down to a
-- multiple of 16, for every 64-bit pointer.
pub parse-link_bytes :
    (p : ℕ) (cycle toggle chain completion : Bool)
    → p < 2 ^ 64
    → parse (link_bytes p cycle toggle chain completion)
      ≡ some (record {
        ring_segment_pointer = p / 16 * 16;
        toggle_cycle = toggle;
        interrupt_on_completion = completion;
      })
unfolding parse link_bytes
parse-link_bytes p cycle toggle chain completion h = ground (
  arith,
  link_flags cycle toggle chain completion,
  from_le_bytes-to_le_bytes 8 p,
  align_segment_lem p h,
)

-- A block of another type is no link.
pub parse-other : (b : RawTrbBuffer) → trb_type b ≢ TrbTypes.link → parse b ≡ none
unfolding parse
parse-other b h = ground arith
