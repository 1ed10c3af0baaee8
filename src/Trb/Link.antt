-- ===== src/Trb/Link.antt =====
-- The link block of src/device/xhci/trb.rs.
use usbvfiod.Prelude.{ℕ, ◌-◌, ◌==◌, ◌^◌, if◌then◌else◌, Bool, Option, none, some, bit_and, bit_xor}
use usbvfiod.Trb.TrbTypes
use usbvfiod.Trb.Types.{RawTrbBuffer, trb_type, flag, pointer}

pub record LinkTrb : Type 0 where
  pub ring_segment_pointer : ℕ
  pub toggle_cycle : Bool
  pub interrupt_on_completion : Bool

-- `pointer & !0xf`, done where one of the lowest four bits is set.
unfoldable pub align_segment : ℕ → ℕ
align_segment p = if bit_and p 0xf == 0 then p else bit_and p (bit_xor 0xf (2 ^ 64 - 1))

-- `LinkTrb::parse`
unfoldable pub parse : RawTrbBuffer → Option LinkTrb
parse b =
    if trb_type b == TrbTypes.link
    then some (record {
      ring_segment_pointer = align_segment (pointer b);
      toggle_cycle = flag b 12 0x2;
      interrupt_on_completion = flag b 12 0x20;
    })
    else none
