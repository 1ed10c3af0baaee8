-- ===== src/LinkedRing/Tests.antt =====
-- src/device/xhci/linked_ring.rs at a ring whose second block is a link back to its first.
use usbvfiod.Prelude.{ℕ, ◌==◌, ◌≡◌, refl, true, false, some, [], ◌∷◌, if◌then◌else◌, subst, sym}
use usbvfiod.Bus.Device.{Device}
use usbvfiod.Trb.Types.{RawTrbBuffer, zeroed_trb_buffer}
use usbvfiod.Trb.Link
use usbvfiod.LinkedRing.{LinkedRing, RawTrb, fresh, follow, follow_links, next_trb, next_trb_raw}
use usbvfiod.LinkedRing.Walk.{led_by, IsLink}
use usbvfiod.LinkedRing.Freshness.{AllLinks}

-- A no-op command with the cycle bit set, and a link to 0x1000.
abbrev no_op_block : RawTrbBuffer
no_op_block = 0 ∷ 0 ∷ 0 ∷ 0 ∷ 0 ∷ 0 ∷ 0 ∷ 0 ∷ 0 ∷ 0 ∷ 0 ∷ 0 ∷ 1 ∷ 92 ∷ 0 ∷ 0 ∷ []

abbrev link_block : RawTrbBuffer
link_block = 0 ∷ 16 ∷ 0 ∷ 0 ∷ 0 ∷ 0 ∷ 0 ∷ 0 ∷ 0 ∷ 0 ∷ 0 ∷ 0 ∷ 1 ∷ 24 ∷ 0 ∷ 0 ∷ []

-- Blocks at 0x1000 and 0x1010, the link at 0x1020, and a link to 0x1000 at 0x1000 in `looping`.
abbrev blocks : ℕ → RawTrbBuffer
blocks a =
    if a == 0x1000
    then no_op_block
    else if a == 0x1010
    then no_op_block
    else if a == 0x1020
    then link_block
    else zeroed_trb_buffer

abbrev looping : ℕ → RawTrbBuffer
looping a = link_block

abbrev memory_of : (ℕ → RawTrbBuffer) → Device (Unit {0})
memory_of mem = record {
  size = 0x2000;
  read = λ req s. some (0, s);
  write = λ req v s. some (tt, s);
  read_bulk = λ a n s. some (mem a, s);
  write_bulk = λ a bs s. some (tt, s);
}

abbrev ring_at : ℕ → LinkedRing
ring_at a = record { dequeue_pointer = a; cycle_state = true }

abbrev block_at : ℕ → RawTrb
block_at a = record { address = a; buffer = no_op_block }

first_block :
    next_trb (memory_of blocks) (ring_at 0x1000) tt
    ≡ some ((some (block_at 0x1000), ring_at 0x1000), tt)
unfolding next_trb next_trb_raw fresh follow_links Link.parse
first_block = refl

over_link :
    next_trb (memory_of blocks) (ring_at 0x1020) tt
    ≡ some ((some (block_at 0x1000), ring_at 0x1000), tt)
unfolding next_trb next_trb_raw fresh follow_links follow Link.parse Link.align_segment
over_link = refl

abbrev link_to_start : Link.LinkTrb
link_to_start = record {
  ring_segment_pointer = 0x1000;
  toggle_cycle = false;
  interrupt_on_completion = false;
}

abbrev AtStart : LinkedRing → Type 0
AtStart ring = ring ≡ ring_at 0x1000

looping-IsLink : IsLink looping (ring_at 0x1000) link_to_start
unfolding Link.parse Link.align_segment
looping-IsLink = record { is_fresh = refl; parsed = refl }

stays : AtStart (led_by (ring_at 0x1000) link_to_start)
stays = refl

looping-AllLinks : AllLinks looping AtStart
looping-AllLinks ring p = (
  link_to_start,
  subst (λ r. IsLink looping r link_to_start) (sym p) looping-IsLink,
  subst (λ r. AtStart (led_by r link_to_start)) (sym p) stays,
)
