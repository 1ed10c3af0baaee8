-- ===== src/Endpoint/Context.antt =====
-- `EndpointContext` of src/device/xhci/slot_manager.rs: the state and the dequeue pointer of an endpoint
-- in guest memory.
use usbvfiod.Prelude.{
  ℕ, ◌-◌, ◌/◌, ◌^◌, ◌==◌, if◌then◌else◌, Bool, not, M, pure, panic, ◌>>=◌, bit_and, bit_or, bit_xor,
}
use usbvfiod.Bus.Request.{size1, size8}
use usbvfiod.Bus.Device.{Device}
use usbvfiod.Trb.Types.{bit}
use usbvfiod.SlotManager.Slot.{wrapping_add}

pub data EndpointType : Type 0 where
  bulk_out bulk_in control interrupt_in interrupt_out unsupported : EndpointType

-- The `match` of `get_endpoint_type`.
unfoldable pub endpoint_type : ℕ → EndpointType
endpoint_type val =
    if val == 2
    then bulk_out
    else if val == 6
    then bulk_in
    else if val == 4
    then control
    else if val == 7
    then interrupt_in
    else if val == 3
    then interrupt_out
    else unsupported

-- The word that holds a dequeue pointer and a cycle state.
abbrev pub pointer_word : ℕ → Bool → ℕ
pointer_word dequeue_pointer cycle_state = bit_or dequeue_pointer (bit cycle_state)

module _ {S : Type 0} (dma : Device S) (address : ℕ) where
  -- `!0xf` on 64 bits is `0xfffffffffffffff0`.
  unfoldable pub get_dequeue_pointer_and_cycle_state : M S (ℕ × Bool)
  get_dequeue_pointer_and_cycle_state = do
    bytes ← dma.read (record { addr = wrapping_add address 8; size = size8 })
    pure (bit_and bytes (bit_xor 0xf (2 ^ 64 - 1)), not (bit_and bytes 0x1 == 0))

  unfoldable pub set_dequeue_pointer_and_cycle_state : ℕ → Bool → M S (Unit {0})
  set_dequeue_pointer_and_cycle_state dequeue_pointer cycle_state =
      if bit_and dequeue_pointer 0xf == 0
      then dma.write (record { addr = wrapping_add address 8; size = size8 })
          (pointer_word dequeue_pointer cycle_state)
      else panic

  unfoldable pub set_state : ℕ → M S (Unit {0})
  set_state state = dma.write (record { addr = address; size = size1 }) state

  unfoldable pub get_endpoint_type : M S EndpointType
  unfolding endpoint_type
  get_endpoint_type = do
    guest_mem_byte ← dma.read (record { addr = wrapping_add address 4; size = size1 })
    pure (endpoint_type (bit_and (guest_mem_byte / 2 ^ 3) 0x7))
