-- ===== src/SlotManager/Slot.antt =====
-- `Slot` of src/device/xhci/slot_manager.rs.
use usbvfiod.Prelude.{
  ℕ, zero, suc, ◌+◌, ◌-◌, ◌*◌, ◌%◌, ◌^◌, ◌==◌, Bool, not, if◌then◌else◌, Option, none, some, List,
  [], ◌∷◌, M, pure, panic, ◌>>=◌, bit_and, get_elem?, set, replicate, ltb, length,
}
use usbvfiod.Bus.Request.{size1, size8, u64_mod}
use usbvfiod.Bus.Device.{Device}
use usbvfiod.Trb.Types.{CompletionCode, success, context_state_error}
use usbvfiod.SlotManager.{Answer, done, Workers, ◌>>?◌}

pub data SlotState : Type 0 where
  enabled : SlotState
  default addressed configured : ℕ → SlotState

pub record Slot (E : Type 0) : Type 0 where
  pub id : ℕ
  pub state : SlotState
  pub dcbaae : ℕ
  pub endpoint_senders : List (Option E)

-- `index.wrapping_sub(1)` in `OneIndexed`.
abbrev pub one_indexed : ℕ → ℕ
one_indexed index = (index + (u64_mod - 1)) % u64_mod

-- A pointer after `wrapping_add`.
abbrev pub wrapping_add : ℕ → ℕ → ℕ
wrapping_add a b = (a + b) % u64_mod

-- `bits & (1 << i) != 0`
abbrev pub has_flag : ℕ → ℕ → Bool
has_flag bits i = not (bit_and bits (2 ^ i) == 0)

-- The set bits of `bits` among the `n` numbers from `i` on.
unfoldable pub flagged : ℕ → ℕ → ℕ → List ℕ
flagged bits i zero = []
flagged bits i (suc n) =
    let rest = flagged bits (i + 1) n in if has_flag bits i then i ∷ rest else rest

abbrev flatten : {E : Type 0} → Option (Option E) → Option E
flatten none = none
flatten (some o) = o

-- `Slot::new`
unfoldable pub new : {E : Type 0} → ℕ → ℕ → Slot E
new id dcbaae = record {
  id = id;
  state = enabled;
  dcbaae = dcbaae;
  endpoint_senders = replicate 31 none;
}

-- `Slot::endpoint_sender`
unfoldable pub endpoint_sender : {E : Type 0} → Slot E → ℕ → Option E
endpoint_sender slot endpoint_id =
    flatten (get_elem? slot.endpoint_senders (one_indexed endpoint_id))

-- `endpoint_senders[endpoint_id] = value`, which panics on an index out of bounds.
unfoldable pub put_sender : {S E : Type 0} → Slot E → ℕ → Option E → M S (Answer (Slot E))
put_sender slot endpoint_id value =
    if ltb (one_indexed endpoint_id) (length slot.endpoint_senders)
    then pure (
        done (record slot {
          endpoint_senders = set slot.endpoint_senders (one_indexed endpoint_id) value;
        }))
    else panic

module _ {S E : Type 0} (dma : Device S) (workers : Workers S E) where
  write_state_at : ℕ → ℕ → M S (Unit {0})
  write_state_at base_address state =
      dma.write (record { addr = wrapping_add base_address 15; size = size1 }) (state * 2 ^ 3 % 256)

  -- `Slot::write_slot_state`
  unfoldable pub write_slot_state : SlotState → M S (Unit {0})
  unfolding write_state_at
  write_slot_state enabled = panic
  write_slot_state (default base_address) = write_state_at base_address 1
  write_slot_state (addressed base_address) = write_state_at base_address 2
  write_slot_state (configured base_address) = write_state_at base_address 3

  -- `Slot::dma_copy_slot_context`
  unfoldable pub dma_copy_slot_context : ℕ → ℕ → M S (Unit {0})
  dma_copy_slot_context input_context_pointer base_address = do
    context_buffer ← dma.read_bulk (wrapping_add input_context_pointer 32) 32
    dma.write_bulk base_address context_buffer

  -- `Slot::dma_copy_ep_context`
  unfoldable pub dma_copy_ep_context : ℕ → ℕ → ℕ → M S (Unit {0})
  dma_copy_ep_context endpoint_id input_context_pointer base_address = do
    context_buffer ← dma.read_bulk (wrapping_add input_context_pointer ((endpoint_id + 1) * 32)) 32
    dma.write_bulk (wrapping_add base_address (endpoint_id * 32)) context_buffer

  -- `Slot::root_hub_port`
  unfoldable pub root_hub_port : ℕ → M S ℕ
  root_hub_port base_address = do
    value ← dma.read (record { addr = wrapping_add base_address 6; size = size1 })
    pure (value % 256)

  -- `Slot::deconfigure_endpoint`
  unfoldable pub deconfigure_endpoint : Slot E → ℕ → M S (Answer (Slot E))
  unfolding put_sender
  deconfigure_endpoint slot endpoint_id = elim (endpoint_sender slot endpoint_id) [
    | some ep_sender ↦ workers.terminate ep_sender >>? λ _. put_sender slot endpoint_id none
    | none ↦ pure (done slot)
  ]

  -- `Slot::configure_endpoint`
  unfoldable pub configure_endpoint : Slot E → ℕ → ℕ → M S (Answer (Slot E))
  unfolding root_hub_port put_sender
  configure_endpoint slot endpoint_id base_address = root_hub_port base_address >>= λ port.
      workers.request_launch slot.id endpoint_id port (wrapping_add base_address (endpoint_id * 32))
      >>? λ ep_sender. put_sender slot endpoint_id (some ep_sender)

  -- The end of `handle_address_device`, below its `match`.
  unfoldable pub enter_address : Slot E → ℕ → ℕ → M S (Answer (CompletionCode × Slot E))
  unfolding dma_copy_slot_context write_slot_state dma_copy_ep_context configure_endpoint
  enter_address slot input_context_pointer base_address =
      dma_copy_slot_context input_context_pointer base_address >>= λ _.
      write_slot_state slot.state >>= λ _.
      dma_copy_ep_context 1 input_context_pointer base_address >>= λ _.
      configure_endpoint slot 1 base_address >>? λ slot'. pure (done (success, slot'))

  -- `Slot::handle_address_device`; its check of the input context accepts every pointer.
  unfoldable pub handle_address_device : Slot E → ℕ → Bool → M S (Answer (CompletionCode × Slot E))
  unfolding enter_address deconfigure_endpoint
  handle_address_device slot input_context_pointer bsr = elim slot.state [
    | enabled ↦ dma.read (record { addr = slot.dcbaae; size = size8 }) >>= λ base_address.
        enter_address
          (record slot { state = if bsr then default base_address else addressed base_address })
          input_context_pointer base_address
    | default base_address ↦
        if bsr
        then pure (done (context_state_error, slot))
        else (deconfigure_endpoint slot 1 >>? λ slot'.
            enter_address (record slot' { state = addressed base_address }) input_context_pointer
              base_address)
    | addressed base_address ↦ pure (done (context_state_error, slot))
    | configured base_address ↦ pure (done (context_state_error, slot))
  ]

  -- The loops over endpoints that are to be disabled, and to be enabled.
  unfoldable pub deconfigure_all : Slot E → List ℕ → M S (Answer (Slot E))
  deconfigure_all slot [] = pure (done slot)
  deconfigure_all slot (ep_id ∷ ep_ids) =
      deconfigure_endpoint slot ep_id >>? λ slot'. deconfigure_all slot' ep_ids

  unfoldable pub configure_all : Slot E → ℕ → ℕ → List ℕ → M S (Answer (Slot E))
  configure_all slot input_context_pointer base_address [] = pure (done slot)
  configure_all slot input_context_pointer base_address (ep ∷ eps) =
      dma_copy_ep_context ep input_context_pointer base_address >>= λ _.
      configure_endpoint slot ep base_address >>? λ slot'.
      configure_all slot' input_context_pointer base_address eps
