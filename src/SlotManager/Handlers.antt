-- ===== src/SlotManager/Handlers.antt =====
-- The handlers of `Slot` in src/device/xhci/slot_manager.rs for devices that have an address.
use usbvfiod.Prelude.{
  ℕ, zero, suc, ◌+◌, Bool, if◌then◌else◌, Option, none, some, List, [], ◌∷◌, M, pure, ◌>>=◌,
}
use usbvfiod.Bus.Request.{size4}
use usbvfiod.Bus.Device.{Device}
use usbvfiod.Trb.Types.{CompletionCode, success, context_state_error}
use usbvfiod.SlotManager.{Answer, done, Workers, ◌>>?◌}
use usbvfiod.SlotManager.Slot.{
  SlotState, enabled, default, addressed, configured, Slot, wrapping_add, flagged, write_slot_state,
  deconfigure_all, configure_all,
}

-- `start..start + n`
abbrev pub numbers_from : ℕ → ℕ → List ℕ
numbers_from start zero = []
numbers_from start (suc n) = start ∷ numbers_from (start + 1) n

-- The base address of a slot whose device has an address.
unfoldable pub address_of : SlotState → Option ℕ
address_of enabled = none
address_of (default base_address) = none
address_of (addressed base_address) = some base_address
address_of (configured base_address) = some base_address

module _ {S E : Type 0} (dma : Device S) (workers : Workers S E) where
  -- `self.state = state; self.write_slot_state(); Ok(CompletionCode::Success)`
  unfoldable pub enter : Slot E → SlotState → M S (Answer (CompletionCode × Slot E))
  unfolding write_slot_state
  enter slot state = write_slot_state dma workers state >>= λ _.
      pure (done (success, record slot { state = state }))

  -- The two branches of `handle_configure_endpoint`, on the flags that it has read.
  unfoldable pub configure_flagged :
      Slot E → ℕ → Bool → ℕ → ℕ → ℕ → M S (Answer (CompletionCode × Slot E))
  unfolding deconfigure_all configure_all enter
  configure_flagged slot input_context_pointer deconfigure base_address drop_flags add_flags =
      if deconfigure
      then (deconfigure_all dma workers slot (numbers_from 2 30) >>? λ slot'.
          enter slot' (addressed base_address))
      else (deconfigure_all dma workers slot (flagged drop_flags 2 30) >>? λ slot'.
          configure_all dma workers slot' input_context_pointer base_address
            (flagged add_flags 2 30)
          >>? λ last. enter last (configured base_address))

  -- `Slot::handle_configure_endpoint`
  unfoldable pub handle_configure_endpoint :
      Slot E → ℕ → Bool → M S (Answer (CompletionCode × Slot E))
  unfolding configure_flagged
  handle_configure_endpoint slot input_context_pointer deconfigure = elim (address_of slot.state) [
    | none ↦ pure (done (context_state_error, slot))
    | some base_address ↦
        dma.read (record { addr = input_context_pointer; size = size4 }) >>= λ drop_flags.
        dma.read (record { addr = wrapping_add input_context_pointer 4; size = size4 })
        >>= λ add_flags.
            configure_flagged slot input_context_pointer deconfigure base_address drop_flags
              add_flags
  ]

  -- `Slot::handle_reset_device`
  unfoldable pub handle_reset_device : Slot E → M S (Answer (CompletionCode × Slot E))
  unfolding deconfigure_all enter
  handle_reset_device slot = elim (address_of slot.state) [
    | none ↦ pure (done (context_state_error, slot))
    | some base_address ↦ deconfigure_all dma workers slot (numbers_from 2 30) >>? λ slot'.
        enter slot' (default base_address)
  ]

-- `Slot::handle_evaluate_context`
unfoldable pub handle_evaluate_context :
    {S E : Type 0} → Slot E → ℕ → M S (Answer (CompletionCode × Slot E))
handle_evaluate_context slot input_context_pointer = pure (done (success, slot))
