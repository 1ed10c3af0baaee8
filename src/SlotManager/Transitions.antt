-- ===== src/SlotManager/Transitions.antt =====
-- The handlers of src/device/xhci/slot_manager.rs move a slot as its state diagram is drawn.
use usbvfiod.Prelude.{ℕ, ◌≡◌, refl, inl, inr, Bool, true, false, M, pure, ◌>>=◌, ◌∙◌, subst, sym}
use usbvfiod.Bus.Request.{size4, size8}
use usbvfiod.Bus.Device.{Device}
use usbvfiod.Trb.Types.{CompletionCode, success, context_state_error}
use usbvfiod.SlotManager.{Answer, done, Workers, ◌>>?◌}
use usbvfiod.SlotManager.Slot.{
  SlotState, enabled, default, addressed, configured, Slot, flagged, wrapping_add, write_slot_state,
  deconfigure_endpoint, deconfigure_all, configure_all, handle_address_device,
}
use usbvfiod.SlotManager.Handlers.{
  address_of, numbers_from, enter, configure_flagged, handle_configure_endpoint,
  handle_reset_device,
}
use usbvfiod.SlotManager.Returns.{Returns, Returns-done, Returns-map, Returns-bind, Returns-answer}
use usbvfiod.SlotManager.StateDiagram.{
  Address, to_default, to_addressed, again, Configure, first, more, nothing, all, Reset,
  from_addressed, from_configured, Outcome, stuck_addressed, stuck_configured, stuck_enabled,
  stuck_default,
}
use usbvfiod.SlotManager.Endpoints.{
  Same, deconfigure_endpoint-Same, deconfigure_all-Same, configure_all-Same, enter_address-Same,
}

module _ {S E : Type 0} (dma : Device S) (workers : Workers S E) where
  -- A handler that steps to the state `t`.
  stepped :
      (Step : SlotState → SlotState → Type 0) (slot moved : Slot E)
      (m : M S (Answer (CompletionCode × Slot E)))
      → Step slot.state moved.state
      → moved.id ≡ slot.id
      → moved.dcbaae ≡ slot.dcbaae
      → Returns m (λ r. (r.0 ≡ success) × Same moved r.1)
      → Returns m (Outcome Step slot)
  stepped Step slot moved m step i d h =
      Returns-map _ (Outcome Step slot) m
        (λ r k. inl (k.0, subst (Step slot.state) (sym k.1.1) step, k.1.0 ∙ i, k.1.2 ∙ d)) h

  refused :
      (Step : SlotState → SlotState → Type 0) (slot : Slot E)
      → ((t : SlotState) → Step slot.state t → ⊥)
      → Returns (pure {S = S} (done (context_state_error, slot))) (Outcome Step slot)
  refused Step slot stuck =
      Returns-done (Outcome Step slot) (context_state_error, slot) (inr (refl, refl, stuck))

  -- Whatever `handle_address_device` answers is a step of the diagram for Address Device, or a context
  -- state error exactly where the diagram has none.
  pub handle_address_device-Outcome :
      (slot : Slot E) (input_context_pointer : ℕ) (bsr : Bool)
      → Returns
          (handle_address_device dma workers slot input_context_pointer bsr)
          (Outcome (Address bsr) slot)
  unfolding handle_address_device
  handle_address_device-Outcome slot input bsr = go slot.state bsr
    where
      go :
          (st : SlotState) (flag : Bool)
          → Returns
              (handle_address_device dma workers (record slot { state = st }) input flag)
              (Outcome (Address flag) (record slot { state = st }))
      go enabled true =
          Returns-bind _ (dma.read (record { addr = slot.dcbaae; size = size8 })) _ (λ base.
            stepped (Address true) (record slot { state = enabled })
              (record slot { state = default base }) _ to_default refl refl
              (enter_address-Same dma workers (record slot { state = default base }) input base))
      go enabled false =
          Returns-bind _ (dma.read (record { addr = slot.dcbaae; size = size8 })) _ (λ base.
            stepped (Address false) (record slot { state = enabled })
              (record slot { state = addressed base }) _ to_addressed refl refl
              (enter_address-Same dma workers (record slot { state = addressed base }) input base))
      go (default a) true =
          refused (Address true) (record slot { state = default a }) (λ t s. elim s [ ])
      go (default a) false =
          let old : Slot E = record slot { state = default a } in
          Returns-answer (Same old) _ (deconfigure_endpoint dma workers old 1) _
            (deconfigure_endpoint-Same dma workers old 1)
            (λ next k.
              stepped (Address false) old (record next { state = addressed a }) _ again k.0 k.2
                (enter_address-Same dma workers (record next { state = addressed a }) input a))
      go (addressed a) flag =
          refused (Address flag) (record slot { state = addressed a }) (stuck_addressed flag a)
      go (configured a) flag =
          refused (Address flag) (record slot { state = configured a }) (stuck_configured flag a)

  enter-Same :
      (slot : Slot E) (st : SlotState)
      → Returns
          (enter dma workers slot st)
          (λ r. (r.0 ≡ success) × Same (record slot { state = st }) r.1)
  unfolding enter
  enter-Same slot st =
      Returns-bind _ (write_slot_state dma workers st) _
        (λ _. Returns-done _ (success, record slot { state = st }) (refl, (refl, refl, refl)))

  -- Endpoints are disabled and enabled, and then the slot enters a state.
  enter_after :
      (Step : SlotState → SlotState → Type 0) (slot next : Slot E) (st : SlotState)
      → Step slot.state st
      → Same slot next
      → Returns (enter dma workers next st) (Outcome Step slot)
  enter_after Step slot next st step k =
      stepped Step slot (record next { state = st }) _ step k.0 k.2 (enter-Same next st)

  configure_flagged-Outcome :
      (slot : Slot E) (input a drop add : ℕ)
      → Configure true slot.state (addressed a)
      → Configure false slot.state (configured a)
      → (flag : Bool)
      → Returns
          (configure_flagged dma workers slot input flag a drop add)
          (Outcome (Configure flag) slot)
  unfolding configure_flagged
  configure_flagged-Outcome slot input a drop add down up true =
      Returns-answer (Same slot) _ (deconfigure_all dma workers slot (numbers_from 2 30)) _
        (deconfigure_all-Same dma workers slot slot (numbers_from 2 30) (refl, refl, refl))
        (λ next k. enter_after (Configure true) slot next (addressed a) down k)
  configure_flagged-Outcome slot input a drop add down up false =
      Returns-answer (Same slot) _ (deconfigure_all dma workers slot (flagged drop 2 30)) _
        (deconfigure_all-Same dma workers slot slot (flagged drop 2 30) (refl, refl, refl))
        (λ mid j.
          Returns-answer (Same slot) _ (configure_all dma workers mid input a (flagged add 2 30)) _
            (configure_all-Same dma workers mid slot input a (flagged add 2 30) j)
            (λ next k. enter_after (Configure false) slot next (configured a) up k))

  -- Whatever `handle_configure_endpoint` answers is a step of the diagram for Configure Endpoint, or a
  -- context state error exactly where the diagram has none.
  pub handle_configure_endpoint-Outcome :
      (slot : Slot E) (input_context_pointer : ℕ) (deconfigure : Bool)
      → Returns
          (handle_configure_endpoint dma workers slot input_context_pointer deconfigure)
          (Outcome (Configure deconfigure) slot)
  unfolding handle_configure_endpoint address_of
  handle_configure_endpoint-Outcome slot input deconfigure = go slot.state
    where
      with_address :
          (slot' : Slot E) (a : ℕ)
          → Configure true slot'.state (addressed a)
          → Configure false slot'.state (configured a)
          → Returns
              (dma.read (record { addr = input; size = size4 }) >>= λ drop.
                dma.read (record { addr = wrapping_add input 4; size = size4 }) >>= λ add.
                configure_flagged dma workers slot' input deconfigure a drop add)
              (Outcome (Configure deconfigure) slot')
      with_address slot' a down up =
          Returns-bind _ (dma.read (record { addr = input; size = size4 })) _ (λ drop.
            Returns-bind _ (dma.read (record { addr = wrapping_add input 4; size = size4 })) _
              (λ add. configure_flagged-Outcome slot' input a drop add down up deconfigure))

      go :
          (st : SlotState)
          → Returns
              (handle_configure_endpoint dma workers (record slot { state = st }) input deconfigure)
              (Outcome (Configure deconfigure) (record slot { state = st }))
      go enabled =
          refused (Configure deconfigure) (record slot { state = enabled })
            (stuck_enabled deconfigure)
      go (default a) =
          refused (Configure deconfigure) (record slot { state = default a })
            (stuck_default deconfigure a)
      go (addressed a) = with_address (record slot { state = addressed a }) a nothing first
      go (configured a) = with_address (record slot { state = configured a }) a all more

  -- Whatever `handle_reset_device` answers is a step of the diagram for Reset Device, or a context state
  -- error exactly where the diagram has none.
  pub handle_reset_device-Outcome :
      (slot : Slot E) → Returns (handle_reset_device dma workers slot) (Outcome Reset slot)
  unfolding handle_reset_device address_of
  handle_reset_device-Outcome slot = go slot.state
    where
      with_address :
          (slot' : Slot E) (a : ℕ)
          → Reset slot'.state (default a)
          → Returns
              (deconfigure_all dma workers slot' (numbers_from 2 30) >>? λ next.
                enter dma workers next (default a))
              (Outcome Reset slot')
      with_address slot' a step =
          Returns-answer (Same slot') _ (deconfigure_all dma workers slot' (numbers_from 2 30)) _
            (deconfigure_all-Same dma workers slot' slot' (numbers_from 2 30) (refl, refl, refl))
            (λ next k. enter_after Reset slot' next (default a) step k)

      go :
          (st : SlotState)
          → Returns
              (handle_reset_device dma workers (record slot { state = st }))
              (Outcome Reset (record slot { state = st }))
      go enabled = refused Reset (record slot { state = enabled }) (λ t s. elim s [ ])
      go (default a) = refused Reset (record slot { state = default a }) (λ t s. elim s [ ])
      go (addressed a) = with_address (record slot { state = addressed a }) a from_addressed
      go (configured a) = with_address (record slot { state = configured a }) a from_configured
