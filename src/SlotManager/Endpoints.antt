-- ===== src/SlotManager/Endpoints.antt =====
-- What the handling of endpoints in src/device/xhci/slot_manager.rs leaves of a slot.
use usbvfiod.Prelude.{
  ℕ, ◌*◌, ◌≡◌, refl, inl, inr, none, some, List, [], ◌∷◌, Option-cases, ◌∙◌, Option, Bool-cases,
  ltb, length,
}
use usbvfiod.Bus.Device.{Device}
use usbvfiod.Trb.Types.{success}
use usbvfiod.SlotManager.{Workers}
use usbvfiod.SlotManager.Slot.{
  Slot, endpoint_sender, put_sender, one_indexed, wrapping_add, write_slot_state,
  dma_copy_slot_context, dma_copy_ep_context, root_hub_port, deconfigure_endpoint,
  configure_endpoint, deconfigure_all, configure_all, enter_address,
}
use usbvfiod.SlotManager.Returns.{Returns, Returns-done, Returns-any, Returns-bind, Returns-answer}

-- The endpoints of a slot may differ.
abbrev pub Same : {E : Type 0} → Slot E → Slot E → Type 0
Same a b = (b.id ≡ a.id) × (b.state ≡ a.state) × (b.dcbaae ≡ a.dcbaae)

module _ {S E : Type 0} (dma : Device S) (workers : Workers S E) where
  put_sender-Same :
      (slot : Slot E) (i : ℕ) (value : Option E)
      → Returns (put_sender {S = S} slot i value) (Same slot)
  unfolding put_sender
  put_sender-Same slot i value =
      elim (Bool-cases (ltb (one_indexed i) (length slot.endpoint_senders))) [
        | inl e ↦ rw (put_sender, e) (Returns-done (Same slot) _ (refl, refl, refl))
        | inr e ↦ rw (put_sender, e) (record { at = λ s t r k. absurd cc })
      ]

  pub deconfigure_endpoint-Same :
      (slot : Slot E) (i : ℕ) → Returns (deconfigure_endpoint dma workers slot i) (Same slot)
  unfolding deconfigure_endpoint
  deconfigure_endpoint-Same slot i = elim (Option-cases (endpoint_sender slot i)) [
    | inl e ↦ rw (deconfigure_endpoint, e) (Returns-done (Same slot) slot (refl, refl, refl))
    | inr (sender, e) ↦
        rw (deconfigure_endpoint, e)
          (Returns-answer (λ _. Unit {0}) (Same slot) (workers.terminate sender) _
            (Returns-any (workers.terminate sender)) (λ _ _. put_sender-Same slot i none))
  ]

  pub configure_endpoint-Same :
      (slot : Slot E) (i base : ℕ)
      → Returns (configure_endpoint dma workers slot i base) (Same slot)
  unfolding configure_endpoint
  configure_endpoint-Same slot i base =
      Returns-bind (Same slot) (root_hub_port dma workers base) _ (λ port.
        let launch = workers.request_launch slot.id i port (wrapping_add base (i * 32)) in
        Returns-answer (λ _. Unit {0}) (Same slot) launch _ (Returns-any launch)
          (λ sender _. put_sender-Same slot i (some sender)))

  pub deconfigure_all-Same :
      (slot start : Slot E) (eps : List ℕ)
      → Same start slot
      → Returns (deconfigure_all dma workers slot eps) (Same start)
  unfolding deconfigure_all
  deconfigure_all-Same slot start [] h = Returns-done (Same start) slot h
  deconfigure_all-Same slot start (i ∷ eps) h =
      Returns-answer (Same slot) (Same start) (deconfigure_endpoint dma workers slot i) _
        (deconfigure_endpoint-Same slot i)
        (λ next k. deconfigure_all-Same next start eps (k.0 ∙ h.0, k.1 ∙ h.1, k.2 ∙ h.2))

  pub configure_all-Same :
      (slot start : Slot E) (input base : ℕ) (eps : List ℕ)
      → Same start slot
      → Returns (configure_all dma workers slot input base eps) (Same start)
  unfolding configure_all
  configure_all-Same slot start input base [] h = Returns-done (Same start) slot h
  configure_all-Same slot start input base (i ∷ eps) h =
      Returns-bind (Same start) (dma_copy_ep_context dma workers i input base) _ (λ _.
        Returns-answer (Same slot) (Same start) (configure_endpoint dma workers slot i base) _
          (configure_endpoint-Same slot i base)
          (λ next k.
            configure_all-Same next start input base eps (k.0 ∙ h.0, k.1 ∙ h.1, k.2 ∙ h.2)))

  pub enter_address-Same :
      (slot : Slot E) (input base : ℕ)
      → Returns (enter_address dma workers slot input base) (λ r. (r.0 ≡ success) × Same slot r.1)
  unfolding enter_address
  enter_address-Same slot input base =
      Returns-bind _ (dma_copy_slot_context dma workers input base) _ (λ _.
        Returns-bind _ (write_slot_state dma workers slot.state) _ (λ _.
          Returns-bind _ (dma_copy_ep_context dma workers 1 input base) _ (λ _.
            Returns-answer (Same slot) _ (configure_endpoint dma workers slot 1 base) _
              (configure_endpoint-Same slot 1 base)
              (λ next k. Returns-done _ (success, next) (refl, k)))))
