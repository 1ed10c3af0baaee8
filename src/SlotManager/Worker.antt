-- ===== src/SlotManager/Worker.antt =====
-- The messages of `SlotWorker` in src/device/xhci/slot_manager.rs.
use usbvfiod.Prelude.{
  ℕ, leb, if◌then◌else◌, Bool, ◌&&◌, Option, none, some, List, [], ◌∷◌, M, pure, panic, ◌>>=◌,
  get_elem?, set,
}
use usbvfiod.Bus.Device.{Device}
use usbvfiod.Trb.Types.{CompletionCode, success, slot_not_enabled_error, endpoint_not_enabled_error}
use usbvfiod.Trb.Command.{
  AddressDeviceCommandTrbData, ConfigureEndpointCommandTrbData, EvaluateContextCommandTrbData,
  SetTrDequeuePointerCommandTrbData,
}
use usbvfiod.SlotManager.{Answer, gone, done, Workers, ◌>>?◌}
use usbvfiod.SlotManager.Slot.{Slot, one_indexed, endpoint_sender, handle_address_device}
use usbvfiod.SlotManager.Handlers.{
  handle_configure_endpoint, handle_reset_device, handle_evaluate_context,
}
use usbvfiod.SlotManager.Table.{SlotWorker, num_slots_enabled, Allocated, allocate_slot}

-- The calls of `EndpointSender` that a message is passed on to, which then answers its sender.
pub record Senders (S E : Type 0) : Type 0 where
  pub doorbell : E → M S (Answer (Unit {0}))
  pub stop : E → M S (Answer (Unit {0}))
  pub reset : E → M S (Answer (Unit {0}))
  pub set_tr_dequeue_pointer : E → ℕ → Bool → M S (Answer (Unit {0}))

pub data SlotMessage : Type 0 where
  doorbell : (slot_id endpoint_id : ℕ) → SlotMessage
  enable_slot : SlotMessage
  disable_slot : (slot_id : ℕ) → SlotMessage
  address_device : AddressDeviceCommandTrbData → SlotMessage
  configure_endpoint : ConfigureEndpointCommandTrbData → SlotMessage
  evaluate_context : EvaluateContextCommandTrbData → SlotMessage
  reset_device : (slot_id : ℕ) → SlotMessage
  reset_all_slots : SlotMessage
  stop_endpoint reset_endpoint : (slot_id endpoint_id : ℕ) → SlotMessage
  set_tr_dequeue_pointer : SetTrDequeuePointerCommandTrbData → SlotMessage

-- What the sender of a message gets from the slot worker itself.
pub data Reply : Type 0 where
  nothing : Reply
  allocated : Allocated → Reply
  completed : CompletionCode → Reply
  reset_done : Reply

-- `result.and(next)`
abbrev pub both : Answer (Unit {0}) → Answer (Unit {0}) → Answer (Unit {0})
both gone next = gone
both (done a) next = next

-- `slot_ref` and `slot_mut`
unfoldable pub slot_ref : {E : Type 0} → SlotWorker E → ℕ → Option (Slot E)
slot_ref w slot_id = elim (get_elem? w.slots (one_indexed slot_id)) [
  | none ↦ none
  | some slot ↦ slot
]

-- A write to a slot that was found, whose index is in bounds.
abbrev pub put_slot : {E : Type 0} → SlotWorker E → ℕ → Option (Slot E) → SlotWorker E
put_slot w slot_id slot = record w { slots = set w.slots (one_indexed slot_id) slot }

-- The slots when `Option::take` has been called on each.
unfoldable pub emptied : {E : Type 0} → List (Option (Slot E)) → List (Option (Slot E))
emptied [] = []
emptied (slot ∷ slots) = none ∷ emptied slots

module _ {S E : Type 0} (workers : Workers S E) where
  -- The loop of `pre_drop`, which goes on after an error.
  unfoldable pub terminate_all : List (Option E) → Answer (Unit {0}) → M S (Answer (Unit {0}))
  terminate_all [] result = pure result
  terminate_all (none ∷ senders) result = terminate_all senders result
  terminate_all (some e ∷ senders) result =
      workers.terminate e >>= λ next. terminate_all senders (both result next)

  -- `Slot::pre_drop`
  unfoldable pub pre_drop : Slot E → M S (Answer (Unit {0}))
  unfolding terminate_all
  pre_drop slot = terminate_all slot.endpoint_senders (done tt)

  -- `SlotWorker::disable_slot`
  unfoldable pub disable : SlotWorker E → ℕ → M S (Answer (CompletionCode × SlotWorker E))
  unfolding pre_drop slot_ref num_slots_enabled
  disable w slot_id =
      if leb 1 slot_id && leb slot_id (num_slots_enabled w)
      then elim (slot_ref w slot_id) [
        | none ↦ pure (done (slot_not_enabled_error, w))
        | some slot ↦ pre_drop slot >>? λ _. pure (done (success, put_slot w slot_id none))
      ]
      else panic

  -- The loop of `SlotWorker::reset`, with the slots that it leaves.
  unfoldable pub drop_all : List (Option (Slot E)) → Answer (Unit {0}) → M S (Answer (Unit {0}))
  unfolding pre_drop
  drop_all [] result = pure result
  drop_all (none ∷ slots) result = drop_all slots result
  drop_all (some slot ∷ slots) result = pre_drop slot >>= λ next. drop_all slots (both result next)

  -- `SlotWorker::reset`
  unfoldable pub reset : SlotWorker E → M S (Answer (SlotWorker E))
  unfolding drop_all emptied
  reset w = drop_all w.slots (done tt) >>? λ _.
      pure (done (record { slots = emptied w.slots; config_reg = 0; dcbaap = 0 }))

-- `sender.send_anyhow(result)?`; `heard` says whether the sender waits.
abbrev pub reply_to : {E : Type 0} → Bool → SlotWorker E → Reply → Answer (SlotWorker E × Reply)
reply_to heard w r = if heard then done (w, r) else gone

module _ {S E : Type 0} (dma : Device S) (workers : Workers S E) (senders : Senders S E) where
  -- What follows a handler of a slot.
  abbrev pub finish :
      SlotWorker E
      → ℕ
      → Bool
      → M S (Answer (CompletionCode × Slot E))
      → M S (Answer (SlotWorker E × Reply))
  finish w slot_id heard m =
      m >>? λ (code, slot). pure (reply_to heard (put_slot w slot_id (some slot)) (completed code))

  -- A message for a slot, which may not be enabled.
  abbrev pub on_slot :
      SlotWorker E
      → Bool
      → Option (Slot E)
      → (Slot E → M S (Answer (SlotWorker E × Reply)))
      → M S (Answer (SlotWorker E × Reply))
  on_slot w heard none k = pure (reply_to heard w (completed slot_not_enabled_error))
  on_slot w heard (some slot) k = k slot

  -- A message for an endpoint, which answers it.
  abbrev pub on_endpoint :
      SlotWorker E
      → Bool
      → Option E
      → (E → M S (Answer (Unit {0})))
      → M S (Answer (SlotWorker E × Reply))
  on_endpoint w heard none k = pure (reply_to heard w (completed endpoint_not_enabled_error))
  on_endpoint w heard (some e) k = k e >>? λ _. pure (done (w, nothing))

  abbrev pub ring : SlotWorker E → Option (Slot E) → ℕ → M S (Answer (SlotWorker E × Reply))
  ring w none endpoint_id = pure (done (w, nothing))
  ring w (some slot) endpoint_id = elim (endpoint_sender slot endpoint_id) [
    | none ↦ pure (done (w, nothing))
    | some e ↦ senders.doorbell e >>? λ _. pure (done (w, nothing))
  ]

  -- `allocate_slot`, which may panic.
  abbrev pub allocate :
      Bool → Option (Allocated × SlotWorker E) → M S (Answer (SlotWorker E × Reply))
  allocate heard none = panic
  allocate heard (some (result, w)) = pure (reply_to heard w (allocated result))

  -- One message of `run_loop`.
  unfoldable pub round : SlotWorker E → SlotMessage → Bool → M S (Answer (SlotWorker E × Reply))
  unfolding slot_ref endpoint_sender allocate_slot disable reset handle_address_device
      handle_configure_endpoint handle_reset_device handle_evaluate_context
  round w (doorbell slot_id endpoint_id) heard = ring w (slot_ref w slot_id) endpoint_id
  round w enable_slot heard = allocate heard (allocate_slot w)
  round w (disable_slot slot_id) heard =
      disable workers w slot_id >>? λ (code, w'). pure (reply_to heard w' (completed code))
  round w (address_device d) heard = on_slot w heard (slot_ref w d.slot_id) (λ slot.
      finish w d.slot_id heard (
        handle_address_device dma workers slot d.input_context_pointer d.block_set_address_request))
  round w (configure_endpoint d) heard = on_slot w heard (slot_ref w d.slot_id) (λ slot.
      finish w d.slot_id heard
        (handle_configure_endpoint dma workers slot d.input_context_pointer d.deconfigure))
  round w (evaluate_context d) heard =
      on_slot w heard (slot_ref w d.slot_id)
        (λ slot. finish w d.slot_id heard (handle_evaluate_context slot d.input_context_pointer))
  round w (reset_device slot_id) heard =
      on_slot w heard (slot_ref w slot_id)
        (λ slot. finish w slot_id heard (handle_reset_device dma workers slot))
  round w reset_all_slots heard = reset workers w >>? λ w'. pure (reply_to heard w' reset_done)
  round w (stop_endpoint slot_id endpoint_id) heard =
      on_slot w heard (slot_ref w slot_id)
        (λ slot. on_endpoint w heard (endpoint_sender slot endpoint_id) senders.stop)
  round w (reset_endpoint slot_id endpoint_id) heard =
      on_slot w heard (slot_ref w slot_id)
        (λ slot. on_endpoint w heard (endpoint_sender slot endpoint_id) senders.reset)
  round w (set_tr_dequeue_pointer d) heard = on_slot w heard (slot_ref w d.slot_id) (λ slot.
      on_endpoint w heard (endpoint_sender slot d.endpoint_id)
        (λ e. senders.set_tr_dequeue_pointer e d.dequeue_pointer d.dequeue_cycle_state))
