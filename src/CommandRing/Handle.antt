-- ===== src/CommandRing/Handle.antt =====
-- `SlotWorkerHandle` of src/device/xhci/slot_manager.rs: the slot worker as the command ring calls it.
-- Each call sends one message and waits for its answer, which the slot worker's round gives, or an
-- endpoint that the message is passed on to: what it answers (`awaited`) is a parameter. Messages of
-- others that wait in front are not modelled, and a panic of the slot worker is one of the run.
use usbvfiod.Prelude.{Option, none, some, M, pure, true}
use usbvfiod.Bus.Device.{Device}
use usbvfiod.Trb.Types.{CompletionCode}
use usbvfiod.SlotManager.{Answer, gone, done, Workers}
use usbvfiod.SlotManager.Table.{SlotWorker, Allocated}
use usbvfiod.SlotManager.Worker
use usbvfiod.SlotManager.Worker.{
  Senders, SlotMessage, enable_slot, disable_slot, address_device, configure_endpoint,
  evaluate_context, reset_device, stop_endpoint, reset_endpoint, set_tr_dequeue_pointer, Reply,
  nothing, allocated, completed, reset_done,
}
use usbvfiod.CommandRing.{Slots}

-- Guest memory, and the slot worker, unless its loop has ended.
pub record SlotTask (S E : Type 0) : Type 0 where
  pub memory : S
  pub worker : Option (SlotWorker E)

module _ {S E : Type 0} (dma : Device S) (workers : Workers S E) (senders : Senders S E)
    (awaited : M S (Answer CompletionCode)) where
  abbrev pub received :
      {A : Type 0} → SlotWorker E → Option (Answer A × S) → Option (Answer A × SlotTask S E)
  received w none = none
  received w (some (a, s)) = some (a, record { memory = s; worker = some w })

  -- What the caller gets after the slot worker's round, which may have ended its loop.
  abbrev pub after_round :
      {A : Type 0}
      → (Reply → M S (Answer A))
      → Option (Answer (SlotWorker E × Reply) × S)
      → Option (Answer A × SlotTask S E)
  after_round receive none = none
  after_round receive (some (gone, s)) = some (gone, record { memory = s; worker = none })
  after_round receive (some (done (w, reply), s)) = received w (receive reply s)

  -- `self.msg_send.send(msg)?` and `recv.await?`
  abbrev pub ask :
      {A : Type 0} → SlotMessage → (Reply → M S (Answer A)) → M (SlotTask S E) (Answer A)
  ask msg receive task = elim task.worker [
    | none ↦ some (gone, task)
    | some w ↦ after_round receive (Worker.round dma workers senders w msg true task.memory)
  ]

  -- A completion code comes from the slot worker, or from the endpoint.
  abbrev pub code_of : Reply → M S (Answer CompletionCode)
  code_of (completed code) = pure (done code)
  code_of nothing = awaited
  code_of (allocated result) = pure gone
  code_of reset_done = pure gone

  abbrev pub slot_of : Reply → M S (Answer Allocated)
  slot_of (allocated result) = pure (done result)
  slot_of (completed code) = pure gone
  slot_of nothing = pure gone
  slot_of reset_done = pure gone

  -- `SlotWorkerHandle`
  unfoldable pub slot_worker_handle : Slots (SlotTask S E)
  unfolding Worker.round
  slot_worker_handle = record {
    enable_slot = ask enable_slot slot_of;
    disable_slot = λ slot_id. ask (disable_slot slot_id) code_of;
    address_device = λ d. ask (address_device d) code_of;
    configure_endpoint = λ d. ask (configure_endpoint d) code_of;
    evaluate_context = λ d. ask (evaluate_context d) code_of;
    reset_endpoint = λ slot_id endpoint_id. ask (reset_endpoint slot_id endpoint_id) code_of;
    stop_endpoint = λ slot_id endpoint_id. ask (stop_endpoint slot_id endpoint_id) code_of;
    set_tr_dequeue_pointer = λ d. ask (set_tr_dequeue_pointer d) code_of;
    reset_device = λ slot_id. ask (reset_device slot_id) code_of;
  }
