-- ===== src/Endpoint/Worker.antt =====
-- `EndpointWorker` of src/device/xhci/endpoint.rs: `launch` and the rounds of `run_loop`, one function for
-- each state of the worker.
use usbvfiod.Prelude.{ℕ, if◌then◌else◌, Bool, Option, none, some, M, pure, ◌>>=◌, ◌>>◌}
use usbvfiod.Bus.Device.{Device}
use usbvfiod.Trb.Types.{CompletionCode, success, context_state_error}
use usbvfiod.LinkedRing
use usbvfiod.LinkedRing.{LinkedRing, RawTrb}
use usbvfiod.SlotManager.{Answer, gone, done, ◌>>?◌}
use usbvfiod.Endpoint.{
  Sender, WorkerState, wait_for_doorbell, look_for_trb, wait_for_trb_completion, halted, error,
  stopped_with_continuable_trb, stopped, setting_tr_dequeue_pointer, terminating, EndpointMessage,
  doorbell, stop, reset, set_tr_dequeue_pointer, terminate, TrbProcessingResult, processed,
  trb_error, stall, transaction_error, EndpointWorker, completed, terminated, Round, continue,
  break, Input, message, closed, completion, alone, RealEndpoint,
}
use usbvfiod.Endpoint.Context.{
  get_dequeue_pointer_and_cycle_state, set_dequeue_pointer_and_cycle_state, set_state,
}
use usbvfiod.Endpoint.EndpointState

-- `try_get_completion_code_sender`
unfoldable pub try_get_completion_code_sender : EndpointMessage → Option Sender
try_get_completion_code_sender doorbell = none
try_get_completion_code_sender (set_tr_dequeue_pointer _ _ sender) = some sender
try_get_completion_code_sender (reset sender) = some sender
try_get_completion_code_sender (stop sender) = some sender
try_get_completion_code_sender (terminate _) = none

-- The pointer that a failed transfer winds the ring back to.
unfoldable pub wind_back : LinkedRing → Option (ℕ × Bool) → LinkedRing
wind_back ring none = ring
wind_back ring (some (addr, cs)) = LinkedRing.set_dequeue_pointer ring addr cs

abbrev pub go : EndpointWorker → WorkerState → EndpointWorker
go w state = record w { state = state }

module _ {S : Type 0} where
  abbrev pub next : EndpointWorker → M S (Answer Round)
  next w = pure (done (continue w none))

  -- `sender.send_anyhow(code)?`, an error where no one waits, and the next round.
  unfoldable pub send_anyhow : Sender → CompletionCode → EndpointWorker → M S (Answer Round)
  send_anyhow sender code w =
      if sender.waiting
      then pure (done (continue w (some (completed sender.id code))))
      else pure gone

  unfoldable pub answer_error : EndpointWorker → Option Sender → M S (Answer Round)
  unfolding send_anyhow
  answer_error w none = next w
  answer_error w (some sender) = send_anyhow sender context_state_error w

  unfoldable pub state_error : EndpointWorker → EndpointMessage → M S (Answer Round)
  unfolding answer_error try_get_completion_code_sender
  state_error w msg = answer_error w (try_get_completion_code_sender msg)

  -- `WorkerState::Error`
  unfoldable pub in_error : EndpointWorker → EndpointMessage → M S (Answer Round)
  unfolding state_error
  in_error w (set_tr_dequeue_pointer ptr cs sender) =
      next (go w (setting_tr_dequeue_pointer ptr cs sender))
  in_error w doorbell = state_error w doorbell
  in_error w (stop sender) = state_error w (stop sender)
  in_error w (reset sender) = state_error w (reset sender)
  in_error w (terminate sender) = state_error w (terminate sender)

module _ {S : Type 0} (dma : Device S) (real : RealEndpoint S) where
  -- `context.set_state` and the dequeue pointer of the ring to the context.
  unfoldable pub publish : ℕ → ℕ → LinkedRing → M S (Unit {0})
  publish context state ring = do
    set_state dma context state
    let (dequeue_pointer, cycle_state) = LinkedRing.get_dequeue_pointer ring
    set_dequeue_pointer_and_cycle_state dma context dequeue_pointer cycle_state

  -- `EndpointWorker::launch`
  unfoldable pub launch : ℕ → M S EndpointWorker
  launch context = do
    set_state dma context EndpointState.running
    (dequeue_pointer, cycle_state) ← get_dequeue_pointer_and_cycle_state dma context
    pure (record {
      state = wait_for_doorbell;
      context = context;
      transfer_ring = LinkedRing.new dequeue_pointer cycle_state;
    })

  -- `WorkerState::WaitForDoorbell`
  unfoldable pub waiting_for_doorbell : EndpointWorker → EndpointMessage → M S (Answer Round)
  unfolding state_error send_anyhow
  waiting_for_doorbell w doorbell = next (go w look_for_trb)
  waiting_for_doorbell w (stop sender) =
      publish w.context EndpointState.stopped w.transfer_ring >>= λ _.
      send_anyhow sender success (go w stopped)
  waiting_for_doorbell w (terminate sender) = next (go w (terminating sender))
  waiting_for_doorbell w (reset sender) = state_error w (reset sender)
  waiting_for_doorbell w (set_tr_dequeue_pointer ptr cs sender) =
      state_error w (set_tr_dequeue_pointer ptr cs sender)

  abbrev pub submit : EndpointWorker → Option RawTrb → M S (Answer Round)
  submit w none = next (go w wait_for_doorbell)
  submit w (some trb) = real.submit_trb trb >>? λ _. next (go w wait_for_trb_completion)

  -- `WorkerState::LookForTrb`
  unfoldable pub looking_for_trb : EndpointWorker → M S (Answer Round)
  looking_for_trb w = LinkedRing.next_trb dma w.transfer_ring >>= λ (trb, ring).
      submit (record w { transfer_ring = ring }) trb

  -- The arms for `Stall` and `TransactionError`, and the one for `TrbError`.
  unfoldable pub fail_with : EndpointWorker → LinkedRing → ℕ → WorkerState → M S (Answer Round)
  fail_with w ring code state =
      publish w.context code ring >>= λ _. next (record w { state = state; transfer_ring = ring })

  -- The first arm of `WorkerState::WaitForTrbCompletion`.
  unfoldable pub completing : EndpointWorker → TrbProcessingResult → M S (Answer Round)
  unfolding fail_with wind_back
  completing w processed =
      next (record w { state = look_for_trb; transfer_ring = LinkedRing.advance w.transfer_ring })
  completing w (stall addr) =
      fail_with w (wind_back w.transfer_ring addr) EndpointState.halted halted
  completing w (transaction_error addr) =
      fail_with w (wind_back w.transfer_ring addr) EndpointState.halted halted
  completing w trb_error = fail_with w w.transfer_ring EndpointState.error error

  -- Its second arm.
  unfoldable pub transferring : EndpointWorker → EndpointMessage → M S (Answer Round)
  unfolding state_error send_anyhow
  transferring w (stop sender) = publish w.context EndpointState.stopped w.transfer_ring >>= λ _.
      real.cancel >>? λ _. send_anyhow sender success (go w stopped_with_continuable_trb)
  transferring w doorbell = next w
  transferring w (reset sender) = state_error w (reset sender)
  transferring w (set_tr_dequeue_pointer ptr cs sender) =
      state_error w (set_tr_dequeue_pointer ptr cs sender)
  transferring w (terminate sender) = state_error w (terminate sender)

  -- `WorkerState::Halted`
  unfoldable pub in_halt : EndpointWorker → EndpointMessage → M S (Answer Round)
  unfolding state_error send_anyhow
  in_halt w (reset sender) = real.clear_halt >>? λ _.
      publish w.context EndpointState.stopped w.transfer_ring >>= λ _.
      send_anyhow sender success (go w stopped)
  in_halt w (stop sender) = send_anyhow sender context_state_error w
  in_halt w (terminate sender) = next (go w (terminating sender))
  in_halt w doorbell = state_error w doorbell
  in_halt w (set_tr_dequeue_pointer ptr cs sender) =
      state_error w (set_tr_dequeue_pointer ptr cs sender)

  -- `WorkerState::StoppedWithContinuableTrb` and `WorkerState::Stopped`, whose arms are the same.
  unfoldable pub in_stop : EndpointWorker → EndpointMessage → M S (Answer Round)
  unfolding state_error
  in_stop w doorbell =
      set_state dma w.context EndpointState.running >>= λ _. next (go w look_for_trb)
  in_stop w (set_tr_dequeue_pointer ptr cs sender) =
      next (go w (setting_tr_dequeue_pointer ptr cs sender))
  in_stop w (terminate sender) = next (go w (terminating sender))
  in_stop w (stop sender) = state_error w (stop sender)
  in_stop w (reset sender) = state_error w (reset sender)

  -- `WorkerState::SettingTrDequeuePointer`
  unfoldable pub setting : EndpointWorker → ℕ → Bool → Sender → M S (Answer Round)
  unfolding send_anyhow
  setting w ptr cs sender = set_state dma w.context EndpointState.stopped >>= λ _.
      set_dequeue_pointer_and_cycle_state dma w.context ptr cs >>= λ _.
      send_anyhow sender success (record w {
        state = stopped;
        transfer_ring = LinkedRing.set_dequeue_pointer w.transfer_ring ptr cs;
      })

  -- `WorkerState::Terminating`
  unfoldable pub terminate_now : EndpointWorker → Sender → M S (Answer Round)
  terminate_now w sender = set_state dma w.context EndpointState.disabled >>= λ _.
      (if sender.waiting then pure (done (break (terminated sender.id))) else pure gone)

  abbrev pub finish : EndpointWorker → Answer TrbProcessingResult → M S (Answer Round)
  finish w gone = pure gone
  finish w (done result) = completing w result

  -- One round of `run_loop`; `none` where the state of the worker does not take this input.
  unfoldable pub round : EndpointWorker → WorkerState → Input → Option (M S (Answer Round))
  round w wait_for_doorbell (message msg) = some (waiting_for_doorbell w msg)
  round w wait_for_doorbell closed = some (pure gone)
  round w look_for_trb alone = some (looking_for_trb w)
  round w wait_for_trb_completion (message msg) = some (transferring w msg)
  round w wait_for_trb_completion (completion result) = some (finish w result)
  round w wait_for_trb_completion closed = some (pure gone)
  round w halted (message msg) = some (in_halt w msg)
  round w halted closed = some (pure gone)
  round w error (message msg) = some (in_error w msg)
  round w error closed = some (pure gone)
  round w stopped_with_continuable_trb (message msg) = some (in_stop w msg)
  round w stopped_with_continuable_trb closed = some (pure gone)
  round w stopped (message msg) = some (in_stop w msg)
  round w stopped closed = some (pure gone)
  round w (setting_tr_dequeue_pointer ptr cs sender) alone = some (setting w ptr cs sender)
  round w (terminating sender) alone = some (terminate_now w sender)
  round w state input = none
