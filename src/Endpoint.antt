-- ===== src/Endpoint.antt =====
-- src/device/xhci/endpoint.rs: the worker of one endpoint, which takes blocks from its transfer ring,
-- hands them to the real endpoint and answers the commands for the endpoint. Guest memory (`dma`) and
-- the real endpoint (`RealEndpoint`, the trait `HotplugEndpointHandle`) are parameters. The channel to
-- the worker and the completions of the real endpoint are inputs. What is only logged is left out.
pub mod EndpointState
pub mod Context
pub mod Worker
pub mod Runs
pub mod Memory
pub mod Rounds
pub mod Agreement
pub mod Diagram
pub mod Answering
pub mod Replies
pub mod Progress
mod Tests
use usbvfiod.Prelude.{ℕ, Bool, Option, M}
use usbvfiod.Trb.Types.{CompletionCode}
use usbvfiod.LinkedRing.{LinkedRing, RawTrb}
use usbvfiod.SlotManager.{Answer}

-- `oneshot::Sender`: which request it belongs to, and whether someone still waits for the answer.
pub record Sender : Type 0 where
  pub id : ℕ
  pub waiting : Bool

pub data WorkerState : Type 0 where
  wait_for_doorbell look_for_trb wait_for_trb_completion : WorkerState
  halted error stopped_with_continuable_trb stopped : WorkerState
  setting_tr_dequeue_pointer : ℕ → Bool → Sender → WorkerState
  terminating : Sender → WorkerState

pub data EndpointMessage : Type 0 where
  doorbell : EndpointMessage
  stop reset : Sender → EndpointMessage
  set_tr_dequeue_pointer : ℕ → Bool → Sender → EndpointMessage
  terminate : Sender → EndpointMessage

-- `HotplugTrbProcessingResult` of src/device/xhci/hotplug_endpoint_handle.rs.
pub data TrbProcessingResult : Type 0 where
  processed trb_error : TrbProcessingResult
  stall transaction_error : Option (ℕ × Bool) → TrbProcessingResult

-- The worker without its channel, the bus and the real endpoint. `context` is the address of the
-- endpoint context.
pub record EndpointWorker : Type 0 where
  pub state : WorkerState
  pub context : ℕ
  pub transfer_ring : LinkedRing

-- What goes out through a `oneshot::Sender`.
pub data Reply : Type 0 where
  completed : ℕ → CompletionCode → Reply
  terminated : ℕ → Reply

-- What one round of `run_loop` ends in: another round, or `break`.
pub data Round : Type 0 where
  continue : EndpointWorker → Option Reply → Round
  break : Reply → Round

-- What a round takes: a message, the end of the channel, a result of the real endpoint, or nothing.
pub data Input : Type 0 where
  message : EndpointMessage → Input
  closed : Input
  completion : Answer TrbProcessingResult → Input
  alone : Input

pub record RealEndpoint (S : Type 0) : Type 0 where
  pub submit_trb : RawTrb → M S (Answer (Unit {0}))
  pub cancel : M S (Answer (Unit {0}))
  pub clear_halt : M S (Answer (Unit {0}))
