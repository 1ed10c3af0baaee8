-- ===== src/CommandRing.antt =====
-- src/device/xhci/command_ring.rs: the driver's register for the command ring, and the worker that takes
-- commands from the ring and reports their completion. The ring's flag `running`, the channel to the
-- worker (`inbox`) and the worker are one state. Guest memory (`dma`) and the slot worker (`Slots`) are
-- parameters, and so is the value of USBCMD in each round. What is only logged is left out.
pub mod Register
pub mod Worker
pub mod Completion
pub mod Handle
pub mod Control
mod Tests
use usbvfiod.Prelude.{ℕ, Bool, List, M}
use usbvfiod.Trb.Types.{CompletionCode}
use usbvfiod.Trb.Event.{EventTrb}
use usbvfiod.Trb.Command.{
  CommandTrb, AddressDeviceCommandTrbData, ConfigureEndpointCommandTrbData,
  EvaluateContextCommandTrbData, SetTrDequeuePointerCommandTrbData,
}
use usbvfiod.LinkedRing.{LinkedRing}
use usbvfiod.SlotManager.{Answer}
use usbvfiod.SlotManager.Table.{Allocated}

pub data WorkerState : Type 0 where
  stopped idle looking_for_new_command stopping : WorkerState
  processing_command : CommandTrb → WorkerState

-- A reset comes with the number of the one who waits for it.
pub data WorkerMessage : Type 0 where
  set_dequeue_pointer_and_cs : ℕ → Bool → WorkerMessage
  doorbell stop : WorkerMessage
  reset : ℕ → WorkerMessage

-- `CommandRing` and `CommandWorker`. `abandoned`: all senders of the channel are gone. `listened`: the
-- receiver of events is there.
pub record CommandRing : Type 0 where
  pub running : Bool
  pub inbox : List WorkerMessage
  pub abandoned : Bool
  pub state : WorkerState
  pub ring : LinkedRing
  pub listened : Bool

-- What a round sends: an event to the interrupter, or the notice that a reset is done.
pub data Output : Type 0 where
  event : EventTrb → Output
  reset_done : ℕ → Output

-- The calls of `SlotWorkerHandle`, as the command worker sees them; `Handle` has them over the modelled
-- slot worker.
pub record Slots (S : Type 0) : Type 0 where
  pub enable_slot : M S (Answer Allocated)
  pub disable_slot : ℕ → M S (Answer CompletionCode)
  pub address_device : AddressDeviceCommandTrbData → M S (Answer CompletionCode)
  pub configure_endpoint : ConfigureEndpointCommandTrbData → M S (Answer CompletionCode)
  pub evaluate_context : EvaluateContextCommandTrbData → M S (Answer CompletionCode)
  pub reset_endpoint : ℕ → ℕ → M S (Answer CompletionCode)
  pub stop_endpoint : ℕ → ℕ → M S (Answer CompletionCode)
  pub set_tr_dequeue_pointer : SetTrDequeuePointerCommandTrbData → M S (Answer CompletionCode)
  pub reset_device : ℕ → M S (Answer CompletionCode)
