-- ===== src/Interrupter.antt =====
-- src/device/xhci/interrupter.rs: the worker that puts events on the event ring and raises interrupts. An
-- interrupt line is a number, and the dummy line is none. The registers are those that the guest writes;
-- `eventring_dequeue_pointer` is read anew for each event.
pub mod Worker
pub mod Delivery
mod Tests
use usbvfiod.Prelude.{ℕ, Bool, Option, List}
use usbvfiod.Trb.Event.{EventTrb}
use usbvfiod.EventRing.{EventRing}

pub record InterrupterRegisters : Type 0 where
  pub interrupt_management : ℕ
  pub interrupt_moderation_interval : ℕ
  pub erst_base_address : ℕ
  pub erst_size : ℕ
  pub eventring_dequeue_pointer : ℕ

-- `EventWorker`. `configured` says in which of its loops it is, and `suppressed` is the test hook of
-- debug builds.
pub record EventWorker : Type 0 where
  pub registers : InterrupterRegisters
  pub interrupt_line : Option ℕ
  pub event_ring : EventRing
  pub configured : Bool
  pub suppressed : Bool

-- `reset` says whether the sender waits for the completion.
pub data InterrupterMessage : Type 0 where
  send_event : EventTrb → InterrupterMessage
  update_interrupt_line : ℕ → InterrupterMessage
  reset : Bool → InterrupterMessage

-- What others see: interrupts on a line, and the completion of a reset.
pub data Signal : Type 0 where
  interrupted : ℕ → Signal
  completed : Signal
