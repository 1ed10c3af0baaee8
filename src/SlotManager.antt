-- ===== src/SlotManager.antt =====
-- src/device/xhci/slot_manager.rs: the slots of the controller, which stand for attached devices.
-- Slots drive one worker task for each endpoint, through the two calls in `Workers`, and reach guest
-- memory through `dma`. Both are parameters. A call whose task is gone returns an error, on which the
-- slot worker stops: `gone`. What is only logged is left out.
pub mod Slot
pub mod Handlers
pub mod Returns
pub mod Table
pub mod Allocation
pub mod Worker
pub mod Resetting
pub mod StateDiagram
pub mod Endpoints
pub mod Transitions
pub mod Endings
pub mod Responses
mod Tests
use usbvfiod.Prelude.{ℕ, Option, none, some, M, pure, ◌>>=◌}

-- `anyhow::Result`
pub data Answer (A : Type 0) : Type 0 where
  gone : Answer A
  done : A → Answer A

-- `LaunchRequester::request_launch`, for a slot, an endpoint, a root hub port and the address of an
-- endpoint context, and `EndpointSender::terminate`.
pub record Workers (S E : Type 0) : Type 0 where
  pub request_launch : ℕ → ℕ → ℕ → ℕ → M S (Answer E)
  pub terminate : E → M S (Answer (Unit {0}))

-- `m?` and what follows it.
infixl 5 ◌>>?◌
abbrev pub ◌>>?◌ : {S A B : Type 0} → M S (Answer A) → (A → M S (Answer B)) → M S (Answer B)
m >>? f = m >>= λ r. elim r [ gone ↦ pure gone | done a ↦ f a ]
