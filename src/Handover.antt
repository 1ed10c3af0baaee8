-- ===== src/Handover.antt =====
-- src/shared_backend.rs: which of the connected virtual machines owns the device, and how it is handed
-- over. The controller behind the lock (`XhciBackend`) and the operating system's calls on file
-- descriptors are the interface `Backend`; a descriptor stands for the file that it refers to, which
-- `dup` keeps. Instants and durations are numbers, and each call gets the instant `now` of its reading
-- of the clock. The set of live connections is kept in order, as the status prints it. The epoch is not
-- bounded, since 2^64 hand-overs do not happen. Texts of errors and what is only logged are left out.
pub mod Policy
pub mod Preflight
pub mod Control
pub mod Connection
pub mod Validity
pub mod Changes
pub mod Commands
pub mod Steps
pub mod Runs
pub mod Commit
pub mod Stale
mod Tests
use usbvfiod.Prelude.{ℕ, Bool, Option, List, M}
use usbvfiod.SlotManager.{Answer}

pub record Registration (F : Type 0) : Type 0 where
  pub index : ℕ
  pub flags : ℕ
  pub start : ℕ
  pub count : ℕ
  pub fds : List F

pub record Candidate (F : Type 0) : Type 0 where
  pub id : ℕ
  pub reg : Registration F
  pub deadline : ℕ
  pub ready : Bool

pub record Ownership (F : Type 0) : Type 0 where
  pub owner : ℕ
  pub prev : ℕ
  pub epoch : ℕ
  pub committed_at : Option ℕ
  pub candidate : Option (Candidate F)
  pub owner_reg : Option (Registration F)
  pub prev_reg : Option (Registration F)
  pub mapped : ℕ → List (ℕ × ℕ)
  pub live : List ℕ
  pub lease : ℕ
  pub preflight_timeout : ℕ
  pub require_ready : Bool
  pub auto_reclaim : Bool
  pub require_device : Bool
  pub block_registration : Bool
  pub require_controller : Bool
  pub controller_seen : Bool
  pub device_count : Option ℕ
  pub disable_owner_guard : Bool

pub data HandoverError : Type 0 where
  no_candidate wrong_candidate preflight_timeout_error not_ready bad_event_fd : HandoverError
  device_gone dma_incomplete irq_mismatch not_previous_owner previous_gone : HandoverError
  epoch_mismatch lease_expired backend_error : HandoverError

pub record HandoverStatus : Type 0 where
  pub owner : Option ℕ
  pub prev : Option ℕ
  pub candidate : Option ℕ
  pub epoch : ℕ
  pub candidate_ready : Bool
  pub lease_ms : ℕ
  pub live : List ℕ
  pub devices : Option ℕ
  pub require_device : Bool
  pub require_ready : Bool
  pub binding : Bool
  pub controller : Bool
  pub deferred_a3 : Bool

-- `Result<HandoverStatus, HandoverError>`
pub data Verdict : Type 0 where
  ok : HandoverStatus → Verdict
  err : HandoverError → Verdict

-- `XhciBackend`, and `try_clone` and `is_eventfd` of descriptors.
pub record Backend (B F : Type 0) : Type 0 where
  pub is_eventfd : F → Bool
  pub try_clone : List F → M B (Answer (Unit {0}))
  pub set_irqs : ℕ → ℕ → ℕ → ℕ → List F → M B (Answer (Unit {0}))
  pub reset : M B (Answer (Unit {0}))
  pub dma_map : ℕ → ℕ → ℕ → ℕ → M B (Answer (Unit {0}))
  pub dma_unmap : ℕ → ℕ → ℕ → M B (Answer (Unit {0}))
