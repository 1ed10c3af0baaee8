-- ===== src/Port.antt =====
-- src/device/xhci/port.rs: the ports and the worker that plugs devices in. A device is what the worker
-- reads of it, and its detach token is a number, which is also the `DeviceInstanceId`. The arrays of
-- devices, of PORTSC and of PORTPMSC have the same length, and are one list of ports. The listener that a
-- device gets sends `Detach` with its token, which is a message like the others.
pub mod Array
pub mod Worker
pub mod Lists
pub mod Searches
pub mod Validity
pub mod Plugging
pub mod Runs
pub mod Attaching
pub mod Addresses
mod Tests
use usbvfiod.Prelude.{ℕ, ◌==◌, ◌&&◌, leb, Bool, true, false, Option, List}
use usbvfiod.Trb.Event.{EventTrb}
use usbvfiod.Registers.Portsc.{PortscRegister, UsbVersion, usb2, usb3}

-- `Speed` of src/device/xhci/real_device.rs
pub data Speed : Type 0 where
  full low high super super_plus : Speed

-- `Identifier`, which is `(u8, u8)`.
abbrev pub Identifier : Type 0
Identifier = ℕ × ℕ

abbrev pub same_id : Identifier → Identifier → Bool
same_id (a, b) (c, d) = (a == c) && (b == d)

-- `CompleteRealDevice`
pub record Device : Type 0 where
  pub identifier : Identifier
  pub speed : Option Speed
  pub detach_token : ℕ

pub record Port : Type 0 where
  pub device : Option Device
  pub portsc : PortscRegister
  pub portpmsc : ℕ

-- `PortArray` and `PortWorker`. `events` are those that have been sent, `listened` says whether the
-- interrupter still receives them, `cancelled` are the tokens that the worker has cancelled, and
-- `listeners` the listeners that it has started.
pub record PortWorker : Type 0 where
  pub ports : List Port
  pub events : List EventTrb
  pub listened : Bool
  pub cancelled : List ℕ
  pub listeners : List (ℕ × Identifier)

pub data Response : Type 0 where
  successful_operation list_following no_free_port could_not_determine_speed : Response
  failed_to_open_fd no_such_device invalid : Response

pub data PortMessage : Type 0 where
  attach : Device → PortMessage
  detach : Identifier → Option ℕ → PortMessage
  list_attached : PortMessage
  get_device : ℕ → PortMessage

-- What a responder gets.
pub data Reply : Type 0 where
  response : Response → Reply
  identifiers : List Identifier → Reply
  device : Option Device → Reply
