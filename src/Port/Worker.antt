-- ===== src/Port/Worker.antt =====
-- `PortWorker` of src/device/xhci/port.rs.
use usbvfiod.Prelude.{
  ℕ, ◌+◌, ◌*◌, ◌^◌, ◌==◌, leb, if◌then◌else◌, Bool, true, false, ◌&&◌, Option, none, some, List, [],
  ◌∷◌, ◌++◌, get_elem?, bit_or,
}
use usbvfiod.Registers.Portsc
use usbvfiod.Registers.Portsc.{
  UsbVersion, usb2, usb3, ccs, ped, pp, csc, pec, prc, pls_polling,
  new_port_status_change_event_trb,
}
use usbvfiod.SlotManager.Slot.{one_indexed}
use usbvfiod.SlotManager.{Answer, gone, done}
use usbvfiod.Port.{
  Speed, full, low, high, super, super_plus, Identifier, same_id, Device, Port, PortWorker,
  Response, successful_operation, no_free_port, could_not_determine_speed, no_such_device,
  PortMessage, attach, detach, list_attached, get_device, Reply, response, identifiers, device,
}
use usbvfiod.Port.Array.{modify, send}

-- `speed as u8`
abbrev pub speed_id : Speed → ℕ
speed_id full = 1
speed_id low = 2
speed_id high = 3
speed_id super = 4
speed_id super_plus = 5

-- `UsbVersion::from_speed`
abbrev pub from_speed : Speed → UsbVersion
from_speed speed = if leb (speed_id speed) 3 then usb2 else usb3

abbrev pub same_version : UsbVersion → UsbVersion → Bool
same_version usb2 usb2 = true
same_version usb2 usb3 = false
same_version usb3 usb2 = false
same_version usb3 usb3 = true

abbrev pub is_free : UsbVersion → Port → Bool
is_free version p = elim p.device [
  | some d ↦ false
  | none ↦ same_version p.portsc.usb_version version
]

-- The first free port of a version, from a number on.
unfoldable pub find_free : UsbVersion → List Port → ℕ → Option ℕ
find_free version [] port_id = none
find_free version (p ∷ ps) port_id =
    let rest = find_free version ps (port_id + 1) in
    if is_free version p then some port_id else rest

abbrev pub matches : Identifier → Option ℕ → Device → Bool
matches id none d = same_id d.identifier id
matches id (some instance_id) d = same_id d.identifier id && (instance_id == d.detach_token)

abbrev pub first_match :
    Identifier → Option ℕ → ℕ → Option Device → Option (ℕ × Device) → Option (ℕ × Device)
first_match id instance_id port_id none rest = rest
first_match id instance_id port_id (some d) rest =
    if matches id instance_id d then some (port_id, d) else rest

-- The search of `detach`, with the device that it finds.
unfoldable pub find_attached : Identifier → Option ℕ → List Port → ℕ → Option (ℕ × Device)
find_attached id instance_id [] port_id = none
find_attached id instance_id (p ∷ ps) port_id =
    first_match id instance_id port_id p.device (find_attached id instance_id ps (port_id + 1))

abbrev pub with_identifier : Option Device → List Identifier → List Identifier
with_identifier none ids = ids
with_identifier (some d) ids = d.identifier ∷ ids

-- `attached_devices`
unfoldable pub attached_devices : List Port → List Identifier
attached_devices [] = []
attached_devices (p ∷ ps) = with_identifier p.device (attached_devices ps)

-- `Vec::contains`
unfoldable pub contains : List Identifier → Identifier → Bool
contains [] id = false
contains (x ∷ ids) id = if same_id x id then true else contains ids id

-- `new_portsc` of `attach`.
abbrev pub attached_portsc : UsbVersion → Speed → ℕ
attached_portsc usb3 speed =
    bit_or (bit_or (bit_or (bit_or (bit_or (bit_or ccs ped) pp) csc) pec) prc)
      (speed_id speed * 2 ^ 10)
attached_portsc usb2 speed =
    bit_or (bit_or (bit_or (bit_or ccs pls_polling) pp) (speed_id speed * 2 ^ 10)) csc

abbrev pub occupy : Device → Speed → Port → Port
occupy d speed p = record p {
  device = some d;
  portsc = Portsc.set p.portsc (attached_portsc (from_speed speed) speed);
}

abbrev pub vacate : Port → Port
vacate p = record p { device = none; portsc = Portsc.set p.portsc (bit_or pp csc) }

unfoldable pub occupied : PortWorker → ℕ → Device → Speed → PortWorker
unfolding modify Portsc.set
occupied w port_id d speed = record w {
  ports = modify w.ports (one_indexed port_id) (occupy d speed);
  listeners = w.listeners ++ (d.detach_token, d.identifier) ∷ [];
}

unfoldable pub vacated : PortWorker → ℕ → Device → PortWorker
unfolding modify Portsc.set
vacated w port_id d = record w {
  ports = modify w.ports (one_indexed port_id) vacate;
  cancelled = w.cancelled ++ d.detach_token ∷ [];
}

-- The end of `attach` and `detach`.
abbrev pub announce : PortWorker → ℕ → Answer Response × PortWorker
announce w port_id = send w (new_port_status_change_event_trb port_id) successful_operation

abbrev pub plug_at : PortWorker → Device → Speed → Option ℕ → Answer Response × PortWorker
plug_at w d speed none = (done no_free_port, w)
plug_at w d speed (some port_id) = announce (occupied w port_id d speed) port_id

abbrev pub plug_with : PortWorker → Device → Option Speed → Answer Response × PortWorker
plug_with w d none = (done could_not_determine_speed, w)
plug_with w d (some speed) = plug_at w d speed (find_free (from_speed speed) w.ports 1)

-- `attach`, when no device has its identifier.
unfoldable pub plug : PortWorker → Device → Answer Response × PortWorker
unfolding find_free occupied send
plug w d = plug_with w d d.speed

abbrev pub unplug_found : PortWorker → Option (ℕ × Device) → Answer Response × PortWorker
unplug_found w none = (done no_such_device, w)
unplug_found w (some (port_id, d)) = announce (vacated w port_id d) port_id

-- `detach`
unfoldable pub unplug : PortWorker → Identifier → Option ℕ → Answer Response × PortWorker
unfolding find_attached vacated send
unplug w id instance_id = unplug_found w (find_attached id instance_id w.ports 1)

-- `?` on an answer with the state behind it.
abbrev pub and_then :
    {A B : Type 0}
    → Answer A × PortWorker
    → (PortWorker → Answer B × PortWorker)
    → Answer B × PortWorker
and_then (gone, w) k = (gone, w)
and_then (done a, w) k = k w

-- `attach`
unfoldable pub replug : PortWorker → Device → Answer Response × PortWorker
unfolding attached_devices contains unplug plug
replug w d =
    if contains (attached_devices w.ports) d.identifier
    then and_then (unplug w d.identifier none) (λ w'. plug w' d)
    else plug w d

-- `responder.send_anyhow(reply)?`; `heard` says whether the caller waits for it.
abbrev pub answer :
    {A : Type 0} → Bool → (A → Reply) → Answer A × PortWorker → Answer Reply × PortWorker
answer heard f (gone, w) = (gone, w)
answer true f (done a, w) = (done (f a), w)
answer false f (done a, w) = (gone, w)

abbrev pub device_at : List Port → ℕ → Option Device
device_at ports port_id = elim (get_elem? ports (one_indexed port_id)) [
  | none ↦ none
  | some p ↦ p.device
]

-- One message of `run_loop`.
unfoldable pub handle : PortWorker → PortMessage → Bool → Answer Reply × PortWorker
unfolding replug unplug attached_devices
handle w (attach d) heard = answer heard response (replug w d)
handle w (detach id instance_id) heard = answer heard response (unplug w id instance_id)
handle w list_attached heard = answer heard identifiers (done (attached_devices w.ports), w)
handle w (get_device port_id) heard = answer heard device (done (device_at w.ports port_id), w)
