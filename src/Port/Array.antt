-- ===== src/Port/Array.antt =====
-- `PortArray` of src/device/xhci/port.rs: the registers of the ports, and their addresses.
use usbvfiod.Prelude.{
  ℕ, zero, suc, ◌+◌, ◌-◌, ◌*◌, ◌/◌, ◌%◌, ◌==◌, ltb, leb, if◌then◌else◌, Bool, ◌&&◌, Option, none,
  some, List, [], ◌∷◌, ◌++◌, get_elem?,
}
use usbvfiod.Trb.Event.{EventTrb}
use usbvfiod.Registers.Portsc
use usbvfiod.Registers.Portsc.{PortscRegister, UsbVersion, usb2, usb3}
use usbvfiod.SlotManager.Slot.{one_indexed}
use usbvfiod.SlotManager.{Answer, gone, done}
use usbvfiod.Port.{Port, PortWorker}

abbrev pub num_usb3_ports : ℕ
num_usb3_ports = 4

abbrev pub max_ports : ℕ
max_ports = 8

abbrev pub port_stride : ℕ
port_stride = 0x10

-- `offset::PORTSC`
abbrev pub portsc_offset : ℕ
portsc_offset = 0x440

-- `port_version`, of the ports that there are.
abbrev pub port_version : ℕ → UsbVersion
port_version port_id = if leb port_id num_usb3_ports then usb3 else usb2

-- The ports from a number on, each with `PortscRegister::new` and no device.
abbrev pub empty_ports : ℕ → ℕ → List Port
empty_ports port_id zero = []
empty_ports port_id (suc n) =
    record { device = none; portsc = Portsc.new (port_version port_id) port_id; portpmsc = 0 }
    ∷ empty_ports (port_id + 1) n

-- `PortArray::new`
unfoldable pub new : Bool → PortWorker
new listened = record {
  ports = empty_ports 1 max_ports;
  events = [];
  listened = listened;
  cancelled = [];
  listeners = [];
}

-- The element at a position, changed.
unfoldable pub modify : {A : Type 0} → List A → ℕ → (A → A) → List A
modify [] i f = []
modify (x ∷ xs) zero f = f x ∷ xs
modify (x ∷ xs) (suc i) f = x ∷ modify xs i f

-- `event_sender.send(event)`, with what it answers.
unfoldable pub send : {A : Type 0} → PortWorker → EventTrb → A → Answer A × PortWorker
send w event a =
    if w.listened then (done a, record w { events = w.events ++ event ∷ [] }) else (gone, w)

abbrev pub send_if : PortWorker → Option EventTrb → Answer (Unit {0}) × PortWorker
send_if w none = (done tt, w)
send_if w (some event) = send w event tt

abbrev pub write_found : PortWorker → ℕ → ℕ → Option Port → Option (Answer (Unit {0}) × PortWorker)
write_found w port_id value none = none
write_found w port_id value (some p) =
    let (portsc, event) = Portsc.write p.portsc value in
    some (
      send_if
        (record w {
          ports = modify w.ports (one_indexed port_id) (λ q. record q { portsc = portsc });
        })
        event)

-- `write_portsc`; `none` is an index out of range.
unfoldable pub write_portsc : PortWorker → ℕ → ℕ → Option (Answer (Unit {0}) × PortWorker)
unfolding modify send
write_portsc w port_id value = write_found w port_id value (get_elem? w.ports (one_indexed port_id))

unfoldable pub read_portsc : PortWorker → ℕ → Option ℕ
read_portsc w port_id = elim (get_elem? w.ports (one_indexed port_id)) [
  | none ↦ none
  | some p ↦ some p.portsc.value
]

unfoldable pub write_portpmsc : PortWorker → ℕ → ℕ → Option PortWorker
unfolding modify
write_portpmsc w port_id value = elim (get_elem? w.ports (one_indexed port_id)) [
  | none ↦ none
  | some p ↦ some (record w {
    ports = modify w.ports (one_indexed port_id) (λ q. record q { portpmsc = value });
  })
]

unfoldable pub get_port_id_from_addr : ℕ → ℕ → ℕ → ℕ → Option ℕ
get_port_id_from_addr addr base_addr port_count register_offset =
    if leb base_addr addr && ltb addr (base_addr + port_count * port_stride)
    then (if (addr - base_addr) % port_stride == register_offset
        then some ((addr - base_addr) / port_stride + 1)
        else none)
    else none

unfoldable pub get_portsc_id : ℕ → Option ℕ
unfolding get_port_id_from_addr
get_portsc_id addr = get_port_id_from_addr addr portsc_offset max_ports 0

unfoldable pub get_portpmsc_id : ℕ → Option ℕ
unfolding get_port_id_from_addr
get_portpmsc_id addr = get_port_id_from_addr addr portsc_offset max_ports 0x4

unfoldable pub get_portli_id : ℕ → Option ℕ
unfolding get_port_id_from_addr
get_portli_id addr = get_port_id_from_addr addr portsc_offset max_ports 0x8
