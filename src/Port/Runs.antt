-- ===== src/Port/Runs.antt =====
-- Runs of src/device/xhci/port.rs: messages to the worker, and accesses of the guest to the registers.
use usbvfiod.Prelude.{
  ℕ, ◌≡◌, refl, sym, subst, Bool, true, false, Option, none, some, get_elem?, Option-cases, inl,
  inr,
}
use usbvfiod.Trb.Event.{EventTrb}
use usbvfiod.Registers.Portsc
use usbvfiod.SlotManager.Slot.{one_indexed}
use usbvfiod.SlotManager.{Answer, gone, done}
use usbvfiod.Port.{Port, PortWorker, PortMessage, attach, detach, list_attached, get_device, Reply}
use usbvfiod.Port.Array.{write_found, send_if, write_portsc, write_portpmsc}
use usbvfiod.Port.Worker.{attached_devices, handle, answer, device_at, replug, unplug}
use usbvfiod.Port.Validity.{IsValid, rewritten-IsValid, managed-IsValid}
use usbvfiod.Port.Plugging.{send-ports, unplug-IsValid, replug-IsValid}

-- One message, or one write.
pub data Step : PortWorker → PortWorker → Type 0 where
  message : {w : PortWorker} → (msg : PortMessage) (heard : Bool) → Step w (handle w msg heard).1
  portsc :
      {w w' : PortWorker} {a : Answer (Unit {0})}
      → (port_id value : ℕ) → write_portsc w port_id value ≡ some (a, w')
      → Step w w'
  portpmsc :
      {w w' : PortWorker}
      → (port_id value : ℕ) → write_portpmsc w port_id value ≡ some w'
      → Step w w'

pub data Runs (w : PortWorker) : PortWorker → Type 0 where
  here : Runs w w
  next : {w₁ w₂ : PortWorker} → Runs w w₁ → Step w₁ w₂ → Runs w w₂

answered-ports :
    {A : Type 0} (heard : Bool) (f : A → Reply) (r : Answer A × PortWorker)
    → (answer heard f r).1.ports ≡ r.1.ports
answered-ports heard f (gone, w) = refl
answered-ports true f (done a, w) = refl
answered-ports false f (done a, w) = refl

handle-IsValid :
    (w : PortWorker) (msg : PortMessage) (heard : Bool)
    → IsValid w.ports
    → IsValid (handle w msg heard).1.ports
unfolding handle
handle-IsValid w (attach d) heard v =
    subst IsValid (sym (answered-ports heard Reply.response (replug w d))) (replug-IsValid w d v)
handle-IsValid w (detach id instance_id) heard v =
    subst IsValid (sym (answered-ports heard Reply.response (unplug w id instance_id)))
      (unplug-IsValid w v id instance_id)
handle-IsValid w list_attached heard v =
    subst IsValid
      (sym (answered-ports heard Reply.identifiers (done (attached_devices w.ports), w))) v
handle-IsValid w (get_device port_id) heard v =
    subst IsValid (sym (answered-ports heard Reply.device (done (device_at w.ports port_id), w))) v

-- The ports behind what may be none.
abbrev Behind : {A : Type 0} → Option (A × PortWorker) → Type 0
Behind none = Unit
Behind (some (a, w)) = IsValid w.ports

send_if-ports : (w : PortWorker) (event : Option EventTrb) → (send_if w event).1.ports ≡ w.ports
send_if-ports w none = refl
send_if-ports w (some e) = send-ports w e tt

write_found-IsValid :
    (w : PortWorker) (port_id value : ℕ) (found : Option Port)
    → get_elem? w.ports (one_indexed port_id) ≡ found
    → IsValid w.ports
    → Behind (write_found w port_id value found)
write_found-IsValid w port_id value none e v = tt
write_found-IsValid w port_id value (some p) e v =
    subst IsValid (sym (send_if-ports _ (Portsc.write p.portsc value).1))
      (rewritten-IsValid v (one_indexed port_id) value p e)

abbrev Beyond : Option PortWorker → Type 0
Beyond none = Unit
Beyond (some w) = IsValid w.ports

write_portpmsc-IsValid :
    (w : PortWorker) (port_id value : ℕ) → IsValid w.ports → Beyond (write_portpmsc w port_id value)
unfolding write_portpmsc
write_portpmsc-IsValid w port_id value v =
    elim (Option-cases (get_elem? w.ports (one_indexed port_id))) [
      | inl outside ↦ rw (outside, write_portpmsc) tt
      | inr (p, at) ↦ rw (at, write_portpmsc) (managed-IsValid v (one_indexed port_id) value)
    ]

Step-IsValid : {w w' : PortWorker} → Step w w' → IsValid w.ports → IsValid w'.ports
unfolding write_portsc
Step-IsValid (message {w = w} msg heard) v = handle-IsValid w msg heard v
Step-IsValid (portsc {w = w} port_id value e) v =
    subst Behind e
      (write_found-IsValid w port_id value (get_elem? w.ports (one_indexed port_id)) refl v)
Step-IsValid (portpmsc {w = w} port_id value e) v =
    subst Beyond e (write_portpmsc-IsValid w port_id value v)

-- Over every run of messages to the worker and writes of the guest, from ports with the invariant:
-- there are eight ports, PORTSC of each has its number and version, its bit CCS says whether a device is
-- attached, the device's speed is one of that version, and no two devices have the same identifier.
pub Runs-IsValid : {w w' : PortWorker} → IsValid w.ports → Runs w w' → IsValid w'.ports
Runs-IsValid v here = v
Runs-IsValid v (next r st) = Step-IsValid st (Runs-IsValid v r)
