-- ===== src/Port/Plugging.antt =====
-- What `attach` and `detach` of src/device/xhci/port.rs do to the ports.
use usbvfiod.Prelude.{
  ℕ, ◌+◌, ◌<◌, ◌≡◌, refl, sym, ap, ◌∙◌, subst, inl, inr, false, Option, none, some, List, get_elem?,
  arith, Bool-cases,
}
use usbvfiod.Trb.Event.{EventTrb}
use usbvfiod.Registers.Portsc.{new_port_status_change_event_trb}
use usbvfiod.SlotManager.Slot.{one_indexed}
use usbvfiod.SlotManager.{Answer, gone, done}
use usbvfiod.Port.{Speed, Identifier, Device, Port, PortWorker, Response, successful_operation}
use usbvfiod.Port.Array.{max_ports, modify, send}
use usbvfiod.Port.Worker.{
  from_speed, occupy, vacate, attached_devices, contains, occupied, vacated, plug, unplug, replug,
  unplug_found, plug_at, plug_with, find_free, find_attached, and_then, announce,
}
use usbvfiod.Port.Lists.{get_elem?-lt, vacated_absent, same_id_eq}
use usbvfiod.Port.Searches.{find_free-FreeAt, find_attached-AttachedAt, find_attached-none}
use usbvfiod.Port.Validity.{IsValid, occupied-IsValid, vacated-IsValid}

pub send-ports :
    {A : Type 0} (w : PortWorker) (e : EventTrb) (a : A) → (send w e a).1.ports ≡ w.ports
unfolding send
send-ports w e a = elim (Bool-cases w.listened) [
  | inl here ↦ rw here refl
  | inr gone_away ↦ rw gone_away refl
]

-- The port with a number stands one place before it.
place : (i : ℕ) → i < max_ports → one_indexed (1 + i) ≡ i
place i h = omega arith

module _ (w : PortWorker) (v : IsValid w.ports) where
  announced :
      (w' : PortWorker) (port_id : ℕ) (P : List Port → Type 0)
      → P w'.ports
      → P (announce w' port_id).1.ports
  announced w' port_id P h =
      subst P (sym (send-ports w' (new_port_status_change_event_trb port_id) successful_operation))
        h

  pub position :
      (i port_id : ℕ) (p : Port)
      → port_id ≡ 1 + i
      → get_elem? w.ports i ≡ some p
      → one_indexed port_id ≡ i
  position i port_id p here at =
      ap one_indexed here ∙ place i (subst (λ n. i < n) v.size (get_elem?-lt w.ports i p at))

  unplug_found-IsValid : (found : Option (ℕ × Device)) → IsValid (unplug_found w found).1.ports
  unfolding vacated
  unplug_found-IsValid none = v
  unplug_found-IsValid (some (port_id, d)) =
      announced (vacated w port_id d) port_id IsValid (vacated-IsValid v (one_indexed port_id))

  -- `detach` keeps the invariant.
  pub unplug-IsValid :
      (id : Identifier) (instance_id : Option ℕ) → IsValid (unplug w id instance_id).1.ports
  unfolding unplug
  unplug-IsValid id instance_id = unplug_found-IsValid (find_attached id instance_id w.ports 1)

  unplug_found_absent :
      (id : Identifier) (found : Option (ℕ × Device))
      → find_attached id none w.ports 1 ≡ found
      → contains (attached_devices (unplug_found w found).1.ports) id ≡ false
  unfolding vacated
  unplug_found_absent id none e = find_attached-none id w.ports 1 e
  unplug_found_absent id (some (port_id, d)) e =
      let (i, p, here, at, seat, same) =
        find_attached-AttachedAt id none w.ports 1 (port_id, d) e in
      announced (vacated w port_id d) port_id (λ ps. contains (attached_devices ps) id ≡ false)
        (subst (λ k. contains (attached_devices (modify w.ports k vacate)) id ≡ false)
          (sym (position i port_id p here at))
          (subst (λ x. contains (attached_devices (modify w.ports i vacate)) x ≡ false)
            (same_id_eq d.identifier id same)
            (vacated_absent vacate (λ q. refl) w.ports i p d at seat v.distinct)))

  -- After `detach` without an instance there is no device with the identifier.
  pub unplug_absent :
      (id : Identifier) → contains (attached_devices (unplug w id none).1.ports) id ≡ false
  unfolding unplug
  unplug_absent id = unplug_found_absent id (find_attached id none w.ports 1) refl

  plug_at-IsValid :
      (d : Device) (s : Speed) (free : Option ℕ)
      → d.speed ≡ some s
      → contains (attached_devices w.ports) d.identifier ≡ false
      → find_free (from_speed s) w.ports 1 ≡ free
      → IsValid (plug_at w d s free).1.ports
  unfolding occupied
  plug_at-IsValid d s none speed absent e = v
  plug_at-IsValid d s (some port_id) speed absent e =
      let (i, p, here, at, empty, version) = find_free-FreeAt (from_speed s) w.ports 1 port_id e in
      announced (occupied w port_id d s) port_id IsValid (
        subst (λ k. IsValid (modify w.ports k (occupy d s))) (sym (position i port_id p here at))
          (occupied-IsValid v i p d s at empty version speed absent))

  plug_with-IsValid :
      (d : Device) (speed : Option Speed)
      → d.speed ≡ speed
      → contains (attached_devices w.ports) d.identifier ≡ false
      → IsValid (plug_with w d speed).1.ports
  plug_with-IsValid d none e absent = v
  plug_with-IsValid d (some s) e absent =
      plug_at-IsValid d s (find_free (from_speed s) w.ports 1) e absent refl

  pub plug-IsValid :
      (d : Device)
      → contains (attached_devices w.ports) d.identifier ≡ false
      → IsValid (plug w d).1.ports
  unfolding plug
  plug-IsValid d absent = plug_with-IsValid d d.speed refl absent

and_then-IsValid :
    (r : Answer Response × PortWorker) (d : Device)
    → IsValid r.1.ports
    → contains (attached_devices r.1.ports) d.identifier ≡ false
    → IsValid (and_then r (λ w'. plug w' d)).1.ports
and_then-IsValid (gone, w) d v absent = v
and_then-IsValid (done a, w) d v absent = plug-IsValid w v d absent

-- `attach` keeps the invariant.
pub replug-IsValid : (w : PortWorker) (d : Device) → IsValid w.ports → IsValid (replug w d).1.ports
unfolding replug
replug-IsValid w d v = elim (Bool-cases (contains (attached_devices w.ports) d.identifier)) [
  | inr absent ↦ rw (absent, replug) (plug-IsValid w v d absent)
  | inl again ↦
      rw (again, replug)
        (and_then-IsValid (unplug w d.identifier none) d (unplug-IsValid w v d.identifier none)
          (unplug_absent w v d.identifier))
]
