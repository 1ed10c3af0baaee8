-- ===== src/Port/Attaching.antt =====
-- What a device has when `attach` of src/device/xhci/port.rs has answered.
use usbvfiod.Prelude.{
  ℕ, zero, suc, ◌+◌, ◌≡◌, refl, sym, ap, ◌∙◌, subst, inl, inr, Option, none, some, List, [], ◌∷◌,
  ◌++◌, get_elem?, arith, Bool-cases,
}
use usbvfiod.Trb.Event.{EventTrb}
use usbvfiod.Registers.Portsc
use usbvfiod.Registers.Portsc.{UsbVersion, new_port_status_change_event_trb}
use usbvfiod.SlotManager.{Answer, gone, done}
use usbvfiod.Port.{Speed, Device, Port, PortWorker, Response, successful_operation}
use usbvfiod.Port.Array.{modify, send}
use usbvfiod.Port.Worker.{
  from_speed, attached_portsc, occupy, attached_devices, contains, occupied, plug, plug_at,
  plug_with, find_free, unplug, replug, and_then, announce,
}
use usbvfiod.Port.Searches.{find_free-FreeAt}
use usbvfiod.Port.Validity.{IsValid}
use usbvfiod.Port.Plugging.{position, unplug-IsValid}

modify_self :
    {A : Type 0} (xs : List A) (i : ℕ) (f : A → A) (x : A)
    → get_elem? xs i ≡ some x
    → get_elem? (modify xs i f) i ≡ some (f x)
unfolding modify
modify_self [] i f x e = absurd cc
modify_self (y ∷ xs) zero f x e = cc
modify_self (y ∷ xs) (suc i) f x e = modify_self xs i f x e

-- A device stands in a port of its version, which PORTSC shows and the last event announces.
abbrev pub Attached : Device → PortWorker → Type 0
Attached d w =
    (s : Speed) × (i : ℕ) × (p : Port) × (before : List EventTrb) × (d.speed ≡ some s)
    × (get_elem? w.ports i ≡ some p)
    × (p.device ≡ some d)
    × (p.portsc.usb_version ≡ from_speed s)
    × (p.portsc.value ≡ attached_portsc (from_speed s) s)
    × (w.events ≡ before ++ new_port_status_change_event_trb (i + 1) ∷ [])

sent-Attached :
    (w : PortWorker) (d : Device) (port_id : ℕ)
    → (announce w port_id).0 ≡ done successful_operation
    → (announce w port_id).1
      ≡ record w { events = w.events ++ new_port_status_change_event_trb port_id ∷ [] }
unfolding send
sent-Attached w d port_id h = elim (Bool-cases w.listened) [
  | inl here ↦ rw here refl
  | inr gone_away ↦ absurd (cc (rw gone_away at h))
]

module _ (w : PortWorker) (v : IsValid w.ports) where
  plug_at-Attached :
      (d : Device) (s : Speed) (free : Option ℕ)
      → d.speed ≡ some s
      → find_free (from_speed s) w.ports 1 ≡ free
      → (plug_at w d s free).0 ≡ done successful_operation
      → Attached d (plug_at w d s free).1
  unfolding occupied Portsc.set
  plug_at-Attached d s none speed e h = absurd cc
  plug_at-Attached d s (some port_id) speed e h =
      let (i, p, here, at, empty, version) = find_free-FreeAt (from_speed s) w.ports 1 port_id e in
      let w' = occupied w port_id d s in
      subst (Attached d) (sym (sent-Attached w' d port_id h)) (
        s,
        i,
        occupy d s p,
        w.events,
        speed,
        subst (λ k. get_elem? (modify w.ports k (occupy d s)) i ≡ some (occupy d s p))
            (sym (position w v i port_id p here at)) (modify_self w.ports i (occupy d s) p at),
        refl,
        version,
        refl,
        ap (λ n. w.events ++ new_port_status_change_event_trb n ∷ []) (here ∙ omega arith),
      )

  plug_with-Attached :
      (d : Device) (speed : Option Speed)
      → d.speed ≡ speed
      → (plug_with w d speed).0 ≡ done successful_operation
      → Attached d (plug_with w d speed).1
  plug_with-Attached d none e h = absurd cc
  plug_with-Attached d (some s) e h =
      plug_at-Attached d s (find_free (from_speed s) w.ports 1) e refl h

  plug-Attached : (d : Device) → (plug w d).0 ≡ done successful_operation → Attached d (plug w d).1
  unfolding plug
  plug-Attached d h = plug_with-Attached d d.speed refl h

and_then-Attached :
    (r : Answer Response × PortWorker) (d : Device)
    → IsValid r.1.ports
    → (and_then r (λ w'. plug w' d)).0 ≡ done successful_operation
    → Attached d (and_then r (λ w'. plug w' d)).1
and_then-Attached (gone, w) d v h = absurd cc
and_then-Attached (done a, w) d v h = plug-Attached w v d h

-- Where the invariant holds and `attach` answers success, the device is attached to a port of the
-- version of its speed, PORTSC of the port shows it, and the last event that has been sent announces
-- the port.
pub replug-Attached :
    (w : PortWorker) (d : Device)
    → IsValid w.ports
    → (replug w d).0 ≡ done successful_operation
    → Attached d (replug w d).1
unfolding replug
replug-Attached w d v h = elim (Bool-cases (contains (attached_devices w.ports) d.identifier)) [
  | inr absent ↦ rw (absent, replug) (plug-Attached w v d (rw (absent, replug) at h))
  | inl again ↦
      rw (again, replug)
        (and_then-Attached (unplug w d.identifier none) d (unplug-IsValid w v d.identifier none)
          (rw (again, replug) at h))
]
