-- ===== src/Port/Searches.antt =====
-- What the searches of src/device/xhci/port.rs find.
use usbvfiod.Prelude.{
  ℕ, zero, suc, ◌+◌, ◌≡◌, refl, sym, ap₂, ◌∙◌, subst, ◌⊎◌, inl, inr, true, false, ◌||◌, Option,
  none, some, List, [], ◌∷◌, get_elem?, arith, Bool-cases,
}
use usbvfiod.Registers.Portsc.{UsbVersion, usb2, usb3}
use usbvfiod.Port.{Identifier, same_id, Device, Port}
use usbvfiod.Port.Worker.{
  is_free, same_version, find_free, matches, first_match, find_attached, attached_devices, contains,
}
use usbvfiod.Port.Lists.{has, contains-with_identifier}

same_version_eq : (v w : UsbVersion) → same_version v w ≡ true → v ≡ w
same_version_eq usb2 usb2 h = refl
same_version_eq usb2 usb3 h = absurd cc
same_version_eq usb3 usb2 h = absurd cc
same_version_eq usb3 usb3 h = refl

-- A free port of a version stands at a position of a list that begins with the port of a number.
abbrev pub FreeAt : UsbVersion → List Port → ℕ → ℕ → Type 0
FreeAt version ps from port_id =
    (i : ℕ) × (p : Port) × (port_id ≡ from + i)
    × (get_elem? ps i ≡ some p)
    × (p.device ≡ none)
    × (p.portsc.usb_version ≡ version)

is_free-lem :
    (version : UsbVersion) (p : Port) (dev : Option Device)
    → p.device ≡ dev
    → is_free version p ≡ true
    → (p.device ≡ none) × (p.portsc.usb_version ≡ version)
is_free-lem version p none e h = (e, same_version_eq _ _ (rw (e, is_free) at h))
is_free-lem version p (some d) e h = absurd (cc (rw (e, is_free) at h))

pub find_free-FreeAt :
    (version : UsbVersion) (ps : List Port) (from port_id : ℕ)
    → find_free version ps from ≡ some port_id
    → FreeAt version ps from port_id
unfolding find_free
find_free-FreeAt version [] from port_id h = absurd cc
find_free-FreeAt version (p ∷ ps) from port_id h = elim (Bool-cases (is_free version p)) [
  | inl free ↦
      let (empty, fits) = is_free-lem version p p.device refl free in
      let here : some from ≡ some port_id = rw free at h in
      let same : from ≡ port_id = cc in (zero, p, omega arith, refl, empty, fits)
  | inr taken ↦
      let (i, q, place, at, empty, fits) =
        find_free-FreeAt version ps (from + 1) port_id (rw taken at h) in
      (suc i, q, omega arith, at, empty, fits)
]

-- A device that matches stands at a position.
abbrev pub AttachedAt : Identifier → List Port → ℕ → ℕ × Device → Type 0
AttachedAt id ps from (port_id, d) =
    (i : ℕ) × (p : Port) × (port_id ≡ from + i)
    × (get_elem? ps i ≡ some p)
    × (p.device ≡ some d)
    × (same_id d.identifier id ≡ true)

matches-same :
    (id : Identifier) (instance_id : Option ℕ) (d : Device)
    → matches id instance_id d ≡ true
    → same_id d.identifier id ≡ true
matches-same id none d h = h
matches-same id (some n) d h = ground arith

-- The search sees a match in the first port, or goes on.
first_match-cases :
    (id : Identifier) (instance_id : Option ℕ) (from : ℕ) (dev : Option Device)
    (rest : Option (ℕ × Device)) (found : ℕ × Device)
    → first_match id instance_id from dev rest ≡ some found
    → ((d : Device) × (dev ≡ some d) × (found ≡ (from, d)) × (same_id d.identifier id ≡ true))
      ⊎ (rest ≡ some found)
first_match-cases id instance_id from none rest found h = inr h
first_match-cases id instance_id from (some d) rest found h =
    elim (Bool-cases (matches id instance_id d)) [
      | inl match ↦
          let here : some (from, d) ≡ some found = rw match at h in
          inl (d, refl, cc, matches-same id instance_id d match)
      | inr other ↦ inr (rw other at h)
    ]

pub find_attached-AttachedAt :
    (id : Identifier) (instance_id : Option ℕ) (ps : List Port) (from : ℕ) (found : ℕ × Device)
    → find_attached id instance_id ps from ≡ some found
    → AttachedAt id ps from found
unfolding find_attached
find_attached-AttachedAt id instance_id [] from found h = absurd cc
find_attached-AttachedAt id instance_id (p ∷ ps) from found h =
    elim (first_match-cases id instance_id from p.device _ found h) [
      | inl (d, seat, here, same) ↦
          subst (AttachedAt id (p ∷ ps) from) (sym here) (zero, p, omega arith, refl, seat, same)
      | inr later ↦
          let (i, q, place, at, seat, same) =
            find_attached-AttachedAt id instance_id ps (from + 1) found later in
          (suc i, q, omega arith, at, seat, same)
    ]

first_match-none :
    (id : Identifier) (from : ℕ) (dev : Option Device) (rest : Option (ℕ × Device))
    → first_match id none from dev rest ≡ none
    → (has dev id ≡ false) × (rest ≡ none)
first_match-none id from none rest h = (refl, h)
first_match-none id from (some d) rest h = elim (Bool-cases (same_id d.identifier id)) [
  | inl same ↦ absurd (cc (rw same at h))
  | inr other ↦ (other, rw other at h)
]

-- Without a match there is no device with the identifier.
pub find_attached-none :
    (id : Identifier) (ps : List Port) (from : ℕ)
    → find_attached id none ps from ≡ none
    → contains (attached_devices ps) id ≡ false
unfolding find_attached attached_devices contains
find_attached-none id [] from h = refl
find_attached-none id (p ∷ ps) from h =
    let (other, later) = first_match-none id from p.device _ h in
    contains-with_identifier p.device (attached_devices ps) id
    ∙ ap₂ (λ a b. a || b) other (find_attached-none id ps (from + 1) later)
