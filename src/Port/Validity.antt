-- ===== src/Port/Validity.antt =====
-- The invariant of the ports in src/device/xhci/port.rs, and that a change of one port keeps it.
use usbvfiod.Prelude.{
  ℕ, zero, suc, ◌+◌, ◌≡◌, refl, sym, ◌∙◌, subst, inl, inr, Bool, true, false, Option, none, some,
  List, length, get_elem?, arith,
}
use usbvfiod.Prelude.Bits.{test_bit}
use usbvfiod.Registers.Portsc
use usbvfiod.Registers.Portsc.{PortscRegister, UsbVersion, usb2, usb3}
use usbvfiod.Registers.Changes.{write-ccs}
use usbvfiod.Port.{Speed, full, low, high, super, super_plus, Device, Port}
use usbvfiod.Port.Array.{max_ports, port_version, modify, new, empty_ports}
use usbvfiod.Port.Worker.{from_speed, attached_portsc, occupy, vacate, attached_devices, contains}
use usbvfiod.Port.Lists.{
  Distinct, length-modify, get_elem?-modify, attached_devices-modify, Distinct-occupied,
  Distinct-vacated,
}

abbrev pub is_attached : Option Device → Bool
is_attached none = false
is_attached (some d) = true

-- The speed of a device is that of its port.
abbrev pub Seated : UsbVersion → Option Device → Type 0
Seated version none = Unit
Seated version (some d) = (s : Speed) × (d.speed ≡ some s) × (from_speed s ≡ version)

-- PORTSC has the number and the version of its port, and its bit CCS says whether there is a device.
pub record Fits (port_id : ℕ) (p : Port) : Type 0 where
  pub number : p.portsc.port_id ≡ port_id
  pub version : p.portsc.usb_version ≡ port_version port_id
  pub connected : test_bit p.portsc.value 0 ≡ is_attached p.device
  pub seated : Seated p.portsc.usb_version p.device

pub record IsValid (ports : List Port) : Type 0 where
  pub size : length ports ≡ max_ports
  pub fits : (i : ℕ) (p : Port) → get_elem? ports i ≡ some p → Fits (i + 1) p
  pub distinct : Distinct (attached_devices ports)

-- A change of a port that keeps what PORTSC says.
modify-Fits :
    (ps : List Port) (i : ℕ) (f : Port → Port)
    → ((j : ℕ) (p : Port) → get_elem? ps j ≡ some p → Fits (j + 1) p)
    → ((p : Port) → get_elem? ps i ≡ some p → Fits (i + 1) p → Fits (i + 1) (f p))
    → (j : ℕ) (p : Port) → get_elem? (modify ps i f) j ≡ some p
    → Fits (j + 1) p
modify-Fits ps i f h k j p e = elim (get_elem?-modify ps i f j p e) [
  | inr kept ↦ h j p kept
  | inl (same, q, at, is) ↦
      subst (λ n. Fits (n + 1) p) (sym same) (subst (Fits (i + 1)) (sym is) (k q at (h i q at)))
]

ccs_attached : (version : UsbVersion) (s : Speed) → test_bit (attached_portsc version s) 0 ≡ true
ccs_attached usb2 full = refl
ccs_attached usb2 low = refl
ccs_attached usb2 high = refl
ccs_attached usb2 super = refl
ccs_attached usb2 super_plus = refl
ccs_attached usb3 full = refl
ccs_attached usb3 low = refl
ccs_attached usb3 high = refl
ccs_attached usb3 super = refl
ccs_attached usb3 super_plus = refl

pub occupy-Fits :
    (d : Device) (s : Speed) (n : ℕ) (p : Port)
    → d.speed ≡ some s
    → p.portsc.usb_version ≡ from_speed s
    → Fits n p
    → Fits n (occupy d s p)
unfolding Portsc.set
occupy-Fits d s n p speed version fit = record {
  number = fit.number;
  version = fit.version;
  connected = ccs_attached (from_speed s) s;
  seated = (s, speed, sym version);
}

pub vacate-Fits : (n : ℕ) (p : Port) → Fits n p → Fits n (vacate p)
unfolding Portsc.set
vacate-Fits n p fit = record {
  number = fit.number;
  version = fit.version;
  connected = refl;
  seated = tt;
}

-- A port with the register that a write of the guest has left.
abbrev pub rewritten : PortscRegister → ℕ → Port → Port
rewritten r value p = record p { portsc = (Portsc.write r value).0 }

write_identity :
    (r : PortscRegister) (value : ℕ)
    → ((Portsc.write r value).0.port_id ≡ r.port_id)
      × ((Portsc.write r value).0.usb_version ≡ r.usb_version)
unfolding Portsc.write
write_identity r value = ground arith

rewritten-Fits : (value n : ℕ) (p : Port) → Fits n p → Fits n (rewritten p.portsc value p)
rewritten-Fits value n p fit =
    let (number, version) = write_identity p.portsc value in
    record {
      number = number ∙ fit.number;
      version = version ∙ fit.version;
      connected = write-ccs p.portsc value ∙ fit.connected;
      seated = subst (λ v. Seated v p.device) (sym version) fit.seated;
    }

-- The port at a position is one.
there : {o : Option Port} {p q : Port} → o ≡ some p → o ≡ some q → p ≡ q
there at at' = cc

module _ {ps : List Port} (v : IsValid ps) (i : ℕ) where
  pub occupied-IsValid :
      (p : Port) (d : Device) (s : Speed)
      → get_elem? ps i ≡ some p
      → p.device ≡ none
      → p.portsc.usb_version ≡ from_speed s
      → d.speed ≡ some s
      → contains (attached_devices ps) d.identifier ≡ false
      → IsValid (modify ps i (occupy d s))
  occupied-IsValid p d s at free version speed absent = record {
    size = length-modify ps i (occupy d s) ∙ v.size;
    fits = modify-Fits ps i (occupy d s) v.fits (λ q qt fit.
        occupy-Fits d s (i + 1) q speed
          (subst (λ t. t.portsc.usb_version ≡ from_speed s) (there at qt) version) fit);
    distinct = Distinct-occupied d (occupy d s) (λ q. refl) ps i p at free absent v.distinct;
  }

  pub vacated-IsValid : IsValid (modify ps i vacate)
  vacated-IsValid = record {
    size = length-modify ps i vacate ∙ v.size;
    fits = modify-Fits ps i vacate v.fits (λ q qt fit. vacate-Fits (i + 1) q fit);
    distinct = Distinct-vacated vacate (λ q. refl) ps i v.distinct;
  }

  pub rewritten-IsValid :
      (value : ℕ) (p : Port)
      → get_elem? ps i ≡ some p
      → IsValid (modify ps i (rewritten p.portsc value))
  rewritten-IsValid value p at = record {
    size = length-modify ps i (rewritten p.portsc value) ∙ v.size;
    fits = modify-Fits ps i (rewritten p.portsc value) v.fits (λ q qt fit.
        subst (λ t. Fits (i + 1) (rewritten t.portsc value q)) (sym (there at qt))
          (rewritten-Fits value (i + 1) q fit));
    distinct =
        subst Distinct (sym (attached_devices-modify ps i (rewritten p.portsc value) (λ q. refl)))
          v.distinct;
  }

  -- PORTPMSC says nothing of a device.
  pub managed-IsValid : (value : ℕ) → IsValid (modify ps i (λ q. record q { portpmsc = value }))
  managed-IsValid value =
      let f : Port → Port = λ q. record q { portpmsc = value } in
      record {
        size = length-modify ps i f ∙ v.size;
        fits = modify-Fits ps i f v.fits (λ q qt fit. record {
          number = fit.number;
          version = fit.version;
          connected = fit.connected;
          seated = fit.seated;
        });
        distinct = subst Distinct (sym (attached_devices-modify ps i f (λ q. refl))) v.distinct;
      }

empty-Fits :
    (from n i : ℕ) (p : Port) → get_elem? (empty_ports from n) i ≡ some p → Fits (from + i) p
unfolding Portsc.new
empty-Fits from zero i p e = absurd cc
empty-Fits from (suc n) zero p e =
    let first : Port = record {
      device = none;
      portsc = Portsc.new (port_version from) from;
      portpmsc = 0;
    } in
    let fit : Fits from first = record {
      number = refl;
      version = refl;
      connected = refl;
      seated = tt;
    } in
    let same : first ≡ p = cc in subst (λ m. Fits m p) (omega arith) (subst (Fits from) same fit)
empty-Fits from (suc n) (suc i) p e =
    subst (λ m. Fits m p) (omega arith) (empty-Fits (from + 1) n i p e)

pub new-IsValid : (listened : Bool) → IsValid (new listened).ports
unfolding new attached_devices
new-IsValid listened = record {
  size = refl;
  fits = λ i p e. subst (λ m. Fits m p) (omega arith) (empty-Fits 1 max_ports i p e);
  distinct = tt;
}
