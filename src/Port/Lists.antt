-- ===== src/Port/Lists.antt =====
-- Lists of ports in src/device/xhci/port.rs: a change at one position, and the identifiers in them.
use usbvfiod.Prelude.{
  ℕ, zero, suc, ◌<◌, ◌≡◌, refl, sym, ap, ap₂, ◌∙◌, subst, ◌⊎◌, inl, inr, Bool, true, false, ◌||◌,
  Option, none, some, List, [], ◌∷◌, length, get_elem?, arith, Bool-cases,
}
use usbvfiod.Port.{Identifier, same_id, Device, Port}
use usbvfiod.Port.Array.{modify}
use usbvfiod.Port.Worker.{with_identifier, attached_devices, contains}

module _ {A : Type 0} where
  pub length-modify : (xs : List A) (i : ℕ) (f : A → A) → length (modify xs i f) ≡ length xs
  unfolding modify
  length-modify [] i f = refl
  length-modify (x ∷ xs) zero f = refl
  length-modify (x ∷ xs) (suc i) f = ap suc (length-modify xs i f)

  -- An element after a change is the one that has been changed, or is as before.
  pub get_elem?-modify :
      (xs : List A) (i : ℕ) (f : A → A) (j : ℕ) (y : A)
      → get_elem? (modify xs i f) j ≡ some y
      → ((j ≡ i) × (x : A) × (get_elem? xs i ≡ some x) × (y ≡ f x)) ⊎ (get_elem? xs j ≡ some y)
  unfolding modify
  get_elem?-modify [] i f j y e = inr e
  get_elem?-modify (x ∷ xs) zero f zero y e = inl (refl, x, refl, cc)
  get_elem?-modify (x ∷ xs) zero f (suc j) y e = inr e
  get_elem?-modify (x ∷ xs) (suc i) f zero y e = inr e
  get_elem?-modify (x ∷ xs) (suc i) f (suc j) y e = elim (get_elem?-modify xs i f j y e) [
    | inl (same, z, at, is) ↦ inl (ap suc same, z, at, is)
    | inr kept ↦ inr kept
  ]

  pub get_elem?-lt : (xs : List A) (i : ℕ) (x : A) → get_elem? xs i ≡ some x → i < length xs
  get_elem?-lt [] i x e = absurd (cc)
  get_elem?-lt (y ∷ xs) zero x e = omega arith
  get_elem?-lt (y ∷ xs) (suc i) x e = omega (arith, get_elem?-lt xs i x e)

pub same_id_sym : (x y : Identifier) → same_id x y ≡ same_id y x
same_id_sym (a, b) (c, d) = ground arith

pub same_id_refl : (x : Identifier) → same_id x x ≡ true
same_id_refl (a, b) = ground arith

pub same_id_eq : (x y : Identifier) → same_id x y ≡ true → x ≡ y
same_id_eq (a, b) (c, d) h = ap₂ (λ i j. (i, j)) (ground arith) (ground arith)

-- Whether a port has a device with an identifier.
abbrev pub has : Option Device → Identifier → Bool
has none id = false
has (some d) id = same_id d.identifier id

pub contains-with_identifier :
    (dev : Option Device) (ids : List Identifier) (id : Identifier)
    → contains (with_identifier dev ids) id ≡ (has dev id || contains ids id)
unfolding contains
contains-with_identifier none ids id = refl
contains-with_identifier (some d) ids id = ground arith

-- No identifier stands twice.
abbrev pub Distinct : List Identifier → Type 0
Distinct [] = Unit
Distinct (x ∷ ids) = (contains ids x ≡ false) × Distinct ids

abbrev Fresh : Option Device → List Identifier → Type 0
Fresh none ids = Unit
Fresh (some d) ids = contains ids d.identifier ≡ false

Distinct-with_identifier :
    (dev : Option Device) (ids : List Identifier)
    → Fresh dev ids
    → Distinct ids
    → Distinct (with_identifier dev ids)
Distinct-with_identifier none ids f h = h
Distinct-with_identifier (some d) ids f h = (f, h)

with_identifier-Distinct :
    (dev : Option Device) (ids : List Identifier)
    → Distinct (with_identifier dev ids)
    → Fresh dev ids × Distinct ids
with_identifier-Distinct none ids h = (tt, h)
with_identifier-Distinct (some d) ids h = h

present :
    (p : Port) (ps : List Port) (id : Identifier)
    → contains (attached_devices (p ∷ ps)) id
      ≡ (has p.device id || contains (attached_devices ps) id)
unfolding attached_devices
present p ps id = contains-with_identifier p.device (attached_devices ps) id

-- Changes that keep every device.
pub attached_devices-modify :
    (ps : List Port) (i : ℕ) (f : Port → Port)
    → ((p : Port) → (f p).device ≡ p.device)
    → attached_devices (modify ps i f) ≡ attached_devices ps
unfolding attached_devices modify
attached_devices-modify [] i f h = refl
attached_devices-modify (p ∷ ps) zero f h =
    ap (λ dev. with_identifier dev (attached_devices ps)) (h p)
attached_devices-modify (p ∷ ps) (suc i) f h =
    ap (λ ids. with_identifier p.device ids) (attached_devices-modify ps i f h)

or_comm : (a b : Bool) → (a || b) ≡ (b || a)
or_comm a b = ground arith

or_assoc : (a b c : Bool) → (a || (b || c)) ≡ ((a || b) || c)
or_assoc a b c = ground arith

neither : (a b : Bool) → (a || b) ≡ false → (a ≡ false) × (b ≡ false)
neither a b h = ground arith

both_false : (a b : Bool) → a ≡ false → b ≡ false → (a || b) ≡ false
both_false a b h k = ground arith

-- A free port gets a device.
module _ (d : Device) (f : Port → Port) (gets : (p : Port) → (f p).device ≡ some d) where
  pub contains-occupied :
      (ps : List Port) (i : ℕ) (p : Port) (id : Identifier)
      → get_elem? ps i ≡ some p
      → p.device ≡ none
      → contains (attached_devices (modify ps i f)) id
        ≡ (contains (attached_devices ps) id || same_id d.identifier id)
  unfolding modify
  contains-occupied [] i p id e free = absurd cc
  contains-occupied (q ∷ ps) zero p id e free =
      let rest = contains (attached_devices ps) id in
      let was_free : q.device ≡ none = cc in
      present (f q) ps id
      ∙ ap (λ dev. has dev id || rest) (gets q)
      ∙ or_comm (same_id d.identifier id) rest
      ∙ sym (
          ap (λ c. c || same_id d.identifier id)
            (present q ps id ∙ ap (λ dev. has dev id || rest) was_free))
  contains-occupied (q ∷ ps) (suc i) p id e free =
      present q (modify ps i f) id
      ∙ ap (λ c. has q.device id || c) (contains-occupied ps i p id e free)
      ∙ or_assoc (has q.device id) (contains (attached_devices ps) id) (same_id d.identifier id)
      ∙ sym (ap (λ c. c || same_id d.identifier id) (present q ps id))

  Fresh-occupied :
      (dev : Option Device) (ids ids' : List Identifier)
      → ((id : Identifier) → contains ids' id ≡ (contains ids id || same_id d.identifier id))
      → Fresh dev ids
      → has dev d.identifier ≡ false
      → Fresh dev ids'
  Fresh-occupied none ids ids' eq fresh other = tt
  Fresh-occupied (some e) ids ids' eq fresh other =
      eq e.identifier ∙ both_false _ _ fresh (same_id_sym d.identifier e.identifier ∙ other)

  pub Distinct-occupied :
      (ps : List Port) (i : ℕ) (p : Port)
      → get_elem? ps i ≡ some p
      → p.device ≡ none
      → contains (attached_devices ps) d.identifier ≡ false
      → Distinct (attached_devices ps)
      → Distinct (attached_devices (modify ps i f))
  unfolding modify attached_devices
  Distinct-occupied [] i p e free absent h = absurd cc
  Distinct-occupied (q ∷ ps) zero p e free absent h =
      let ids = attached_devices ps in
      let (_, later) =
        neither (has q.device d.identifier) (contains ids d.identifier)
          (sym (present q ps d.identifier) ∙ absent) in
      Distinct-with_identifier (f q).device ids (subst (λ dev. Fresh dev ids) (sym (gets q)) later)
        (with_identifier-Distinct q.device ids h).1
  Distinct-occupied (q ∷ ps) (suc i) p e free absent h =
      let ids = attached_devices ps in
      let (fresh, rest) = with_identifier-Distinct q.device ids h in
      let (other, later) =
        neither (has q.device d.identifier) (contains ids d.identifier)
          (sym (present q ps d.identifier) ∙ absent) in
      Distinct-with_identifier q.device (attached_devices (modify ps i f))
        (Fresh-occupied q.device ids (attached_devices (modify ps i f))
          (λ id. contains-occupied ps i p id e free) fresh other)
        (Distinct-occupied ps i p e free later rest)

-- A port loses its device.
module _ (f : Port → Port) (clears : (p : Port) → (f p).device ≡ none) where
  pub contains-vacated :
      (ps : List Port) (i : ℕ) (id : Identifier)
      → contains (attached_devices ps) id ≡ false
      → contains (attached_devices (modify ps i f)) id ≡ false
  unfolding modify
  contains-vacated [] i id h = h
  contains-vacated (q ∷ ps) zero id h =
      present (f q) ps id
      ∙ ap (λ dev. has dev id || contains (attached_devices ps) id) (clears q)
      ∙ (neither (has q.device id) _ (sym (present q ps id) ∙ h)).1
  contains-vacated (q ∷ ps) (suc i) id h =
      let (other, later) = neither (has q.device id) _ (sym (present q ps id) ∙ h) in
      present q (modify ps i f) id ∙ both_false _ _ other (contains-vacated ps i id later)

  Fresh-vacated :
      (dev : Option Device) (ps : List Port) (i : ℕ)
      → Fresh dev (attached_devices ps)
      → Fresh dev (attached_devices (modify ps i f))
  Fresh-vacated none ps i h = tt
  Fresh-vacated (some e) ps i h = contains-vacated ps i e.identifier h

  pub Distinct-vacated :
      (ps : List Port) (i : ℕ)
      → Distinct (attached_devices ps)
      → Distinct (attached_devices (modify ps i f))
  unfolding modify attached_devices
  Distinct-vacated [] i h = h
  Distinct-vacated (q ∷ ps) zero h =
      subst (λ dev. Distinct (with_identifier dev (attached_devices ps))) (sym (clears q))
        (with_identifier-Distinct q.device (attached_devices ps) h).1
  Distinct-vacated (q ∷ ps) (suc i) h =
      let (fresh, rest) = with_identifier-Distinct q.device (attached_devices ps) h in
      Distinct-with_identifier q.device (attached_devices (modify ps i f))
        (Fresh-vacated q.device ps i fresh) (Distinct-vacated ps i rest)

  occurs_at :
      (ps : List Port) (i : ℕ) (p : Port) (d : Device)
      → get_elem? ps i ≡ some p
      → p.device ≡ some d
      → contains (attached_devices ps) d.identifier ≡ true
  occurs_at [] i p d e at = absurd cc
  occurs_at (q ∷ ps) zero p d e at =
      let seat : q.device ≡ some d = cc in
      present q ps d.identifier
      ∙ ap (λ dev. has dev d.identifier || contains (attached_devices ps) d.identifier) seat
      ∙ ap (λ b. b || contains (attached_devices ps) d.identifier) (same_id_refl d.identifier)
  occurs_at (q ∷ ps) (suc i) p d e at =
      present q ps d.identifier
      ∙ ap (λ b. has q.device d.identifier || b) (occurs_at ps i p d e at)
      ∙ or_comm (has q.device d.identifier) true

  elsewhere :
      (dev : Option Device) (ids : List Identifier) (id : Identifier)
      → Fresh dev ids
      → contains ids id ≡ true
      → has dev id ≡ false
  elsewhere none ids id fresh there = refl
  elsewhere (some e) ids id fresh there = elim (Bool-cases (same_id e.identifier id)) [
    | inr other ↦ other
    | inl same ↦
        let seen : contains ids e.identifier ≡ true =
          subst (λ x. contains ids x ≡ true) (sym (same_id_eq e.identifier id same)) there in
        absurd cc
  ]

  pub vacated_absent :
      (ps : List Port) (i : ℕ) (p : Port) (d : Device)
      → get_elem? ps i ≡ some p
      → p.device ≡ some d
      → Distinct (attached_devices ps)
      → contains (attached_devices (modify ps i f)) d.identifier ≡ false
  unfolding modify attached_devices
  vacated_absent [] i p d e at h = absurd cc
  vacated_absent (q ∷ ps) zero p d e at h =
      let ids = attached_devices ps in
      let seat : q.device ≡ some d = cc in
      present (f q) ps d.identifier
      ∙ ap (λ dev. has dev d.identifier || contains ids d.identifier) (clears q)
      ∙ subst (λ dev. Fresh dev ids) seat (with_identifier-Distinct q.device ids h).0
  vacated_absent (q ∷ ps) (suc i) p d e at h =
      let ids = attached_devices ps in
      let (fresh, rest) = with_identifier-Distinct q.device ids h in
      present q (modify ps i f) d.identifier
      ∙ both_false _ _ (elsewhere q.device ids d.identifier fresh (occurs_at ps i p d e at))
          (vacated_absent ps i p d e at rest)
