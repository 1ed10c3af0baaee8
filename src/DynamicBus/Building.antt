-- ===== src/DynamicBus/Building.antt =====
-- src/dynamic_bus.rs: the bus that a list of mappings builds.
use usbvfiod.Prelude.{
  ℕ, ◌<◌, ◌≡◌, refl, sym, ap, ◌∙◌, subst, inl, inr, Bool, false, none, List, [], ◌∷◌, ◌++◌, arith,
  Bool-cases,
}
use usbvfiod.Interval.{Range, overlaps}
use usbvfiod.Bus.Request.{u64_mod}
use usbvfiod.Bus.Device.{Device}
use usbvfiod.Bus.Routing
use usbvfiod.Bus.Routing.{DeviceEntry, Bus, bus_size, AddResult, ok, err, find_overlap}
use usbvfiod.Bus.Validity
use usbvfiod.Bus.Validity.{claimed, with_device, add-ok_iff, add_inv, add-IsValid}
use usbvfiod.DynamicBus.{Segment}
use usbvfiod.DynamicBus.Mapping.{and_then, build_from, keep}

module _ {S : Type 0} where
  -- Every interval that is free on one bus is free on another of its size.
  abbrev Roomier : Bus S → Bus S → Type 0
  Roomier b₂ b =
      (bus_size b₂ ≡ bus_size b)
      × ((r : Range) → find_overlap b.devices r ≡ none → find_overlap b₂.devices r ≡ none)

  find_overlap-snoc :
      (es : List (DeviceEntry S)) (e : DeviceEntry S) (r : Range)
      → find_overlap (es ++ e ∷ []) r ≡ none
      → (find_overlap es r ≡ none) × (overlaps e.range r ≡ false)
  unfolding find_overlap
  find_overlap-snoc [] e r h = ground arith
  find_overlap-snoc (f ∷ es) e r h = ground (arith, find_overlap-snoc es e r)

  snoc-find_overlap :
      (es : List (DeviceEntry S)) (e : DeviceEntry S) (r : Range)
      → find_overlap es r ≡ none
      → overlaps e.range r ≡ false
      → find_overlap (es ++ e ∷ []) r ≡ none
  unfolding find_overlap
  snoc-find_overlap [] e r h k = ground arith
  snoc-find_overlap (f ∷ es) e r h k = ground (arith, snoc-find_overlap es e r)

  with_both :
      (b₂ b : Bus S) (start_addr : ℕ) (device : Device S)
      → Roomier b₂ b
      → Roomier (with_device b₂ start_addr device) (with_device b start_addr device)
  with_both b₂ b start_addr device (size, room) = (
    size,
    λ r h.
        let (free, apart) = find_overlap-snoc b.devices _ r h in
        snoc-find_overlap b₂.devices _ r (room r free) apart,
  )

  with_one :
      (b₂ b : Bus S) (start_addr : ℕ) (device : Device S)
      → Roomier b₂ b
      → Roomier b₂ (with_device b start_addr device)
  with_one b₂ b start_addr device (size, room) =
      (size, λ r h. room r (find_overlap-snoc b.devices _ r h).0)

  and_then_inv :
      (r : AddResult (Bus S)) (k : Bus S → AddResult (Bus S)) (c : Bus S)
      → and_then r k ≡ ok c
      → (b : Bus S) × (r ≡ ok b) × (k b ≡ ok c)
  and_then_inv (err e) k c h = absurd cc
  and_then_inv (ok b) k c h = (b, refl, h)

  -- Where a list of mappings builds, so does what is kept of it.
  pub keep-builds :
      (test : Segment S → Bool) (ss : List (Segment S)) (b₂ b c : Bus S)
      → Roomier b₂ b
      → bus_size b < u64_mod
      → build_from b ss ≡ ok c
      → (c₂ : Bus S) × (build_from b₂ (keep test ss) ≡ ok c₂)
  unfolding build_from keep
  keep-builds test [] b₂ b c room small h = (b₂, refl)
  keep-builds test (s ∷ ss) b₂ b c room small h =
      let (b', eq, k) = and_then_inv (Routing.add b s.start_addr s.device) _ c h in
      let (e, inside, free) = add_inv b s.start_addr s.device b' eq in
      let small' : bus_size b' < u64_mod = subst (λ x. bus_size x < u64_mod) (sym e) small in
      elim (Bool-cases (test s)) [
        | inl kept ↦
            let larger = with_device b₂ s.start_addr s.device in
            let added : Routing.add b₂ s.start_addr s.device ≡ ok larger =
              (add-ok_iff b₂ s.start_addr s.device (rw room.0 small)).1
                (rw room.0 inside, room.1 _ free) in
            let (c₂, built) =
              keep-builds test ss larger b' c
                (subst (Roomier larger) (sym e) (with_both b₂ b s.start_addr s.device room)) small'
                k in
            (c₂, rw kept (ap (λ r. and_then r (λ x. build_from x (keep test ss))) added ∙ built))
        | inr left_out ↦
            let (c₂, built) =
              keep-builds test ss b₂ b' c
                (subst (Roomier b₂) (sym e) (with_one b₂ b s.start_addr s.device room)) small' k in
            (c₂, rw left_out built)
      ]

  pub build_from-IsValid :
      (ss : List (Segment S)) (b c : Bus S)
      → Validity.IsValid b
      → build_from b ss ≡ ok c
      → Validity.IsValid c
  unfolding build_from
  build_from-IsValid [] b c v h = let same : b ≡ c = cc in subst Validity.IsValid same v
  build_from-IsValid (s ∷ ss) b c v h =
      let (b', eq, k) = and_then_inv (Routing.add b s.start_addr s.device) _ c h in
      build_from-IsValid ss b' c (add-IsValid b s.start_addr s.device b' v eq) k

  -- The last of the mappings that build a bus is the last on it.
  pub last-built :
      (ss : List (Segment S)) (s : Segment S) (b c : Bus S)
      → build_from b (ss ++ s ∷ []) ≡ ok c
      → (b' : Bus S) × (c ≡ with_device b' s.start_addr s.device)
  unfolding build_from
  last-built [] s b c h =
      let (b', eq, k) = and_then_inv (Routing.add b s.start_addr s.device) _ c h in
      let same : b' ≡ c = cc in (b, sym same ∙ (add_inv b s.start_addr s.device b' eq).0)
  last-built (t ∷ ss) s b c h =
      let (b', eq, k) = and_then_inv (Routing.add b t.start_addr t.device) _ c h in
      last-built ss s b' c k
