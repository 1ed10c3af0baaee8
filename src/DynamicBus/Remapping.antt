-- ===== src/DynamicBus/Remapping.antt =====
-- src/dynamic_bus.rs: mapping the same memory again, and taking memory away.
use usbvfiod.Prelude.{
  ℕ, ◌<◌, ◌≡◌, refl, sym, ap, ◌∙◌, inl, inr, Bool, true, false, not, List, [], ◌∷◌, ◌++◌, arith,
  Bool-cases, ==_refl, ◌≢◌, ◌⊎◌, ◌≤◌, ◌+◌, ◌-◌, ◌^◌,
}
use usbvfiod.Bus.Device.{Device, default_device}
use usbvfiod.Bus.Routing
use usbvfiod.Bus.Routing.{DeviceEntry, Bus, bus_size, AddResult, ok, err, find_overlap}
use usbvfiod.Bus.Validity
use usbvfiod.Bus.Validity.{claimed, with_device, add-ok_iff, add_inv, add-IsValid}
use usbvfiod.DynamicBus.{Segment, DynamicBus}
use usbvfiod.DynamicBus.Mapping.{
  empty_bus, build, keep, store, elsewhere, add, outside, remove_range,
}
use usbvfiod.DynamicBus.Building.{keep-builds, build_from-IsValid, last-built}

-- A list is what stays of another one, in its order: what stays has one property, and all that goes
-- another.
pub data Split {A : Type 0} (Stays Goes : A → Type 0) : List A → List A → Type 0 where
  nothing : Split Stays Goes [] []
  stays :
      {a : A} {xs ys : List A}
      → Stays a
      → Split Stays Goes xs ys
      → Split Stays Goes (a ∷ xs) (a ∷ ys)
  goes : {a : A} {xs ys : List A} → Goes a → Split Stays Goes xs ys → Split Stays Goes (a ∷ xs) ys

-- A mapping begins below a range of memory, above it, or at the last address of all.
pub Apart : {S : Type 0} → ℕ → ℕ → Segment S → Type 0
Apart address size s =
    (s.start_addr < address) ⊎ ((address + size ≤ s.start_addr) ⊎ (2 ^ 64 - 1 ≤ s.start_addr))

-- A mapping begins in a range of memory that has no last address of all.
pub Inside : {S : Type 0} → ℕ → ℕ → Segment S → Type 0
Inside address size s =
    (address ≤ s.start_addr) × (s.start_addr < address + size) × (s.start_addr < 2 ^ 64 - 1)

module _ {S : Type 0} where
  -- The bus is what the mappings build.
  abbrev pub IsBuilt : DynamicBus S → Type 0
  IsBuilt d = build d.segments ≡ ok d.bus

  empty-IsValid : Validity.IsValid (empty_bus {S = S})
  unfolding empty_bus Routing.new Routing.new_with_default default_device
  empty-IsValid = record { word = omega arith; fits = tt; separate = tt }

  keep-Split :
      (test : Segment S → Bool) (Stays Goes : Segment S → Type 0)
      → ((s : Segment S) → test s ≡ true → Stays s)
      → ((s : Segment S) → test s ≡ false → Goes s)
      → (ss : List (Segment S)) → Split Stays Goes ss (keep test ss)
  unfolding keep
  keep-Split test Stays Goes h k [] = nothing
  keep-Split test Stays Goes h k (s ∷ ss) = elim (Bool-cases (test s)) [
    | inl kept ↦ rw kept (stays (h s kept) (keep-Split test Stays Goes h k ss))
    | inr left_out ↦ rw left_out (goes (k s left_out) (keep-Split test Stays Goes h k ss))
  ]

  outside-Apart :
      (address size : ℕ) (s : Segment S) → outside address size s ≡ true → Apart address size s
  unfolding Apart
  outside-Apart address size s h = ground arith

  outside-Inside :
      (address size : ℕ) (s : Segment S) → outside address size s ≡ false → Inside address size s
  unfolding Inside
  outside-Inside address size s h = ground arith

  -- Where the bus is what the mappings build, `remove_range` is never refused. Of the mappings it takes
  -- away those that begin in the range, but at the last of all addresses, and it leaves those that begin
  -- below it, above it or at the last of all addresses, in their order. They build the bus that it
  -- leaves, on which no two overlap.
  pub remove_range-IsBuilt :
      (d : DynamicBus S) (address size : ℕ)
      → IsBuilt d
      → (d' : DynamicBus S) × (remove_range d address size ≡ ok d')
        × Split (Apart address size) (Inside address size) d.segments d'.segments
        × IsBuilt d'
        × Validity.IsValid d'.bus
  unfolding remove_range build
  remove_range-IsBuilt d address size h =
      let test = outside address size in
      let (b, built) =
        keep-builds test d.segments empty_bus empty_bus d.bus (refl, λ r free. free)
          empty-IsValid.word h in
      (
        record { segments = keep test d.segments; bus = b },
        ap (store (keep test d.segments)) built,
        keep-Split test (Apart address size) (Inside address size) (outside-Apart address size)
            (outside-Inside address size) d.segments,
        built,
        build_from-IsValid (keep test d.segments) empty_bus b empty-IsValid built,
      )

  keep_cons :
      (test : Segment S → Bool) (t : Segment S) (ss : List (Segment S))
      → test t ≡ true
      → keep test (t ∷ ss) ≡ t ∷ keep test ss
  unfolding keep
  keep_cons test t ss h = rw h refl

  -- What is kept stays, and a last one that fails the test goes.
  keep_again :
      (test : Segment S → Bool) (s : Segment S) (ss : List (Segment S))
      → test s ≡ false
      → keep test (keep test ss ++ s ∷ []) ≡ keep test ss
  unfolding keep
  keep_again test s [] h = rw h refl
  keep_again test s (t ∷ ss) h = elim (Bool-cases (test t)) [
    | inl kept ↦
        ap (λ l. keep test (l ++ s ∷ [])) (keep_cons test t ss kept)
        ∙ keep_cons test t (keep test ss ++ s ∷ []) kept
        ∙ ap (λ l. t ∷ l) (keep_again test s ss h)
        ∙ sym (keep_cons test t ss kept)
    | inr left_out ↦ rw left_out (keep_again test s ss h)
  ]

  store_inv :
      (candidate : List (Segment S)) (r : AddResult (Bus S)) (d : DynamicBus S)
      → store candidate r ≡ ok d
      → (d.segments ≡ candidate) × (r ≡ ok d.bus)
  store_inv candidate (err e) d h = absurd cc
  store_inv candidate (ok b) d h =
      let same : record { segments = candidate; bus = b } ≡ d = cc in
      (sym (ap (λ x. x.segments) same), ap (λ x. ok x.bus) same)

  elsewhere-true :
      (start_addr : ℕ) (s : Segment S) → elsewhere start_addr s ≡ true → s.start_addr ≢ start_addr
  elsewhere-true start_addr s h = ground arith

  elsewhere-false :
      (start_addr : ℕ) (s : Segment S) → elsewhere start_addr s ≡ false → s.start_addr ≡ start_addr
  elsewhere-false start_addr s h = ground arith

  -- A mapping that `add` accepts is the last one of the list and the last device on the bus. Before it
  -- the list has the mappings there were, in their order, but those that begin where it does. The
  -- mappings build the bus, no two of it overlap, and to add the mapping again changes nothing.
  pub add-add :
      (d : DynamicBus S) (start_addr : ℕ) (device : Device S) (d' : DynamicBus S)
      → add d start_addr device ≡ ok d'
      → (rest : List (Segment S)) × (d'.segments
          ≡ rest ++ record { start_addr = start_addr; device = device } ∷ [])
        × Split
            (λ (s : Segment S). s.start_addr ≢ start_addr)
            (λ s. s.start_addr ≡ start_addr)
            d.segments
            rest
        × ((b : Bus S) × (d'.bus ≡ with_device b start_addr device))
        × IsBuilt d'
        × Validity.IsValid d'.bus
        × (add d' start_addr device ≡ ok d')
  unfolding add build
  add-add d start_addr device d' h =
      let s : Segment S = record { start_addr = start_addr; device = device } in
      let candidate = keep (elsewhere start_addr) d.segments ++ s ∷ [] in
      let (same, built) = store_inv candidate (build candidate) d' h in
      let again : keep (elsewhere start_addr) d'.segments ++ s ∷ [] ≡ candidate =
        ap (λ l. keep (elsewhere start_addr) l ++ s ∷ []) same
        ∙ ap (λ l. l ++ s ∷ [])
            (keep_again (elsewhere start_addr) s d.segments (ap not (==_refl start_addr))) in
      (
        keep (elsewhere start_addr) d.segments,
        same,
        keep-Split (elsewhere start_addr) _ _ (elsewhere-true start_addr)
            (elsewhere-false start_addr) d.segments,
        last-built (keep (elsewhere start_addr) d.segments) s empty_bus d'.bus built,
        ap build same ∙ built,
        build_from-IsValid candidate empty_bus d'.bus empty-IsValid built,
        ap (λ l. store l (build l)) again ∙ h,
      )
