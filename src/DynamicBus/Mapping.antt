-- ===== src/DynamicBus/Mapping.antt =====
-- `DynamicBus` of src/dynamic_bus.rs: adding and removing mappings.
use usbvfiod.Prelude.{
  ℕ, ◌+◌, ◌-◌, ◌==◌, ltb, leb, min, if◌then◌else◌, Bool, not, ◌||◌, List, [], ◌∷◌, ◌++◌,
}
use usbvfiod.Bus.Request.{u64_mod}
use usbvfiod.Bus.Device.{Device}
use usbvfiod.Bus.Routing
use usbvfiod.Bus.Routing.{Bus, AddResult, ok, err}
use usbvfiod.DynamicBus.{Segment, DynamicBus}

module _ {S : Type 0} where
  -- `Bus::default`, and the bus that `build` starts with.
  unfoldable pub empty_bus : Bus S
  unfolding Routing.new
  empty_bus = Routing.new (u64_mod - 1)

  -- `DynamicBus::new`
  unfoldable pub new : DynamicBus S
  unfolding empty_bus
  new = record { segments = []; bus = empty_bus }

  -- `?` on a bus that may be refused.
  abbrev pub and_then : AddResult (Bus S) → (Bus S → AddResult (Bus S)) → AddResult (Bus S)
  and_then (ok b) k = k b
  and_then (err e) k = err e

  -- The loop of `build`.
  unfoldable pub build_from : Bus S → List (Segment S) → AddResult (Bus S)
  unfolding Routing.add
  build_from b [] = ok b
  build_from b (s ∷ ss) = and_then (Routing.add b s.start_addr s.device) (λ b'. build_from b' ss)

  -- `build`
  unfoldable pub build : List (Segment S) → AddResult (Bus S)
  unfolding build_from empty_bus
  build segments = build_from empty_bus segments

  unfoldable pub keep : (Segment S → Bool) → List (Segment S) → List (Segment S)
  keep test [] = []
  keep test (s ∷ ss) = let rest = keep test ss in if test s then s ∷ rest else rest

  -- The end of `add` and `remove_range`.
  abbrev pub store : List (Segment S) → AddResult (Bus S) → AddResult (DynamicBus S)
  store candidate (err e) = err e
  store candidate (ok b) = ok (record { segments = candidate; bus = b })

  abbrev pub elsewhere : ℕ → Segment S → Bool
  elsewhere start_addr s = not (s.start_addr == start_addr)

  -- `add`; on `err` the bus stays as it was.
  unfoldable pub add : DynamicBus S → ℕ → Device S → AddResult (DynamicBus S)
  unfolding keep build
  add d start_addr device =
      let candidate =
        keep (elsewhere start_addr) d.segments
        ++ record { start_addr = start_addr; device = device } ∷ [] in
      store candidate (build candidate)

  -- `entry.start_addr < address || entry.start_addr >= end`, with `address.saturating_add(size)`.
  abbrev pub outside : ℕ → ℕ → Segment S → Bool
  outside address size s =
      ltb s.start_addr address || leb (min (address + size) (u64_mod - 1)) s.start_addr

  -- `remove_range`
  unfoldable pub remove_range : DynamicBus S → ℕ → ℕ → AddResult (DynamicBus S)
  unfolding keep build
  remove_range d address size =
      let candidate = keep (outside address size) d.segments in store candidate (build candidate)
