-- ===== src/DynamicBus/Tests.antt =====
-- src/dynamic_bus.rs with two pieces of memory.
use usbvfiod.Prelude.{◌≡◌, refl, [], ◌∷◌, pure, List, ◌++◌, ◌≢◌}
use usbvfiod.Interval.{overlaps}
use usbvfiod.Bus.Device.{Device, default_device}
use usbvfiod.Bus.Routing
use usbvfiod.Bus.Routing.{Bus, ok, find_overlap}
use usbvfiod.Bus.Validity
use usbvfiod.DynamicBus.{Segment, DynamicBus}
use usbvfiod.DynamicBus.Mapping.{empty_bus, new, build, build_from, keep, add, remove_range}
use usbvfiod.DynamicBus.Remapping.{Split, Apart, Inside, IsBuilt, add-add, remove_range-IsBuilt}

abbrev Nothing : Type 0
Nothing = Unit {0}

abbrev page : Device Nothing
page = record {
  size = 0x1000;
  read = λ req. pure 42;
  write = λ req v. pure tt;
  read_bulk = λ a n. pure [];
  write_bulk = λ a bs. pure tt;
}

abbrev low : Segment Nothing
low = record { start_addr = 0x1000; device = page }

abbrev high : Segment Nothing
high = record { start_addr = 0x2000; device = page }

abbrev nothing_mapped : DynamicBus Nothing
nothing_mapped = new

abbrev one : DynamicBus Nothing
one = record { segments = low ∷ []; bus = Validity.with_device empty_bus 0x1000 page }

abbrev two : DynamicBus Nothing
two = record { segments = low ∷ high ∷ []; bus = Validity.with_device one.bus 0x2000 page }

adds_low : add nothing_mapped 0x1000 page ≡ ok one
unfolding add keep build build_from Routing.add find_overlap empty_bus Routing.new
    Routing.new_with_default default_device overlaps new
adds_low = refl

adds_high : add one 0x2000 page ≡ ok two
unfolding add keep build build_from Routing.add find_overlap empty_bus Routing.new
    Routing.new_with_default default_device overlaps new
adds_high = refl

add-add_example :
    (rest : List (Segment Nothing)) × (two.segments ≡ rest ++ high ∷ [])
    × Split
        (λ (s : Segment Nothing). s.start_addr ≢ 0x2000)
        (λ s. s.start_addr ≡ 0x2000)
        (low ∷ [])
        rest
    × ((b : Bus Nothing) × (two.bus ≡ Validity.with_device b 0x2000 page))
    × IsBuilt two
    × Validity.IsValid two.bus
    × (add two 0x2000 page ≡ ok two)
add-add_example = add-add one 0x2000 page two adds_high

two-IsBuilt : IsBuilt two
unfolding build build_from Routing.add find_overlap empty_bus Routing.new Routing.new_with_default
    default_device overlaps
two-IsBuilt = refl

remove_range-IsBuilt_example :
    (d : DynamicBus Nothing) × (remove_range two 0x1800 0x1000 ≡ ok d)
    × Split (Apart 0x1800 0x1000) (Inside 0x1800 0x1000) (low ∷ high ∷ []) d.segments
    × IsBuilt d
    × Validity.IsValid d.bus
remove_range-IsBuilt_example = remove_range-IsBuilt two 0x1800 0x1000 two-IsBuilt
