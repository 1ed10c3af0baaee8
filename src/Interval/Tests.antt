-- ===== src/Interval/Tests.antt =====
-- src/device/interval.rs at the intervals of its own tests.
use usbvfiod.Prelude.{◌≡◌, refl, true, false}
use usbvfiod.Interval.{Range, is_empty, intersection, contains_interval}

abbrev first_ivl : Range
first_ivl = record { start = 10; end = 20 }

abbrev second_ivl : Range
second_ivl = record { start = 15; end = 25 }

abbrev unrelated_ivl : Range
unrelated_ivl = record { start = 80; end = 100 }

intersection_test : intersection first_ivl second_ivl ≡ record { start = 15; end = 20 }
unfolding intersection
intersection_test = refl

unrelated_test : is_empty (intersection first_ivl unrelated_ivl) ≡ true
unfolding intersection
unrelated_test = refl

contains_interval_test :
    (contains_interval first_ivl second_ivl ≡ false)
    × (contains_interval first_ivl (record { start = 11; end = 14 }) ≡ true)
unfolding contains_interval
contains_interval_test = (refl, refl)
