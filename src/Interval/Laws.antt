-- ===== src/Interval/Laws.antt =====
-- What the operations of src/device/interval.rs mean for the addresses that an interval holds.
use usbvfiod.Prelude.{ℕ, ◌≤◌, max, ◌≡◌, ◌↔◌, true, ◌&&◌, arith}
use usbvfiod.Interval.{Range, contains, intersection, contains_interval, overlaps}

-- An address lies in the intersection exactly when it lies in both intervals.
pub contains-intersection :
    (v : ℕ) (a b : Range) → contains (intersection a b) v ≡ (contains a v && contains b v)
unfolding intersection
contains-intersection v a b = ground arith

pub intersection_comm : (a b : Range) → intersection a b ≡ intersection b a
unfolding intersection
intersection_comm a b = ground arith

pub intersection_assoc :
    (a b c : Range) → intersection a (intersection b c) ≡ intersection (intersection a b) c
unfolding intersection
intersection_assoc a b c = ground arith

-- Two intervals overlap exactly when some address lies in both.
pub overlaps_iff :
    (a b : Range)
    → (overlaps a b ≡ true) ↔ ((v : ℕ) × (contains a v ≡ true) × (contains b v ≡ true))
unfolding overlaps
overlaps_iff a b =
    (λ h. (max a.start b.start, ground arith, ground arith), λ p. witness p.0 p.1 p.2)
  where
    witness : (v : ℕ) → contains a v ≡ true → contains b v ≡ true → overlaps a b ≡ true
    witness v h k = ground arith

pub overlaps_comm : (a b : Range) → overlaps a b ≡ overlaps b a
unfolding overlaps
overlaps_comm a b = ground arith

-- An interval that is not empty is contained exactly when both its ends are.
pub contains_interval_iff :
    (a b : Range) → (contains_interval a b ≡ true) ↔ ((a.start ≤ b.start) × (b.end ≤ a.end))
unfolding contains_interval
contains_interval_iff a b = (λ h. ground arith, λ h. ground arith)

pub contains_interval_trans :
    (a b c : Range)
    → contains_interval a b ≡ true
    → contains_interval b c ≡ true
    → contains_interval a c ≡ true
unfolding contains_interval
contains_interval_trans a b c h k = ground arith

pub contains_interval_antisymm :
    (a b : Range) → contains_interval a b ≡ true → contains_interval b a ≡ true → a ≡ b
unfolding contains_interval
contains_interval_antisymm a b h k = ground arith
