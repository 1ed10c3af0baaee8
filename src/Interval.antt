-- ===== src/Interval.antt =====
-- Intervals of addresses: src/device/interval.rs, and the parts of Rust's `Range` that it uses.
pub mod Laws
mod Tests
use usbvfiod.Prelude.{ℕ, min, max, Bool, not, ◌&&◌, ltb, leb, ◌==◌}

-- `Range<u64>`: `start..end`, without `end`.
pub record Range : Type 0 where
  pub start : ℕ
  pub end : ℕ

-- `Range::is_empty`
abbrev pub is_empty : Range → Bool
is_empty r = not (ltb r.start r.end)

-- `Range::contains`
abbrev pub contains : Range → ℕ → Bool
contains r x = leb r.start x && ltb x r.end

-- The derived equality of `Range`.
abbrev pub range_eq : Range → Range → Bool
range_eq a b = (a.start == b.start) && (a.end == b.end)

unfoldable pub intersection : Range → Range → Range
intersection a b = record { start = max a.start b.start; end = min a.end b.end }

unfoldable pub contains_interval : Range → Range → Bool
unfolding intersection
contains_interval a b = range_eq (intersection a b) b

unfoldable pub overlaps : Range → Range → Bool
unfolding intersection
overlaps a b = not (is_empty a) && not (is_empty (intersection a b))
