-- ===== src/RegisterSet.antt =====
-- Registers with read-only, writable and write-one-to-clear bits: src/device/register_set.rs.
pub mod Builder
pub mod Building
pub mod Guests
pub mod Writes
pub mod ReadBack
mod Tests
use usbvfiod.Prelude.{
  ℕ, zero, suc, ◌+◌, ◌*◌, ◌^◌, ltb, if◌then◌else◌, Option, none, some, List, [], ◌∷◌, length,
  get_elem?, get_or, set, bit_and, bit_or,
}
use usbvfiod.Prelude.Bits.{not_u8}
use usbvfiod.Prelude.Bytes.{to_le_bytes}
use usbvfiod.Bus.Request.{Request, iter_bytes}

-- `RegisterSet<SIZE>`; the lists have `SIZE` bytes. `data` is a keyword of the language.
pub record RegisterSet : Type 0 where
  pub bytes : List ℕ
  pub rw_mask : List ℕ
  pub w1c_mask : List ℕ

-- A byte after a write: writable bits are taken over, and W1C bits written as 1 are cleared.
abbrev pub written : ℕ → ℕ → ℕ → ℕ → ℕ
written old byte rw w1c =
    bit_and (bit_or (bit_and old (not_u8 rw)) (bit_and byte rw)) (not_u8 (bit_and byte w1c))

-- The body of the loop of `write`; `none` is an index out of bounds.
unfoldable pub write_byte : RegisterSet → ℕ → ℕ → Option RegisterSet
write_byte r off byte =
    if ltb off (length r.bytes)
    then some (record r {
      bytes =
          set r.bytes off (
            written (get_or r.bytes off 0) byte (get_or r.rw_mask off 0) (get_or r.w1c_mask off 0));
    })
    else none

-- The body of the loop of `write_direct`.
unfoldable pub write_direct_byte : RegisterSet → ℕ → ℕ → Option RegisterSet
write_direct_byte r off byte =
    if ltb off (length r.bytes) then some (record r { bytes = set r.bytes off byte }) else none

-- The loop over `req.iter_bytes().zip(&le_bytes)`: it ends with the shorter of the two.
unfoldable pub for_bytes :
    (RegisterSet → ℕ → ℕ → Option RegisterSet)
    → RegisterSet
    → List Request
    → List ℕ
    → Option RegisterSet
for_bytes body r [] bs = some r
for_bytes body r (q ∷ qs) [] = some r
for_bytes body r (q ∷ qs) (b ∷ bs) = elim (body r q.addr b) [
  | none ↦ none
  | some r' ↦ for_bytes body r' qs bs
]

abbrev for_requests :
    (RegisterSet → ℕ → ℕ → Option RegisterSet)
    → RegisterSet
    → Option (List Request)
    → List ℕ
    → Option RegisterSet
for_requests body r none bs = none
for_requests body r (some qs) bs = for_bytes body r qs bs

-- `<RegisterSet as SingleThreadedBusDevice>::write`; `none` is a panic.
unfoldable pub write : RegisterSet → Request → ℕ → Option RegisterSet
write r req val = for_requests write_byte r (iter_bytes req) (to_le_bytes 8 val)

-- `RegisterSet::write_direct`
unfoldable pub write_direct : RegisterSet → Request → ℕ → Option RegisterSet
write_direct r req val = for_requests write_direct_byte r (iter_bytes req) (to_le_bytes 8 val)

-- The bytes that a read collects; `none` is an index out of bounds.
unfoldable pub collect : List ℕ → List Request → Option (List ℕ)
collect bs [] = some []
collect bs (q ∷ qs) = elim (get_elem? bs q.addr) [
  | none ↦ none
  | some b ↦ elim (collect bs qs) [ none ↦ none | some rest ↦ some (b ∷ rest) ]
]

-- `fold_iter_le` from position `pos` on; `none` is its `assert!(pos < bytes_in_u64)`.
unfoldable pub fold_le : ℕ → ℕ → List ℕ → Option ℕ
fold_le acc pos [] = some acc
fold_le acc pos (b ∷ bs) =
    let rest = fold_le (bit_or acc (b * 2 ^ (pos * 8))) (pos + 1) bs in
    if ltb pos 8 then rest else none

unfoldable pub fold_iter_le : List ℕ → Option ℕ
unfolding fold_le
fold_iter_le bs = fold_le 0 0 bs

abbrev read_requests : RegisterSet → Option (List Request) → Option (List ℕ)
read_requests r none = none
read_requests r (some qs) = collect r.bytes qs

-- `RegisterSet::read`; `none` is a panic.
unfoldable pub read : RegisterSet → Request → Option ℕ
read r req = elim (read_requests r (iter_bytes req)) [ none ↦ none | some bs ↦ fold_iter_le bs ]
