-- ===== src/RegisterSet/ReadBack.antt =====
-- What a read of a register returns: src/device/register_set.rs, `read` and `fold_iter_le`.
use native.Mathlib.Nat.{pow-suc}
use usbvfiod.Prelude.{
  ℕ, zero, suc, ◌+◌, ◌*◌, ◌/◌, ◌%◌, ◌^◌, ◌≤◌, ◌<◌, ◌≡◌, refl, none, some, List, [], ◌∷◌, All, arith,
  length, get_elem?-eq-get_or, get_elem?-none, get_or, lt→ltb, ap, ap₂, ◌∙◌, subst, bit_or,
}
use usbvfiod.Prelude.Bits.{bit_or_shifted}
use usbvfiod.Prelude.Bytes.{IsByte, to_le_bytes, from_le_bytes, to_le_bytes-IsByte}
use usbvfiod.Bus.Request.{
  RequestSize, Request, bytes, bytes-le, bytes-pos, bytes_from, iter_bytes, u64_mod,
}
use usbvfiod.RegisterSet.{RegisterSet, collect, fold_le, fold_iter_le, read, write_direct}
use usbvfiod.RegisterSet.Writes.{write_direct-Wrote, iter_bytes-some}

-- The `n` bytes from `addr` on.
abbrev pub slice : List ℕ → ℕ → ℕ → List ℕ
slice bs addr zero = []
slice bs addr (suc n) = get_or bs addr 0 ∷ slice bs (addr + 1) n

length-slice : (bs : List ℕ) (addr n : ℕ) → length (slice bs addr n) ≡ n
length-slice bs addr zero = refl
length-slice bs addr (suc n) = ap suc (length-slice bs (addr + 1) n)

get_or-IsByte : (bs : List ℕ) (i : ℕ) → All IsByte bs → IsByte (get_or bs i 0)
get_or-IsByte [] i h = omega arith
get_or-IsByte (b ∷ bs) zero h = h.0
get_or-IsByte (b ∷ bs) (suc i) h = get_or-IsByte bs i h.1

slice-IsByte : (bs : List ℕ) (addr n : ℕ) → All IsByte bs → All IsByte (slice bs addr n)
slice-IsByte bs addr zero h = tt
slice-IsByte bs addr (suc n) h = (get_or-IsByte bs addr h, slice-IsByte bs (addr + 1) n h)

collect-some :
    (bs : List ℕ) (addr n : ℕ)
    → addr + n ≤ length bs
    → collect bs (bytes_from addr n) ≡ some (slice bs addr n)
unfolding collect
collect-some bs addr zero h = refl
collect-some bs addr (suc n) h =
    ground (
      arith,
      get_elem?-eq-get_or bs addr 0 (omega arith),
      collect-some bs (addr + 1) n (omega arith),
    )

collect-none :
    (bs : List ℕ) (addr n : ℕ)
    → 0 < n
    → length bs < addr + n
    → collect bs (bytes_from addr n) ≡ none
unfolding collect
collect-none bs addr zero p h = absurd (omega arith)
collect-none bs addr (suc zero) p h = ground (arith, get_elem?-none bs addr (omega arith))
collect-none bs addr (suc (suc n)) p h =
    ground (arith, collect-none bs (addr + 1) (suc n) (omega arith) (omega arith))

two-pow-bytes : (k : ℕ) → 2 ^ (k * 8) ≡ 256 ^ k
two-pow-bytes zero = refl
two-pow-bytes (suc k) =
    let e : suc k * 8 ≡ suc (suc (suc (suc (suc (suc (suc (suc (k * 8)))))))) = omega arith in
    rw e (simp pow-suc (omega (arith, two-pow-bytes k)))

-- The accumulator stays below the next byte.
next_byte-lt : (acc x p : ℕ) → acc < p → x < 256 → acc + x * p < p * 256
next_byte-lt acc x p h k = grind arith

fold_le-lem :
    (bs : List ℕ) (acc pos : ℕ)
    → pos + length bs ≤ 8
    → All IsByte bs
    → acc < 256 ^ pos
    → fold_le acc pos bs ≡ some (acc + 256 ^ pos * from_le_bytes bs)
unfolding fold_le
fold_le-lem [] acc pos h b a = ap some (omega arith)
fold_le-lem (x ∷ bs) acc pos h b a =
    let p = 256 ^ pos in
    let next : 256 ^ (pos + 1) ≡ p * 256 =
      ap (λ t. 256 ^ t) {y = suc pos} (omega arith) ∙ pow-suc 256 pos in
    let shifted : bit_or acc (x * 2 ^ (pos * 8)) ≡ acc + x * p = rw (two-pow-bytes pos) (
      subst (λ t. bit_or acc (x * t) ≡ acc + x * t) (two-pow-bytes pos)
        (bit_or_shifted (pos * 8) acc x (rw (two-pow-bytes pos) a))) in
    rw (lt→ltb pos 8 (omega arith), shifted)
      (fold_le-lem bs (acc + x * p) (pos + 1) (omega arith) b.1
          (rw next (next_byte-lt acc x p a b.0))
        ∙ ap some (rw next (omega arith)))

pub read-bytes :
    (r : RegisterSet) (req : Request) (bs : List ℕ)
    → slice r.bytes req.addr (bytes req.size) ≡ bs
    → All IsByte bs
    → req.addr + bytes req.size ≤ length r.bytes
    → length r.bytes < u64_mod
    → read r req ≡ some (from_le_bytes bs)
unfolding read fold_iter_le
read-bytes r req bs e b h k =
    let n = bytes req.size in
    rw (iter_bytes-some req (omega arith), read)
      (rw (collect-some r.bytes req.addr n h, e)
        (fold_le-lem bs 0 0
            (omega (arith, ap length e, length-slice r.bytes req.addr n, bytes-le req.size)) b
            (omega arith)
          ∙ ap some (omega arith)))

-- A read inside the register set, whose size is below 2 ^ 64 and whose bytes are below 256, returns
-- its bytes as a little-endian number.
pub read-slice :
    (r : RegisterSet) (req : Request)
    → All IsByte r.bytes
    → req.addr + bytes req.size ≤ length r.bytes
    → length r.bytes < u64_mod
    → read r req ≡ some (from_le_bytes (slice r.bytes req.addr (bytes req.size)))
read-slice r req b h k =
    read-bytes r req _ refl (slice-IsByte r.bytes req.addr (bytes req.size) b) h k

-- A read that is not wholly inside the register set panics.
pub read-outside :
    (r : RegisterSet) (req : Request)
    → length r.bytes < req.addr + bytes req.size
    → read r req ≡ none
unfolding read iter_bytes
read-outside r req h =
    ground (arith, collect-none r.bytes req.addr (bytes req.size) (bytes-pos req.size) h)

pub slice-eq :
    (n w addr v : ℕ) (bs : List ℕ)
    → n ≤ w
    → ((j i : ℕ) → j < n → addr + j ≡ i → get_or bs i 0 ≡ get_or (to_le_bytes w v) j 0)
    → slice bs addr n ≡ to_le_bytes n v
slice-eq zero w addr v bs h agree = refl
slice-eq (suc n) zero addr v bs h agree = absurd (omega arith)
slice-eq (suc n) (suc w) addr v bs h agree = ap₂ ◌∷◌ (agree 0 addr (omega arith) (omega arith)) (
    slice-eq n w (addr + 1) (v / 256) bs (omega arith)
      (λ j i hj e. agree (suc j) i (omega arith) (omega arith)))

pub low_bytes :
    (s : RequestSize) (v : ℕ) → from_le_bytes (to_le_bytes (bytes s) v) ≡ v % 256 ^ bytes s
low_bytes RequestSize.size1 v = omega arith
low_bytes RequestSize.size2 v = omega arith
low_bytes RequestSize.size4 v = omega arith
low_bytes RequestSize.size8 v = omega arith

-- Inside a register set whose size is below 2 ^ 64, what `write_direct` stores is what a `read` of the same request returns: the value, cut to the
-- size of the request.
pub read-write_direct :
    (r : RegisterSet) (req : Request) (val : ℕ)
    → req.addr + bytes req.size ≤ length r.bytes
    → length r.bytes < u64_mod
    → (r' : RegisterSet) × (write_direct r req val ≡ some r')
      × (read r' req ≡ some (val % 256 ^ bytes req.size))
read-write_direct r req val h k =
    let n = bytes req.size in
    let (r', run, w) = write_direct-Wrote r req val h k in
    let same = slice-eq n 8 req.addr val r'.bytes (bytes-le req.size) w.inside in
    (
      r',
      run,
      read-bytes r' req _ same (to_le_bytes-IsByte n val) (omega (arith, w.size_same))
            (omega (arith, w.size_same))
          ∙ ap some (low_bytes req.size val),
    )
