-- ===== src/RegisterSet/Building.antt =====
-- What a built register set holds: `RegisterSetBuilder` of src/device/register_set.rs.
use usbvfiod.Prelude.{
  ℕ, zero, suc, ◌+◌, ◌&&◌, ◌≤◌, ◌<◌, ◌≡◌, ◌⊎◌, ◌↔◌, inl, inr, refl, ◌==◌, ==_refl, some, List, [],
  ◌∷◌, length, get_or, set, length-set, get_or-set_self, get_or-set_ne, bit_and, true, arith, ◌∙◌,
  subst, sym,
}
use usbvfiod.Prelude.Bytes.{to_le_bytes, length-to_le_bytes}
use usbvfiod.RegisterSet.{RegisterSet}
use usbvfiod.RegisterSet.Builder.{
  RegisterSetBuilder, init_u8, init_bytes, init_u8_slice, init_le, masks_apart, build,
}

-- A builder has one mask byte of each kind for each register byte.
pub record IsSized (b : RegisterSetBuilder) : Type 0 where
  pub rw_size : length b.rw_mask ≡ length b.bytes
  pub w1c_size : length b.w1c_mask ≡ length b.bytes

-- What placing bytes from `pos` on leaves.
pub record Placed (b c : RegisterSetBuilder) (pos n : ℕ) (vs ms cs : List ℕ) : Type 0 where
  pub size : length c.bytes ≡ length b.bytes
  pub sized : IsSized c
  pub value_inside : (j i : ℕ) → j < n → pos + j ≡ i → get_or c.bytes i 0 ≡ get_or vs j 0
  pub rw_inside : (j i : ℕ) → j < n → pos + j ≡ i → get_or c.rw_mask i 0 ≡ get_or ms j 0
  pub w1c_inside : (j i : ℕ) → j < n → pos + j ≡ i → get_or c.w1c_mask i 0 ≡ get_or cs j 0
  pub outside :
      (i : ℕ)
      → (i < pos) ⊎ (pos + n ≤ i)
      → (get_or c.bytes i 0 ≡ get_or b.bytes i 0)
        × (get_or c.rw_mask i 0 ≡ get_or b.rw_mask i 0)
        × (get_or c.w1c_mask i 0 ≡ get_or b.w1c_mask i 0)

-- A builder with one byte placed.
abbrev placed_byte : RegisterSetBuilder → ℕ → ℕ → ℕ → ℕ → RegisterSetBuilder
placed_byte b pos v m c = record b {
  bytes = set b.bytes pos v;
  rw_mask = set b.rw_mask pos m;
  w1c_mask = set b.w1c_mask pos c;
}

init_u8-some :
    (b : RegisterSetBuilder) (pos v m c : ℕ)
    → pos < length b.bytes
    → init_u8 b pos v m c ≡ some (placed_byte b pos v m c)
unfolding init_u8
init_u8-some b pos v m c h = ground arith

placed_byte-IsSized :
    (b : RegisterSetBuilder) (pos v m c : ℕ) → IsSized b → IsSized (placed_byte b pos v m c)
placed_byte-IsSized b pos v m c z = record {
  rw_size = length-set b.rw_mask pos m ∙ z.rw_size ∙ sym (length-set b.bytes pos v);
  w1c_size = length-set b.w1c_mask pos c ∙ z.w1c_size ∙ sym (length-set b.bytes pos v);
}

-- Placing one byte and then the rest.
cons-inside :
    (xs ys vs : List ℕ) (v pos n : ℕ)
    → pos < length xs
    → ((j i : ℕ) → j < n → pos + 1 + j ≡ i → get_or ys i 0 ≡ get_or vs j 0)
    → ((i : ℕ) → (i < pos + 1) ⊎ (pos + 1 + n ≤ i) → get_or ys i 0 ≡ get_or (set xs pos v) i 0)
    → (j i : ℕ) → j < suc n
    → pos + j ≡ i
    → get_or ys i 0 ≡ get_or (v ∷ vs) j 0
cons-inside xs ys vs v pos n h tail outside zero i hj e =
    let same : pos ≡ i = omega arith in
    outside i (inl (omega arith))
    ∙ subst (λ t. get_or (set xs pos v) t 0 ≡ v) same (get_or-set_self xs pos v 0 h)
cons-inside xs ys vs v pos n h tail outside (suc j) i hj e = tail j i (omega arith) (omega arith)

cons-outside :
    (xs ys : List ℕ) (v pos n : ℕ)
    → ((i : ℕ) → (i < pos + 1) ⊎ (pos + 1 + n ≤ i) → get_or ys i 0 ≡ get_or (set xs pos v) i 0)
    → (i : ℕ) → (i < pos) ⊎ (pos + suc n ≤ i)
    → get_or ys i 0 ≡ get_or xs i 0
cons-outside xs ys v pos n outside i (inl o) =
    outside i (inl (omega arith)) ∙ get_or-set_ne xs v 0 (omega arith)
cons-outside xs ys v pos n outside i (inr o) =
    outside i (inr (omega arith)) ∙ get_or-set_ne xs v 0 (omega arith)

init_bytes-Placed :
    (n pos : ℕ) (b : RegisterSetBuilder) (vs ms cs : List ℕ)
    → IsSized b
    → pos + n ≤ length b.bytes
    → length vs ≡ n
    → length ms ≡ n
    → length cs ≡ n
    → (c : RegisterSetBuilder) × (init_bytes b pos vs ms cs ≡ some c) × Placed b c pos n vs ms cs
unfolding init_bytes
init_bytes-Placed n pos b [] ms cs z h lv lm lc = (
  b,
  refl,
  record {
    size = refl;
    sized = z;
    value_inside = λ j i hj e. absurd (omega arith);
    rw_inside = λ j i hj e. absurd (omega arith);
    w1c_inside = λ j i hj e. absurd (omega arith);
    outside = λ i o. (refl, refl, refl);
  },
)
init_bytes-Placed n pos b (v ∷ vs) [] cs z h lv lm lc = absurd (omega arith)
init_bytes-Placed n pos b (v ∷ vs) (m ∷ ms) [] z h lv lm lc = absurd (omega arith)
init_bytes-Placed zero pos b (v ∷ vs) (m ∷ ms) (c ∷ cs) z h lv lm lc = absurd (omega arith)
init_bytes-Placed (suc n) pos b (v ∷ vs) (m ∷ ms) (c ∷ cs) z h lv lm lc =
    let next = placed_byte b pos v m c in
    let size = length-set b.bytes pos v in
    let (last, run, p) =
      init_bytes-Placed n (pos + 1) next vs ms cs (placed_byte-IsSized b pos v m c z)
        (omega (arith, size)) (omega arith) (omega arith) (omega arith) in
    (
      last,
      rw (init_bytes, init_u8-some b pos v m c (omega arith)) run,
      record {
        size = p.size ∙ size;
        sized = p.sized;
        value_inside =
            cons-inside b.bytes last.bytes vs v pos n (omega arith) p.value_inside
              (λ i o. (p.outside i o).0);
        rw_inside =
            cons-inside b.rw_mask last.rw_mask ms m pos n (omega (arith, z.rw_size)) p.rw_inside
              (λ i o. (p.outside i o).1);
        w1c_inside =
            cons-inside b.w1c_mask last.w1c_mask cs c pos n (omega (arith, z.w1c_size)) p.w1c_inside
              (λ i o. (p.outside i o).2);
        outside = λ i o. (
          cons-outside b.bytes last.bytes v pos n (λ i' o'. (p.outside i' o').0) i o,
          cons-outside b.rw_mask last.rw_mask m pos n (λ i' o'. (p.outside i' o').1) i o,
          cons-outside b.w1c_mask last.w1c_mask c pos n (λ i' o'. (p.outside i' o').2) i o,
        );
      },
    )

-- The register set of a builder, which `build` returns.
abbrev pub built : RegisterSetBuilder → RegisterSet
built b = record { bytes = b.bytes; rw_mask = b.rw_mask; w1c_mask = b.w1c_mask }

masks_apart_iff :
    (ms cs : List ℕ)
    → length ms ≡ length cs
    → ((masks_apart ms cs ≡ true)
        ↔ ((i : ℕ) → i < length ms → bit_and (get_or ms i 0) (get_or cs i 0) ≡ 0))
unfolding masks_apart
masks_apart_iff [] cs e = (λ h i lt. absurd (omega arith), λ h. refl)
masks_apart_iff (m ∷ ms) [] e = absurd (omega arith)
masks_apart_iff (m ∷ ms) (c ∷ cs) e =
    let rest = masks_apart_iff ms cs (omega arith) in
    (
      λ h. elim [ zero ↦ λ lt. ground arith | suc i ↦ λ lt. rest.0 (ground arith) i (omega arith) ],
      λ h. and_true (h 0 (omega arith)) (rest.1 (λ i lt. h (suc i) (omega arith))),
    )
  where
    and_true :
        bit_and m c ≡ 0
        → masks_apart ms cs ≡ true
        → ((bit_and m c == 0) && masks_apart ms cs) ≡ true
    and_true z t = ground arith

-- `build` returns the register set of the builder exactly where no bit of a byte is both writable and
-- write-one-to-clear.
pub build-some_iff :
    (b : RegisterSetBuilder)
    → IsSized b
    → ((build b ≡ some (built b)) ↔ (
        (i : ℕ) → i < length b.bytes → bit_and (get_or b.rw_mask i 0) (get_or b.w1c_mask i 0) ≡ 0))
unfolding build
build-some_iff b z =
    let apart = masks_apart_iff b.rw_mask b.w1c_mask (z.rw_size ∙ sym z.w1c_size) in
    (
      λ h i lt. apart.0 (ground arith) i (omega (arith, z.rw_size)),
      λ h. ground (arith, apart.1 (λ i lt. h i (omega (arith, z.rw_size)))),
    )

pub init_le-Placed :
    (w : ℕ) (b : RegisterSetBuilder) (pos value write_mask w1c_mask : ℕ)
    → IsSized b
    → pos + w ≤ length b.bytes
    → (c : RegisterSetBuilder) × (init_le w b pos value write_mask w1c_mask ≡ some c)
      × Placed b c pos w (to_le_bytes w value) (to_le_bytes w write_mask) (to_le_bytes w w1c_mask)
unfolding init_le init_u8_slice
init_le-Placed w b pos value write_mask w1c_mask z h =
    rw
      (
        init_le,
        init_u8_slice,
        length-to_le_bytes w value,
        length-to_le_bytes w write_mask,
        length-to_le_bytes w w1c_mask,
        ==_refl w,
      )
      (init_bytes-Placed w pos b (to_le_bytes w value) (to_le_bytes w write_mask)
        (to_le_bytes w w1c_mask) z h (length-to_le_bytes w value) (length-to_le_bytes w write_mask)
        (length-to_le_bytes w w1c_mask))
