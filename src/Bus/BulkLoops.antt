-- ===== src/Bus/BulkLoops.antt =====
-- The loops of the default `read_bulk` and `write_bulk` of src/device/bus.rs, and the slice that a
-- bulk read fills.
use mathlib.Core.List.{append_assoc}
use usbvfiod.Prelude.{
  ℕ, zero, suc, ◌+◌, ◌%◌, ◌≤◌, ◌<◌, ◌≡◌, refl, some, List, [], ◌∷◌, ◌++◌, M, pure, ◌>>=◌, ◌>>◌,
  arith, ◌∙◌, sym, ap, subst, length, take, drop, length-append, bind_assoc, bind_pure, bind_some,
  length-take, length-drop, copy_at, take-append,
}
use usbvfiod.Bus.Request.{Request}
use usbvfiod.Bus.Device.{byte_request, read_bulk_from, write_bulk_from}

pub length-copy_at :
    (k : ℕ) (bs bytes : List ℕ)
    → k + length bs ≤ length bytes
    → length (copy_at k bs bytes) ≡ length bytes
length-copy_at k bs bytes h = omega (
  arith,
  length-append (take k bytes) (bs ++ drop (k + length bs) bytes),
  length-append bs (drop (k + length bs) bytes),
  length-take k bytes,
  length-drop (k + length bs) bytes,
)

pub take-copy_at :
    (k k' : ℕ) (bs bytes : List ℕ)
    → k ≤ length bytes
    → k + length bs ≡ k'
    → take k' (copy_at k bs bytes) ≡ take k bytes ++ bs
take-copy_at k k' bs bytes h e =
    let joined = take k bytes ++ bs in
    let size : length joined ≡ k' =
      omega (arith, length-append (take k bytes) bs, length-take k bytes) in
    ap (take k') (sym (append_assoc (take k bytes) bs _))
    ∙ subst (λ t. take t (joined ++ drop (k + length bs) bytes) ≡ joined) size
        (take-append joined (drop (k + length bs) bytes))

module _ {S : Type 0} where
  module _ (f g : Request → M S ℕ) where
    -- Reads that agree byte by byte agree in bulk.
    pub read_bulk_from_agree :
        (o k o' k' m : ℕ)
        → ((j a a' : ℕ)
            → j < m
            → k + j ≡ a
            → k' + j ≡ a'
            → f (byte_request o a) ≡ g (byte_request o' a'))
        → read_bulk_from f o k m ≡ read_bulk_from g o' k' m
    unfolding read_bulk_from
    read_bulk_from_agree o k o' k' zero h = refl
    read_bulk_from_agree o k o' k' (suc m) h =
        let head = h 0 k k' (omega arith) (omega arith) (omega arith) in
        let rest =
          read_bulk_from_agree o (k + 1) o' (k' + 1) m
            (λ j a a' hj e e'. h (suc j) a a' (omega arith) (omega arith) (omega arith)) in
        λ i. head i >>= λ value. rest i >>= λ bs. pure ((value % 256) ∷ bs)

  module _ (f g : Request → ℕ → M S (Unit {0})) where
    -- Writes that agree byte by byte agree in bulk.
    pub write_bulk_from_agree :
        (o k o' k' : ℕ) (bs : List ℕ)
        → ((j a a' value : ℕ)
            → j < length bs
            → k + j ≡ a
            → k' + j ≡ a'
            → f (byte_request o a) value ≡ g (byte_request o' a') value)
        → write_bulk_from f o k bs ≡ write_bulk_from g o' k' bs
    unfolding write_bulk_from
    write_bulk_from_agree o k o' k' [] h = refl
    write_bulk_from_agree o k o' k' (b ∷ bs) h =
        let head = h 0 k k' b (omega arith) (omega arith) (omega arith) in
        let rest =
          write_bulk_from_agree o (k + 1) o' (k' + 1) bs
            (λ j a a' v hj e e'. h (suc j) a a' v (omega arith) (omega arith) (omega arith)) in
        λ i. head i >> rest i

  -- A bulk read is a read of a part, then of the rest.
  pub read_bulk_from-append :
      (f : Request → M S ℕ) (o k m n k' : ℕ)
      → k + m ≡ k'
      → read_bulk_from f o k (m + n)
        ≡ (read_bulk_from f o k m >>= λ xs. read_bulk_from f o k' n >>= λ ys. pure (xs ++ ys))
  unfolding read_bulk_from
  read_bulk_from-append f o k zero n k' e =
      subst (λ t. read_bulk_from f o k t ≡ read_bulk_from f o k' n >>= pure) {x = n} (omega arith)
        (subst (λ t. read_bulk_from f o t n ≡ read_bulk_from f o k' n >>= pure) {x = k'}
          (omega arith) (sym (bind_pure _)))
  read_bulk_from-append f o k (suc m) n k' e =
      let shifted : suc m + n ≡ suc (m + n) = omega arith in
      rw shifted (simp (read_bulk_from-append f o (k + 1) m n k' (omega arith), bind_assoc))

  pub write_bulk_from-append :
      (f : Request → ℕ → M S (Unit {0})) (o k : ℕ) (xs ys : List ℕ) (k' : ℕ)
      → k + length xs ≡ k'
      → write_bulk_from f o k (xs ++ ys) ≡ (write_bulk_from f o k xs >> write_bulk_from f o k' ys)
  unfolding write_bulk_from
  write_bulk_from-append f o k [] ys k' e = ap (λ t. write_bulk_from f o t ys) (omega arith)
  write_bulk_from-append f o k (x ∷ xs) ys k' e =
      simp (write_bulk_from-append f o (k + 1) xs ys k' (omega arith), bind_assoc)

  pub read_bulk_from-length :
      (f : Request → M S ℕ) (o k m : ℕ) (s t : S) (bs : List ℕ)
      → read_bulk_from f o k m s ≡ some (bs, t)
      → length bs ≡ m
  unfolding read_bulk_from
  read_bulk_from-length f o k zero s t bs h = ground arith
  read_bulk_from-length f o k (suc m) s t bs h =
      let (v, u, _, rest) = bind_some (f (byte_request o k)) _ s t bs h in
      let (r, w, got, out) = bind_some (read_bulk_from f o (k + 1) m) _ u t bs rest in
      ground (arith, read_bulk_from-length f o (k + 1) m u w r got)
