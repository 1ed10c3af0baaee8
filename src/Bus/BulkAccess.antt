-- ===== src/Bus/BulkAccess.antt =====
-- A bulk access to the bus of src/device/bus.rs is the bytewise one.
use mathlib.Core.List.{append_assoc, append-nil}
use usbvfiod.Prelude.{
  ℕ, ◌+◌, ◌-◌, ◌≤◌, ◌<◌, ◌≡◌, refl, some, List, [], ◌∷◌, ◌++◌, M, pure, ◌>>=◌, ◌>>◌, All, arith,
  Option-cases, Bool-cases, inl, inr, ◌∙◌, sym, ap, subst, fun_ext, length, take, drop, bind_assoc,
  bind_pure, bind_agree, length-take, length-drop, take-append-drop, copy_at, take-all, drop-drop,
  drop-all,
}
use usbvfiod.Interval.{Range, overlaps, contains_interval}
use usbvfiod.Bus.Request.{Request, u64_mod, try_into_range}
use usbvfiod.Bus.Device.{
  Device, DefaultDevice, byte_request, read_bulk_from, default_read_bulk, write_bulk_from,
  default_write_bulk, default_device,
}
use usbvfiod.Bus.Routing.{DeviceEntry, Bus, claim, to_device_request, read, write}
use usbvfiod.Bus.Validity.{IsValid}
use usbvfiod.Bus.Coverage.{route, Covers, iter_bulk_request-Covers}
use usbvfiod.Bus.BulkLoops.{
  length-copy_at, take-copy_at, read_bulk_from_agree, write_bulk_from_agree, read_bulk_from-append,
  write_bulk_from-append, read_bulk_from-length,
}
use usbvfiod.Bus.Bulk.{
  BulkRequestChunk, chunk_size, read_chunks, write_chunks, bus_read_bulk, bus_write_bulk,
}

module _ {S : Type 0} where
  -- A device that keeps the default bulk methods.
  pub record IsBytewise (d : Device S) : Type 0 where
    pub reads : (offset len : ℕ) → d.read_bulk offset len ≡ default_read_bulk d.read offset len
    pub writes :
        (offset : ℕ) (bs : List ℕ) → d.write_bulk offset bs ≡ default_write_bulk d.write offset bs

  -- The bus answers a request as the device that it routes the request to.
  read-route : (b : Bus S) (req : Request) → read b req ≡ (route b req).1.read (route b req).0
  unfolding read
  read-route b req = ground arith

  write-route : (b : Bus S) (req : Request) → write b req ≡ (route b req).1.write (route b req).0
  unfolding write
  write-route b req = ground arith

  claim-all :
      (P : Device S → Type 0) (es : List (DeviceEntry S)) (d : DefaultDevice) (req : Request)
      (r : Range) (p : Request × Device S)
      → All (λ (e : DeviceEntry S). P e.device) es
      → P (default_device d)
      → claim es d req r ≡ some p
      → P p.1
  unfolding claim
  claim-all P [] d req r p h k e = cc
  claim-all P (f ∷ es) d req r p h k e = elim (Bool-cases (contains_interval f.range r)) [
    | inl c ↦ let q : f.device ≡ p.1 = ground arith in subst P q h.0
    | inr c ↦ elim (Bool-cases (overlaps f.range r)) [
      | inl o ↦ let q : default_device d ≡ p.1 = ground arith in subst P q k
      | inr o ↦ claim-all P es d req r p h.1 k (ground arith)
    ]
  ]

  -- What holds of every device of a bus holds of the device that a request reaches.
  route-all :
      (P : Device S → Type 0) (b : Bus S) (req : Request)
      → All (λ (e : DeviceEntry S). P e.device) b.devices
      → P (default_device b.error_device)
      → P b.default
      → P (route b req).1
  unfolding to_device_request
  route-all P b req h k d = elim (Option-cases (try_into_range req)) [
    | inl e ↦ rw e d
    | inr (r, e) ↦ elim (Option-cases (claim b.devices b.error_device req r)) [
      | inl c ↦ rw (e, c) d
      | inr (p, c) ↦ rw (e, c) (claim-all P b.devices b.error_device req r p h k c)
    ]
  ]

  default_device-IsBytewise : (d : DefaultDevice) → IsBytewise (default_device d)
  unfolding default_device
  default_device-IsBytewise d = record { reads = λ o n. refl; writes = λ o bs. refl }

  -- All devices of a bus keep the default bulk methods.
  pub record AllBytewise (b : Bus S) : Type 0 where
    pub devices : All (λ (e : DeviceEntry S). IsBytewise e.device) b.devices
    pub default : IsBytewise b.default

  chunk-IsBytewise :
      (b : Bus S) (offset k : ℕ) (c : BulkRequestChunk S)
      → AllBytewise b
      → 0 < chunk_size c
      → ((j : ℕ)
          → j < chunk_size c
          → route b (byte_request offset (k + j)) ≡ (byte_request c.device_offset j, c.device))
      → IsBytewise c.device
  chunk-IsBytewise b offset k c h pos serves =
      subst IsBytewise (ap (λ p. p.1) (serves 0 pos))
        (route-all IsBytewise b _ h.devices (default_device-IsBytewise b.error_device) h.default)

  chunk-read :
      (b : Bus S) (offset k : ℕ) (c : BulkRequestChunk S)
      → AllBytewise b
      → 0 < chunk_size c
      → ((j : ℕ)
          → j < chunk_size c
          → route b (byte_request offset (k + j)) ≡ (byte_request c.device_offset j, c.device))
      → c.device.read_bulk c.device_offset (chunk_size c)
        ≡ read_bulk_from (read b) offset k (chunk_size c)
  unfolding default_read_bulk
  chunk-read b offset k c h pos serves =
      (chunk-IsBytewise b offset k c h pos serves).reads c.device_offset (chunk_size c)
      ∙ sym (
          read_bulk_from_agree (read b) c.device.read offset k c.device_offset 0 (chunk_size c)
            λ j a a' hj e e'.
              let z : j ≡ a' = omega arith in
              read-route b (byte_request offset a)
              ∙ ap (λ (p : Request × Device S). p.1.read p.0)
                  (subst
                    (λ t.
                      route b (byte_request offset t) ≡ (byte_request c.device_offset a', c.device))
                    e
                    (subst
                      (λ t.
                        route b (byte_request offset (k + j))
                        ≡ (byte_request c.device_offset t, c.device))
                      z (serves j hj))))

  -- The rest of a bulk read, once a chunk has been filled in.
  after_chunk :
      (b : Bus S) (offset k n m : ℕ) (cs : List (BulkRequestChunk S)) (bytes bs : List ℕ) (t : S)
      → read_chunks cs (copy_at k bs bytes) ≡ (
          read_bulk_from (read b) offset (k + m) (n - m) >>= λ ys.
          pure (take (k + m) (copy_at k bs bytes) ++ ys))
      → length bs ≡ m
      → k ≤ length bytes
      → read_chunks cs (copy_at k bs bytes) t
        ≡ (read_bulk_from (read b) offset (k + m) (n - m) >>= λ ys.
              pure (take k bytes ++ (bs ++ ys)))
            t
  after_chunk b offset k n m cs bytes bs t ih size h = λ i.
      (ih
          ∙ ap
              (λ (zs : List ℕ).
                read_bulk_from (read b) offset (k + m) (n - m) >>= λ ys. pure (zs ++ ys))
              (take-copy_at k (k + m) bs bytes h (omega arith))
          ∙ ap (λ (f : List ℕ → M S (List ℕ)). read_bulk_from (read b) offset (k + m) (n - m) >>= f)
              (fun_ext λ ys. ap pure (append_assoc (take k bytes) bs ys)))
        i t

  read_chunks-lem :
      (b : Bus S) (offset k n : ℕ) (cs : List (BulkRequestChunk S)) (bytes : List ℕ)
      → AllBytewise b
      → Covers b offset k n cs
      → k + n ≡ length bytes
      → read_chunks cs bytes
        ≡ (read_bulk_from (read b) offset k n >>= λ ys. pure (take k bytes ++ ys))
  unfolding read_chunks read_bulk_from
  read_chunks-lem b offset k n [] bytes h cov e =
      subst
        (λ t. pure bytes ≡ (read_bulk_from (read b) offset k t >>= λ ys. pure (take k bytes ++ ys)))
        (sym cov) (ap pure (sym (append-nil (take k bytes) ∙ take-all k bytes (omega arith))))
  read_chunks-lem b offset k n (c ∷ cs) bytes h (start, pos, fits, serves, rest) e =
      let m = chunk_size c in
      let k' = k + m in
      let split : m + (n - m) ≡ n = omega arith in
      (λ i. chunk-read b offset k c h pos serves i >>= λ bs.
      read_chunks cs (copy_at (start i) bs bytes))
      ∙ bind_agree (read_bulk_from (read b) offset k m) _ _ (λ s bs t got.
        let size = read_bulk_from-length (read b) offset k m s t bs got in
        after_chunk b offset k n m cs bytes bs t
          (read_chunks-lem b offset k' (n - m) cs (copy_at k bs bytes) h rest
            (omega (arith, length-copy_at k bs bytes (omega arith))))
          size (omega arith))
      ∙ sym (
          subst
            (λ t. (read_bulk_from (read b) offset k t >>= λ ys. pure (take k bytes ++ ys)) ≡ (
              read_bulk_from (read b) offset k m >>= λ xs.
              read_bulk_from (read b) offset k' (n - m) >>= λ ys.
              pure (take k bytes ++ (xs ++ ys))))
            split (simp (read_bulk_from-append (read b) offset k m (n - m) k' refl, bind_assoc)))

  chunk-write :
      (b : Bus S) (offset k : ℕ) (c : BulkRequestChunk S) (bs : List ℕ)
      → AllBytewise b
      → 0 < chunk_size c
      → length bs ≡ chunk_size c
      → ((j : ℕ)
          → j < chunk_size c
          → route b (byte_request offset (k + j)) ≡ (byte_request c.device_offset j, c.device))
      → c.device.write_bulk c.device_offset bs ≡ write_bulk_from (write b) offset k bs
  unfolding default_write_bulk
  chunk-write b offset k c bs h pos size serves =
      (chunk-IsBytewise b offset k c h pos serves).writes c.device_offset bs
      ∙ sym (
          write_bulk_from_agree (write b) c.device.write offset k c.device_offset 0 bs
            λ j a a' value hj e e'.
              let z : j ≡ a' = omega arith in
              (λ i. write-route b (byte_request offset a) i value)
              ∙ ap (λ (p : Request × Device S). p.1.write p.0 value)
                  (subst
                    (λ t.
                      route b (byte_request offset t) ≡ (byte_request c.device_offset a', c.device))
                    e
                    (subst
                      (λ t.
                        route b (byte_request offset (k + j))
                        ≡ (byte_request c.device_offset t, c.device))
                      z (serves j (omega arith)))))

  write_chunks-lem :
      (b : Bus S) (offset k n : ℕ) (cs : List (BulkRequestChunk S)) (bytes : List ℕ)
      → AllBytewise b
      → Covers b offset k n cs
      → k + n ≡ length bytes
      → write_chunks cs bytes ≡ write_bulk_from (write b) offset k (drop k bytes)
  unfolding write_chunks write_bulk_from
  write_chunks-lem b offset k n [] bytes h cov e =
      ap (write_bulk_from (write b) offset k) {x = []} (sym (drop-all k bytes (omega arith)))
  write_chunks-lem b offset k n (c ∷ cs) bytes h (start, pos, fits, serves, rest) e =
      let m = chunk_size c in
      let part = take m (drop k bytes) in
      let size : length part ≡ m =
        omega (arith, length-take m (drop k bytes), length-drop k bytes) in
      (λ i.
        c.device.write_bulk c.device_offset (take m (drop (start i) bytes))
        >> write_chunks cs bytes)
      ∙ (λ i.
          chunk-write b offset k c part h pos size serves i
          >> write_chunks-lem b offset (k + m) (n - m) cs bytes h rest (omega arith) i)
      ∙ sym (
          write_bulk_from-append (write b) offset k part (drop (k + m) bytes) (k + m) (omega arith))
      ∙ ap (write_bulk_from (write b) offset k)
          (ap (λ t. part ++ t) (sym (drop-drop k m bytes)) ∙ take-append-drop m (drop k bytes))

  -- On a valid bus whose devices keep the default bulk methods, a bulk read that does not wrap is
  -- the read of its bytes one by one, in order, and it fills the whole slice.
  pub bus_read_bulk-bytewise :
      (b : Bus S) (offset : ℕ) (bytes : List ℕ)
      → IsValid b
      → AllBytewise b
      → offset + length bytes < u64_mod
      → bus_read_bulk b offset bytes ≡ default_read_bulk (read b) offset (length bytes)
  unfolding bus_read_bulk default_read_bulk
  bus_read_bulk-bytewise b offset bytes v h inside =
      let (cs, run, covers) = iter_bulk_request-Covers b offset (length bytes) v inside in
      rw (run, bus_read_bulk)
        (read_chunks-lem b offset 0 (length bytes) cs bytes h covers (omega arith)
          ∙ bind_pure (read_bulk_from (read b) offset 0 (length bytes)))

  -- On such a bus a bulk write that does not wrap is the write of its bytes one by one, in order.
  pub bus_write_bulk-bytewise :
      (b : Bus S) (offset : ℕ) (bytes : List ℕ)
      → IsValid b
      → AllBytewise b
      → offset + length bytes < u64_mod
      → bus_write_bulk b offset bytes ≡ default_write_bulk (write b) offset bytes
  unfolding bus_write_bulk default_write_bulk
  bus_write_bulk-bytewise b offset bytes v h inside =
      let (cs, run, covers) = iter_bulk_request-Covers b offset (length bytes) v inside in
      rw (run, bus_write_bulk)
        (write_chunks-lem b offset 0 (length bytes) cs bytes h covers (omega arith))
