-- ===== src/Heap/Nodes.antt =====
-- The arithmetic of buckets and nodes.
use grub_os_iso_image.Common.{
  ℕ, zero, suc, ◌-◌, ◌*◌, ◌/◌, ◌%◌, ◌^◌, ◌≤◌, ◌<◌, ◌≡◌, refl, ap, ◌∙◌, ◌⊎◌, inl, inr, Bool, true,
  false, not, arith, ltb, ◌==◌, if◌then◌else◌, ltb→lt, ltb→le, le→ltb, ==_iff, Bool-cases, u32,
  sub32, ◌>>>◌, ok, bit_and, bit_xor, bit_at, bit_at_le, bit_at-flip, bit_at-div, power_lt,
  bit_and-mask,
}
use grub_os_iso_image.Heap.{
  Heap, bucket_from, bucket_for_request, parent_is_split, flip_parent_is_split, split_bytes,
  holding_at,
}

-- Blocks of the bucket are large enough for the request, and blocks of the next are not.
pub record IsSmallestBucket (request bucket : ℕ) : Type 0 where
  pub in_range : bucket ≤ 27
  pub large_enough : request ≤ 2 ^ (31 - bucket)
  pub smallest : (bucket ≡ 27) ⊎ (2 ^ (30 - bucket) < request)

bucket_from_step :
    (rounds fuel request : ℕ)
    → suc rounds ≤ 27
    → ltb (2 ^ (31 - suc rounds)) request ≡ true
    → bucket_from (suc fuel) (suc rounds) (2 ^ (31 - suc rounds)) request
      ≡ bucket_from fuel rounds (2 ^ (31 - rounds)) request
unfolding bucket_from
bucket_from_step rounds fuel request r small =
    let next : sub32 (suc rounds) 1 ≡ rounds = omega arith in
    let lower : 31 - suc rounds ≡ 30 - rounds = omega arith in
    let upper : 31 - rounds ≡ suc (30 - rounds) = omega arith in
    let double : u32 (2 ^ (31 - suc rounds) * 2) ≡ 2 ^ (31 - rounds) =
      rw (lower, upper) (omega (arith, power_lt (30 - rounds) 31 (omega arith))) in
    rw (small, next, double)

bucket_from_lem :
    (rounds fuel request : ℕ)
    → rounds ≤ 27
    → rounds < fuel
    → (rounds ≡ 27) ⊎ (2 ^ (30 - rounds) < request)
    → request ≤ 2 ^ 31
    → (bucket : ℕ) × (bucket_from fuel rounds (2 ^ (31 - rounds)) request ≡ ok bucket)
      × IsSmallestBucket request bucket
unfolding bucket_from
bucket_from_lem rounds zero request r f s h = absurd (omega arith)
bucket_from_lem zero (suc fuel) request r f s h =
    let enough : ltb (2 ^ 31) request ≡ false = le→ltb (2 ^ 31) request h in
    (zero, rw enough, record { in_range = r; large_enough = h; smallest = s })
bucket_from_lem (suc rounds) (suc fuel) request r f s h =
    elim (Bool-cases (ltb (2 ^ (31 - suc rounds)) request)) [
      | inl small ↦
          let lower : 31 - suc rounds ≡ 30 - rounds = omega arith in
          let lt = rw lower at (ltb→lt (2 ^ (31 - suc rounds)) request small) in
          let (bucket, run, ok_bucket) =
            bucket_from_lem rounds fuel request (omega arith) (omega arith) (inr lt) h in
          (bucket, bucket_from_step rounds fuel request r small ∙ run, ok_bucket)
      | inr large ↦ (
        suc rounds,
        rw large,
        record {
          in_range = r;
          large_enough = ltb→le (2 ^ (31 - suc rounds)) request large;
          smallest = s;
        },
      )
    ]

-- For a request of at most 2 ^ 31 bytes `bucket_for_request` returns a bucket of at most 27 whose
-- blocks hold it; it is 27, or the blocks of the next bucket are too small.
pub bucket_for_request_lem :
    (request : ℕ)
    → request ≤ 2 ^ 31
    → (bucket : ℕ) × (bucket_for_request request ≡ ok bucket) × IsSmallestBucket request bucket
unfolding bucket_for_request
bucket_for_request_lem request h =
    bucket_from_lem 27 28 request (omega arith) (omega arith) (inl refl) h

-- For two nodes below 2 ^ 28 other than the root, `flip_parent_is_split` of the first returns and
-- changes the answer of `parent_is_split` for the second exactly if they have the same parent.
parent_is_split-flip :
    (i j : ℕ) (h : Heap)
    → 0 < i
    → 0 < j
    → i < 2 ^ 28
    → j < 2 ^ 28
    → (b : Bool) × (h' : Heap) × (flip_parent_is_split i h ≡ ok h')
      × (parent_is_split j h ≡ ok b)
      × (parent_is_split j h' ≡ ok (if (j - 1) / 2 == (i - 1) / 2 then not b else b))
unfolding parent_is_split flip_parent_is_split
parent_is_split-flip i j h p q r s =
    let pi = (i - 1) / 2 in
    let pj = (j - 1) / 2 in
    let parent : sub32 i 1 / 2 ≡ pi = omega arith in
    let parent' : sub32 j 1 / 2 ≡ pj = omega arith in
    let within : ltb (pi / 8) split_bytes ≡ true = ground arith in
    let within' : ltb (pj / 8) split_bytes ≡ true = ground arith in
    let word = h.node_is_split (pi / 8) in
    (
      bit_and (h.node_is_split (pj / 8) >>> (pj % 8)) 1 == 1,
      record h {
        node_is_split = holding_at h.node_is_split (pi / 8) (bit_xor word (2 ^ (pi % 8)));
      },
      rw (parent, within),
      rw (parent', within'),
      rw (parent', within') (ap ok (flipped pi pj)),
    )
  where
    read_bit : (w k : ℕ) → (bit_and (w / 2 ^ k) 1 == 1) ≡ (bit_at w k == 1)
    read_bit w k = rw (bit_and-mask 1 (w / 2 ^ k), bit_at-div k w)

    flipped :
        (a b : ℕ)
        → (bit_and
              (holding_at h.node_is_split
                  (a / 8)
                  (bit_xor (h.node_is_split (a / 8)) (2 ^ (a % 8)))
                  (b / 8)
                >>> (b % 8))
              1
            == 1)
          ≡ (if b == a
              then not (bit_and (h.node_is_split (b / 8) >>> (b % 8)) 1 == 1)
              else bit_and (h.node_is_split (b / 8) >>> (b % 8)) 1 == 1)
    flipped a b = elim (Bool-cases (b / 8 == a / 8)) [
      | inl same ↦
          let e : b / 8 ≡ a / 8 = (==_iff _ _).0 same in
          let w = h.node_is_split (a / 8) in
          rw
            (
              same,
              e,
              read_bit (bit_xor w (2 ^ (a % 8))) (b % 8),
              read_bit w (b % 8),
              bit_at-flip (a % 8) (b % 8) w,
            )
            (ground (arith, bit_at_le w (b % 8)))
      | inr other ↦ let n : (b == a) ≡ false = ground arith in rw (other, n)
    ]
