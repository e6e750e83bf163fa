-- ===== src/Heap/First.antt =====
-- The first call of `malloc`, which sets the heap up and grows the tree to the size of the request.
use grub_os_iso_image.Common.{
  ℕ, zero, suc, ◌+◌, ◌-◌, ◌^◌, ◌≤◌, ◌<◌, ◌≡◌, ◌∙◌, Bool, true, false, ◌&&◌, arith, ltb, leb, ◌==◌,
  le→ltb, add32, Run, ok, fault, out_of_fuel,
}
use grub_os_iso_image.Paging.{sbrk, brk}
use grub_os_iso_image.Heap.{
  block, request_of, Heap, list_push, list_pop, list_init, list_remove, bucket_for_request,
  ptr_for_node, node_for_ptr, parent_is_split, flip_parent_is_split, update_max_ptr, header_size,
  max_alloc,
}
use grub_os_iso_image.Heap.Blocks.{
  malloc, init_heap, search_bucket, take_block, take_popped, split_down, lower_bucket_limit,
  lower_from, raise_free_root, raise_used_root,
}
use grub_os_iso_image.Heap.Nodes.{IsSmallestBucket, bucket_for_request_lem}

-- The heap before any call, with the `heap_end` of paging.c, and memory that is all 0.
abbrev pub at_start : ℕ → Heap
at_start buckets = record {
  prev = λ p. block 0;
  next = λ p. block 0;
  buckets = buckets;
  node_is_split = λ i. 0;
  base_ptr = 0;
  max_ptr = 0;
  bucket_limit = 0;
  heap_end = 52428800;
}

-- The block at the start of the heap is returned, the memory of the bucket can be used, and the size
-- is in its header.
abbrev is_first : ℕ → ℕ → Run (ℕ × Heap) → Bool
is_first request bucket (ok (p, h)) =
    p == 52428808
    && leb (52428800 + 2 ^ (31 - bucket)) h.max_ptr
    && h.heap_end == h.max_ptr
    && request_of h 52428800 == request
    && h.bucket_limit == bucket
is_first request bucket fault = false
is_first request bucket out_of_fuel = false

all_below : (ℕ → Bool) → ℕ → Bool
all_below p zero = true
all_below p (suc n) = p n && all_below p n

all_below_lem : (p : ℕ → Bool) (n x : ℕ) → all_below p n ≡ true → x < n → p x ≡ true
unfolding all_below
all_below_lem p zero x h l = absurd (omega arith)
all_below_lem p (suc n) x h l = ground (arith, all_below_lem p n x)

-- Each of the 28 buckets, by running the search with the request left open.
every_bucket :
    (buckets request : ℕ)
    → all_below
        (λ b. is_first request b (search_bucket request b (suc b) (init_heap (at_start buckets))))
        28
      ≡ true
unfolding all_below init_heap search_bucket take_block take_popped split_down lower_bucket_limit
    lower_from raise_free_root raise_used_root ptr_for_node node_for_ptr parent_is_split
    flip_parent_is_split update_max_ptr list_push list_pop list_init list_remove sbrk brk
every_bucket buckets request = let same : (request == request) ≡ true = ground arith in rw same

-- The heap after the first call for a request, with a block of the bucket in use.
pub record IsFirst (request bucket : ℕ) (h : Heap) : Type 0 where
  pub usable : 52428800 + 2 ^ (31 - bucket) ≤ h.max_ptr
  pub heap_end : h.heap_end ≡ h.max_ptr
  pub size : request_of h 52428800 ≡ request
  pub root : h.bucket_limit ≡ bucket

read_run :
    (request bucket : ℕ) (r : Run (ℕ × Heap))
    → is_first request bucket r ≡ true
    → (h : Heap) × (r ≡ ok (52428808, h)) × IsFirst request bucket h
read_run request bucket fault e = cc
read_run request bucket out_of_fuel e = cc
read_run request bucket (ok (p, h)) e =
    let same : p ≡ 52428808 = ground (arith, e) in
    (
      h,
      rw same,
      record {
        usable = ground (arith, e);
        heap_end = ground (arith, e);
        size = ground (arith, e);
        root = ground (arith, e);
      },
    )

-- From the state in which the kernel starts, wherever `buckets` stands, `malloc` for any request
-- that with its header of 8 bytes has at most 2 ^ 31 bytes returns the address behind the header
-- of a block at the start of the heap. The block is of the smallest bucket whose blocks hold the
-- request and the header, its memory is usable up to its end and the heap ends at the highest
-- usable address, the request is in the header, and the bucket is the root.
pub malloc_lem :
    (buckets request : ℕ)
    → request + 8 ≤ 2 ^ 31
    → (bucket : ℕ) × (h : Heap) × (malloc request (at_start buckets) ≡ ok (52428808, h))
      × IsSmallestBucket (request + 8) bucket
      × IsFirst request bucket h
unfolding malloc
malloc_lem buckets request l =
    let (bucket, run, smallest) = bucket_for_request_lem (request + 8) l in
    let (h, run', first) =
      read_run request bucket
        (search_bucket request bucket (suc bucket) (init_heap (at_start buckets)))
        (all_below_lem _ 28 bucket (every_bucket buckets request)
          (omega (arith, smallest.in_range))) in
    let total : add32 request header_size ≡ request + 8 = omega arith in
    let fits : ltb max_alloc (request + 8) ≡ false = le→ltb max_alloc (request + 8) l in
    (bucket, h, malloc_run bucket run total fits ∙ run', smallest, first)
  where
    malloc_run :
        (bucket : ℕ)
        → bucket_for_request (request + 8) ≡ ok bucket
        → add32 request header_size ≡ request + 8
        → ltb max_alloc (request + 8) ≡ false
        → malloc request (at_start buckets)
          ≡ search_bucket request bucket (suc bucket) (init_heap (at_start buckets))
    malloc_run bucket run total fits = rw (total, fits, run)
