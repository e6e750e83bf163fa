-- ===== src/Heap/Blocks.antt =====
-- `lower_bucket_limit`, `malloc` and `free`.
use grub_os_iso_image.Common.{
  ℕ, zero, suc, ◌-◌, ◌*◌, ◌/◌, ◌^◌, Bool, true, false, not, ◌||◌, Option, none, some, ltb, ◌==◌,
  if◌then◌else◌, u32, add32, sub32, Run, ok, fault, out_of_fuel, ◌>>=◌, bit_xor,
}
use grub_os_iso_image.Paging.{sbrk}
use grub_os_iso_image.Heap.{
  with_request, request_of, Heap, Place, bucket_head, block, header_size, max_alloc, max_alloc_log2,
  bucket_count, sizeof_list, list_init, list_push, list_remove, list_pop, update_max_ptr,
  ptr_for_node, node_for_ptr, parent_is_split, flip_parent_is_split, bucket_for_request,
}

-- The whole address space is free: its block moves to the list of the next larger size.
unfoldable pub raise_free_root : Heap → Heap
raise_free_root h =
    let removed = list_remove (block h.base_ptr) h in
    let limit = sub32 removed.bucket_limit 1 in
    let lowered = list_init (bucket_head limit) (record removed { bucket_limit = limit }) in
    list_push (bucket_head limit) (block lowered.base_ptr) lowered

-- The address space is in use: the root gets a parent with a free right child.
unfoldable pub raise_used_root : ℕ → Heap → Run (Bool × Heap)
raise_used_root root h =
    let right_child = ptr_for_node (add32 root 1) h.bucket_limit h in
    let (enough, h1) = update_max_ptr (add32 right_child sizeof_list) h in
    let h2 = list_push (bucket_head h1.bucket_limit) (block right_child) h1 in
    let limit = sub32 h2.bucket_limit 1 in
    let h3 = list_init (bucket_head limit) (record h2 { bucket_limit = limit }) in
    let parent = sub32 root 1 / 2 in
    let marked = if parent == 0 then ok h3 else flip_parent_is_split parent h3 in
    if enough then (marked >>= λ h4. ok (true, h4)) else ok (false, h1)

-- Each round lowers `bucket_limit`, so that there are at most `bucket_count` of them.
unfoldable pub lower_from : ℕ → ℕ → Heap → Run (Bool × Heap)
lower_from zero bucket h = out_of_fuel
lower_from (suc fuel) bucket h =
    let root = node_for_ptr h.base_ptr h.bucket_limit h in
    let rest = lower_from fuel bucket in
    let round = (do
      split ← parent_is_split root h
      (enough, h') ← (if split then raise_used_root root h else ok (true, raise_free_root h))
      if enough then rest h' else ok (false, h')) in
    if ltb bucket h.bucket_limit then round else ok (true, h)

unfoldable pub lower_bucket_limit : ℕ → Heap → Run (Bool × Heap)
lower_bucket_limit bucket h = lower_from (suc bucket_count) bucket h

-- The first call: the tree has one node of the smallest size.
unfoldable pub init_heap : Heap → Heap
init_heap h =
    let start = (sbrk 0 h.heap_end).0 in
    let h1 = record h {
      base_ptr = start;
      max_ptr = start;
      bucket_limit = bucket_count - 1;
      heap_end = (sbrk 0 h.heap_end).1;
    } in
    let h2 = (update_max_ptr (add32 start sizeof_list) h1).1 in
    let h3 = list_init (bucket_head (bucket_count - 1)) h2 in
    list_push (bucket_head (bucket_count - 1)) (block start) h3

-- The loop that splits the node `i` down to the bucket of the request.
unfoldable pub split_down : ℕ → ℕ → ℕ → Heap → Run Heap
split_down zero bucket i h = ok h
split_down (suc rounds) bucket i h = do
  let child = add32 (u32 (i * 2)) 1
  h1 ← flip_parent_is_split child h
  let right = ptr_for_node (add32 child 1) (suc bucket) h1
  split_down rounds (suc bucket) child (list_push (bucket_head (suc bucket)) (block right) h1)

-- What `malloc` does with a block from the free list of the bucket; a null pointer is 0.
unfoldable pub take_block : ℕ → ℕ → ℕ → Place → Heap → Run (ℕ × Heap)
take_block request original_bucket bucket (bucket_head b) h = fault
take_block request original_bucket bucket (block ptr) h =
    let size = 2 ^ (max_alloc_log2 - bucket) in
    let bytes_needed = if ltb bucket original_bucket then add32 (size / 2) sizeof_list else size in
    let (enough, h1) = update_max_ptr (add32 ptr bytes_needed) h in
    let i = node_for_ptr ptr bucket h1 in
    let taken = (do
      h2 ← (if i == 0 then ok h1 else flip_parent_is_split i h1)
      h3 ← split_down (original_bucket - bucket) bucket i h2
      ok (add32 ptr header_size, with_request ptr request h3)) in
    if enough then taken else ok (0, list_push (bucket_head bucket) (block ptr) h1)

-- The block found in the list; the list that was just filled has one.
unfoldable pub take_popped : ℕ → ℕ → ℕ → Option Place × Heap → Run (ℕ × Heap)
take_popped request original_bucket bucket (none, h) = fault
take_popped request original_bucket bucket (some place, h) =
    take_block request original_bucket bucket place h

-- The search for a bucket from `bucket` downwards: its count ends with bucket 0.
unfoldable pub search_bucket : ℕ → ℕ → ℕ → Heap → Run (ℕ × Heap)
search_bucket request original_bucket zero h = ok (0, h)
search_bucket request original_bucket (suc bucket) h = do
  (grown, h1) ← lower_bucket_limit bucket h
  let (place, h2) = list_pop (bucket_head bucket) h1
  let larger = search_bucket request original_bucket bucket h2
  let grow = (do
    (grown', h3) ← lower_bucket_limit (sub32 bucket 1) h2
    if grown'
        then take_popped request original_bucket bucket (list_pop (bucket_head bucket) h3)
        else ok (0, h3))
  let continued = if not (bucket == h2.bucket_limit) || bucket == 0 then larger else grow
  if grown
      then (elim place [
        | none ↦ continued
        | some p ↦ take_block request original_bucket bucket p h2
      ])
      else ok (0, h1)

unfoldable pub malloc : ℕ → Heap → Run (ℕ × Heap)
malloc request h =
    let started = if h.base_ptr == 0 then init_heap h else h in
    let found = (do
      bucket ← bucket_for_request (add32 request header_size)
      search_bucket request bucket (suc bucket) started) in
    if ltb max_alloc (add32 request header_size) then ok (0, h) else found

-- The loop of `free` from node `i` of the bucket towards the root.
unfoldable pub merge_up : ℕ → ℕ → ℕ → Heap → Run (ℕ × ℕ × Heap)
merge_up zero bucket i h = if i == 0 then ok (bucket, i, h) else out_of_fuel
merge_up (suc fuel) bucket i h =
    let round = (do
      h1 ← flip_parent_is_split i h
      split ← parent_is_split i h1
      let buddy = add32 (bit_xor (sub32 i 1) 1) 1
      let merged = list_remove (block (ptr_for_node buddy bucket h1)) h1
      let rest = merge_up fuel (sub32 bucket 1) (sub32 i 1 / 2) merged
      if split || bucket == h1.bucket_limit then ok (bucket, i, h1) else rest) in
    if i == 0 then ok (bucket, i, h) else round

unfoldable pub free : ℕ → Heap → Run Heap
free ptr h =
    let start = sub32 ptr header_size in
    let freed = (do
      bucket ← bucket_for_request (add32 (request_of h start) header_size)
      (bucket', i, h') ← merge_up bucket_count bucket (node_for_ptr start bucket h) h
      ok (list_push (bucket_head bucket') (block (ptr_for_node i bucket' h')) h')) in
    if ptr == 0 then ok h else freed
