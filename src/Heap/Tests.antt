-- ===== src/Heap/Tests.antt =====
-- Runs of the allocator from the state in which the kernel starts.
use grub_os_iso_image.Common.{ℕ, ◌≡◌, refl, arith, Run, ok, ◌>>=◌}
use grub_os_iso_image.Heap.{
  Heap, bucket_head, list_push, list_pop, list_init, list_remove, bucket_for_request, bucket_from,
  ptr_for_node, node_for_ptr, parent_is_split, flip_parent_is_split, update_max_ptr,
}
use grub_os_iso_image.Paging.{sbrk, brk}
use grub_os_iso_image.Heap.Blocks.{
  malloc, free, init_heap, search_bucket, take_block, take_popped, split_down, lower_bucket_limit,
  lower_from, raise_free_root, raise_used_root, merge_up,
}
use grub_os_iso_image.Heap.Nodes.{IsSmallestBucket, bucket_for_request_lem}
use grub_os_iso_image.Heap.First.{at_start, IsFirst, malloc_lem}

bucket_for_request_lem_example :
    (bucket : ℕ) × (bucket_for_request 108 ≡ ok bucket) × IsSmallestBucket 108 bucket
bucket_for_request_lem_example = bucket_for_request_lem 108 (omega arith)

-- An empty list in front of two blocks.
abbrev one_list : Heap
one_list = list_init (bucket_head 3) (at_start 0x100000)

malloc_lem_example :
    (bucket : ℕ) × (h : Heap) × (malloc 100 (at_start 0x100000) ≡ ok (52428808, h))
    × IsSmallestBucket 108 bucket
    × IsFirst 100 bucket h
malloc_lem_example = malloc_lem 0x100000 100 (omega arith)

-- Two blocks are taken, the first is given back, and a block of its size is taken again.
abbrev reuse : Run (ℕ × ℕ)
reuse = do
  (p, h) ← malloc 100 (at_start 0x100000)
  (q, h') ← malloc 24 h
  freed ← free p h'
  (r, h'') ← malloc 70 freed
  ok (q, r)

freed_block : reuse ≡ ok (52428936, 52428808)
unfolding malloc free merge_up init_heap search_bucket take_block take_popped split_down
    lower_bucket_limit lower_from raise_free_root raise_used_root bucket_for_request bucket_from
    ptr_for_node node_for_ptr parent_is_split flip_parent_is_split update_max_ptr list_push list_pop
    list_init list_remove sbrk brk
freed_block = refl
