-- ===== src/Heap.antt =====
-- heap_buddy_system_evanw.c: the buddy allocator. A free block holds the links of its free list, a
-- used block its size in the word of the first link: a size is stored as the address that is the
-- same number. The lists are circular, and the head of each is a static variable.
pub mod Links
pub mod Nodes
pub mod Addresses
pub mod Blocks
pub mod First
mod Tests
use grub_os_iso_image.Common.{
  ℕ, zero, suc, ◌+◌, ◌-◌, ◌*◌, ◌/◌, ◌%◌, ◌^◌, ◌≤◌, ◌<◌, ◌≡◌, refl, sym, ap, ◌∙◌, ◌≢◌, ◌↔◌, ◌⊎◌, inl,
  inr, Bool, true, false, not, ◌&&◌, ◌||◌, Option, none, some, List, [], ◌∷◌, ◌++◌, append_assoc,
  append-nil, arith, ltb, leb, ◌==◌, if◌then◌else◌, ltb→lt, ltb→le, lt→ltb, le→ltb, ==_iff,
  Bool-cases, length, get_elem?, get_or, replicate, length-append, length-replicate, length-set,
  get_elem?-eq-get_or, get_or-set_self, get_or-set_ne, u8, u16, u32, add32, sub32, add64, sub64,
  ◌<<<◌, ◌>>>◌, Run, ok, fault, out_of_fuel, ◌>>=◌, >>=_assoc, >>=-ok, read, write, read-append,
  write-append, Ending, returns, faults, exhausts, ending, >>=-halts, >>=-eq-ok, read-halts,
  write-halts, read-eq-ok, read-eq-fault, write-eq-ok, ℤ, pos, negsuc, minus, int32, min, max,
  bit_and, bit_or, bit_xor, bit_at, bit_at-bit_and, bit_at-bit_or, bit_at_le, bit_at-zero,
  bit_at-pow_self, bit_at-pow_ne, bit_at-complement, bit_and-zero, bit_and-pow, bit_and-mask,
  bit_or-disjoint, bit_or_comm, bit_and-high,
}
use grub_os_iso_image.Paging.{brk, sbrk}

abbrev pub header_size : ℕ
header_size = 8

abbrev pub min_alloc_log2 : ℕ
min_alloc_log2 = 4

abbrev pub min_alloc : ℕ
min_alloc = 2 ^ min_alloc_log2

abbrev pub max_alloc_log2 : ℕ
max_alloc_log2 = 31

abbrev pub max_alloc : ℕ
max_alloc = 2 ^ max_alloc_log2

abbrev pub bucket_count : ℕ
bucket_count = max_alloc_log2 - min_alloc_log2 + 1

-- Two pointers of four bytes.
abbrev pub sizeof_list : ℕ
sizeof_list = 8

-- The number of bytes of `node_is_split`.
abbrev pub split_bytes : ℕ
split_bytes = 2 ^ (bucket_count - 1) / 8

-- The address of a `list_t`: an entry of `buckets`, or a block of the heap.
pub data Place : Type 0 where
  bucket_head : ℕ → Place
  block : ℕ → Place

abbrev pub same_place : Place → Place → Bool
same_place (bucket_head a) (bucket_head b) = a == b
same_place (bucket_head a) (block b) = false
same_place (block a) (bucket_head b) = false
same_place (block a) (block b) = a == b

pub record Heap : Type 0 where
  -- The two words at an address: the links of a `list_t`, or the size in the first one.
  pub prev : Place → Place
  pub next : Place → Place
  -- The address of `buckets`, which the linker chooses.
  pub buckets : ℕ
  pub node_is_split : ℕ → ℕ
  pub base_ptr : ℕ
  pub max_ptr : ℕ
  pub bucket_limit : ℕ
  pub heap_end : ℕ

abbrev pub pointing : (Place → Place) → Place → Place → Place → Place
pointing links from to p = if same_place p from then to else links p

abbrev pub with_prev : Place → Place → Heap → Heap
with_prev p q h = record h { prev = pointing h.prev p q }

abbrev pub with_next : Place → Place → Heap → Heap
with_next p q h = record h { next = pointing h.next p q }

-- The number that an address is.
abbrev pub address_of : Heap → Place → ℕ
address_of h (bucket_head b) = h.buckets + b * sizeof_list
address_of h (block a) = a

-- The size in the header of a block.
abbrev pub request_of : Heap → ℕ → ℕ
request_of h ptr = address_of h (h.prev (block ptr))

-- A size written into the header of a block.
abbrev pub with_request : ℕ → ℕ → Heap → Heap
with_request ptr request h = with_prev (block ptr) (block request) h

abbrev pub holding_at : (ℕ → ℕ) → ℕ → ℕ → ℕ → ℕ
holding_at values i v j = if j == i then v else values j

unfoldable pub list_init : Place → Heap → Heap
list_init list h = with_next list list (with_prev list list h)

unfoldable pub list_push : Place → Place → Heap → Heap
list_push list entry h =
    let previous = h.prev list in
    with_prev list entry
      (with_next previous entry (with_next entry list (with_prev entry previous h)))

unfoldable pub list_remove : Place → Heap → Heap
list_remove entry h =
    let previous = h.prev entry in
    let following = h.next entry in with_prev following previous (with_next previous following h)

unfoldable pub list_pop : Place → Heap → Option Place × Heap
list_pop list h =
    let back = h.prev list in
    if same_place back list then (none, h) else (some back, list_remove back h)

-- Whether the addresses below `new_value` can be used now.
unfoldable pub update_max_ptr : ℕ → Heap → Bool × Heap
update_max_ptr new_value h =
    if ltb h.max_ptr new_value
    then (elim (brk new_value h.heap_end).0 [
      | pos n ↦
          if n == 0
          then (true, record h { max_ptr = new_value; heap_end = (brk new_value h.heap_end).1 })
          else (false, h)
      | negsuc n ↦ (false, h)
    ])
    else (true, h)

unfoldable pub ptr_for_node : ℕ → ℕ → Heap → ℕ
ptr_for_node index bucket h =
    add32 h.base_ptr (u32 (add32 (sub32 index (2 ^ bucket)) 1 <<< (max_alloc_log2 - bucket)))

unfoldable pub node_for_ptr : ℕ → ℕ → Heap → ℕ
node_for_ptr ptr bucket h =
    sub32 (add32 (sub32 ptr h.base_ptr >>> (max_alloc_log2 - bucket)) (2 ^ bucket)) 1

-- An access to `node_is_split`, which has `split_bytes` bytes.
unfoldable pub parent_is_split : ℕ → Heap → Run Bool
parent_is_split index h =
    let parent = sub32 index 1 / 2 in
    if ltb (parent / 8) split_bytes
    then ok (bit_and (h.node_is_split (parent / 8) >>> (parent % 8)) 1 == 1)
    else fault

unfoldable pub flip_parent_is_split : ℕ → Heap → Run Heap
flip_parent_is_split index h =
    let parent = sub32 index 1 / 2 in
    if ltb (parent / 8) split_bytes
    then ok (record h {
      node_is_split =
          holding_at h.node_is_split (parent / 8)
            (bit_xor (h.node_is_split (parent / 8)) (2 ^ (parent % 8)));
    })
    else fault

unfoldable pub bucket_from : ℕ → ℕ → ℕ → ℕ → Run ℕ
bucket_from zero bucket size request = out_of_fuel
bucket_from (suc fuel) bucket size request =
    let rest = bucket_from fuel (sub32 bucket 1) (u32 (size * 2)) request in
    if ltb size request then rest else ok bucket

unfoldable pub bucket_for_request : ℕ → Run ℕ
bucket_for_request request = bucket_from bucket_count (bucket_count - 1) min_alloc request
