-- ===== src/Heap/Addresses.antt =====
-- The addresses of nodes.
use grub_os_iso_image.Common.{
  ℕ, zero, suc, ◌+◌, ◌-◌, ◌*◌, ◌/◌, ◌^◌, ◌≤◌, ◌<◌, ◌≡◌, ◌∙◌, arith, u32, add32, sub32, power_lt,
}
use native.Mathlib.Nat.{mul-div_cancel}
use grub_os_iso_image.Heap.{Heap, ptr_for_node, node_for_ptr}

whole : (a b : ℕ) → a + b ≡ 31 → 2 ^ a * 2 ^ b ≡ 2 ^ 31
whole zero b e = let all : b ≡ 31 = omega arith in rw all
whole (suc a) b e =
    let moved : 2 ^ suc a * 2 ^ b ≡ 2 ^ a * 2 ^ suc b =
      let left : 2 ^ suc a ≡ 2 * 2 ^ a = omega arith in
      let right : 2 ^ suc b ≡ 2 * 2 ^ b = omega arith in rw (left, right) (grind arith) in
    moved ∙ whole a (suc b) (omega arith)

offset_lt : (k n s : ℕ) → k < n → n * s ≡ 2 ^ 31 → 0 < s → k * s < 2 ^ 31
offset_lt k n s h e p = grind (arith, e)

-- For a bucket of at most 27 and a heap that ends below 2 ^ 32, the address of the k-th node of
-- the bucket is the start of the k-th block, and `node_for_ptr` gives the node back from it.
node_for_ptr-ptr_for_node :
    (k bucket : ℕ) (h : Heap)
    → bucket ≤ 27
    → k < 2 ^ bucket
    → h.base_ptr + 2 ^ 31 < 2 ^ 32
    → (ptr_for_node (k + 2 ^ bucket - 1) bucket h ≡ h.base_ptr + k * 2 ^ (31 - bucket))
      × (node_for_ptr (h.base_ptr + k * 2 ^ (31 - bucket)) bucket h ≡ k + 2 ^ bucket - 1)
unfolding ptr_for_node node_for_ptr
node_for_ptr-ptr_for_node k bucket h b l e =
    let s = 2 ^ (31 - bucket) in
    let positive : 0 < s = power_positive (31 - bucket) in
    let bounded : k * s < 2 ^ 31 =
      offset_lt k (2 ^ bucket) s l (whole bucket (31 - bucket) (omega arith)) positive in
    let nodes : 2 ^ bucket < 2 ^ 31 = power_lt bucket 31 (omega arith) in
    let up : u32 (add32 (sub32 (k + 2 ^ bucket - 1) (2 ^ bucket)) 1 * s) ≡ k * s =
      let first : add32 (sub32 (k + 2 ^ bucket - 1) (2 ^ bucket)) 1 ≡ k =
        omega (arith, power_positive bucket) in
      rw first (omega arith) in
    let down : sub32 (h.base_ptr + k * s) h.base_ptr / s ≡ k =
      let offset : sub32 (h.base_ptr + k * s) h.base_ptr ≡ k * s = omega arith in
      rw offset (mul-div_cancel k positive) in
    (rw up (omega arith), rw down (omega (arith, power_positive bucket)))
  where
    power_positive : (n : ℕ) → 0 < 2 ^ n
    power_positive zero = omega arith
    power_positive (suc n) = omega (arith, power_positive n)
