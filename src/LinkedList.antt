-- ===== src/LinkedList.antt =====
-- collections/linked_list.c: a ring of items, each linked to the one before and the one behind it. The
-- heap is a partial function on addresses. What `malloc` returns is a parameter: an address, 0 if
-- there is no memory, and what the new item holds at first. `free` gives an item back.
pub mod Ring
pub mod Fields
pub mod Places
pub mod Add
pub mod Delete
pub mod Refine
mod Tests
use grub_os_iso_image.Common.{
  ℕ, zero, suc, ◌+◌, ◌-◌, ◌*◌, ◌/◌, ◌%◌, ◌^◌, ◌≤◌, ◌<◌, ◌≡◌, refl, sym, ap, ◌∙◌, ◌≢◌, ◌↔◌, ◌⊎◌, inl,
  inr, Bool, true, false, not, ◌&&◌, ◌||◌, Option, none, some, List, [], ◌∷◌, ◌++◌, append_assoc,
  append-nil, arith, ltb, leb, ◌==◌, if◌then◌else◌, ltb→lt, ltb→le, lt→ltb, le→ltb, ==_iff,
  Bool-cases, length as list_length, get_elem?, get_or, replicate, length-append, length-replicate,
  length-set, get_elem?-eq-get_or, get_or-set_self, get_or-set_ne, u8, u16, u32, add32, sub32,
  add64, sub64, ◌<<<◌, ◌>>>◌, Run, ok, fault, out_of_fuel, ◌>>=◌, >>=_assoc, >>=-ok, read-append,
  write-append, Ending, returns, faults, exhausts, ending, >>=-halts, >>=-eq-ok, read-halts,
  write-halts, read-eq-ok, read-eq-fault, write-eq-ok, ℤ, pos, negsuc, minus, int32, min, max,
  bit_and, bit_or, bit_xor, bit_at, bit_at-bit_and, bit_at-bit_or, bit_at_le, bit_at-zero,
  bit_at-pow_self, bit_at-pow_ne, bit_at-complement, bit_and-zero, bit_and-pow, bit_at-flip,
  bit_at-div, power_lt, bit_and-mask, bit_or-disjoint, bit_or_comm, bit_and-high,
}

pub record Item : Type 0 where
  pub prev : ℕ
  pub next : ℕ
  pub payload : ℕ

abbrev pub Heap : Type 0
Heap = ℕ → Option Item

abbrev pub item : ℕ → ℕ → ℕ → Item
item p q v = record { prev = p; next = q; payload = v }

abbrev pub put : Heap → ℕ → Option Item → Heap
put h p x a = if a == p then x else h a

-- An access through a null pointer or to what has been given back is undefined.
unfoldable pub load : ℕ → Heap → Run Item
load p h = if p == 0 then fault else elim (h p) [ none ↦ fault | some x ↦ ok x ]

unfoldable pub set_next : ℕ → ℕ → Heap → Run Heap
set_next p q h = do x ← load p h; ok (put h p (some (record x { next = q })))

unfoldable pub set_prev : ℕ → ℕ → Heap → Run Heap
set_prev p q h = do x ← load p h; ok (put h p (some (record x { prev = q })))

unfoldable pub set_payload : ℕ → ℕ → Heap → Run Heap
set_payload p v h = do x ← load p h; ok (put h p (some (record x { payload = v })))

unfoldable pub free : ℕ → Heap → Run Heap
free p h = do x ← load p h; ok (put h p none)

-- The result, `*linked_list` and the heap.
unfoldable pub add_to_list : ℕ → Item → ℕ → ℕ → Heap → Run (ℤ × (ℕ × Heap))
add_to_list ptr garbage payload linked_list h =
    let h0 = put h ptr (some garbage) in
    let single = (do
      h1 ← set_next ptr ptr h0
      h2 ← set_prev ptr ptr h1
      h3 ← set_payload ptr payload h2
      ok (pos 0, (ptr, h3))) in
    let behind = (do
      h1 ← set_next ptr linked_list h0
      first ← load linked_list h1
      h2 ← set_prev ptr first.prev h1
      again ← load linked_list h2
      h3 ← set_next again.prev ptr h2
      h4 ← set_prev linked_list ptr h3
      h5 ← set_payload ptr payload h4
      ok (pos 0, (linked_list, h5))) in
    if ptr == 0 then ok (minus 1, (linked_list, h)) else if linked_list == 0 then single else behind

-- The loop of `delete_list`, with the item that it ends at.
unfoldable pub delete_from : ℕ → ℕ → Heap → Run (ℕ × Heap)
delete_from zero ptr h = out_of_fuel
delete_from (suc fuel) ptr h = do
  x ← load ptr h
  if x.next == 0 then ok (ptr, h) else do
    y ← load x.next h
    h1 ← free y.prev h
    h2 ← set_prev x.next 0 h1
    delete_from fuel x.next h2

unfoldable pub delete_list : ℕ → ℕ → Heap → Run (ℕ × Heap)
delete_list fuel linked_list h = if linked_list == 0 then ok (linked_list, h) else do
  first ← load linked_list h
  if first.next == linked_list then (free linked_list h >>= λ h'. ok (0, h')) else do
    h1 ← set_next first.prev 0 h
    h2 ← set_prev linked_list 0 h1
    (ptr, h3) ← delete_from fuel linked_list h2
    h4 ← free ptr h3
    ok (0, h4)

unfoldable pub length_from : ℕ → ℕ → ℕ → ℕ → Heap → Run ℕ
length_from zero linked_list ptr length h = out_of_fuel
length_from (suc fuel) linked_list ptr length h =
    if ptr == linked_list
    then ok length
    else do x ← load ptr h; length_from fuel linked_list x.next (length + 1) h

unfoldable pub length : ℕ → ℕ → Heap → Run ℕ
length fuel linked_list h =
    if linked_list == 0
    then ok 0
    else do first ← load linked_list h; length_from fuel linked_list first.next 1 h

-- The function pointer as a function on some state, which leaves the list alone.
module _ {S : Type 0} (call : ℕ → S → S) where
  unfoldable pub iterate_from : ℕ → ℕ → ℕ → Heap → S → Run S
  iterate_from zero linked_list ptr h s = out_of_fuel
  iterate_from (suc fuel) linked_list ptr h s =
      if ptr == linked_list
      then ok s
      else do x ← load ptr h; iterate_from fuel linked_list x.next h (call ptr s)

  unfoldable pub iterate_over_list : ℕ → ℕ → Heap → S → Run S
  iterate_over_list fuel linked_list h s = if linked_list == 0 then ok s else do
    first ← load linked_list h
    iterate_from fuel linked_list first.next h (call linked_list s)
