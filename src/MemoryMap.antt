-- ===== src/MemoryMap.antt =====
-- memory_map.c: the memory map of the boot loader fills the table of free areas.
pub mod Layout
pub mod Above
pub mod Correct
use grub_os_iso_image.Common.{
  ℕ, zero, suc, ◌+◌, ◌-◌, ◌*◌, ◌/◌, ◌%◌, ◌^◌, ◌≤◌, ◌<◌, ◌≡◌, refl, sym, ap, ◌∙◌, ◌≢◌, ◌↔◌, ◌⊎◌, inl,
  inr, Bool, true, false, not, ◌&&◌, ◌||◌, Option, none, some, List, [], ◌∷◌, ◌++◌, append_assoc,
  append-nil, arith, ltb, leb, ◌==◌, if◌then◌else◌, ltb→lt, ltb→le, lt→ltb, le→ltb, ==_iff,
  Bool-cases, length, get_elem?, get_or, set, replicate, length-append, length-replicate,
  length-set, get_elem?-eq-get_or, get_or-set_self, get_or-set_ne, u8, u16, u32, add32, sub32,
  add64, sub64, ◌<<<◌, ◌>>>◌, Run, ok, fault, out_of_fuel, ◌>>=◌, >>=_assoc, >>=-ok, read, write,
  read-append, write-append, Ending, returns, faults, exhausts, ending, >>=-halts, >>=-eq-ok,
  read-halts, write-halts, read-eq-ok, read-eq-fault, write-eq-ok, ℤ, pos, negsuc, minus, int32,
  min, max, bit_and, bit_or, bit_xor, bit_at, bit_at-bit_and, bit_at-bit_or, bit_at_le, bit_at-zero,
  bit_at-pow_self, bit_at-pow_ne, bit_at-complement, bit_and-zero, bit_and-pow,
}
use grub_os_iso_image.Placement.Table.{Table}
use grub_os_iso_image.Placement.Insert.{insert_area}
use grub_os_iso_image.Multiboot.{MultibootInfo, MemoryMap, check_flag}

-- `sizeof(long)` on the 32 bit target.
abbrev pub sizeof_long : ℕ
sizeof_long = 4

-- `mmap->base_addr_high * sizeof(long) + mmap->base_addr_low`, in `unsigned long`.
abbrev pub joined : ℕ → ℕ → ℕ
joined high low = add32 (u32 (high * sizeof_long)) low

abbrev pub is_zero : ℤ → Bool
is_zero (pos n) = n == 0
is_zero (negsuc n) = false

-- The `switch` of the loop, with 0 where the loop goes on.
unfoldable pub process_entry : MemoryMap → Table → Run (ℤ × Table)
process_entry mmap t =
    if mmap.type == 1
    then (do
      let start = joined mmap.base_addr_high mmap.base_addr_low
      let size = joined mmap.length_high mmap.length_low
      (code, t') ← insert_area start size t
      ok (if is_zero code then pos 0 else minus 2, t'))
    else ok (pos 0, t)

-- The loop at the entry at address `mmap`, up to the address `last`.
unfoldable pub process_entries : (ℕ → MemoryMap) → ℕ → ℕ → ℕ → Table → Run (ℤ × Table)
process_entries memory zero mmap last t = out_of_fuel
process_entries memory (suc fuel) mmap last t =
    let entry = memory mmap in
    let rest = process_entries memory fuel (add32 (add32 mmap entry.size) 4) last in
    let round =
      process_entry entry t >>= λ (code, t'). if is_zero code then rest t' else ok (code, t') in
    if ltb mmap last then round else ok (pos 0, t)

-- An entry has at least the four bytes of its size, so that there are at most `mmap_length` rounds.
unfoldable pub process_multiboot_memory_map :
    (ℕ → MemoryMap) → MultibootInfo → Table → Run (ℤ × Table)
process_multiboot_memory_map memory mbi t =
    if check_flag mbi.flags 6
    then process_entries memory (suc mbi.mmap_length) mbi.mmap_addr
        (add32 mbi.mmap_addr mbi.mmap_length) t
    else ok (minus 1, t)
