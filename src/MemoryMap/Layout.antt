-- ===== src/MemoryMap/Layout.antt =====
-- The map as a list of entries.
use grub_os_iso_image.Common.{
  ℕ, zero, suc, ◌+◌, ◌*◌, ◌^◌, ◌≤◌, ◌<◌, ◌≡◌, true, false, List, [], ◌∷◌, arith, ltb, if◌then◌else◌,
  length, add32, Run, ok, ◌>>=◌, ℤ, pos,
}
use grub_os_iso_image.Placement.Table.{Table}
use grub_os_iso_image.Multiboot.{MemoryMap}
use grub_os_iso_image.MemoryMap.{is_zero, process_entry, process_entries}

-- The entries lie in memory one behind the other, from `mmap` to `last`.
abbrev pub IsLaid : (ℕ → MemoryMap) → ℕ → ℕ → List MemoryMap → Type 0
IsLaid memory mmap last [] = mmap ≡ last
IsLaid memory mmap last (e ∷ entries) =
    (memory mmap ≡ e)
    × (mmap + e.size + 4 < 2 ^ 32)
    × IsLaid memory (mmap + e.size + 4) last entries

-- The entries are processed up to the first failure.
abbrev pub process_list : List MemoryMap → Table → Run (ℤ × Table)
process_list [] t = ok (pos 0, t)
process_list (e ∷ entries) t = do
  (code, t') ← process_entry e t
  let rest = process_list entries t'
  if is_zero code then rest else ok (code, t')

pub laid_length :
    (memory : ℕ → MemoryMap) (mmap last : ℕ) (entries : List MemoryMap)
    → IsLaid memory mmap last entries
    → mmap + length entries * 4 ≤ last
laid_length memory mmap last [] l = omega arith
laid_length memory mmap last (e ∷ entries) l =
    omega (arith, laid_length memory (mmap + e.size + 4) last entries l.2)

pub process_entries_lem :
    (memory : ℕ → MemoryMap) (fuel mmap last : ℕ) (entries : List MemoryMap) (t : Table)
    → IsLaid memory mmap last entries
    → length entries < fuel
    → process_entries memory fuel mmap last t ≡ process_list entries t
unfolding process_entries
process_entries_lem memory zero mmap last entries t l h = absurd (omega arith)
process_entries_lem memory (suc fuel) mmap last [] t l h =
    let over : ltb mmap last ≡ false = ground arith in rw over
process_entries_lem memory (suc fuel) mmap last (e ∷ entries) t l h =
    let within : ltb mmap last ≡ true =
      ground (arith, laid_length memory (mmap + e.size + 4) last entries l.2) in
    let step : add32 (add32 mmap e.size) 4 ≡ mmap + e.size + 4 = omega arith in
    let rest : (t' : Table)
        → process_entries memory fuel (mmap + e.size + 4) last t' ≡ process_list entries t' =
      λ t'. process_entries_lem memory fuel (mmap + e.size + 4) last entries t' l.2 (omega arith) in
    rw (within, l.0, step) (simp rest)
