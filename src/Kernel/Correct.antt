-- ===== src/Kernel/Correct.antt =====
-- What `main` leaves to the rest of the kernel.
use grub_os_iso_image.Common.{
  ℕ, ◌+◌, ◌^◌, ◌≤◌, ◌<◌, ◌≡◌, refl, ◌∙◌, Bool, true, false, not, ◌&&◌, List, arith, ltb, leb, ◌==◌,
  length, ok,
}
use grub_os_iso_image.Placement.Area.{Area, inside}
use grub_os_iso_image.Placement.Table.{table_of, IsOrdered, covers}
use grub_os_iso_image.Placement.Table.Clear.{clear_placement_memory_array_lem}
use grub_os_iso_image.Placement.Allocate.Correct.{allocate_succeeds}
use grub_os_iso_image.Placement.Allocate.FirstFit.{fits, first_fit}
use grub_os_iso_image.Placement.AllocateArea.Carve.{contains}
use grub_os_iso_image.Placement.Cover.Cut.{cut, covers-cut, cut-IsOrdered}
use grub_os_iso_image.Placement.Cover.Refine.{allocate_area_cover_refines}
use grub_os_iso_image.Bitmap.Frames.{is_used}
use grub_os_iso_image.Bitmap.Loops.{reset_bitmap_lem, use_frames_in_bytes_lem}
use grub_os_iso_image.Multiboot.{MultibootInfo, MemoryMap, check_flag}
use grub_os_iso_image.MemoryMap.Layout.{IsLaid}
use grub_os_iso_image.MemoryMap.Correct.{
  Ascends, is_ram, ram_count, ram_contains, process_multiboot_memory_map_lem,
}
use grub_os_iso_image.Kernel.{
  Memory, ready, main, setup_bitmap, setup_placement, multiboot_bootloader_magic,
  reserved_memory_in_bytes, placement_memory_size_in_bytes, bitmap_element_count,
}
use grub_os_iso_image.Kernel.Window.{contains-cut, length-cut, fits-contains}

-- The memory is set up from the addresses `ram` of available memory.
pub record IsSetUp (ram : ℕ → Bool) (m : Memory) (live : List Area) : Type 0 where
  pub areas : m.areas ≡ table_of live
  pub ordered : IsOrdered 0 live
  -- The placement memory is available memory behind the reserved memory.
  pub placed :
      (x : ℕ)
      → inside m.placement_memory_address placement_memory_size_in_bytes x ≡ true
      → (ram x ≡ true) × (reserved_memory_in_bytes ≤ x)
  -- What is free is available memory outside the reserved memory and the placement memory.
  pub free :
      (x : ℕ)
      → covers live x ≡ (
          ram x
          && leb reserved_memory_in_bytes x
          && not (inside m.placement_memory_address placement_memory_size_in_bytes x))
  -- The frames of the first 45 MB are in use, and no others.
  pub frames : (f : ℕ) → is_used m.bitmap f ≡ ltb f 11520

setup_bitmap_lem :
    (m : Memory)
    → length m.bitmap ≡ bitmap_element_count
    → (after : List ℕ) × (setup_bitmap m ≡ ok (ready, record m { bitmap = after }))
      × ((f : ℕ) → is_used after f ≡ ltb f 11520)
unfolding setup_bitmap
setup_bitmap_lem m h =
    let (cleared, run, l, unused) = reset_bitmap_lem m.bitmap in
    let run' = rw h at run in
    let l' : length cleared ≡ bitmap_element_count = l ∙ h in
    let (after, run2, l2, used) =
      use_frames_in_bytes_lem cleared (reserved_memory_in_bytes + placement_memory_size_in_bytes)
        (omega arith) (omega arith) in
    let run2' = rw l' at run2 in
    (after, rw (run', run2'), λ f. used f ∙ rw (unused f) (ground arith))

setup_placement_lem :
    (m : Memory) (live : List Area) (s : ℕ)
    → m.areas ≡ table_of live
    → length m.bitmap ≡ bitmap_element_count
    → IsOrdered 0 live
    → length live < 10
    → reserved_memory_in_bytes ≤ s
    → contains s placement_memory_size_in_bytes live ≡ true
    → (m' : Memory) × (left : List Area) × (setup_placement m ≡ ok (ready, m'))
      × IsSetUp (covers live) m' left
unfolding setup_placement
setup_placement_lem m live s e h o n r c =
    let size = placement_memory_size_in_bytes in
    let uncovered = cut 0 reserved_memory_in_bytes live in
    let address = first_fit size uncovered in
    let room : fits size uncovered ≡ true =
      fits-contains s size uncovered
        (contains-cut reserved_memory_in_bytes s size live r (omega arith) c) in
    let few : length uncovered < 10 = omega (arith, length-cut reserved_memory_in_bytes live) in
    let run =
      allocate_area_cover_refines 0 reserved_memory_in_bytes live (omega arith) (omega arith) o n in
    let (left, run2, taken) =
      allocate_succeeds size uncovered (omega arith)
        (cut-IsOrdered 0 reserved_memory_in_bytes 0 live (omega arith) o) few room in
    let from_ram : (x : ℕ)
        → inside address size x ≡ true
        → (covers live x ≡ true) × (reserved_memory_in_bytes ≤ x) =
      λ x i. ground (arith, taken.was_free x, covers-cut 0 reserved_memory_in_bytes live x) in
    let used : (address == 0) ≡ false = ground (arith, from_ram address) in
    let (after, run3, frames) =
      setup_bitmap_lem (record m { areas = table_of left; placement_memory_address = address }) h in
    (
      record m { areas = table_of left; placement_memory_address = address; bitmap = after },
      left,
      rw (e, run, run2, used) run3,
      record {
        areas = refl;
        ordered = taken.ordered;
        placed = from_ram;
        free =
            λ x. ground (arith, taken.free_after x, covers-cut 0 reserved_memory_in_bytes live x);
        frames = frames;
      },
    )

-- On a boot with the multiboot magic, with a valid memory map that is laid out in memory, whose
-- available entries are not empty, lie below 2 ^ 32 (both start and length), ascend and are fewer
-- than ten, and one of which contains a range of 5 MB behind the first 40 MB, and with arrays of
-- the declared lengths, `main` gets to the devices. The placement memory it has chosen is
-- available memory behind the first 40 MB, the table is in order and frees exactly the available
-- memory outside the first 40 MB and the placement memory, and the bitmap marks exactly the first
-- 11520 frames.
pub main_lem :
    (memory : ℕ → MemoryMap) (mbi : MultibootInfo) (entries : List MemoryMap) (m : Memory) (s : ℕ)
    → length m.areas.free_memory_areas ≡ 10
    → length m.bitmap ≡ bitmap_element_count
    → check_flag mbi.flags 6 ≡ true
    → mbi.mmap_addr + mbi.mmap_length < 2 ^ 32
    → IsLaid memory mbi.mmap_addr (mbi.mmap_addr + mbi.mmap_length) entries
    → Ascends 0 entries
    → ram_count entries < 10
    → reserved_memory_in_bytes ≤ s
    → ram_contains s placement_memory_size_in_bytes entries ≡ true
    → (m' : Memory) × (left : List Area) × (main memory multiboot_bootloader_magic mbi m
        ≡ ok (ready, m'))
      × IsSetUp (is_ram entries) m' left
unfolding main
main_lem memory mbi entries m s ha hb f b l up n r c =
    let (live, run, filled) =
      process_multiboot_memory_map_lem memory mbi entries f b l up (omega arith) in
    let (m', left, run2, ready_now) =
      setup_placement_lem (record m { areas = table_of live }) live s refl hb filled.ordered
        (omega (arith, filled.few)) r (filled.kept s placement_memory_size_in_bytes c) in
    let same : (x : ℕ) → covers live x ≡ is_ram entries x = filled.free_after in
    (
      m',
      left,
      rw (clear_placement_memory_array_lem m.areas ha, run) run2,
      record {
        areas = ready_now.areas;
        ordered = ready_now.ordered;
        placed = λ x i. ground (arith, same x, ready_now.placed x);
        free = λ x. ground (arith, same x, ready_now.free x);
        frames = ready_now.frames;
      },
    )
