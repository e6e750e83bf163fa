-- ===== src/Lib.antt =====
-- A model of the memory management of a small operating system kernel that GRUB boots, and of the
-- parts of the kernel around it. Paths are from the root of the repository.
--
-- Common: shared helpers. `Common.Outcome` is the result of running a piece of C: `ok` a value,
-- `fault` an access outside an array, `out_of_fuel` a loop that has used up the rounds of its model.
-- `Common.Words` writes out the wrap-around of the unsigned types.
--
-- Placement: placement_memory.c. The global array `free_memory_areas` and its
-- `free_memory_area_index` are a record `Table` that each operation takes and returns; a `Table`
-- holds any list of areas, and an access behind its end is a `fault`. `Placement.Table` models
-- `clear_placement_memory_array` and `memory_areas_size`, and the shift loops the operations share;
-- `Placement.Allocate` models `allocate`, `Placement.AllocateArea` `allocate_area`, `Placement.Cover`
-- `allocate_area_cover`, and `Placement.Insert` `insert_area`. Each has a `Refine` module that
-- relates it to an operation on lists of areas, and a `Correct` module that states what the
-- operation does to the set of free addresses. An area is "proper" if it has at least one byte and
-- ends below 2 ^ 64; areas are "in order" if they are proper, ascending and disjoint.
-- The loop of `allocate_area_cover` erases entries and moves back, so it runs on 21 rounds of fuel;
-- the other loops recurse on the number of entries left.
-- Not modelled: `k_dump_free_memory_map`, which prints the table.
--
-- Bitmap: bitmap.c. A bitmap is the list of its words; `is_used` is the abstract view.
--
-- Multiboot: multiboot.h and multiboot.c; what the boot loader has put into memory is a function from
-- addresses, an argument of the definitions that read it. MemoryMap: memory_map.c; its loop runs on
-- `mmap_length` + 1 rounds, which is enough since an entry has at least four bytes.
--
-- Kernel: the part of `main` in kernel.c that sets up the memory, in the order of the calls there.
-- Screen output and the descriptor tables share no state with it and are left out of it.
-- `Kernel.PagingSetup` models `paging_setup`, which builds the first page tables, on the machine of
-- `Paging`: its loops recurse on the number of rounds, and a word of physical memory is numbered by
-- its address divided by four. The two instructions that set cr3 and cr0 are the new `cr3` of the
-- machine; the handler registration changes no memory.
-- Not modelled: `paging_tests`, `linked_list_test` and `factorial`, whose calls are commented out.
--
-- Paging: paging.c. Memory is a word for each frame and index; `translate` is the processor's walk
-- through the directory and a page table, so that the recursive entry of the directory is modelled
-- and not assumed. A fault inside the page fault handler is a `fault`. An `int` that is -1 is tested
-- as a `ℤ`.
--
-- Descriptors: descriptor_tables.c and isr.c. The entries are records, and `Gates` says what the
-- processor reads in them; interrupt handlers are functions on the state of the rest of the kernel.
--
-- Strings: the memory and string functions of common.c, on a list of bytes with indices as addresses.
-- The loops over strings run on as many rounds as memory has bytes.
--
-- Heap: heap_buddy_system_evanw.c. The two words at an address, which are the links of a free
-- block, and split bits are functions from addresses; the size of a used block is in the first of the
-- two words, where a link overwrites it. An access to `node_is_split` outside its 2 ^ 24 bytes is a
-- `fault`. `brk` and `sbrk` are those of `Paging`.
-- The loop of `bucket_for_request` runs on 28 rounds, one for each bucket; the loops of
-- `lower_bucket_limit`, `malloc` and `free` lower a bucket in each round.
--
-- Sort: sort.c. The array is a list; the comparator and the swap function are arguments, as in C.
-- `quicksort_internal` passes the pivot on in the left range, so its recursion is not structural and
-- runs on fuel: 2 * n + 1 rounds, which are enough for n elements because a range whose last element is
-- a greatest one loses an element in every round, and the left range is always such a range.
--
-- Console: the screen of common.c, with the two bytes of each place in a list, and `k_itoa` on a
-- buffer. A number of 32 bits has at most 32 digits, so the digit loop and the reversal run on 33
-- rounds. In Console/Print.antt, `k_printf` has the words behind `format` as a list, and the strings that
-- they point to as a function from addresses, which the video memory does not overlap; `terminal_buffer`
-- is a list of its own there. Console/Float.antt has `k_print_float` behind its floating point
-- arithmetic: the two integers that it prints are arguments.
--
-- Pci: pci/pci.c. `Pci.Ports` are the port instructions of common.c, over any device side: a function
-- that takes what is written to a port and one that answers a read, on a state of their own.
-- `Pci.Config` models the accesses to the configuration space, `Pci.Eeprom` `read_eeprom`, `Pci.Scan`
-- the loops of `init_pcilist` that look for the network card, and `Pci.Init` what it does with the
-- card. `Pci.Bridge` states what the configuration ports are documented to do, and `Pci.Serial` what a
-- serial EEPROM of 64 words does with the bits it is sent, in the one operating mode of the card in
-- which they reach it; they are hypotheses of the theorems.
-- The two loops that wait for the card run on fuel. Screen output and the counting loops that only
-- take time are left out.
--
-- LinkedList: collections/linked_list.c. The heap is a partial function from addresses to items; an
-- access through 0 or to an item that has been given back is a `fault`. What `malloc` returns is an
-- argument. The loops run on fuel, of which the number of items is enough. `Refine` relates the ring
-- to the list it stands for.
pub mod Common
pub mod Placement
pub mod Bitmap
pub mod Multiboot
pub mod MemoryMap
pub mod Kernel
pub mod Paging
pub mod Descriptors
pub mod Strings
pub mod Heap
pub mod Sort
pub mod Console
pub mod Pci
pub mod LinkedList
