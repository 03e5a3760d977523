-- ===== src/PageTable.antt =====
-- The page directories and page tables of cos318-project6/memory.c: words of physical memory, by
-- the address of the word. A mask on a 32-bit word is written as a division or a remainder, an
-- "or" of disjoint bits as a sum. The flush of the TLB (`invalidate_page`) changes no memory.
use operativsystemer.Base.{
  ℕ, zero, suc, ◌+◌, ◌*◌, ◌/◌, ◌%◌, Bool, Option, none, some, ◌==◌, ltb, if◌then◌else◌,
}

abbrev pub page_size : ℕ
page_size = 4096

abbrev pub page_n_entries : ℕ
page_n_entries = 1024

-- What one page table maps.
abbrev pub ptable_span : ℕ
ptable_span = 4194304

-- The bits PE_P, PE_RW, PE_US, PE_A of an entry.
abbrev pub pe_p : ℕ
pe_p = 1

abbrev pub pe_rw : ℕ
pe_rw = 2

abbrev pub pe_us : ℕ
pe_us = 4

abbrev pub pe_a : ℕ
pe_a = 32

abbrev pub mem_start : ℕ
mem_start = 1048576

abbrev pub pageable_pages : ℕ
pageable_pages = 128

abbrev pub max_physical_memory : ℕ
max_physical_memory = mem_start + pageable_pages * page_size

abbrev pub screen_addr : ℕ
screen_addr = 753664

abbrev pub Ram : Type 0
Ram = ℕ → ℕ

abbrev pub store : Ram → ℕ → ℕ → Ram
store ram p v a = if a == p then v else ram a

-- `x & PE_BASE_ADDR_MASK`.
abbrev pub base_addr : ℕ → ℕ
base_addr x = x / 4096 * 4096

-- `x & PE_P`, `x & PE_D`.
abbrev pub is_present : ℕ → Bool
is_present x = x % 2 == 1

abbrev pub is_dirty : ℕ → Bool
is_dirty x = x / 64 % 2 == 1

abbrev pub get_directory_index : ℕ → ℕ
get_directory_index vaddr = vaddr / 4194304

abbrev pub get_table_index : ℕ → ℕ
get_table_index vaddr = vaddr / 4096 % 1024

-- The address of the entry of `vaddr` in a directory, and in a table.
abbrev pub dir_entry_addr : ℕ → ℕ → ℕ
dir_entry_addr directory vaddr = directory + 4 * get_directory_index vaddr

abbrev pub table_entry_addr : ℕ → ℕ → ℕ
table_entry_addr table vaddr = table + 4 * get_table_index vaddr

-- `none`: the assertion that the table is present fails, and the machine halts.
unfoldable pub page_set_mode : ℕ → ℕ → ℕ → Ram → Option Ram
page_set_mode pdir vaddr mode ram =
    if is_present dir_entry
    then some (store ram entry_addr (base_addr (ram entry_addr) + mode % 4096))
    else none
  where
    dir_entry : ℕ
    dir_entry = ram (dir_entry_addr pdir vaddr)

    entry_addr : ℕ
    entry_addr = table_entry_addr (base_addr dir_entry) vaddr

unfoldable pub table_map_page : ℕ → ℕ → ℕ → ℕ → Ram → Ram
table_map_page table vaddr paddr mode ram =
    store ram (table_entry_addr table vaddr) (base_addr paddr + mode % 4096)

unfoldable pub dir_ins_table : ℕ → ℕ → ℕ → ℕ → Ram → Ram
dir_ins_table directory vaddr table mode ram =
    store ram (dir_entry_addr directory vaddr) (base_addr table + mode % 1024)

-- The loop of `init_memory` that fills in a page table, from entry `j` and address `pbaddr` on, with
-- the number of the entries left in place of `j`.
unfoldable pub identity_map : ℕ → ℕ → ℕ → Ram → ℕ × Ram
identity_map table zero pbaddr ram = (pbaddr, ram)
identity_map table (suc left) pbaddr ram =
    let mapped = table_map_page table pbaddr pbaddr (pe_p + pe_rw) ram in
    let rest = identity_map table left (pbaddr + page_size) mapped in
    if ltb pbaddr max_physical_memory then rest else (pbaddr, ram)

-- The loop of `setup_page_table` that maps the pages of the image as not present, from page `i` on.
unfoldable pub map_image : ℕ → ℕ → ℕ → ℕ → Ram → Ram
map_image table start zero i ram = ram
map_image table start (suc left) i ram =
    map_image table start left (i + 1)
      (table_map_page table (start + i * page_size) (start + i * page_size) (pe_rw + pe_us) ram)
