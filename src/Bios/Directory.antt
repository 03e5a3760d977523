-- ===== src/Bios/Directory.antt =====
-- The page directory in which the BIOS runs: make_v86_page_directory of cos318-project6/usb.c.
use operativsystemer.Base.{
  ℕ, zero, suc, ◌+◌, ◌/◌, Bool, true, ◌&&◌, ◌==◌, ◌||◌, ltb, leb, if◌then◌else◌,
}
use operativsystemer.PageTable.{
  Ram, store, base_addr, page_size, pe_p, pe_rw, pe_us, mem_start, max_physical_memory, is_present,
  dir_entry_addr, table_entry_addr,
}

-- `STACK_MIN - 2*STACK_SIZE - PAGE_SIZE` and `STACK_MIN - 2*STACK_SIZE - 2*PAGE_SIZE`.
abbrev pub usb_directory_page : ℕ
usb_directory_page = 184320

abbrev pub usb_table_page : ℕ
usb_table_page = 180224

abbrev pub usb_table_map_present : ℕ → ℕ → ℕ → Bool → Ram → Ram
usb_table_map_present table vaddr paddr user ram =
    store ram (table_entry_addr table vaddr)
      (base_addr paddr + (if user then pe_rw + pe_p + pe_us else pe_rw + pe_p))

abbrev pub usb_directory_insert_table : ℕ → ℕ → ℕ → Bool → Ram → Ram
usb_directory_insert_table directory vaddr table user ram =
    store ram (dir_entry_addr directory vaddr)
      (base_addr table + (if user then pe_rw + pe_p + pe_us else pe_rw + pe_p))

abbrev pub clear_page : ℕ → Ram → Ram
clear_page page ram a = if leb page a && ltb a (page + page_size) then 0 else ram a

-- The loop over the memory below 1 MB, from `addr` on, for the pages that are left.
unfoldable pub map_low : ℕ → ℕ → ℕ → Ram → Ram
map_low table zero addr ram = ram
map_low table (suc left) addr ram =
    map_low table left (addr + page_size) (usb_table_map_present table addr addr true ram)

-- The body of the loop behind it is an empty statement: what follows runs once, for the address with which
-- that loop ends.
unfoldable pub make_v86_page_directory : Ram → ℕ × Ram
make_v86_page_directory ram =
    (usb_directory_page, usb_directory_insert_table usb_directory_page 0 usb_table_page true mapped)
  where
    cleared : Ram
    cleared = clear_page usb_table_page (clear_page usb_directory_page ram)

    low : Ram
    low = map_low usb_table_page 256 0 cleared

    mapped : Ram
    mapped = usb_table_map_present usb_table_page max_physical_memory max_physical_memory true low

-- The entry of the table that the processor finds for an address: 0, which is not present, where the
-- entry of the directory is not present.
abbrev pub entry_of : ℕ × Ram → ℕ → ℕ
entry_of (directory, ram) a =
    let pde = ram (dir_entry_addr directory a) in
    let entry = ram (table_entry_addr (base_addr pde) a) in if is_present pde then entry else 0

-- The pages that are mapped: those of the first megabyte, and the one behind the memory of the pages.
abbrev pub is_mapped : ℕ → Bool
is_mapped a = ltb a mem_start || (a / page_size == max_physical_memory / page_size)

abbrev finished : Ram → Ram
finished low =
    usb_directory_insert_table usb_directory_page 0 usb_table_page true
      (usb_table_map_present usb_table_page max_physical_memory max_physical_memory true low)
