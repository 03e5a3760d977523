-- ===== src/Memory.antt =====
-- The virtual memory of cos318-project6/memory.c: the page map, the replacement of pages, and demand
-- paging from the image of a process. `none` stands for a machine that halts (ASSERT, HALT), or
-- does not go on. The functions run while the caller holds `page_map_lock`; what they print is left
-- out. The disk of `usb.c` is an interface.
pub mod Policy
pub mod Frames
pub mod ImagePages
pub mod Sectors
pub mod Fault
pub mod Start
pub mod Identity
use operativsystemer.Base.{
  ℕ, zero, suc, ◌+◌, ◌-◌, ◌*◌, ◌/◌, ◌%◌, ◌^◌, ◌<◌, ◌≡◌, ◌≢◌, Bool, true, false, not, Option, none,
  some, ◌>>=◌, ◌==◌, ltb, leb, if◌then◌else◌,
}
use operativsystemer.PageTable.{
  Ram, store, base_addr, is_present, is_dirty, dir_entry_addr, table_entry_addr, page_size,
  page_n_entries, ptable_span, pe_p, pe_rw, pe_us, pe_a, mem_start, pageable_pages, screen_addr,
  page_set_mode, table_map_page, dir_ins_table, identity_map, map_image,
}

-- `read` and `write` of usb.c on disk contents of type `C`. A sector is 128 words of 32 bits, and a
-- sector below `capacity` keeps what was written. Bios/Words has the disk that `read` and `write` of
-- Bios are.
pub record Disk (C : Type 0) : Type 0 where
  pub read : C → ℕ → ℕ → ℕ
  pub write : C → ℕ → (ℕ → ℕ) → C
  pub capacity : ℕ
  pub read-write :
      (c : C) (s : ℕ) (f : ℕ → ℕ) (i : ℕ)
      → s < capacity
      → i < 128
      → ((j : ℕ) → f j < 2 ^ 32)
      → read (write c s f) s i ≡ f i
  pub read-write_other :
      (c : C) (s t : ℕ) (f : ℕ → ℕ) (i : ℕ)
      → s < capacity
      → t < capacity
      → t ≢ s
      → i < 128
      → read (write c s f) t i ≡ read c t i

-- `page_map_entry_t`. A task is its index; the null pointer of `entry` is 0.
pub record PageMapEntry : Type 0 where
  pub owner : Option ℕ
  pub vaddr : ℕ
  pub entry : ℕ
  pub pinned : Bool

-- The fields of `pcb_t` that memory.c reads.
pub record Process : Type 0 where
  pub is_thread : Bool
  pub page_directory : ℕ
  pub swap_loc : ℕ
  pub swap_size : ℕ
  pub fault_addr : ℕ
  pub page_fault_count : ℕ

-- The static variables of memory.c, the memory, the disk and the tasks. `page_map` has entries from
-- `pageable_pages` on that stand for the memory behind the array. `page` is the static variable of
-- `page_replacement_policy`, by its bit pattern.
pub record Memory (C : Type 0) : Type 0 where
  pub ram : Ram
  pub sectors : C
  pub page_map : ℕ → PageMapEntry
  pub dole_ptr : ℕ
  pub page : ℕ
  pub kernel_pdir : ℕ
  pub kernel_pts : ℕ → ℕ
  pub pcb : ℕ → Process

abbrev pub process_start : ℕ
process_start = 16777216

abbrev pub process_stack : ℕ
process_stack = 4026531824

abbrev pub n_kernel_pts : ℕ
n_kernel_pts = 1

abbrev pub sectors_per_page : ℕ
sectors_per_page = 8

abbrev pub update {ℓ} : {A : Type ℓ} → (ℕ → A) → ℕ → A → ℕ → A
update f i x j = if j == i then x else f j

pub page_addr : ℕ → Option ℕ
page_addr i = if ltb i pageable_pages then some (mem_start + page_size * i) else none

-- `left` words from the word `i` on go to the page or buffer at `p`.
unfoldable pub copy_words : (ℕ → ℕ) → ℕ → ℕ → ℕ → Ram → Ram
copy_words f zero p i ram = ram
copy_words f (suc left) p i ram = copy_words f left p (i + 1) (store ram (p + 4 * i) (f i))

-- The first loop of `page_replacement_policy`, with `left` steps left and the index `i`, which is
-- raised before the test.
unfoldable pub any_unpinned : (ℕ → PageMapEntry) → ℕ → ℕ → Bool
any_unpinned page_map zero i = false
any_unpinned page_map (suc left) i =
    let rest = any_unpinned page_map left (i + 1) in
    if (page_map (i + 1)).pinned then rest else true

abbrev pub next_page : ℕ → ℕ
next_page page = let p = (page + 1) % 2 ^ 32 in if leb pageable_pages p then 0 else p

-- The second loop, which is not bounded, on fuel.
unfoldable pub cycle : (ℕ → PageMapEntry) → ℕ → ℕ → Option ℕ
cycle page_map zero page = none
cycle page_map (suc fuel) page =
    let p = next_page page in
    let rest = cycle page_map fuel p in if (page_map p).pinned then rest else some p

unfoldable pub page_replacement_policy : {C : Type 0} → Memory C → Option (ℕ × Memory C)
page_replacement_policy m =
    if any_unpinned m.page_map pageable_pages 0
    then cycle m.page_map pageable_pages m.page >>= (λ p. some (p, record m { page = p }))
    else none

-- `vaddr - PROCESS_START` is a subtraction of 32-bit words.
unfoldable pub page_disk_sector : Process → PageMapEntry → ℕ
page_disk_sector p e =
    (p.swap_loc + (e.vaddr + 2 ^ 32 - process_start) % 2 ^ 32 / page_size * sectors_per_page)
    % 2 ^ 32

-- The number of sectors that `page_swap_in` and `page_swap_out` transfer from `sector` on.
unfoldable pub n_sectors : Process → ℕ → ℕ
n_sectors p sector =
    if ltb ((p.swap_loc + p.swap_size) % 2 ^ 32) ((sector + sectors_per_page) % 2 ^ 32)
    then p.swap_size % sectors_per_page
    else sectors_per_page

-- `*page->entry &= ~PE_P`.
abbrev pub mark_absent : {C : Type 0} → PageMapEntry → Memory C → Memory C
mark_absent e m = record m { ram = store m.ram e.entry (m.ram e.entry / 2 * 2) }

abbrev pub clean_entry : Bool → PageMapEntry
clean_entry pinned = record { owner = none; vaddr = 0; entry = 0; pinned = pinned }

module _ {C : Type 0} (disk : Disk C) where
  -- The loops over the sectors of a page at `addr`, from sector `i` on.
  unfoldable pub read_sectors : C → ℕ → ℕ → ℕ → ℕ → Ram → Ram
  read_sectors c sector addr zero i ram = ram
  read_sectors c sector addr (suc left) i ram =
      read_sectors c sector addr left (i + 1)
        (copy_words (disk.read c (sector + i)) 128 (addr + i * 512) 0 ram)

  unfoldable pub write_sectors : Ram → ℕ → ℕ → ℕ → ℕ → C → C
  write_sectors ram sector addr zero i c = c
  write_sectors ram sector addr (suc left) i c =
      write_sectors ram sector addr left (i + 1)
        (disk.write c (sector + i) (λ w. ram (addr + i * 512 + 4 * w)))

  unfoldable pub load : ℕ → ℕ → PageMapEntry → Process → Memory C → Memory C
  load addr sector e p m =
      let loaded = read_sectors m.sectors sector addr (n_sectors p sector) 0 m.ram in
      record m { ram = store loaded e.entry (pe_p + pe_rw + pe_us + pe_a + addr) }

  pub page_swap_in : ℕ → Memory C → Option (Memory C)
  page_swap_in pageno m =
      page_addr pageno
      >>= (λ addr. e.owner >>= (λ o. some (load addr (page_disk_sector (m.pcb o) e) e (m.pcb o) m)))
    where
      e : PageMapEntry
      e = m.page_map pageno

  unfoldable pub save : ℕ → ℕ → Process → Memory C → Memory C
  save addr sector p m = record m {
    sectors = write_sectors m.ram sector addr (n_sectors p sector) 0 m.sectors;
  }

  unfoldable pub page_swap_out : ℕ → Memory C → Option (Memory C)
  page_swap_out pageno m =
      if ltb (e.vaddr / ptable_span * ptable_span) process_start
      then none
      else if is_dirty (absent.ram e.entry)
      then page_addr pageno >>= (λ addr.
        e.owner >>= (λ o. some (save addr (page_disk_sector (m.pcb o) e) (m.pcb o) absent)))
      else some absent
    where
      e : PageMapEntry
      e = m.page_map pageno

      absent : Memory C
      absent = mark_absent e m

  -- The page that `page_alloc` hands out, before it is cleared.
  unfoldable pub take_page : Memory C → Option (ℕ × Memory C)
  take_page m =
      if ltb m.dole_ptr pageable_pages
      then some (m.dole_ptr, record m { dole_ptr = m.dole_ptr + 1 })
      else page_replacement_policy m >>= (λ r. page_swap_out r.0 r.1 >>= (λ m'. some (r.0, m')))

  unfoldable pub page_alloc : Bool → Memory C → Option (ℕ × Memory C)
  page_alloc pinned m = take_page m >>= (λ r. page_addr r.0 >>= (λ addr. some (
    r.0,
    record r.1 {
      page_map = update r.1.page_map r.0 (clean_entry pinned);
      ram = copy_words (λ i. 0) page_n_entries addr 0 r.1.ram;
    },
  )))
