-- ===== src/Memory/Start.antt =====
-- The tables of the kernel and of a new task: init_memory and setup_page_table of
-- cos318-project6/memory.c.
use operativsystemer.Base.{
  ℕ, zero, suc, ◌+◌, ◌*◌, ◌/◌, ◌%◌, true, Option, some, ◌>>=◌, ◌==◌, if◌then◌else◌,
}
use operativsystemer.PageTable.{
  Ram, page_n_entries, ptable_span, pe_p, pe_rw, pe_us, screen_addr, page_set_mode, table_map_page,
  dir_ins_table, identity_map, map_image,
}
use operativsystemer.Memory.{
  Disk, Memory, Process, page_addr, page_alloc, update, process_start, process_stack, n_kernel_pts,
  sectors_per_page,
}

module _ {C : Type 0} (disk : Disk C) where
  -- `page_alloc` and the address of the page.
  unfoldable pub new_page : Memory C → Option (ℕ × Memory C)
  new_page m = page_alloc disk true m >>= (λ r. page_addr r.0 >>= (λ addr. some (addr, r.1)))

  -- The loop of `init_memory` over the kernel page tables, from table `i` on.
  unfoldable pub init_tables : ℕ → ℕ → ℕ → Memory C → Option (Memory C)
  init_tables zero i pbaddr m = some m
  init_tables (suc left) i pbaddr m = new_page m >>= (λ r.
      let inserted = dir_ins_table r.1.kernel_pdir pbaddr r.0 (pe_p + pe_rw) r.1.ram in
      let filled = identity_map r.0 page_n_entries pbaddr inserted in
      init_tables left (i + 1) filled.0
        (record r.1 { kernel_pts = update r.1.kernel_pts i r.0; ram = filled.1 }))

  unfoldable pub init_memory : Memory C → Option (Memory C)
  init_memory m = new_page m >>= (λ r.
      init_tables n_kernel_pts 0 0 (record r.1 { kernel_pdir = r.0 }) >>= (λ n.
        page_set_mode n.kernel_pdir screen_addr (pe_p + pe_rw + pe_us) n.ram
        >>= (λ ram. some (record n { ram = ram }))))

  -- The loop of `setup_page_table` over the kernel page tables, from table `i` on.
  unfoldable pub insert_kernel_tables : (ℕ → ℕ) → ℕ → ℕ → ℕ → Ram → Ram
  insert_kernel_tables kernel_pts pde zero i ram = ram
  insert_kernel_tables kernel_pts pde (suc left) i ram =
      insert_kernel_tables kernel_pts pde left (i + 1)
        (dir_ins_table pde (ptable_span * i) (kernel_pts i) (pe_p + pe_rw + pe_us) ram)

  abbrev pub n_img_pages : Process → ℕ
  n_img_pages p =
      p.swap_size / sectors_per_page + (if p.swap_size % sectors_per_page == 0 then 0 else 1)

  -- What `setup_page_table` writes for a process, with the pages of its directory, its page table,
  -- its stack page table and its stack.
  unfoldable pub process_tables : Process → (ℕ → ℕ) → ℕ → ℕ → ℕ → ℕ → Ram → Ram
  process_tables p kernel_pts pde ptbl stkt stkp ram =
      let user = pe_p + pe_rw + pe_us in
      let kernel = insert_kernel_tables kernel_pts pde n_kernel_pts 0 ram in
      let image = dir_ins_table pde process_start ptbl user kernel in
      let stack = dir_ins_table pde process_stack stkt user image in
      let pages = map_image ptbl process_start (n_img_pages p) 0 stack in
      table_map_page stkt process_stack stkp user pages

  -- `t` is the task whose pcb is the argument.
  unfoldable pub setup_page_table : ℕ → Memory C → Option (Memory C)
  setup_page_table t m =
      if (m.pcb t).is_thread
      then some (set_directory m.kernel_pdir m)
      else new_page m >>= (λ pdir. new_page pdir.1 >>= (λ ptbl. new_page ptbl.1 >>= (λ stkt.
        new_page stkt.1 >>= (λ stkp.
          let n = set_directory pdir.0 stkp.1 in
          some (record n {
            ram = process_tables (n.pcb t) n.kernel_pts pdir.0 ptbl.0 stkt.0 stkp.0 n.ram;
          })))))
    where
      set_directory : ℕ → Memory C → Memory C
      set_directory pde n = record n {
        pcb = update n.pcb t (record (n.pcb t) { page_directory = pde });
      }
