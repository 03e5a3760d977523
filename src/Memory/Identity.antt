-- ===== src/Memory/Identity.antt =====
-- What init_memory of cos318-project6/memory.c maps.
use operativsystemer.Base.{
  ℕ, zero, suc, ◌+◌, ◌*◌, ◌/◌, ◌%◌, ◌≤◌, ◌<◌, ◌≡◌, ◌≢◌, ◌⊎◌, refl, ◌∙◌, ap, true, false, some, ◌==◌,
  ltb, lt→ltb, arith, ==_ne, Bool-cases, inl, inr,
}
use operativsystemer.PageTable.{
  Ram, store, base_addr, is_present, page_size, page_n_entries, pe_p, pe_rw, pe_us, pageable_pages,
  max_physical_memory, dir_entry_addr, table_entry_addr, screen_addr, page_set_mode, table_map_page,
  dir_ins_table, identity_map,
}
use operativsystemer.Memory.{Disk, Memory, copy_words, page_alloc, take_page, clean_entry, update}
use operativsystemer.Memory.Frames.{frame, page_addr-frame}
use operativsystemer.Memory.Fault.{walk}
use operativsystemer.Memory.Start.{
  new_page, init_tables, init_memory, process_tables, setup_page_table,
}

-- Entries `k` to `k + left` of a table that identity_map fills in.
identity_map-other :
    (table left k pb : ℕ) (ram : Ram) (a : ℕ)
    → pb ≡ 4096 * k
    → k + left ≤ 1024
    → ((j : ℕ) → k ≤ j → j < k + left → a ≢ table + 4 * j)
    → (identity_map table left pb ram).1 a ≡ ram a
unfolding identity_map table_map_page
identity_map-other table zero k pb ram a e h out = refl
identity_map-other table (suc left) k pb ram a e h out =
    elim (Bool-cases (ltb pb max_physical_memory)) [
      | inl more ↦
          let here : a ≢ table + 4 * (pb / 4096 % 1024) =
            λ q. out (pb / 4096 % 1024) (omega arith) (omega arith) q in
          rw more (
            identity_map-other table left (k + 1) (pb + page_size) _ a (omega arith) (omega arith)
              (λ j b c. out j (omega arith) (omega arith))
            ∙ rw (==_ne a (table + 4 * (pb / 4096 % 1024)) here) refl)
      | inr done ↦ rw done refl
    ]

identity_map-mapped :
    (table left k pb : ℕ) (ram : Ram) (j : ℕ)
    → pb ≡ 4096 * k
    → k + left ≤ 1024
    → k ≤ j
    → j < k + left
    → j < 384
    → (identity_map table left pb ram).1 (table + 4 * j) ≡ 4096 * j + 3
unfolding identity_map table_map_page
identity_map-mapped table zero k pb ram j e h a b c = absurd (omega arith)
identity_map-mapped table (suc left) k pb ram j e h a b c =
    rw (lt→ltb pb max_physical_memory (omega arith)) (elim (Bool-cases (ltb k j)) [
      | inl above ↦
          identity_map-mapped table left (k + 1) (pb + page_size) _ j (omega arith) (omega arith)
            (ground arith) (omega arith) c
      | inr here ↦
          let at : j ≡ k = ground arith in
          identity_map-other table left (k + 1) (pb + page_size) _ (table + 4 * j) (omega arith)
            (omega arith) (λ r x y. omega arith)
          ∙ ground arith
    ])

-- What a page that is handed out for the first time leaves.
abbrev pub handed : {C : Type 0} → ℕ → Memory C → Memory C
handed i m = record m {
  dole_ptr = i + 1;
  page_map = update m.page_map i (clean_entry true);
  ram = copy_words (λ i. 0) page_n_entries (frame i) 0 m.ram;
}

pub new_page-handed :
    {C : Type 0} (disk : Disk C) (m : Memory C) (i : ℕ)
    → m.dole_ptr ≡ i
    → i < pageable_pages
    → new_page disk m ≡ some (frame i, handed i m)
unfolding new_page page_alloc take_page
new_page-handed disk m i at h = simp (at, lt→ltb i 128 h, page_addr-frame i h)

-- While four pages were not handed out yet, setup_page_table of a process takes them.
pub setup_page_table-handed :
    {C : Type 0} (disk : Disk C) (p : ℕ) (m : Memory C)
    → (m.pcb p).is_thread ≡ false
    → m.dole_ptr + 4 ≤ pageable_pages
    → (n : Memory C) × (setup_page_table disk p m ≡ some n)
unfolding setup_page_table
setup_page_table-handed {C = C} disk p m process room =
    let i : ℕ = m.dole_ptr in
    let m1 : Memory C = handed i m in
    let m2 : Memory C = handed (i + 1) m1 in
    let m3 : Memory C = handed (i + 1 + 1) m2 in
    let m4 : Memory C = handed (i + 1 + 1 + 1) m3 in
    let n : Memory C = record m4 {
      pcb = update m4.pcb p (record (m4.pcb p) { page_directory = frame i });
    } in
    (
      record n {
        ram =
            process_tables disk (n.pcb p) n.kernel_pts (frame i) (frame (i + 1)) (frame (i + 1 + 1))
              (frame (i + 1 + 1 + 1)) n.ram;
      },
      simp (
        process,
        new_page-handed disk m i refl (omega arith),
        new_page-handed disk m1 (i + 1) refl (omega arith),
        new_page-handed disk m2 (i + 1 + 1) refl (omega arith),
        new_page-handed disk m3 (i + 1 + 1 + 1) refl (omega arith),
      ),
    )

-- The entries of the directory and of the table lead to a physical address.
walk-entries :
    (ram : Ram) (directory v pde pte : ℕ)
    → ram (dir_entry_addr directory v) ≡ pde
    → is_present pde ≡ true
    → ram (table_entry_addr (base_addr pde) v) ≡ pte
    → is_present pte ≡ true
    → walk ram directory v ≡ some (base_addr pte + v % page_size)
unfolding walk
walk-entries ram directory v pde pte at present to there =
    rw at (rw present (rw to (rw there refl)))

-- The memory after init_memory, written out: the directory in page 0, the table in page 1.
module _ {C : Type 0} (disk : Disk C) (m : Memory C) (start : m.dole_ptr ≡ 0) where
  abbrev directory_cleared : Memory C
  directory_cleared = record (handed 0 m) { kernel_pdir = frame 0 }

  abbrev table_cleared : Memory C
  table_cleared = handed 1 directory_cleared

  abbrev inserted : Ram
  inserted = dir_ins_table (frame 0) 0 (frame 1) (pe_p + pe_rw) table_cleared.ram

  abbrev filled : Ram
  filled = (identity_map (frame 1) page_n_entries 0 inserted).1

  abbrev final : Ram
  final = store filled 1053408 (base_addr (filled 1053408) + 7)

  filled-directory : filled 1048576 ≡ 1052675
  unfolding dir_ins_table
  filled-directory =
      identity_map-other (frame 1) page_n_entries 0 0 inserted 1048576 (omega arith) (omega arith)
        (λ j a b. omega arith)
      ∙ refl

  screen-final : page_set_mode (frame 0) screen_addr (pe_p + pe_rw + pe_us) filled ≡ some final
  unfolding page_set_mode
  screen-final = rw filled-directory refl

  final-entry :
      (j : ℕ)
      → j < 384
      → (final (frame 1 + 4 * j) ≡ 4096 * j + 3) ⊎ (final (frame 1 + 4 * j) ≡ 4096 * j + 7)
  final-entry j h =
      let at : filled (frame 1 + 4 * j) ≡ 4096 * j + 3 =
        identity_map-mapped (frame 1) page_n_entries 0 0 inserted j (omega arith) (omega arith)
          (omega arith) (omega arith) h in
      elim (Bool-cases (j == 184)) [
        | inl screen ↦
            let e : j ≡ 184 = ground arith in
            let screen_entry : filled 1053408 ≡ 4096 * 184 + 3 =
              identity_map-mapped (frame 1) page_n_entries 0 0 inserted 184 (omega arith)
                (omega arith) (omega arith) (omega arith) (omega arith) in
            inr (rw e (rw screen_entry refl))
        | inr other ↦
            let ne : frame 1 + 4 * j ≢ 1053408 = λ q. ground arith in
            inl (rw (==_ne (frame 1 + 4 * j) 1053408 ne) at)
      ]

  walk-final : (v : ℕ) → v < max_physical_memory → walk final (frame 0) v ≡ some v
  walk-final v h = elim (final-entry (v / 4096) (omega arith)) [
    | inl e ↦ through (4096 * (v / 4096) + 3) e (ground arith) (ground arith)
    | inr e ↦ through (4096 * (v / 4096) + 7) e (ground arith) (ground arith)
  ]
    where
      through :
          (pte : ℕ)
          → final (frame 1 + 4 * (v / 4096)) ≡ pte
          → is_present pte ≡ true
          → base_addr pte + v % page_size ≡ v
          → walk final (frame 0) v ≡ some v
      through pte e present whole =
          let low : v / 4194304 ≡ 0 = omega arith in
          let index : v / 4096 % 1024 ≡ v / 4096 = omega arith in
          walk-entries final (frame 0) v 1052675 pte (rw low filled-directory) refl (rw index e)
            present
          ∙ ap some whole

  -- Where no page was handed out yet, init_memory succeeds, and the kernel's page directory maps every
  -- address of the physical memory to itself.
  pub init_memory-identity :
      (n : Memory C) × (init_memory disk m ≡ some n)
      × ((v : ℕ) → v < max_physical_memory → walk n.ram n.kernel_pdir v ≡ some v)
  unfolding init_memory init_tables
  init_memory-identity = (
    record table_cleared { kernel_pts = update m.kernel_pts 0 (frame 1); ram = final },
    simp (
      new_page-handed disk m 0 start (omega arith),
      new_page-handed disk directory_cleared 1 refl (omega arith),
      screen-final,
    ),
    walk-final,
  )
