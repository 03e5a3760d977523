-- ===== src/Memory/Fault.antt =====
-- Demand paging: page_fault_handler of cos318-project6/memory.c.
use operativsystemer.Base.{
  ℕ, ◌+◌, ◌*◌, ◌%◌, ◌^◌, ◌≤◌, ◌<◌, ◌≡◌, ◌≢◌, refl, sym, subst, ◌∙◌, ap, true, false, ◌&&◌, Option,
  none, some, ◌>>=◌, arith, if◌then◌else◌, ==_ne, ==_refl,
}
use operativsystemer.PageTable.{
  Ram, is_present, base_addr, page_n_entries, page_size, pageable_pages, dir_entry_addr,
  table_entry_addr,
}
use operativsystemer.Memory.{
  Disk, Memory, Process, PageMapEntry, next_page, n_sectors, sectors_per_page, page_disk_sector,
  page_alloc, page_swap_in, load, update,
}
use operativsystemer.Memory.Policy.{IsHand, Victim}
use operativsystemer.Memory.Frames.{
  frame, IsEvictable, Replaced, page_alloc-Replaced, page_swap_in-load,
}
use operativsystemer.Memory.ImagePages.{
  IsImagePage, n_sectors-bound, n_sectors-image, page_disk_sector-image,
}
use operativsystemer.Memory.Sectors.{read_sectors-loaded, read_sectors-outside}

-- The new entry of the page map for a fault of task `t` whose table entry is at `entry`.
abbrev pub fault_entry : ℕ → Process → ℕ → PageMapEntry
fault_entry t p entry = record {
  owner = some t;
  vaddr = base_addr p.fault_addr;
  entry = entry;
  pinned = false;
}

abbrev pub count_fault : {C : Type 0} → ℕ → Memory C → Memory C
count_fault t m = record m {
  pcb =
      update m.pcb t
        (record (m.pcb t) { page_fault_count = ((m.pcb t).page_fault_count + 1) % 2 ^ 32 });
}

-- The addresses of the directory entry and of the table entry of the faulting address.
abbrev pub pde_addr : {C : Type 0} → ℕ → Memory C → ℕ
pde_addr t m = dir_entry_addr (m.pcb t).page_directory (m.pcb t).fault_addr

abbrev pub pte_addr : {C : Type 0} → ℕ → Memory C → ℕ
pte_addr t m = table_entry_addr (base_addr (m.ram (pde_addr t m))) (m.pcb t).fault_addr

-- `t` is `current_running`. A page table that is absent, or a page that is present, halts the
-- machine.
unfoldable pub page_fault_handler : {C : Type 0} → Disk C → ℕ → Memory C → Option (Memory C)
page_fault_handler disk t m =
    if is_present (m.ram (pde_addr t m))
    then if is_present (m.ram (pte_addr t m))
      then none
      else page_alloc disk false (count_fault t m) >>= (λ r. page_swap_in disk r.0 (record r.1 {
        page_map = update r.1.page_map r.0 (fault_entry t (m.pcb t) (pte_addr t m));
      }))
    else none

-- What the processor makes of a virtual address: the physical address, or a page fault.
unfoldable pub walk : Ram → ℕ → ℕ → Option ℕ
walk ram directory v =
    let pde = ram (dir_entry_addr directory v) in
    let pte = ram (table_entry_addr (base_addr pde) v) in
    if is_present pde && is_present pte then some (base_addr pte + v % page_size) else none

-- The directory and the table of the faulting address stand in no page that may be taken, and the
-- directory entry is no entry of such a page.
pub record IsTabled {C : Type 0} (t : ℕ) (m : Memory C) : Type 0 where
  pub evictable : (q : ℕ) → q < pageable_pages → (m.page_map q).pinned ≡ false → IsEvictable m q
  pub entries :
      (q : ℕ)
      → q < pageable_pages
      → (m.page_map q).pinned ≡ false
      → pde_addr t m ≢ (m.page_map q).entry
  pub directory :
      (q i : ℕ)
      → q < pageable_pages
      → (m.page_map q).pinned ≡ false
      → i < page_n_entries
      → pde_addr t m ≢ frame q + 4 * i
  pub table :
      (q i : ℕ)
      → q < pageable_pages
      → (m.page_map q).pinned ≡ false
      → i < page_n_entries
      → pte_addr t m ≢ frame q + 4 * i

-- What load leaves: the words of the sectors in page `q`, an entry that is present, all else as it
-- was.
module _ {C : Type 0} (disk : Disk C) (n : Memory C) (p : Process) (e : PageMapEntry) (q : ℕ)
    (sector : ℕ) where
  abbrev loaded : Memory C
  loaded = load disk (frame q) sector e p n

  load-outside :
      (a : ℕ)
      → a ≢ e.entry
      → ((i : ℕ) → i < page_n_entries → a ≢ frame q + 4 * i)
      → loaded.ram a ≡ n.ram a
  unfolding load
  load-outside a ne out = rw (==_ne a e.entry ne) (
      read_sectors-outside disk n.sectors sector (frame q) (n_sectors p sector) 0 n.ram a
        (let short : n_sectors p sector ≤ 8 = n_sectors-bound p sector in omega arith) out)

  load-entry : loaded.ram e.entry ≡ 39 + frame q
  unfolding load
  load-entry = rw (==_refl e.entry) (ground arith)

  load-words :
      ((i : ℕ) → i < page_n_entries → e.entry ≢ frame q + 4 * i)
      → (s w : ℕ) → s < n_sectors p sector
      → w < 128
      → loaded.ram (frame q + s * 512 + 4 * w) ≡ disk.read n.sectors (sector + s) w
  unfolding load
  load-words apart s w below inside =
      let short : n_sectors p sector ≤ 8 = n_sectors-bound p sector in
      let ne : frame q + s * 512 + 4 * w ≢ e.entry =
        λ h. apart (128 * s + w) (omega arith) (omega arith) in
      rw (==_ne (frame q + s * 512 + 4 * w) e.entry ne) (
        read_sectors-loaded disk n.sectors sector (frame q) (n_sectors p sector) 0 n.ram s w
          (omega arith) (omega arith) inside)

walk-present :
    (ram : Ram) (directory v pde q : ℕ)
    → ram (dir_entry_addr directory v) ≡ pde
    → is_present pde ≡ true
    → ram (table_entry_addr (base_addr pde) v) ≡ 39 + frame q
    → walk ram directory v ≡ some (frame q + v % page_size)
unfolding walk
walk-present ram directory v pde q at present to = rw at (rw present (rw to (ground arith)))

module _ {C : Type 0} (disk : Disk C) (t : ℕ) where
  -- What the fault leaves, where the faulting address is in page `k` of the image: the address leads to
  -- page `q`, which holds the words of that page of the image.
  pub record Mapped (m n : Memory C) (k q : ℕ) : Type 0 where
    pub entry : n.page_map q ≡ fault_entry t (m.pcb t) (pte_addr t m)
    pub address :
        walk n.ram (m.pcb t).page_directory (m.pcb t).fault_addr
        ≡ some (frame q + (m.pcb t).fault_addr % page_size)
    pub words :
        (s w : ℕ)
        → s < sectors_per_page
        → sectors_per_page * k + s < (m.pcb t).swap_size
        → w < 128
        → n.ram (frame q + s * 512 + 4 * w)
          ≡ disk.read n.sectors ((m.pcb t).swap_loc + sectors_per_page * k + s) w

  -- The way from the page that was allocated.
  fault-Mapped :
      (m : Memory C) (k q : ℕ) (n : Memory C)
      → IsImagePage (m.pcb t) (base_addr (m.pcb t).fault_addr) k
      → page_alloc disk false (count_fault t m) ≡ some (q, n)
      → q < pageable_pages
      → (m.page_map q).pinned ≡ false
      → Replaced false (count_fault t m) n q
      → IsTabled t m
      → is_present (m.ram (pde_addr t m)) ≡ true
      → is_present (m.ram (pte_addr t m)) ≡ false
      → (r : Memory C) × (page_fault_handler disk t m ≡ some r) × Mapped m r k q
  unfolding page_fault_handler load
  fault-Mapped m k q n image allocated bound free left tabled table absent = (
    r,
    rw table (
        rw absent (
          (simp (allocated))
          ∙ page_swap_in-load disk claimed q t e bound (rw (==_refl q) refl) refl)),
    record {
      entry = rw (==_refl q) refl;
      address =
          walk-present r.ram (m.pcb t).page_directory (m.pcb t).fault_addr (m.ram (pde_addr t m)) q
            (load-outside disk claimed (n.pcb t) e q sector (pde_addr t m) apart
                (λ i h. tabled.directory q i bound free h)
              ∙ left.other_words (pde_addr t m) (tabled.entries q bound free)
                  (λ i h. tabled.directory q i bound free h))
            table (load-entry disk claimed (n.pcb t) e q sector);
      words = (λ s w below belongs inside.
          subst (λ x. r.ram (frame q + s * 512 + 4 * w) ≡ disk.read r.sectors (x + s) w) at
            (load-words disk claimed (n.pcb t) e q sector (λ i h. tabled.table q i bound free h) s w
              (subst (λ p. s < n_sectors p (page_disk_sector p e)) (sym task)
                (n_sectors-image (counted.pcb t) e k s again below (rw (==_refl t) belongs)))
              inside));
    },
  )
    where
      e : PageMapEntry
      e = fault_entry t (m.pcb t) (pte_addr t m)

      claimed : Memory C
      claimed = record n { page_map = update n.page_map q e }

      counted : Memory C
      counted = count_fault t m

      task : n.pcb t ≡ counted.pcb t
      task = ap (λ f. f t) left.tasks

      again : IsImagePage (counted.pcb t) e.vaddr k
      again =
          rw (==_refl t) (record {
            at = image.at;
            inside = image.inside;
            word = image.word;
            small = image.small;
          })

      sector : ℕ
      sector = page_disk_sector (n.pcb t) e

      at : sector ≡ (m.pcb t).swap_loc + sectors_per_page * k
      at =
          ap (λ p. page_disk_sector p e) task
          ∙ page_disk_sector-image (counted.pcb t) e k again
          ∙ rw (==_refl t) refl

      r : Memory C
      r = loaded disk claimed (n.pcb t) e q sector

      apart : pde_addr t m ≢ pte_addr t m
      apart h = grind (arith, ap (λ a. is_present (m.ram a)) h)

  -- Where all pages were handed out, a page other than page 0 is not pinned, each page that is
  -- not pinned is of the user part of a task, the page directory and the page table of the
  -- faulting address stand in none of those pages and the directory entry maps none of them, the
  -- page table is present and the page absent, and the address is in page k of the image, which
  -- ends below sector 2^31, page_fault_handler returns: the page that page_replacement_policy chose
  -- holds the words of the sectors 8 * k + s of the image, s < 8, that the image has, as they are on
  -- the disk after what the page held was saved, the page map names the task, and the processor finds the
  -- faulting address there.
  pub page_fault_handler-Mapped :
      (m : Memory C) (p k : ℕ)
      → IsImagePage (m.pcb t) (base_addr (m.pcb t).fault_addr) k
      → pageable_pages ≤ m.dole_ptr
      → IsHand m.page
      → 0 < p
      → p < pageable_pages
      → (m.page_map p).pinned ≡ false
      → IsTabled t m
      → is_present (m.ram (pde_addr t m)) ≡ true
      → is_present (m.ram (pte_addr t m)) ≡ false
      → (q : ℕ) × (n : Memory C) × (page_fault_handler disk t m ≡ some n)
        × Victim m.page_map (next_page m.page) q
        × Mapped m n k q
  page_fault_handler-Mapped m p k image full hand above below free tabled table absent =
      let alloc : (q : ℕ) × (n : Memory C) × (page_alloc disk false (count_fault t m) ≡ some (q, n))
          × Victim m.page_map (next_page m.page) q
          × Replaced false (count_fault t m) n q =
        page_alloc-Replaced disk false (count_fault t m) p full hand above below free (λ q b f.
          let v : IsEvictable m q = tabled.evictable q b f in
          record { task = v.task; owned = v.owned; user = v.user }) in
      let done : (r : Memory C) × (page_fault_handler disk t m ≡ some r) × Mapped m r k (alloc.0) =
        fault-Mapped m k alloc.0 alloc.1 image alloc.2 alloc.3.bound alloc.3.free alloc.4 tabled
          table absent in
      (alloc.0, done.0, done.1, alloc.3, done.2)
