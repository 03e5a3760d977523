-- ===== src/Memory/Sectors.antt =====
-- The way of a page to the image of its process and back: page_swap_in and page_swap_out of
-- cos318-project6/memory.c.
use operativsystemer.Base.{
  ℕ, zero, suc, ◌+◌, ◌*◌, ◌/◌, ◌^◌, ◌≤◌, ◌<◌, ◌≡◌, ◌≢◌, refl, ◌∙◌, true, some, arith, ltb, subst,
  ◌==◌, Bool-cases, inl, inr, ==_ne, ==_refl,
}
use operativsystemer.PageTable.{
  Ram, store, is_dirty, is_present, base_addr, page_n_entries, pageable_pages,
}
use operativsystemer.Memory.{
  Disk, Memory, PageMapEntry, n_sectors, page_disk_sector, page_swap_in, page_swap_out,
  read_sectors, write_sectors, load, save, mark_absent, sectors_per_page, update,
}
use operativsystemer.Memory.ImagePages.{
  IsImagePage, image-user, n_sectors-fits, n_sectors-image, page_disk_sector-image,
}
use operativsystemer.Memory.Frames.{
  frame, copy_words-other, copy_words-copied, page_swap_out-dirty, page_swap_in-load, store-here,
}

store-words :
    (ram : Ram) (q v : ℕ)
    → ((x : ℕ) → ram x < 2 ^ 32)
    → v < 2 ^ 32
    → (x : ℕ) → store ram q v x < 2 ^ 32
store-words ram q v words small x = elim (Bool-cases (x == q)) [
  | inl e ↦ rw e small
  | inr e ↦ rw e (words x)
]

even-is_dirty : (x : ℕ) → is_dirty x ≡ true → is_dirty (x / 2 * 2) ≡ true
even-is_dirty x h = ground arith

module _ {C : Type 0} (disk : Disk C) where
  write_sectors-other :
      (ram : Ram) (sector addr left i : ℕ) (c : C) (t w : ℕ)
      → t < sector + i
      → sector + i + left ≤ disk.capacity
      → w < 128
      → disk.read (write_sectors disk ram sector addr left i c) t w ≡ disk.read c t w
  unfolding write_sectors
  write_sectors-other ram sector addr zero i c t w h fits inside = refl
  write_sectors-other ram sector addr (suc left) i c t w h fits inside =
      write_sectors-other ram sector addr left (i + 1) _ t w (omega arith) (omega arith) inside
      ∙ disk.read-write_other c (sector + i) t _ w (omega arith) (omega arith) (omega arith) inside

  write_sectors-written :
      (ram : Ram) (sector addr left i : ℕ) (c : C) (j w : ℕ)
      → i ≤ j
      → j < i + left
      → sector + i + left ≤ disk.capacity
      → w < 128
      → ((a : ℕ) → ram a < 2 ^ 32)
      → disk.read (write_sectors disk ram sector addr left i c) (sector + j) w
        ≡ ram (addr + j * 512 + 4 * w)
  unfolding write_sectors
  write_sectors-written ram sector addr zero i c j w h k fits inside words = absurd (omega arith)
  write_sectors-written ram sector addr (suc left) i c j w h k fits inside words =
      elim (Bool-cases (ltb i j)) [
        | inl above ↦
            write_sectors-written ram sector addr left (i + 1) _ j w (ground arith) (omega arith)
              (omega arith) inside words
        | inr here ↦
            let e : j ≡ i = ground arith in
            rw e (
              write_sectors-other ram sector addr left (i + 1) _ (sector + i) w (omega arith)
                (omega arith) inside
              ∙ disk.read-write c (sector + i) _ w (omega arith) inside
                  (λ u. words (addr + i * 512 + 4 * u)))
      ]

  read_sectors-other :
      (c : C) (sector addr left i : ℕ) (ram : Ram) (a : ℕ)
      → a < addr + i * 512
      → read_sectors disk c sector addr left i ram a ≡ ram a
  unfolding read_sectors
  read_sectors-other c sector addr zero i ram a out = refl
  read_sectors-other c sector addr (suc left) i ram a out =
      read_sectors-other c sector addr left (i + 1) _ a (omega arith)
      ∙ copy_words-other _ 128 (addr + i * 512) 0 ram a (λ j h k. omega arith)

  -- page_swap_in writes in its page only.
  pub read_sectors-outside :
      (c : C) (sector addr left i : ℕ) (ram : Ram) (a : ℕ)
      → i + left ≤ 8
      → ((k : ℕ) → k < page_n_entries → a ≢ addr + 4 * k)
      → read_sectors disk c sector addr left i ram a ≡ ram a
  unfolding read_sectors
  read_sectors-outside c sector addr zero i ram a h out = refl
  read_sectors-outside c sector addr (suc left) i ram a h out =
      read_sectors-outside c sector addr left (i + 1) _ a (omega arith) out
      ∙ copy_words-other _ 128 (addr + i * 512) 0 ram a
          (λ j _ k e. out (128 * i + j) (omega arith) (omega arith))

  pub read_sectors-loaded :
      (c : C) (sector addr left i : ℕ) (ram : Ram) (j w : ℕ)
      → i ≤ j
      → j < i + left
      → w < 128
      → read_sectors disk c sector addr left i ram (addr + j * 512 + 4 * w)
        ≡ disk.read c (sector + j) w
  unfolding read_sectors
  read_sectors-loaded c sector addr zero i ram j w h k below = absurd (omega arith)
  read_sectors-loaded c sector addr (suc left) i ram j w h k below = elim (Bool-cases (ltb i j)) [
    | inl above ↦
        read_sectors-loaded c sector addr left (i + 1) _ j w (ground arith) (omega arith) below
    | inr here ↦
        let e : j ≡ i = ground arith in
        rw e (
          read_sectors-other c sector addr left (i + 1) _ (addr + i * 512 + 4 * w) (omega arith)
          ∙ copy_words-copied (disk.read c (sector + i)) 128 (addr + i * 512) 0 ram w (omega arith)
              below)
  ]

  -- A dirty page, page k of the image of its task, where the image lies on the disk, addresses and the
  -- words of the memory have 32 bits, and its page table entry stands outside of frames a and b: where
  -- page_swap_out moves it out of frame a, and page_swap_in later brings it into frame b for the
  -- same entry of the page map, then each sector 8 * k + s of the image has on the disk the words
  -- that the page had in a, so has frame b, and the page table entry is present and points to b.
  pub page_swap_out-page_swap_in :
      (m : Memory C) (a b o k : ℕ)
      → a < pageable_pages
      → b < pageable_pages
      → (m.page_map a).owner ≡ some o
      → IsImagePage (m.pcb o) (m.page_map a).vaddr k
      → (m.pcb o).swap_loc + (m.pcb o).swap_size ≤ disk.capacity
      → ((x : ℕ) → m.ram x < 2 ^ 32)
      → is_dirty (m.ram (m.page_map a).entry) ≡ true
      → ((i : ℕ) → i < page_n_entries → frame a + 4 * i ≢ (m.page_map a).entry)
      → ((i : ℕ) → i < page_n_entries → frame b + 4 * i ≢ (m.page_map a).entry)
      → (n : Memory C) × (r : Memory C) × (page_swap_out disk a m ≡ some n)
        × (page_swap_in disk b (record n { page_map = update n.page_map b (m.page_map a) })
            ≡ some r)
        × ((s w : ℕ)
            → s < sectors_per_page
            → sectors_per_page * k + s < (m.pcb o).swap_size
            → w < 128
            → (disk.read n.sectors ((m.pcb o).swap_loc + sectors_per_page * k + s) w
                ≡ m.ram (frame a + s * 512 + 4 * w))
              × (r.ram (frame b + s * 512 + 4 * w) ≡ m.ram (frame a + s * 512 + 4 * w)))
        × (is_present (r.ram (m.page_map a).entry) ≡ true)
        × (base_addr (r.ram (m.page_map a).entry) ≡ frame b)
  unfolding load save
  page_swap_out-page_swap_in m a b o k in_a in_b own image lies words dirty out_a out_b = (
    n,
    r,
    page_swap_out-dirty disk m a o in_a own (image-user (m.pcb o) e.vaddr k image) (
        rw (store-here m.ram e.entry (m.ram e.entry / 2 * 2))
          (even-is_dirty (m.ram e.entry) dirty)),
    page_swap_in-load disk (record n { page_map = update n.page_map b e }) b o e in_b
        (rw (==_refl b) refl) own,
    (λ s w below belongs inside.
        let wrote : disk.read n.sectors (sector + s) w ≡ m.ram (frame a + s * 512 + 4 * w) =
          written s w below belongs inside in
        (
          subst (λ q. disk.read n.sectors (q + s) w ≡ m.ram (frame a + s * 512 + 4 * w))
              (page_disk_sector-image (m.pcb o) e k image) wrote,
          rw
              (==_ne (frame b + s * 512 + 4 * w) e.entry
                (λ q. out_b (128 * s + w) (omega arith) (omega arith)))
              (read_sectors-loaded n.sectors sector (frame b) count 0 n.ram s w (omega arith)
                  (let short : s < count = n_sectors-image (m.pcb o) e k s image below belongs in
                    omega arith)
                  inside
                ∙ wrote),
        )),
    rw (==_refl e.entry) (ground arith),
    rw (==_refl e.entry) (ground arith),
  )
    where
      e : PageMapEntry
      e = m.page_map a

      sector : ℕ
      sector = page_disk_sector (m.pcb o) e

      n : Memory C
      n = save disk (frame a) sector (m.pcb o) (mark_absent e m)

      r : Memory C
      r = load disk (frame b) sector e (m.pcb o) (record n { page_map = update n.page_map b e })

      count : ℕ
      count = n_sectors (m.pcb o) sector

      written :
          (s w : ℕ)
          → s < sectors_per_page
          → sectors_per_page * k + s < (m.pcb o).swap_size
          → w < 128
          → disk.read n.sectors (sector + s) w ≡ m.ram (frame a + s * 512 + 4 * w)
      written s w below belongs inside =
          write_sectors-written n.ram sector (frame a) count 0 m.sectors s w (omega arith)
            (let short : s < count = n_sectors-image (m.pcb o) e k s image below belongs in
              omega arith)
            (n_sectors-fits (m.pcb o) e k disk.capacity image lies) inside
            (store-words m.ram e.entry (m.ram e.entry / 2 * 2) words
              (let b : m.ram e.entry < 2 ^ 32 = words e.entry in omega arith))
          ∙ rw
              (==_ne (frame a + s * 512 + 4 * w) e.entry
                (λ q. out_a (128 * s + w) (omega arith) (omega arith)))
              refl
