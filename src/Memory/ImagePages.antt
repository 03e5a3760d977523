-- ===== src/Memory/ImagePages.antt =====
-- The pages of the image of a process: page_disk_sector of cos318-project6/memory.c, and the number of
-- sectors that page_swap_in and page_swap_out transfer.
use operativsystemer.Base.{ℕ, ◌+◌, ◌*◌, ◌/◌, ◌^◌, ◌≤◌, ◌<◌, ◌≡◌, arith}
use operativsystemer.PageTable.{page_size, ptable_span}
use operativsystemer.Memory.{
  Process, PageMapEntry, n_sectors, page_disk_sector, process_start, sectors_per_page,
}

-- Page `k` of the image of a process is at the virtual address `vaddr`. The addresses are words of 32
-- bits, and the image ends below sector 2^31.
pub record IsImagePage (p : Process) (vaddr k : ℕ) : Type 0 where
  pub at : vaddr ≡ process_start + page_size * k
  pub inside : sectors_per_page * k < p.swap_size
  pub word : vaddr < 2 ^ 32
  pub small : p.swap_loc + p.swap_size < 2 ^ 31

-- Page k of the image stands at sector 8 * k of the image.
pub page_disk_sector-image :
    (p : Process) (e : PageMapEntry) (k : ℕ)
    → IsImagePage p e.vaddr k
    → page_disk_sector p e ≡ p.swap_loc + sectors_per_page * k
unfolding page_disk_sector
page_disk_sector-image p e k image =
    let at : e.vaddr ≡ process_start + page_size * k = image.at in
    let inside : sectors_per_page * k < p.swap_size = image.inside in
    let word : e.vaddr < 2 ^ 32 = image.word in
    let small : p.swap_loc + p.swap_size < 2 ^ 31 = image.small in ground arith

-- Page k is transferred up to the end of the page or of the image, whichever comes first.
pub n_sectors-image :
    (p : Process) (e : PageMapEntry) (k s : ℕ)
    → IsImagePage p e.vaddr k
    → s < sectors_per_page
    → sectors_per_page * k + s < p.swap_size
    → s < n_sectors p (page_disk_sector p e)
unfolding n_sectors
n_sectors-image p e k s image below belongs =
    let inside : sectors_per_page * k < p.swap_size = image.inside in
    let small : p.swap_loc + p.swap_size < 2 ^ 31 = image.small in
    rw (page_disk_sector-image p e k image) (ground arith)

-- The transfer stays within the image.
pub n_sectors-fits :
    (p : Process) (e : PageMapEntry) (k capacity : ℕ)
    → IsImagePage p e.vaddr k
    → p.swap_loc + p.swap_size ≤ capacity
    → page_disk_sector p e + 0 + n_sectors p (page_disk_sector p e) ≤ capacity
unfolding n_sectors
n_sectors-fits p e k capacity image lies =
    let inside : sectors_per_page * k < p.swap_size = image.inside in
    let small : p.swap_loc + p.swap_size < 2 ^ 31 = image.small in
    rw (page_disk_sector-image p e k image) (ground arith)

-- A page of the image is of the user part.
pub image-user :
    (p : Process) (vaddr k : ℕ)
    → IsImagePage p vaddr k
    → process_start ≤ vaddr / ptable_span * ptable_span
image-user p vaddr k image =
    let at : vaddr ≡ process_start + page_size * k = image.at in omega arith

pub n_sectors-bound : (p : Process) (sector : ℕ) → n_sectors p sector ≤ 8
unfolding n_sectors
n_sectors-bound p sector = ground arith
