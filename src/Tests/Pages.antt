-- ===== src/Tests/Pages.antt =====
-- memory.c on a machine that has handed out all pages: task 3 has its directory in page 10, its page
-- table in page 11, and page 2 of its image in page 5, dirty; it faults on page 7 of its image.
use operativsystemer.Base.{
  ℕ, ◌+◌, ◌*◌, ◌%◌, ◌^◌, ◌<◌, ◌≡◌, refl, sym, subst, inl, inr, true, false, none, some, arith, ◌==◌,
  if◌then◌else◌, ==_ne, ==_refl,
}
use operativsystemer.PageTable.{Ram, is_present, base_addr, pageable_pages, max_physical_memory}
use operativsystemer.Memory.{
  Disk, Memory, PageMapEntry, Process, any_unpinned, cycle, next_page, page_alloc,
  page_replacement_policy, page_swap_in, page_swap_out, sectors_per_page, update,
}
use operativsystemer.Memory.Policy.{IsHand, Victim, cycle-endless, page_replacement_policy-Victim}
use operativsystemer.Memory.Frames.{IsEvictable, Replaced, frame, page_alloc-Replaced}
use operativsystemer.Memory.ImagePages.{IsImagePage}
use operativsystemer.Memory.Sectors.{page_swap_out-page_swap_in}
use operativsystemer.Memory.Fault.{
  IsTabled, Mapped, page_fault_handler, page_fault_handler-Mapped, walk,
}
use operativsystemer.Memory.Start.{init_memory}
use operativsystemer.Bios.Words.{bios_disk, read_words}
use operativsystemer.Tests.Disks.{array, array-Works, stick, stick-IsDisk}
use operativsystemer.Tests.Disks as Sticks
use operativsystemer.Memory.Identity.{init_memory-identity}

abbrev pub Contents : Type 0
Contents = ℕ → ℕ → ℕ

-- A disk that keeps what was written.
abbrev pub plain_disk : Disk Contents
plain_disk = record {
  read = λ c s i. c s i;
  write = λ c s f t. if t == s then f else c t;
  capacity = 1000;
  read-write = λ c s f i b inside small. rw (==_refl s) refl;
  read-write_other = λ c s t f i b b' ne inside. rw (==_ne t s ne) refl;
}

abbrev task : Process
task = record {
  is_thread = false;
  page_directory = 1089536;
  swap_loc = 10;
  swap_size = 61;
  fault_addr = 16806011;
  page_fault_count = 0;
}

abbrev image_page : PageMapEntry
image_page = record { owner = some 3; vaddr = 16785408; entry = 1093640; pinned = false }

abbrev pinned_page : PageMapEntry
pinned_page = record { owner = none; vaddr = 0; entry = 0; pinned = true }

abbrev words : Ram
words a =
    if a == 1089552
    then 1093639
    else if a == 1093640
    then 1069159
    else if a == 1093660
    then 6
    else a % 2 ^ 32

abbrev pub full : Memory Contents
full = record {
  ram = words;
  sectors = λ s i. s + i;
  page_map = λ q. if q == 5 then image_page else pinned_page;
  dole_ptr = 128;
  page = 4294967295;
  kernel_pdir = 1048576;
  kernel_pts = λ i. 1052672;
  pcb = λ t. task;
}

only_5 : (q : ℕ) → (full.page_map q).pinned ≡ false → q ≡ 5
only_5 q f = ground arith

evictable : (q : ℕ) → q < pageable_pages → (full.page_map q).pinned ≡ false → IsEvictable full q
evictable q b f =
    subst (λ q. IsEvictable full q) (sym (only_5 q f))
      (record { task = 3; owned = refl; user = omega arith })

hand : IsHand full.page
unfolding IsHand
hand = inr refl

IsHand-127 : IsHand 127
unfolding IsHand
IsHand-127 = inl (omega arith)

tabled : IsTabled 3 full
tabled = record {
  evictable = evictable;
  entries = λ q b f. grind (arith, only_5 q f);
  directory = λ q i b f h. grind (arith, only_5 q f);
  table = λ q i b f h. grind (arith, only_5 q f);
}

page_replacement_policy-Victim_example :
    (q : ℕ) × (page_replacement_policy full ≡ some (q, record full { page = q }))
    × Victim full.page_map (next_page full.page) q
page_replacement_policy-Victim_example =
    page_replacement_policy-Victim full 5 hand (omega arith) (omega arith) refl

page_alloc-Replaced_example :
    (q : ℕ) × (n : Memory Contents) × (page_alloc plain_disk true full ≡ some (q, n))
    × Victim full.page_map (next_page full.page) q
    × Replaced true full n q
page_alloc-Replaced_example =
    page_alloc-Replaced plain_disk true full 5 (omega arith) hand (omega arith) (omega arith) refl
      evictable

words_small : (a : ℕ) → words a < 2 ^ 32
words_small a = ground arith

page_7 : IsImagePage task 16805888 7
page_7 = record { at = refl; inside = omega arith; word = omega arith; small = omega arith }

page_2 : IsImagePage task 16785408 2
page_2 = record { at = refl; inside = omega arith; word = omega arith; small = omega arith }

page_fault_handler-Mapped_example :
    (q : ℕ) × (n : Memory Contents) × (page_fault_handler plain_disk 3 full ≡ some n)
    × Victim full.page_map (next_page full.page) q
    × Mapped plain_disk 3 full n 7 q
page_fault_handler-Mapped_example =
    page_fault_handler-Mapped plain_disk 3 full 5 7 page_7 (omega arith) hand (omega arith)
      (omega arith) refl tabled refl refl

abbrev last_page : PageMapEntry
last_page = record { owner = some 3; vaddr = 16805888; entry = 1093660; pinned = false }

-- The same machine with the disk of the BIOS.
abbrev usb_disk : Disk Sticks.Disk
usb_disk = bios_disk array stick array-Works stick-IsDisk

abbrev on_stick : Memory Sticks.Disk
on_stick = record {
  ram = words;
  sectors = λ dh cx j. 5;
  page_map = full.page_map;
  dole_ptr = 128;
  page = 4294967295;
  kernel_pdir = 1048576;
  kernel_pts = λ i. 1052672;
  pcb = λ t. task;
}

page_swap_out-page_swap_in_example :
    (n : Memory Sticks.Disk) × (r : Memory Sticks.Disk) × (page_swap_out usb_disk 5 on_stick
      ≡ some n)
    × (page_swap_in usb_disk 6 (record n { page_map = update n.page_map 6 image_page }) ≡ some r)
    × ((s w : ℕ)
        → s < sectors_per_page
        → sectors_per_page * 2 + s < 61
        → w < 128
        → (read_words array stick n.sectors (26 + s) w ≡ on_stick.ram (frame 5 + s * 512 + 4 * w))
          × (r.ram (frame 6 + s * 512 + 4 * w) ≡ on_stick.ram (frame 5 + s * 512 + 4 * w)))
    × (is_present (r.ram 1093640) ≡ true)
    × (base_addr (r.ram 1093640) ≡ frame 6)
page_swap_out-page_swap_in_example =
    page_swap_out-page_swap_in usb_disk on_stick 5 6 3 2 (omega arith) (omega arith) refl page_2
      (omega arith) words_small refl (λ i h. omega arith) (λ i h. omega arith)

-- All pages are pinned but page 0.
abbrev page_0_free : Memory Contents
page_0_free = record full { page_map = λ q. if q == 0 then image_page else pinned_page }

-- All pages are pinned, and the word behind the page map reads as not pinned.
abbrev behind_free : ℕ → PageMapEntry
behind_free q = if q == 128 then image_page else pinned_page

cycle-endless_example :
    (any_unpinned behind_free pageable_pages 0 ≡ true) × (cycle behind_free 1000 127 ≡ none)
cycle-endless_example = cycle-endless behind_free 1000 127 IsHand-127 (λ r h. ground arith) refl

init_memory-identity_example :
    (n : Memory Contents) × (init_memory plain_disk (record full { dole_ptr = 0 }) ≡ some n)
    × ((v : ℕ) → v < max_physical_memory → walk n.ram n.kernel_pdir v ≡ some v)
init_memory-identity_example = init_memory-identity plain_disk (record full { dole_ptr = 0 }) refl
