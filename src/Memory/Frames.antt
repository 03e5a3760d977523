-- ===== src/Memory/Frames.antt =====
-- What page_alloc of cos318-project6/memory.c hands out.
use operativsystemer.Base.{
  ℕ, zero, suc, ◌+◌, ◌*◌, ◌/◌, ◌≤◌, ◌<◌, ◌≡◌, ◌≢◌, ◌⊎◌, refl, ◌∙◌, Bool, true, false, some, arith,
  Bool-cases, inl, inr, ltb, ◌==◌, ==_refl, ==_ne,
}
use operativsystemer.PageTable.{
  Ram, store, is_present, is_dirty, page_size, mem_start, pageable_pages, ptable_span,
  page_n_entries,
}
use operativsystemer.Memory.{
  Disk, Memory, PageMapEntry, next_page, page_replacement_policy, copy_words, page_addr,
  page_swap_in, load, page_swap_out, page_disk_sector, save, mark_absent, take_page, page_alloc,
  clean_entry, process_start, update,
}
use operativsystemer.Memory.Policy.{IsHand, Victim, page_replacement_policy-Victim}

-- The address of a page.
abbrev pub frame : ℕ → ℕ
frame i = mem_start + page_size * i

pub page_addr-frame : (i : ℕ) → i < pageable_pages → page_addr i ≡ some (frame i)
unfolding page_addr
page_addr-frame i h = ground arith

pub copy_words-other :
    (f : ℕ → ℕ) (left p i : ℕ) (ram : Ram) (a : ℕ)
    → ((j : ℕ) → i ≤ j → j < i + left → a ≢ p + 4 * j)
    → copy_words f left p i ram a ≡ ram a
unfolding copy_words
copy_words-other f zero p i ram a out = refl
copy_words-other f (suc left) p i ram a out =
    copy_words-other f left p (i + 1) (store ram (p + 4 * i) (f i)) a
      (λ j h k. out j (omega arith) (omega arith))
    ∙ rw (==_ne a (p + 4 * i) (out i (omega arith) (omega arith))) refl

pub copy_words-copied :
    (f : ℕ → ℕ) (left p i : ℕ) (ram : Ram) (j : ℕ)
    → i ≤ j
    → j < i + left
    → copy_words f left p i ram (p + 4 * j) ≡ f j
unfolding copy_words
copy_words-copied f zero p i ram j h k = absurd (omega arith)
copy_words-copied f (suc left) p i ram j h k = elim (Bool-cases (ltb i j)) [
  | inl above ↦
      copy_words-copied f left p (i + 1) (store ram (p + 4 * i) (f i)) j (ground arith)
        (omega arith)
  | inr here ↦
      let e : j ≡ i = ground arith in
      rw e (
        copy_words-other f left p (i + 1) (store ram (p + 4 * i) (f i)) (p + 4 * i)
          (λ r a b. omega arith)
        ∙ rw (==_refl (p + 4 * i)) refl)
]

-- What is cleared is 0 or as it was.
copy_words-zero :
    (left p i : ℕ) (ram : Ram) (a : ℕ)
    → (copy_words (λ i. 0) left p i ram a ≡ 0) ⊎ (copy_words (λ i. 0) left p i ram a ≡ ram a)
unfolding copy_words
copy_words-zero zero p i ram a = inr refl
copy_words-zero (suc left) p i ram a = elim (Bool-cases (a == p + 4 * i)) [
  | inl e ↦ stored e (copy_words-zero left p (i + 1) (store ram (p + 4 * i) 0) a)
  | inr n ↦ other n (copy_words-zero left p (i + 1) (store ram (p + 4 * i) 0) a)
]
  where
    cleared : ℕ
    cleared = copy_words (λ i. 0) left p (i + 1) (store ram (p + 4 * i) 0) a

    stored :
        (a == p + 4 * i) ≡ true
        → (cleared ≡ 0) ⊎ (cleared ≡ store ram (p + 4 * i) 0 a)
        → (cleared ≡ 0) ⊎ (cleared ≡ ram a)
    stored e (inl z) = inl z
    stored e (inr k) = inl (k ∙ rw e refl)

    other :
        (a == p + 4 * i) ≡ false
        → (cleared ≡ 0) ⊎ (cleared ≡ store ram (p + 4 * i) 0 a)
        → (cleared ≡ 0) ⊎ (cleared ≡ ram a)
    other n (inl z) = inl z
    other n (inr k) = inr (k ∙ rw n refl)

-- page_swap_in of a page with an owner.
pub page_swap_in-load :
    {C : Type 0} (disk : Disk C) (m : Memory C) (q o : ℕ) (e : PageMapEntry)
    → q < pageable_pages
    → m.page_map q ≡ e
    → e.owner ≡ some o
    → page_swap_in disk q m
      ≡ some (load disk (frame q) (page_disk_sector (m.pcb o) e) e (m.pcb o) m)
unfolding page_swap_in
page_swap_in-load disk m q o e bound at own = simp (page_addr-frame q bound, at, own)

even-absent : (x : ℕ) → is_present (x / 2 * 2) ≡ false
even-absent x = ground arith

pub store-here : (ram : Ram) (p v : ℕ) → store ram p v p ≡ v
store-here ram p v = rw (==_refl p) refl

-- Clearing a page leaves an absent entry absent.
clear-absent :
    (left p i : ℕ) (ram : Ram) (a x : ℕ)
    → is_present (copy_words (λ i. 0) left p i (store ram a (x / 2 * 2)) a) ≡ false
clear-absent left p i ram a x = elim (copy_words-zero left p i (store ram a (x / 2 * 2)) a) [
  | inl z ↦ rw z refl
  | inr k ↦ rw (k ∙ store-here ram a (x / 2 * 2)) (even-absent x)
]

-- A page that page_swap_out can write back: a page of the user part of a task.
pub record IsEvictable {C : Type 0} (m : Memory C) (q : ℕ) : Type 0 where
  pub task : ℕ
  pub owned : (m.page_map q).owner ≡ some task
  pub user : process_start ≤ (m.page_map q).vaddr / ptable_span * ptable_span

le-not_ltb : (a b : ℕ) → b ≤ a → ltb a b ≡ false
le-not_ltb a b h = ground arith

module _ {C : Type 0} (disk : Disk C) (m : Memory C) (q o : ℕ) (bound : q < pageable_pages)
    (own : (m.page_map q).owner ≡ some o)
    (at : process_start ≤ (m.page_map q).vaddr / ptable_span * ptable_span) where
  -- The cases of page_swap_out.
  pub page_swap_out-dirty :
      is_dirty ((mark_absent (m.page_map q) m).ram (m.page_map q).entry) ≡ true
      → page_swap_out disk q m
        ≡ some (
            save disk
              (frame q)
              (page_disk_sector (m.pcb o) (m.page_map q))
              (m.pcb o)
              (mark_absent (m.page_map q) m))
  unfolding page_swap_out
  page_swap_out-dirty dirty =
      rw (le-not_ltb ((m.page_map q).vaddr / ptable_span * ptable_span) process_start at)
        (rw dirty (rw (page_addr-frame q bound) (simp (own))))

  pub page_swap_out-clean :
      is_dirty ((mark_absent (m.page_map q) m).ram (m.page_map q).entry) ≡ false
      → page_swap_out disk q m ≡ some (mark_absent (m.page_map q) m)
  unfolding page_swap_out
  page_swap_out-clean clean =
      rw (le-not_ltb ((m.page_map q).vaddr / ptable_span * ptable_span) process_start at)
        (rw clean refl)

  -- Whatever is written to the disk, page_swap_out marks the page as absent and changes nothing else.
  pub page_swap_out-absent :
      (c : C) × (page_swap_out disk q m
        ≡ some (record (mark_absent (m.page_map q) m) { sectors = c }))
  unfolding save
  page_swap_out-absent =
      elim (Bool-cases (is_dirty ((mark_absent (m.page_map q) m).ram (m.page_map q).entry))) [
        | inl dirty ↦ (
          (save disk (frame q) (page_disk_sector (m.pcb o) (m.page_map q)) (m.pcb o)
              (mark_absent (m.page_map q) m)).sectors,
          page_swap_out-dirty dirty,
        )
        | inr clean ↦ (m.sectors, page_swap_out-clean clean)
      ]

-- What is left where page `q` was taken: `m` before, `n` after.
pub record Replaced {C : Type 0} (pinned : Bool) (m n : Memory C) (q : ℕ) : Type 0 where
  pub entry : n.page_map q ≡ clean_entry pinned
  pub other_entries : (r : ℕ) → r ≢ q → n.page_map r ≡ m.page_map r
  pub tasks : n.pcb ≡ m.pcb
  pub cleared : (i : ℕ) → i < page_n_entries → n.ram (frame q + 4 * i) ≡ 0
  pub absent : is_present (n.ram (m.page_map q).entry) ≡ false
  pub other_words :
      (a : ℕ)
      → a ≢ (m.page_map q).entry
      → ((i : ℕ) → i < page_n_entries → a ≢ frame q + 4 * i)
      → n.ram a ≡ m.ram a

module _ {C : Type 0} (disk : Disk C) where
  take_page-Victim :
      (m : Memory C) (p : ℕ)
      → pageable_pages ≤ m.dole_ptr
      → IsHand m.page
      → 0 < p
      → p < pageable_pages
      → (m.page_map p).pinned ≡ false
      → ((q : ℕ) → q < pageable_pages → (m.page_map q).pinned ≡ false → IsEvictable m q)
      → (q : ℕ) × (c : C) × Victim m.page_map (next_page m.page) q
        × (take_page disk m
            ≡ some (q, record (mark_absent (m.page_map q) m) { sectors = c; page = q }))
  unfolding take_page
  take_page-Victim m p full hand above below free evictable =
      let chosen : (q : ℕ) × (page_replacement_policy m ≡ some (q, record m { page = q }))
          × Victim m.page_map (next_page m.page) q =
        page_replacement_policy-Victim m p hand above below free in
      let q : ℕ = chosen.0 in
      let ready : IsEvictable m q = evictable q chosen.2.bound chosen.2.free in
      let out : (c : C) × (page_swap_out disk q (record m { page = q })
            ≡ some (record (mark_absent (m.page_map q) m) { sectors = c; page = q })) =
        page_swap_out-absent disk (record m { page = q }) q ready.task chosen.2.bound ready.owned
          ready.user in
      (q, out.0, chosen.2, rw (le-not_ltb m.dole_ptr pageable_pages full) (simp (chosen.1, out.1)))

  -- Where all pages were handed out, a page other than page 0 is not pinned, and each page that
  -- is not pinned is of the user part of a task, page_alloc returns the first page that is not
  -- pinned after the page that it took last: cleared, with a new entry in the page map, and
  -- marked as absent where it was mapped. No other word or entry changes.
  pub page_alloc-Replaced :
      (pinned : Bool) (m : Memory C) (p : ℕ)
      → pageable_pages ≤ m.dole_ptr
      → IsHand m.page
      → 0 < p
      → p < pageable_pages
      → (m.page_map p).pinned ≡ false
      → ((q : ℕ) → q < pageable_pages → (m.page_map q).pinned ≡ false → IsEvictable m q)
      → (q : ℕ) × (n : Memory C) × (page_alloc disk pinned m ≡ some (q, n))
        × Victim m.page_map (next_page m.page) q
        × Replaced pinned m n q
  unfolding page_alloc
  page_alloc-Replaced pinned m p full hand above below free evictable =
      let taken : (q : ℕ) × (c : C) × Victim m.page_map (next_page m.page) q
          × (take_page disk m
              ≡ some (q, record (mark_absent (m.page_map q) m) { sectors = c; page = q })) =
        take_page-Victim m p full hand above below free evictable in
      let q : ℕ = taken.0 in
      let e : ℕ = (m.page_map q).entry in
      let before : Ram = store m.ram e (m.ram e / 2 * 2) in
      (
        q,
        record m {
          sectors = taken.1;
          page = q;
          page_map = update m.page_map q (clean_entry pinned);
          ram = copy_words (λ i. 0) page_n_entries (frame q) 0 before;
        },
        simp (taken.3, page_addr-frame q taken.2.bound),
        taken.2,
        record {
          entry = rw (==_refl q) refl;
          other_entries = λ r ne. rw (==_ne r q ne) refl;
          tasks = refl;
          cleared =
              λ i h. copy_words-copied (λ i. 0) page_n_entries (frame q) 0 before i (omega arith) h;
          absent = clear-absent page_n_entries (frame q) 0 m.ram e (m.ram e);
          other_words = λ a ne out.
              copy_words-other (λ i. 0) page_n_entries (frame q) 0 before a (λ j h k. out j k)
              ∙ rw (==_ne a e ne) refl;
        },
      )
