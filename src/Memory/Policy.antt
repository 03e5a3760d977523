-- ===== src/Memory/Policy.antt =====
-- The choice of the page to swap out: page_replacement_policy of cos318-project6/memory.c.
use operativsystemer.Base.{
  ℕ, zero, suc, ◌+◌, ◌-◌, ◌%◌, ◌≤◌, ◌<◌, ◌≡◌, ◌⊎◌, inl, inr, refl, true, false, none, some, arith,
  Bool-cases, ◌==◌, ◌∙◌, ap, ◌≢◌, ==_iff,
}
use operativsystemer.PageTable.{pageable_pages}
use operativsystemer.Memory.{
  Memory, PageMapEntry, next_page, any_unpinned, cycle, page_replacement_policy,
}

-- The static variable `page`: a page, or -1 at the start.
unfoldable pub IsHand : ℕ → Type 0
IsHand page = (page < 128) ⊎ (page ≡ 4294967295)

-- The steps of the cycle from one page to another.
abbrev pub steps : ℕ → ℕ → ℕ
steps start q = (q + 128 - start) % 128

-- The first page from `start` on that is not pinned.
pub record Victim (page_map : ℕ → PageMapEntry) (start q : ℕ) : Type 0 where
  pub bound : q < 128
  pub free : (page_map q).pinned ≡ false
  pub first : (r : ℕ) → r < 128 → steps start r < steps start q → (page_map r).pinned ≡ true

next_page-bound : (page : ℕ) → IsHand page → next_page page < 128
unfolding IsHand
next_page-bound page (inl h) = ground arith
next_page-bound page (inr h) = ground arith

next_page-next : (s : ℕ) → s < 128 → next_page s ≡ (s + 1) % 128
next_page-next s h = ground arith

-- A step of the cycle brings every page but the first nearer.
steps-next_page : (s q : ℕ) → s < 128 → q < 128 → q ≢ s → steps s q ≡ steps (next_page s) q + 1
steps-next_page s q a b ne = ground arith

loose-ne_held :
    (page_map : ℕ → PageMapEntry) (s q : ℕ)
    → (page_map s).pinned ≡ true
    → (page_map q).pinned ≡ false
    → q ≢ s
loose-ne_held page_map s q held free e = grind (arith, ap (λ x. (page_map x).pinned) e)

-- Past a page that is pinned, the victim is the same.
Victim-step :
    (page_map : ℕ → PageMapEntry) (s q : ℕ)
    → s < 128
    → (page_map s).pinned ≡ true
    → Victim page_map (next_page s) q
    → Victim page_map s q
Victim-step page_map s q bound held v = record { bound = v.bound; free = v.free; first = first }
  where
    ne : q ≢ s
    ne = loose-ne_held page_map s q held v.free

    first : (r : ℕ) → r < 128 → steps s r < steps s q → (page_map r).pinned ≡ true
    first r below near = elim (Bool-cases (r == s)) [
      | inl e ↦ ap (λ x. (page_map x).pinned) ((==_iff r s).0 e) ∙ held
      | inr n ↦
          let apart : r ≢ s = λ e. ground arith in
          v.first r below (
            omega
              (arith, steps-next_page s r bound below apart, steps-next_page s q bound v.bound ne))
    ]

cycle-Victim :
    (page_map : ℕ → PageMapEntry) (fuel page p : ℕ)
    → IsHand page
    → p < 128
    → (page_map p).pinned ≡ false
    → steps (next_page page) p < fuel
    → (q : ℕ) × (cycle page_map fuel page ≡ some q) × Victim page_map (next_page page) q
unfolding cycle IsHand
cycle-Victim page_map zero page p hand bound free near = absurd (omega arith)
cycle-Victim page_map (suc fuel) page p hand bound free near =
    elim (Bool-cases (page_map s).pinned) [
      | inl held ↦
          (let below : s < 128 = next_page-bound page hand in
            let gap : steps s p ≡ steps (next_page s) p + 1 =
              steps-next_page s p below bound (loose-ne_held page_map s p held free) in
            let found : (q : ℕ) × (cycle page_map fuel s ≡ some q)
                × Victim page_map (next_page s) q =
              cycle-Victim page_map fuel s p (inl below) bound free (omega arith) in
            (found.0, rw held found.1, Victim-step page_map s found.0 below held found.2))
      | inr loose ↦ (
        s,
        rw loose refl,
        record {
          bound = next_page-bound page hand;
          free = loose;
          first = λ r below near. absurd (ground arith);
        },
      )
    ]
  where
    s : ℕ
    s = next_page page

any_unpinned-free :
    (page_map : ℕ → PageMapEntry) (left i p : ℕ)
    → i < p
    → p ≤ i + left
    → (page_map p).pinned ≡ false
    → any_unpinned page_map left i ≡ true
unfolding any_unpinned
any_unpinned-free page_map zero i p a b free = absurd (omega arith)
any_unpinned-free page_map (suc left) i p a b free = elim (Bool-cases (page_map (i + 1)).pinned) [
  | inl held ↦
      let apart : p ≢ i + 1 = loose-ne_held page_map (i + 1) p held free in
      rw held (any_unpinned-free page_map left (i + 1) p (omega (arith, apart)) (omega arith) free)
  | inr loose ↦ rw loose refl
]

any_unpinned-held :
    (page_map : ℕ → PageMapEntry) (left i : ℕ)
    → ((r : ℕ) → i < r → r ≤ i + left → (page_map r).pinned ≡ true)
    → any_unpinned page_map left i ≡ false
unfolding any_unpinned
any_unpinned-held page_map zero i held = refl
any_unpinned-held page_map (suc left) i held =
    rw (held (i + 1) (omega arith) (omega arith))
      (any_unpinned-held page_map left (i + 1) (λ r a b. held r (omega arith) (omega arith)))

-- Where a page other than page 0 is not pinned, page_replacement_policy ends within one turn, takes
-- the first page that is not pinned after the page that it took last, and remembers that page.
pub page_replacement_policy-Victim :
    {C : Type 0} (m : Memory C) (p : ℕ)
    → IsHand m.page
    → 0 < p
    → p < pageable_pages
    → (m.page_map p).pinned ≡ false
    → (q : ℕ) × (page_replacement_policy m ≡ some (q, record m { page = q }))
      × Victim m.page_map (next_page m.page) q
unfolding page_replacement_policy
page_replacement_policy-Victim m p hand above below free =
    let found : (q : ℕ) × (cycle m.page_map 128 m.page ≡ some q)
        × Victim m.page_map (next_page m.page) q =
      cycle-Victim m.page_map 128 m.page p hand below free (omega arith) in
    (
      found.0,
      rw (any_unpinned-free m.page_map 128 0 p above (omega arith) free) (rw (found.1) refl),
      found.2,
    )

-- Where the pages from 1 on are pinned, and the word behind the page map reads as pinned too,
-- page_replacement_policy halts the machine, also if page 0 is not pinned.
page_replacement_policy-page_0 :
    {C : Type 0} (m : Memory C)
    → ((r : ℕ) → 0 < r → r ≤ pageable_pages → (m.page_map r).pinned ≡ true)
    → page_replacement_policy m ≡ none
unfolding page_replacement_policy
page_replacement_policy-page_0 m held = rw (any_unpinned-held m.page_map 128 0 held) refl

-- Where all pages are pinned but the word behind the page map reads as not pinned, the test before
-- the loop of page_replacement_policy passes, and the loop ends after no number of steps.
pub cycle-endless :
    (page_map : ℕ → PageMapEntry) (fuel page : ℕ)
    → IsHand page
    → ((r : ℕ) → r < pageable_pages → (page_map r).pinned ≡ true)
    → (page_map pageable_pages).pinned ≡ false
    → (any_unpinned page_map pageable_pages 0 ≡ true) × (cycle page_map fuel page ≡ none)
unfolding cycle IsHand
cycle-endless page_map fuel page hand held behind =
    (any_unpinned-free page_map 128 0 128 (omega arith) (omega arith) behind, go fuel page hand)
  where
    go : (fuel page : ℕ) → IsHand page → cycle page_map fuel page ≡ none
    go zero page h = refl
    go (suc fuel) page h =
        rw (held (next_page page) (next_page-bound page h))
          (go fuel (next_page page) (inl (next_page-bound page h)))
