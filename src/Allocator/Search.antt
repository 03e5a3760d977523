-- ===== src/Allocator/Search.antt =====
-- The search of kzalloc_align of cos318-project5/usb/allocator.c for free space.
use operativsystemer.Base.{
  ℕ, zero, suc, ◌+◌, ◌-◌, ◌%◌, ◌^◌, ◌≤◌, ◌<◌, ◌≡◌, ◌⊎◌, ◌∙◌, some, List, [], ◌∷◌, arith, lt→ltb,
  ltb, leb, leb→le, Bool-cases, inl, inr, true, false, length,
}
use native.Mathlib.Nat.{mod-lt}
use operativsystemer.Allocator.{Chunks, chunk_num, padding, wrap, find_space}
use operativsystemer.Allocator.Blocks.{
  Block, free, used, Ahead, Ahead-end, free_run, free_run-le-width, used_run, used_run-le-width,
  width,
}
use operativsystemer.Allocator.Padding.{padding_lem, Aligned-padding, padding-least}
use operativsystemer.Allocator.Room.{
  FitsBelow, after_free, after_used, Ahead-after_free, Ahead-after_used, FitsBelow-after_free,
  FitsBelow-after_used, FitsBelow-unaligned, Room, Room-after_free, Room-after_used, Room-padded,
}

length-after_free : (ds : List Block) → length (after_free ds) ≤ length ds
length-after_free [] = omega arith
length-after_free (free ∷ ds) = omega (arith, length-after_free ds)
length-after_free (used n ∷ ds) = omega arith

length-after_used : (ds : List Block) → length (after_used ds) ≤ length ds
length-after_used [] = omega arith
length-after_used (free ∷ ds) = omega arith
length-after_used (used n ∷ ds) = omega (arith, length-after_used ds)

padding-le : (align i : ℕ) → padding align i ≤ align
padding-le zero i = omega arith
padding-le (suc a) i =
    omega (arith, padding_lem a i, mod-lt (suc a - i % suc a) {m = suc a} (omega arith))

-- What the search may end with: the first room for the block, or the end where there is none.
abbrev pub Outcome : ℕ → ℕ → ℕ → List Block → ℕ → ℕ → Type 0
Outcome req align i ds k p =
    ((k < chunk_num) × Room req align i ds (k + p) × ¬ FitsBelow (k + p) req align i ds)
    ⊎ ((k ≡ chunk_num) × ¬ FitsBelow chunk_num req align i ds)

module _ (c : Chunks) (req align : ℕ) (pos : 1 ≤ req) (small : req + align < 2 ^ 32) where
  wrap-needed : (i : ℕ) → wrap (req + padding align i) ≡ req + padding align i
  wrap-needed i = omega (arith, padding-le align i)

  inside : (i : ℕ) (b : Block) (ds : List Block) → Ahead c i (b ∷ ds) → ltb i chunk_num ≡ true
  inside i free ds h = lt→ltb i chunk_num (omega (arith, Ahead-end c i (free ∷ ds) h))
  inside i (used n) ds h =
      lt→ltb i chunk_num (omega (arith, Ahead-end c i (used n ∷ ds) h, h.0.some_chunk))

  wrap-next : (i t : ℕ) (ds : List Block) → Ahead c i ds → t ≤ width ds → wrap (i + t) ≡ i + t
  wrap-next i t ds h within = omega (arith, Ahead-end c i ds h)

  find_space-free :
      (fuel i p : ℕ) (ds : List Block)
      → Ahead c i (free ∷ ds)
      → free_run (free ∷ ds) < req + padding align i
      → find_space (suc fuel) c req align i p
        ≡ find_space fuel c req align (i + free_run (free ∷ ds)) (padding align i)
  unfolding find_space
  find_space-free fuel i p ds h short =
      let next = wrap-next i (free_run (free ∷ ds)) (free ∷ ds) h (free_run-le-width (free ∷ ds)) in
      rw (inside i free ds h, h.0.marked, wrap-needed i, h.0.total, next, too_much)
    where
      too_much : leb (req + padding align i) (suc (free_run ds)) ≡ false
      too_much = ground arith

  find_space-used :
      (fuel i p n : ℕ) (ds : List Block)
      → Ahead c i (used n ∷ ds)
      → find_space (suc fuel) c req align i p
        ≡ find_space fuel c req align (i + used_run (used n ∷ ds)) p
  unfolding find_space
  find_space-used fuel i p n ds h =
      let next = wrap-next i (n + used_run ds) (used n ∷ ds) h (used_run-le-width (used n ∷ ds)) in
      rw (inside i (used n) ds h, h.0.first, h.1, next)

  find_space-here :
      (fuel i p : ℕ) (ds : List Block)
      → Ahead c i (free ∷ ds)
      → req + padding align i ≤ free_run (free ∷ ds)
      → find_space (suc fuel) c req align i p ≡ some (i, padding align i)
  unfolding find_space
  find_space-here fuel i p ds h enough =
      rw (inside i free ds h, h.0.marked, wrap-needed i, h.0.total, enough_there)
    where
      enough_there : leb (req + padding align i) (suc (free_run ds)) ≡ true
      enough_there = ground arith

  -- With more fuel than blocks, the search ends at the first run that has room, if any has.
  pub find_space-Outcome :
      (fuel i p : ℕ) (ds : List Block)
      → length ds < fuel
      → Ahead c i ds
      → (k : ℕ) × (p' : ℕ) × (find_space fuel c req align i p ≡ some (k, p'))
        × Outcome req align i ds k p'
  unfolding find_space
  find_space-Outcome zero i p ds h v = absurd (omega arith)
  find_space-Outcome (suc fuel) i p [] h v = (i, p, rw v, inr (v, λ f. f))
  find_space-Outcome (suc fuel) i p (used n ∷ ds) h v =
      let (k, p', e, o) =
        find_space-Outcome fuel (i + used_run (used n ∷ ds)) p (after_used ds)
          (omega (arith, length-after_used ds)) (Ahead-after_used c i (used n ∷ ds) v) in
      (
        k,
        p',
        find_space-used fuel i p n ds v ∙ e,
        elim o [
          | inl (inside, room, none_before) ↦ inl (
            inside,
            Room-after_used req align i (k + p') (used n ∷ ds) room,
            λ f. none_before (FitsBelow-after_used (k + p') req align i (used n ∷ ds) pos f),
          )
          | inr (end, no_room) ↦
              inr
                (end, λ f. no_room (FitsBelow-after_used chunk_num req align i (used n ∷ ds) pos f))
        ],
      )
  find_space-Outcome (suc fuel) i p (free ∷ ds) h v =
      elim (Bool-cases (leb (req + padding align i) (free_run (free ∷ ds)))) [
        | inl enough ↦ (
          i,
          padding align i,
          find_space-here fuel i p ds v (leb→le _ _ enough),
          inl (
            omega (arith, Ahead-end c i (free ∷ ds) v),
            Room-padded req align i (padding align i) (free ∷ ds) (omega (arith, leb→le _ _ enough))
                (Aligned-padding align i),
            FitsBelow-unaligned (i + padding align i) req align i (free ∷ ds)
                (λ o al. omega (arith, padding-least align i o al)),
          ),
        )
        | inr short ↦
            let less : free_run (free ∷ ds) < req + padding align i = ground arith in
            let passed : (limit : ℕ)
                → FitsBelow limit req align i (free ∷ ds)
                → FitsBelow limit req align (i + free_run (free ∷ ds)) (after_free ds) =
              λ limit.
                FitsBelow-after_free limit req align i (free ∷ ds) pos
                  (λ o al. omega (arith, padding-least align i o al)) in
            let (k, p', e, o) =
              find_space-Outcome fuel (i + free_run (free ∷ ds)) (padding align i) (after_free ds)
                (omega (arith, length-after_free ds)) (Ahead-after_free c i (free ∷ ds) v) in
            (
              k,
              p',
              find_space-free fuel i p ds v less ∙ e,
              elim o [
                | inl (inside, room, none_before) ↦ inl (
                  inside,
                  Room-after_free req align i (k + p') (free ∷ ds) room,
                  λ f. none_before (passed (k + p') f),
                )
                | inr (end, no_room) ↦ inr (end, λ f. no_room (passed chunk_num f))
              ],
            )
      ]
