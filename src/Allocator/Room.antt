-- ===== src/Allocator/Room.antt =====
-- The places of cos318-project5/usb/allocator.c at which a block fits.
use operativsystemer.Base.{
  ℕ, zero, suc, ◌+◌, ◌≤◌, ◌<◌, ◌≡◌, ◌⊎◌, refl, subst, ap, List, [], ◌∷◌, ◌++◌, arith, drop, inl,
  inr, replicate,
}
use operativsystemer.Allocator.{Chunks}
use operativsystemer.Allocator.Blocks.{
  Block, chunks_of, free, used, Ahead, free_run, used_run, width,
}
use operativsystemer.Allocator.Padding.{Aligned}

-- Some aligned chunk below `limit`, from `i` on, has `req` free chunks behind it.
abbrev pub FitsBelow : ℕ → ℕ → ℕ → ℕ → List Block → Type 0
FitsBelow limit req align i [] = ⊥
FitsBelow limit req align i (b ∷ bs) =
    ((i < limit) × Aligned align i × (req ≤ free_run (b ∷ bs)))
    ⊎ FitsBelow limit req align (i + chunks_of b) bs

-- What follows the free chunks, or the chunks in use, that a list begins with.
abbrev pub after_free : List Block → List Block
after_free [] = []
after_free (free ∷ bs) = after_free bs
after_free (used n ∷ bs) = used n ∷ bs

abbrev pub after_used : List Block → List Block
after_used [] = []
after_used (free ∷ bs) = free ∷ bs
after_used (used n ∷ bs) = after_used bs

pub Ahead-after_free :
    (c : Chunks) (i : ℕ) (ds : List Block)
    → Ahead c i ds
    → Ahead c (i + free_run ds) (after_free ds)
Ahead-after_free c i [] h = omega arith
Ahead-after_free c i (used n ∷ ds) h = subst (λ k. Ahead c k (used n ∷ ds)) (omega arith) h
Ahead-after_free c i (free ∷ ds) h =
    subst (λ k. Ahead c k (after_free ds)) (omega arith) (Ahead-after_free c (i + 1) ds h.1)

pub Ahead-after_used :
    (c : Chunks) (i : ℕ) (ds : List Block)
    → Ahead c i ds
    → Ahead c (i + used_run ds) (after_used ds)
Ahead-after_used c i [] h = omega arith
Ahead-after_used c i (free ∷ ds) h = subst (λ k. Ahead c k (free ∷ ds)) (omega arith) h
Ahead-after_used c i (used n ∷ ds) h =
    subst (λ k. Ahead c k (after_used ds)) (omega arith) (Ahead-after_used c (i + n) ds h.2)

-- Where no aligned place comes before the limit.
pub FitsBelow-unaligned :
    (limit req align i : ℕ) (ds : List Block)
    → ((o : ℕ) → Aligned align (i + o) → limit ≤ i + o)
    → ¬ FitsBelow limit req align i ds
FitsBelow-unaligned limit req align i [] late h = absurd h
FitsBelow-unaligned limit req align i (b ∷ ds) late (inl (below, al, room)) =
    absurd (omega (arith, late 0 (subst (Aligned align) (omega arith) al)))
FitsBelow-unaligned limit req align i (b ∷ ds) late (inr h) =
    FitsBelow-unaligned limit req align (i + chunks_of b) ds
      (λ o al. omega (arith, late (chunks_of b + o) (subst (Aligned align) (omega arith) al))) h

-- Runs that no aligned place of enough free chunks begins in are passed over.
pub FitsBelow-after_free :
    (limit req align i : ℕ) (ds : List Block)
    → 1 ≤ req
    → ((o : ℕ) → Aligned align (i + o) → free_run ds < req + o)
    → FitsBelow limit req align i ds
    → FitsBelow limit req align (i + free_run ds) (after_free ds)
FitsBelow-after_free limit req align i [] pos short h = absurd h
FitsBelow-after_free limit req align i (used n ∷ ds) pos short h =
    subst (λ k. FitsBelow limit req align k (used n ∷ ds)) (omega arith) h
FitsBelow-after_free limit req align i (free ∷ ds) pos short (inl (below, al, room)) =
    absurd (omega (arith, short 0 (subst (Aligned align) (omega arith) al)))
FitsBelow-after_free limit req align i (free ∷ ds) pos short (inr h) =
    subst (λ k. FitsBelow limit req align k (after_free ds)) (omega arith)
      (FitsBelow-after_free limit req align (i + 1) ds pos
        (λ o al. omega (arith, short (suc o) (subst (Aligned align) (omega arith) al))) h)

pub FitsBelow-after_used :
    (limit req align i : ℕ) (ds : List Block)
    → 1 ≤ req
    → FitsBelow limit req align i ds
    → FitsBelow limit req align (i + used_run ds) (after_used ds)
FitsBelow-after_used limit req align i [] pos h = absurd h
FitsBelow-after_used limit req align i (free ∷ ds) pos h =
    subst (λ k. FitsBelow limit req align k (free ∷ ds)) (omega arith) h
FitsBelow-after_used limit req align i (used n ∷ ds) pos (inl (below, al, room)) =
    absurd (omega arith)
FitsBelow-after_used limit req align i (used n ∷ ds) pos (inr h) =
    subst (λ k. FitsBelow limit req align k (after_used ds)) (omega arith)
      (FitsBelow-after_used limit req align (i + n) ds pos h)

-- The chunk `at` is aligned, begins a block of the list, and begins `req` free chunks.
abbrev pub Room : ℕ → ℕ → ℕ → List Block → ℕ → Type 0
Room req align i ds at =
    (xs : List Block) × (ys : List Block) × (ds ≡ xs ++ (replicate req free ++ ys))
    × (at ≡ i + width xs)
    × Aligned align at

Room-cons :
    (req align i at : ℕ) (b : Block) (ds : List Block)
    → Room req align (i + chunks_of b) ds at
    → Room req align i (b ∷ ds) at
Room-cons req align i at b ds (xs, ys, e, place, al) = (b ∷ xs, ys, ap (◌∷◌ b) e, omega arith, al)

pub Room-after_free :
    (req align i at : ℕ) (ds : List Block)
    → Room req align (i + free_run ds) (after_free ds) at
    → Room req align i ds at
Room-after_free req align i at [] h = subst (λ k. Room req align k [] at) (omega arith) h
Room-after_free req align i at (used n ∷ ds) h =
    subst (λ k. Room req align k (used n ∷ ds) at) (omega arith) h
Room-after_free req align i at (free ∷ ds) h = Room-cons req align i at free ds (
    Room-after_free req align (i + 1) at ds
      (subst (λ k. Room req align k (after_free ds) at) (omega arith) h))

pub Room-after_used :
    (req align i at : ℕ) (ds : List Block)
    → Room req align (i + used_run ds) (after_used ds) at
    → Room req align i ds at
Room-after_used req align i at [] h = subst (λ k. Room req align k [] at) (omega arith) h
Room-after_used req align i at (free ∷ ds) h =
    subst (λ k. Room req align k (free ∷ ds) at) (omega arith) h
Room-after_used req align i at (used n ∷ ds) h = Room-cons req align i at (used n) ds (
    Room-after_used req align (i + n) at ds
      (subst (λ k. Room req align k (after_used ds) at) (omega arith) h))

-- Free chunks enough for the padding and the block.
pub Room-padded :
    (req align i pad : ℕ) (ds : List Block)
    → pad + req ≤ free_run ds
    → Aligned align (i + pad)
    → Room req align i ds (i + pad)
Room-padded req align i zero ds enough al =
    ([], drop req ds, split req ds (omega arith), omega arith, al)
  where
    split : (n : ℕ) (zs : List Block) → n ≤ free_run zs → zs ≡ replicate n free ++ drop n zs
    split zero zs h = refl
    split (suc n) [] h = absurd (omega arith)
    split (suc n) (free ∷ zs) h = ap (◌∷◌ free) (split n zs (omega arith))
    split (suc n) (used m ∷ zs) h = absurd (omega arith)
Room-padded req align i (suc pad) [] enough al = absurd (omega arith)
Room-padded req align i (suc pad) (used n ∷ ds) enough al = absurd (omega arith)
Room-padded req align i (suc pad) (free ∷ ds) enough al =
    subst (Room req align i (free ∷ ds)) (omega arith) (
      Room-cons req align i (i + 1 + pad) free ds (
        Room-padded req align (i + 1) pad ds (omega arith)
          (subst (Aligned align) (omega arith) al)))
