-- ===== src/Allocator/Free.antt =====
-- kfree of cos318-project5/usb/allocator.c: a block in use becomes free chunks.
use operativsystemer.Base.{
  ℕ, zero, suc, ◌+◌, ◌-◌, ◌/◌, ◌^◌, ◌≤◌, ◌<◌, ◌≡◌, ◌≢◌, ◌⊎◌, refl, sym, subst, ◌∙◌, ap, Option,
  some, List, [], ◌∷◌, ◌++◌, arith, ==_ne, lt→ltb, ltb, inl, inr, replicate, ◌&&◌, ◌==◌,
  if◌then◌else◌,
}
use operativsystemer.Allocator.{
  Chunks, Heap, chunk_num, chunk_size, kernel_alloc_start, wrap, address, set_free, update_free,
  update_allocated, free_chunks, kfree,
}
use operativsystemer.Allocator.Blocks.{
  Block, free, used, Ahead, Ahead-end, Ahead-other, At, At-Holds_append, flip, Behind, Behind-other,
  Holds, Holds-At_append, IsFree, IsUsed, free_run, free_run-le-width, used_run, width,
}
use operativsystemer.Allocator.Loops.{
  update_free-fill, update_free-other, update_free-Behind, update_allocated-Behind,
}

free_run-replicate : (n : ℕ) (ds : List Block) → free_run (replicate n free ++ ds) ≡ n + free_run ds
free_run-replicate zero ds = omega arith
free_run-replicate (suc n) ds = omega (arith, free_run-replicate n ds)

used_run-replicate : (n : ℕ) (ds : List Block) → 1 ≤ n → used_run (replicate n free ++ ds) ≡ 0
used_run-replicate zero ds h = absurd (omega arith)
used_run-replicate (suc n) ds h = refl

-- Free chunks with the right sizes, before the blocks `ds`.
Ahead-replicate :
    (n i : ℕ) (c : Chunks) (ds : List Block)
    → ((j : ℕ) → i ≤ j → j < i + n → IsFree (c j) (free_run ds + (i + n - j)))
    → Ahead c (i + n) ds
    → Ahead c i (replicate n free ++ ds)
Ahead-replicate zero i c ds filled h = subst (λ k. Ahead c k ds) (omega arith) h
Ahead-replicate (suc n) i c ds filled h = (
  subst (IsFree (c i)) (omega (arith, free_run-replicate n ds))
      (filled i (omega arith) (omega arith)),
  Ahead-replicate n (i + 1) c ds
      (λ j b k. subst (IsFree (c j)) (omega arith) (filled j (omega arith) (omega arith)))
      (subst (λ k. Ahead c k ds) (omega arith) h),
)

abbrev free_edges : ℕ → ℕ → Chunks → Chunks
free_edges i n c = set_free (i + n - 1) 1 (set_free i 1 c)

free_edges-inside :
    (i n : ℕ) (c : Chunks)
    → IsUsed c i n
    → (j : ℕ) → i ≤ j
    → j < i + n
    → (free_edges i n c j).is_free ≡ 1
free_edges-inside i n c v j b h = ground (arith, v.inner j)

free_edges-other : (i n : ℕ) (c : Chunks) (j : ℕ) → j ≢ i → j ≢ i + n - 1 → free_edges i n c j ≡ c j
free_edges-other i n c j ne ne' = rw (==_ne j (i + n - 1) ne', ==_ne j i ne)

-- The free space behind the block, as `kfree` reads it.
abbrev free_behind : ℕ → Chunks → ℕ
free_behind i c = if ltb i chunk_num && ((c i).is_free == 1) then (c i).total_size else 0

free_behind-free_run :
    (i : ℕ) (c : Chunks) (ds : List Block) → Ahead c i ds → free_behind i c ≡ free_run ds
free_behind-free_run i c [] h = ground arith
free_behind-free_run i c (free ∷ ds) h =
    rw (lt→ltb i chunk_num (omega (arith, Ahead-end c i (free ∷ ds) h)), h.0.marked) h.0.total
free_behind-free_run i c (used n ∷ ds) h = ground (arith, h.0.first)

-- The last step of `kfree`: the sizes of the blocks in use before the chunk.
abbrev fix_previous : ℕ → Chunks → Option Chunks
fix_previous i c =
    if ltb 0 i && ((c (i - 1)).is_free == 0) then update_allocated (chunk_num + 1) i 0 c else some c

fix_previous-Behind :
    (i : ℕ) (c : Chunks) (bs : List Block) (f u : ℕ)
    → i ≤ chunk_num
    → Behind c i bs f u
    → (c' : Chunks) × (fix_previous i c ≡ some c')
      × Behind c' i bs f 0
      × ((j : ℕ) → i ≤ j → c' j ≡ c j)
fix_previous-Behind i c [] f u inside h = (c, rw h, h, λ j b. refl)
fix_previous-Behind i c (free ∷ bs) f u inside h =
    (c, rw (lt→ltb 0 i h.0, h.1.marked), h, λ j b. refl)
fix_previous-Behind i c (used n ∷ bs) f u inside h =
    let (c', e, v, same) =
      update_allocated-Behind (chunk_num + 1) i 0 c (used n ∷ bs) f u (omega arith) (omega arith)
        h in
    (c', rw (lt→ltb 0 i pos, last) e, v, same)
  where
    pos : 0 < i
    pos = omega (arith, h.0, h.1.some_chunk)

    last : (c (i - 1)).is_free ≡ 0
    last =
        subst (λ j. (c j).is_free ≡ 0)
          (let e : i - n + n - 1 ≡ i - 1 = omega (arith, h.0, h.1.some_chunk) in e) h.1.last

free_chunks-steps :
    (i n : ℕ) (c : Chunks)
    → (c i).size ≡ n
    → free_chunks i c
      ≡ fix_previous i
          (update_free (i + n) (free_behind (i + n) (free_edges i n c)) (free_edges i n c))
unfolding free_chunks
free_chunks-steps i n c h = rw h

-- A block in use becomes free chunks, with the sizes before it and in it right again.
free_chunks-At :
    (i n : ℕ) (c : Chunks) (bs ds : List Block)
    → At c i bs (used n ∷ ds)
    → (c' : Chunks) × (free_chunks i c ≡ some c') × At c' i bs (replicate n free ++ ds)
free_chunks-At i n c bs ds (before, (here, total, later)) =
    let (c₁, walk, filled, below, above) =
      update_free-fill n i (free_run ds) edges (omega (arith, runs))
        (free_edges-inside i n c here) in
    let (c₂, fixed, behind, same) =
      fix_previous-Behind i (update_free i (free_run ds + n) c₁) bs (free_run ds + n)
        (n + used_run ds) inside
        (update_free-Behind i (free_run ds + n) c₁ bs 0 (n + used_run ds)
          (omega (arith, runs, inside))
          (Behind-other c c₁ i bs 0 (n + used_run ds) (λ j k. below j k ∙ outside j (inl k))
            before)) in
    let kept : (j : ℕ) → i ≤ j → c₂ j ≡ c₁ j =
      λ j b. same j b ∙ update_free-other i (free_run ds + n) c₁ j b in
    (
      c₂,
      free_chunks-steps i n c here.first_size
          ∙ ap (λ t. fix_previous i (update_free (i + n) t edges))
              (free_behind-free_run (i + n) edges ds (later'))
          ∙ ap (fix_previous i) walk
          ∙ fixed,
      (
        subst (λ f. Behind c₂ i bs f (used_run (replicate n free ++ ds))) {x = free_run ds + n}
            (omega (arith, free_run-replicate n ds))
            (subst (Behind c₂ i bs (free_run ds + n))
              (sym (used_run-replicate n ds here.some_chunk)) behind),
        Ahead-replicate n i c₂ ds
            (λ j b k.
              subst (λ m. IsFree m (free_run ds + (i + n - j))) (sym (kept j b)) (filled j b k))
            (Ahead-other edges c₂ (i + n) ds (λ j b. kept j (omega arith) ∙ above j b) later'),
      ),
    )
  where
    edges : Chunks
    edges = free_edges i n c

    end : i + n ≤ chunk_num
    end = omega (arith, Ahead-end c (i + n) ds later)

    runs : free_run ds + n ≤ chunk_num
    runs = omega (arith, Ahead-end c (i + n) ds later, free_run-le-width ds)

    inside : i ≤ chunk_num
    inside = omega (arith, Ahead-end c (i + n) ds later)

    outside : (j : ℕ) → (j < i) ⊎ (i + n ≤ j) → edges j ≡ c j
    outside j (inl k) = free_edges-other i n c j (omega arith) (omega (arith, here.some_chunk))
    outside j (inr k) =
        free_edges-other i n c j (omega (arith, here.some_chunk)) (omega (arith, here.some_chunk))

    later' : Ahead edges (i + n) ds
    later' = Ahead-other c edges (i + n) ds (λ j b. outside j (inr b)) later

chunk_at : (i : ℕ) → i ≤ chunk_num → wrap (address i + 2 ^ 32 - kernel_alloc_start) / chunk_size ≡ i
chunk_at i h = omega arith

-- `kfree` of the address of a block in use succeeds, its chunks become free ones, the other blocks
-- stay, and no byte of the memory changes.
pub kfree-Holds :
    (h : Heap) (xs ds : List Block) (n : ℕ)
    → Holds h.chunks (xs ++ used n ∷ ds)
    → (h' : Heap) × (kfree (address (width xs)) h ≡ some h')
      × Holds h'.chunks (xs ++ (replicate n free ++ ds))
      × (h'.bytes ≡ h.bytes)
unfolding kfree
kfree-Holds h xs ds n v =
    let at = Holds-At_append h.chunks xs (used n ∷ ds) v in
    let (c', e, at') = free_chunks-At (width xs) n h.chunks (flip xs) ds at in
    let inside : width xs < chunk_num =
      omega (arith, Ahead-end h.chunks (width xs) (used n ∷ ds) at.1, at.1.0.some_chunk) in
    (
      record h { chunks = c' },
      rw (chunk_at (width xs) (omega arith), lt→ltb (width xs) chunk_num inside, e),
      At-Holds_append c' (width xs) xs (replicate n free ++ ds) at',
      refl,
    )
