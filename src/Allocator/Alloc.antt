-- ===== src/Allocator/Alloc.antt =====
-- kzalloc_align of cos318-project5/usb/allocator.c: free chunks become a block in use.
use operativsystemer.Base.{
  ℕ, zero, suc, ◌+◌, ◌-◌, ◌*◌, ◌/◌, ◌^◌, ◌≤◌, ◌<◌, ◌≡◌, ◌≢◌, ◌⊎◌, refl, sym, subst, ◌∙◌, ap, Option,
  none, some, List, [], ◌∷◌, ◌++◌, arith, ==_ne, ltb, leb, ◌&&◌, Bool-cases, inl, inr, replicate,
  ◌==◌, if◌then◌else◌,
}
use operativsystemer.Text.{bzero}
use operativsystemer.Text.Bytes.{bzero_lem}
use operativsystemer.Allocator.{
  Chunks, Heap, chunk_num, chunk_size, chunks_for, address, wrap, set_free, set_size, set_total,
  mark_used, update_previous, take_space, kzalloc_align,
}
use operativsystemer.Allocator.Blocks.{
  Block, free, used, Ahead, Ahead-end, Ahead-other, length-le, At, At-Holds_append, Behind,
  Behind-other, Holds, Holds-At_append, IsUsed, IsUsed-other, flip, free_run, used_run,
  used_run-le-width, width,
}
use operativsystemer.Allocator.Loops.{set_total-here, set_total-other, update_previous-Behind}
use operativsystemer.Allocator.Padding.{Aligned}
use operativsystemer.Allocator.Room.{FitsBelow}
use operativsystemer.Allocator.Search.{Outcome, find_space-Outcome}

abbrev used_edges : ℕ → ℕ → Chunks → Chunks
used_edges i n c = set_size (i + n - 1) n (set_free (i + n - 1) 0 (set_size i n (set_free i 0 c)))

abbrev marked : ℕ → ℕ → ℕ → Chunks → Chunks
marked i n t c = set_total i t (used_edges i n c)

used_edges-other : (i n : ℕ) (c : Chunks) (j : ℕ) → j ≢ i → j ≢ i + n - 1 → used_edges i n c j ≡ c j
used_edges-other i n c j ne ne' = rw (==_ne j (i + n - 1) ne', ==_ne j i ne)

marked-other : (i n t : ℕ) (c : Chunks) (j : ℕ) → j ≢ i → j ≢ i + n - 1 → marked i n t c j ≡ c j
marked-other i n t c j ne ne' =
    set_total-other i t (used_edges i n c) j ne ∙ used_edges-other i n c j ne ne'

-- The chunks of a run of free ones, and what follows it.
Ahead-frees :
    (n i : ℕ) (c : Chunks) (ds : List Block)
    → Ahead c i (replicate n free ++ ds)
    → ((j : ℕ) → i ≤ j → j < i + n → (c j).is_free ≡ 1) × Ahead c (i + n) ds
Ahead-frees zero i c ds h =
    (λ j b k. absurd (omega arith), subst (λ k. Ahead c k ds) (omega arith) h)
Ahead-frees (suc n) i c ds (here, later) =
    let (inner, end) = Ahead-frees n (i + 1) c ds later in
    (
      λ j b k. elim (Bool-cases (ltb i j)) [
        | inl above ↦ inner j (ground arith) (omega arith)
        | inr first ↦ let e : j ≡ i = ground arith in rw e here.marked
      ],
      subst (λ k. Ahead c k ds) (omega arith) end,
    )

marked-IsUsed :
    (i n t : ℕ) (c : Chunks)
    → 1 ≤ n
    → ((j : ℕ) → i ≤ j → j < i + n → (c j).is_free ≡ 1)
    → IsUsed (marked i n t c) i n
marked-IsUsed i n t c pos frees = record {
  some_chunk = pos;
  first = ground arith;
  first_size = ground arith;
  last = ground arith;
  last_size = ground arith;
  inner = λ j b k.
      ap (λ m. m.is_free) (marked-other i n t c j (omega arith) (omega arith))
      ∙ frees j (omega arith) (omega arith);
}

abbrev joined : ℕ → ℕ → Chunks → Chunks
joined i n e =
    if (e (i + n)).is_free == 0
    then set_total i (wrap (n + (e (i + n)).total_size)) e
    else set_total i n e

-- The word behind a block at the end of the array is read too: it must not look like a block in use.
joined-used_run :
    (i n : ℕ) (e : Chunks) (ds : List Block)
    → (e chunk_num).is_free ≢ 0
    → Ahead e (i + n) ds
    → joined i n e ≡ set_total i (n + used_run ds) e
joined-used_run i n e [] behind h =
    let whole : n + 0 ≡ n = omega arith in rw (h, ==_ne (e chunk_num).is_free 0 behind, whole)
joined-used_run i n e (free ∷ ds) behind h =
    let whole : n + 0 ≡ n = omega arith in rw (h.0.marked, whole)
joined-used_run i n e (used m ∷ ds) behind h = rw (h.0.first, h.1, small)
  where
    small : wrap (n + (m + used_run ds)) ≡ n + (m + used_run ds)
    small = omega (arith, Ahead-end e (i + n) (used m ∷ ds) h, used_run-le-width ds)

mark_used-marked :
    (i n : ℕ) (c : Chunks) (ds : List Block)
    → 1 ≤ n
    → (c chunk_num).is_free ≢ 0
    → Ahead c (i + n) ds
    → mark_used i n c ≡ marked i n (n + used_run ds) c
unfolding mark_used
mark_used-marked i n c ds pos behind h =
    joined-used_run i n (used_edges i n c) ds
      (λ z.
        behind (
          sym (ap (λ m. m.is_free) (above chunk_num (omega (arith, Ahead-end c (i + n) ds h))))
          ∙ z))
      (Ahead-other c (used_edges i n c) (i + n) ds above h)
  where
    above : (j : ℕ) → i + n ≤ j → used_edges i n c j ≡ c j
    above j b = used_edges-other i n c j (omega arith) (omega arith)

-- Free chunks at a point become a block in use, with the sizes around it right again.
mark_used-At :
    (i n : ℕ) (c : Chunks) (bs ds : List Block)
    → 1 ≤ n
    → (c chunk_num).is_free ≢ 0
    → At c i bs (replicate n free ++ ds)
    → (c' : Chunks) × (update_previous i (mark_used i n c) ≡ some c')
      × At c' i bs (used n ∷ ds)
      × (c' chunk_num ≡ c chunk_num)
mark_used-At i n c bs ds pos behind (before, later) =
    let (frees, rest) = Ahead-frees n i c ds later in
    let end : i + n + width ds ≡ chunk_num = Ahead-end c (i + n) ds rest in
    let new : Chunks = marked i n (n + used_run ds) c in
    let total : (new i).total_size ≡ n + used_run ds =
      set_total-here i (n + used_run ds) (used_edges i n c) in
    let other : (j : ℕ) → (j < i) ⊎ (i + n ≤ j) → new j ≡ c j =
      λ j o. marked-other i n (n + used_run ds) c j (omega arith) (omega arith) in
    let (c', e, v, same) =
      update_previous-Behind i new bs (free_run (replicate n free ++ ds))
        (used_run (replicate n free ++ ds)) (omega arith)
        (omega (arith, total, used_run-le-width ds))
        (Behind-other c new i bs (free_run (replicate n free ++ ds))
          (used_run (replicate n free ++ ds)) (λ j k. other j (inl k)) before) in
    (
      c',
      ap (update_previous i) (mark_used-marked i n c ds pos behind rest) ∙ e,
      (
        subst (Behind c' i bs 0) total v,
        (
          IsUsed-other new c' i n (λ j b k. same j b)
              (marked-IsUsed i n (n + used_run ds) c pos frees),
          ap (λ m. m.total_size) (same i (omega arith)) ∙ total,
          Ahead-other c c' (i + n) ds (λ j b. same j (omega arith) ∙ other j (inr b)) rest,
        ),
      ),
      same chunk_num (omega arith) ∙ other chunk_num (inr (omega arith)),
    )

-- What `kzalloc_align` gives: NULL with nothing changed where no aligned chunk has enough free
-- chunks behind it; else the address of the first such chunk, whose chunks are in use and whose bytes
-- are 0.
abbrev pub Result : ℕ → ℕ → List Block → Heap → Option ℕ → Heap → Type 0
Result req align bs h none h' = (h' ≡ h) × ¬ FitsBelow chunk_num req align 0 bs
Result req align bs h (some ptr) h' =
    (xs : List Block) × (ys : List Block) × (bs ≡ xs ++ (replicate req free ++ ys))
    × (ptr ≡ address (width xs))
    × Aligned align (width xs)
    × ¬ FitsBelow (width xs) req align 0 bs
    × Holds h'.chunks (xs ++ used req ∷ ys)
    × (h'.chunks chunk_num ≡ h.chunks chunk_num)
    × ((a : ℕ)
        → h'.bytes a ≡ (if leb ptr a && ltb a (ptr + req * chunk_size) then 0 else h.bytes a))

take_space-Result :
    (req align k p : ℕ) (bs : List Block) (h : Heap)
    → 1 ≤ req
    → Holds h.chunks bs
    → (h.chunks chunk_num).is_free ≢ 0
    → Outcome req align 0 bs k p
    → (r : Option ℕ) × (h' : Heap) × (take_space req (k, p) h ≡ some (r, h'))
      × Result req align bs h r h'
unfolding take_space
take_space-Result req align k p bs h pos v behind (inr (end, no_room)) =
    (none, h, rw end, (refl, no_room))
take_space-Result req align k p bs h pos v behind (inl (inside, (xs, ys, e, place, al), first)) =
    let at = Holds-At_append h.chunks xs (replicate req free ++ ys) (subst (Holds h.chunks) e v) in
    let (c', marks, at', kept) = mark_used-At (width xs) req h.chunks (flip xs) ys pos behind at in
    let at_start : k + p ≡ width xs = omega arith in
    let start : wrap (k + p) ≡ width xs =
      omega (arith, Ahead-end h.chunks (width xs) (replicate req free ++ ys) at.1) in
    (
      some (address (width xs)),
      record { chunks = c'; bytes = bzero (address (width xs)) (req * chunk_size) h.bytes },
      rw (==_ne k chunk_num (λ z. absurd (omega arith)), start, marks),
      (
        xs,
        ys,
        e,
        refl,
        subst (Aligned align) at_start al,
        subst (λ at. ¬ FitsBelow at req align 0 bs) at_start first,
        At-Holds_append c' (width xs) xs (used req ∷ ys) at',
        kept,
        bzero_lem (address (width xs)) (req * chunk_size) h.bytes,
      ),
    )

pub kzalloc_align-Result :
    (h : Heap) (bs : List Block) (size alignment : ℕ)
    → Holds h.chunks bs
    → (h.chunks chunk_num).is_free ≢ 0
    → size < 2 ^ 31
    → alignment < 2 ^ 31
    → (r : Option ℕ) × (h' : Heap) × (kzalloc_align size alignment h ≡ some (r, h'))
      × Result (chunks_for size) (alignment / chunk_size) bs h r h'
unfolding kzalloc_align
kzalloc_align-Result h bs size alignment v behind small small' =
    let (k, p, e, o) =
      find_space-Outcome h.chunks (chunks_for size) (alignment / chunk_size) (omega arith)
        (omega arith) (chunk_num + 1) 0 0 bs (omega (arith, length-le h.chunks 0 bs v)) v in
    let (r, h', taken, result) =
      take_space-Result (chunks_for size) (alignment / chunk_size) k p bs h (omega arith) v behind
        o in
    (r, h', rw e taken, result)
