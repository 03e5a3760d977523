-- ===== src/Allocator/Blocks.antt =====
-- What the chunks of cos318-project5/usb/allocator.c stand for: the chunks of the memory in order, as
-- single free ones and blocks in use.
use operativsystemer.Base.{
  ℕ, suc, ◌+◌, ◌-◌, ◌≤◌, ◌<◌, ◌≡◌, refl, sym, subst, ap, ◌∙◌, List, [], ◌∷◌, ◌++◌, arith, length,
}
use operativsystemer.Allocator.{Chunks, MemChunk, chunk_num}

pub data Block : Type 0 where
  free : Block
  used : ℕ → Block

abbrev pub chunks_of : Block → ℕ
chunks_of free = 1
chunks_of (used n) = n

abbrev pub width : List Block → ℕ
width [] = 0
width (b ∷ bs) = chunks_of b + width bs

-- The free chunks, and the chunks in use, that a list begins with.
abbrev pub free_run : List Block → ℕ
free_run [] = 0
free_run (free ∷ bs) = suc (free_run bs)
free_run (used n ∷ bs) = 0

abbrev pub used_run : List Block → ℕ
used_run [] = 0
used_run (free ∷ bs) = 0
used_run (used n ∷ bs) = n + used_run bs

-- The first chunk of a free piece, whose space goes on for `t` chunks.
pub record IsFree (m : MemChunk) (t : ℕ) : Type 0 where
  pub marked : m.is_free ≡ 1
  pub total : m.total_size ≡ t

-- The chunks from `i` on are a block of `n` in use: its first and its last chunk are marked, the
-- others are not.
pub record IsUsed (c : Chunks) (i n : ℕ) : Type 0 where
  pub some_chunk : 1 ≤ n
  pub first : (c i).is_free ≡ 0
  pub first_size : (c i).size ≡ n
  pub last : (c (i + n - 1)).is_free ≡ 0
  pub last_size : (c (i + n - 1)).size ≡ n
  pub inner : (j : ℕ) → i < j → suc j < i + n → (c j).is_free ≡ 1

-- The chunks from `i` to the end are the blocks of a list.
abbrev pub Ahead : Chunks → ℕ → List Block → Type 0
Ahead c i [] = i ≡ chunk_num
Ahead c i (free ∷ bs) = IsFree (c i) (suc (free_run bs)) × Ahead c (i + 1) bs
Ahead c i (used n ∷ bs) = IsUsed c i n × ((c i).total_size ≡ n + used_run bs) × Ahead c (i + n) bs

-- The chunks below `i` are the blocks of a list, from the nearest to the first, where `f` free
-- chunks or `u` chunks in use follow.
abbrev pub Behind : Chunks → ℕ → List Block → ℕ → ℕ → Type 0
Behind c i [] f u = i ≡ 0
Behind c i (free ∷ bs) f u = (1 ≤ i) × IsFree (c (i - 1)) (suc f) × Behind c (i - 1) bs (suc f) 0
Behind c i (used n ∷ bs) f u =
    (n ≤ i) × IsUsed c (i - n) n × ((c (i - n)).total_size ≡ n + u) × Behind c (i - n) bs 0 (n + u)

-- The array stands for the blocks `bs`.
abbrev pub Holds : Chunks → List Block → Type 0
Holds c bs = Ahead c 0 bs

pub Ahead-end : (c : Chunks) (i : ℕ) (bs : List Block) → Ahead c i bs → i + width bs ≡ chunk_num
Ahead-end c i [] h = omega arith
Ahead-end c i (free ∷ bs) h = omega (arith, Ahead-end c (i + 1) bs h.1)
Ahead-end c i (used n ∷ bs) h = omega (arith, Ahead-end c (i + n) bs h.2)

pub length-le : (c : Chunks) (i : ℕ) (bs : List Block) → Ahead c i bs → i + length bs ≤ chunk_num
length-le c i [] h = omega arith
length-le c i (free ∷ bs) h = omega (arith, length-le c (i + 1) bs h.1)
length-le c i (used n ∷ bs) h = omega (arith, length-le c (i + n) bs h.2, h.0.some_chunk)

pub free_run-le-width : (bs : List Block) → free_run bs ≤ width bs
free_run-le-width [] = omega arith
free_run-le-width (free ∷ bs) = omega (arith, free_run-le-width bs)
free_run-le-width (used n ∷ bs) = omega arith

pub used_run-le-width : (bs : List Block) → used_run bs ≤ width bs
used_run-le-width [] = omega arith
used_run-le-width (free ∷ bs) = omega arith
used_run-le-width (used n ∷ bs) = omega (arith, used_run-le-width bs)

-- The blocks from `i` on say nothing of the chunks below `i`, and those below nothing of the rest.
pub IsUsed-other :
    (c c' : Chunks) (i n : ℕ)
    → ((j : ℕ) → i ≤ j → j < i + n → c' j ≡ c j)
    → IsUsed c i n
    → IsUsed c' i n
IsUsed-other c c' i n same v =
    let at_first = same i (omega arith) (omega (arith, v.some_chunk)) in
    let at_last = same (i + n - 1) (omega (arith, v.some_chunk)) (omega (arith, v.some_chunk)) in
    record {
      some_chunk = v.some_chunk;
      first = ap (λ m. m.is_free) at_first ∙ v.first;
      first_size = ap (λ m. m.size) at_first ∙ v.first_size;
      last = ap (λ m. m.is_free) at_last ∙ v.last;
      last_size = ap (λ m. m.size) at_last ∙ v.last_size;
      inner = λ j b h. ap (λ m. m.is_free) (same j (omega arith) (omega arith)) ∙ v.inner j b h;
    }

pub Ahead-other :
    (c c' : Chunks) (i : ℕ) (bs : List Block)
    → ((j : ℕ) → i ≤ j → c' j ≡ c j)
    → Ahead c i bs
    → Ahead c' i bs
Ahead-other c c' i [] same h = h
Ahead-other c c' i (free ∷ bs) same h = (
  subst (λ m. IsFree m (suc (free_run bs))) (sym (same i (omega arith))) h.0,
  Ahead-other c c' (i + 1) bs (λ j b. same j (omega arith)) h.1,
)
Ahead-other c c' i (used n ∷ bs) same h = (
  IsUsed-other c c' i n (λ j b k. same j b) h.0,
  ap (λ m. m.total_size) (same i (omega arith)) ∙ h.1,
  Ahead-other c c' (i + n) bs (λ j b. same j (omega arith)) h.2,
)

pub Behind-other :
    (c c' : Chunks) (i : ℕ) (bs : List Block) (f u : ℕ)
    → ((j : ℕ) → j < i → c' j ≡ c j)
    → Behind c i bs f u
    → Behind c' i bs f u
Behind-other c c' i [] f u same h = h
Behind-other c c' i (free ∷ bs) f u same h = (
  h.0,
  subst (λ m. IsFree m (suc f)) (sym (same (i - 1) (omega arith))) h.1,
  Behind-other c c' (i - 1) bs (suc f) 0 (λ j b. same j (omega arith)) h.2,
)
Behind-other c c' i (used n ∷ bs) f u same h = (
  h.0,
  IsUsed-other c c' (i - n) n (λ j b k. same j (omega arith)) h.1,
  ap (λ m. m.total_size) (same (i - n) (omega (arith, h.1.some_chunk))) ∙ h.2,
  Behind-other c c' (i - n) bs 0 (n + u) (λ j b. same j (omega arith)) h.3,
)

-- The list whose blocks before a point are `bs`, nearest first, and behind it `ds`.
abbrev pub unwind : List Block → List Block → List Block
unwind [] ds = ds
unwind (b ∷ bs) ds = unwind bs (b ∷ ds)

-- A point between the blocks before it and those behind it.
abbrev pub At : Chunks → ℕ → List Block → List Block → Type 0
At c i bs ds = Behind c i bs (free_run ds) (used_run ds) × Ahead c i ds

forward :
    (c : Chunks) (i : ℕ) (b : Block) (bs ds : List Block)
    → At c i bs (b ∷ ds)
    → At c (i + chunks_of b) (b ∷ bs) ds
forward c i free bs ds (h, (free_here, later)) =
    let e : i + 1 - 1 ≡ i = omega arith in ((omega arith, rw e free_here, rw e h), later)
forward c i (used n) bs ds (h, (used_here, total, later)) =
    let e : i + n - n ≡ i = omega arith in
    ((omega arith, rw e used_here, rw e total, rw e h), later)

backward :
    (c : Chunks) (i : ℕ) (b : Block) (bs ds : List Block)
    → At c i (b ∷ bs) ds
    → At c (i - chunks_of b) bs (b ∷ ds)
backward c i free bs ds ((inside, free_here, h), later) =
    let e : i - 1 + 1 ≡ i = omega arith in (h, (free_here, rw e later))
backward c i (used n) bs ds ((inside, used_here, total, h), later) =
    let e : i - n + n ≡ i = omega arith in (h, (used_here, total, rw e later))

At-Holds : (c : Chunks) (i : ℕ) (bs ds : List Block) → At c i bs ds → Holds c (unwind bs ds)
At-Holds c i [] ds (h, later) = subst (λ k. Ahead c k ds) h later
At-Holds c i (b ∷ bs) ds h = At-Holds c (i - chunks_of b) bs (b ∷ ds) (backward c i b bs ds h)

Holds-At : (c : Chunks) (bs ds : List Block) → Holds c (unwind bs ds) → At c (width bs) bs ds
Holds-At c [] ds h = (refl, h)
Holds-At c (b ∷ bs) ds h =
    subst (λ i. At c i (b ∷ bs) ds) (omega arith)
      (forward c (width bs) b bs ds (Holds-At c bs (b ∷ ds) h))

-- The blocks before a point, from the nearest to the first.
abbrev pub flip : List Block → List Block
flip xs = unwind xs []

unwind-unwind : (xs bs ds : List Block) → unwind (unwind xs bs) ds ≡ unwind bs (xs ++ ds)
unwind-unwind [] bs ds = refl
unwind-unwind (a ∷ xs) bs ds = unwind-unwind xs (a ∷ bs) ds

width-unwind : (xs bs : List Block) → width (unwind xs bs) ≡ width xs + width bs
width-unwind [] bs = omega arith
width-unwind (a ∷ xs) bs = omega (arith, width-unwind xs (a ∷ bs))

pub At-Holds_append :
    (c : Chunks) (i : ℕ) (xs ds : List Block) → At c i (flip xs) ds → Holds c (xs ++ ds)
At-Holds_append c i xs ds h = subst (Holds c) (unwind-unwind xs [] ds) (At-Holds c i (flip xs) ds h)

pub Holds-At_append :
    (c : Chunks) (xs ds : List Block) → Holds c (xs ++ ds) → At c (width xs) (flip xs) ds
Holds-At_append c xs ds h =
    subst (λ i. At c i (flip xs) ds) (omega (arith, width-unwind xs []))
      (Holds-At c (flip xs) ds (subst (Holds c) (sym (unwind-unwind xs [] ds)) h))
