-- ===== src/Allocator/Start.antt =====
-- allocator_init of cos318-project5/usb/allocator.c, and a block that is taken and given back.
use operativsystemer.Base.{
  ℕ, zero, suc, ◌+◌, ◌-◌, ◌/◌, ◌^◌, ◌≤◌, ◌<◌, ◌≡◌, ◌≢◌, refl, sym, subst, ◌∙◌, ap, Option, some,
  List, arith, ==_ne, ==_refl, ltb, ltb→lt, Bool-cases, inl, inr, replicate,
}
use operativsystemer.Allocator.{
  Chunks, Heap, chunk_num, chunk_size, chunks_for, init_chunks, allocator_init, kzalloc_align,
  kfree,
}
use operativsystemer.Allocator.Blocks.{Block, free, Ahead, Holds, IsFree, free_run}
use operativsystemer.Allocator.Alloc.{Result, kzalloc_align-Result}
use operativsystemer.Allocator.Free.{kfree-Holds}

init_chunks-IsFree :
    (n : ℕ) (c : Chunks) (j : ℕ) → j < n → IsFree (init_chunks n c j) (chunk_num - j)
unfolding init_chunks
init_chunks-IsFree zero c j h = absurd (omega arith)
init_chunks-IsFree (suc n) c j h = elim (Bool-cases (ltb j n)) [
  | inl below ↦
      rw (==_ne j n (λ e. absurd (ground arith))) (init_chunks-IsFree n c j (ltb→lt j n below))
  | inr last ↦
      let e : j ≡ n = ground arith in rw (e, ==_refl n) (record { marked = refl; total = refl })
]

init_chunks-behind : (n : ℕ) (c : Chunks) (j : ℕ) → n ≤ j → init_chunks n c j ≡ c j
unfolding init_chunks
init_chunks-behind zero c j h = refl
init_chunks-behind (suc n) c j h =
    rw (==_ne j n (λ e. absurd (omega arith))) (init_chunks-behind n c j (omega arith))

free_run-all : (n : ℕ) → free_run (replicate n free) ≡ n
free_run-all zero = refl
free_run-all (suc n) = ap suc (free_run-all n)

Ahead-all :
    (n i : ℕ) (c : Chunks)
    → i + n ≡ chunk_num
    → ((j : ℕ) → j < chunk_num → IsFree (c j) (chunk_num - j))
    → Ahead c i (replicate n free)
Ahead-all zero i c e h = omega arith
Ahead-all (suc n) i c e h = (
  subst (IsFree (c i)) (omega (arith, free_run-all n)) (h i (omega arith)),
  Ahead-all n (i + 1) c (omega arith) h,
)

-- After `allocator_init`, all chunks are free, and the word behind the array is as it was.
pub allocator_init-Holds :
    (n : ℕ) (h : Heap)
    → n ≡ chunk_num
    → Holds (allocator_init h).chunks (replicate n free)
      × ((allocator_init h).chunks chunk_num ≡ h.chunks chunk_num)
unfolding allocator_init
allocator_init-Holds n h e = (
  Ahead-all n 0 (init_chunks chunk_num h.chunks) (omega arith)
      (init_chunks-IsFree chunk_num h.chunks),
  init_chunks-behind chunk_num h.chunks chunk_num (omega arith),
)

kfree-Result :
    (req align ptr : ℕ) (bs : List Block) (h h' : Heap)
    → Result req align bs h (some ptr) h'
    → (h'' : Heap) × (kfree ptr h' ≡ some h'') × Holds h''.chunks bs × (h''.bytes ≡ h'.bytes)
kfree-Result req align ptr bs h h' (xs, ys, split, at, al, first, held, kept, zeroed) =
    let (h'', freed, v, bytes) = kfree-Holds h' xs ys req held in
    (h'', ap (λ p. kfree p h') at ∙ freed, subst (Holds h''.chunks) (sym split) v, bytes)

-- A block that `kzalloc_align` gave can be given back by `kfree` of its pointer, and then the array
-- stands for the blocks that it stood for before.
pub kfree-kzalloc_align :
    (h h' : Heap) (bs : List Block) (size alignment ptr : ℕ)
    → Holds h.chunks bs
    → (h.chunks chunk_num).is_free ≢ 0
    → size < 2 ^ 31
    → alignment < 2 ^ 31
    → kzalloc_align size alignment h ≡ some (some ptr, h')
    → (h'' : Heap) × (kfree ptr h' ≡ some h'') × Holds h''.chunks bs × (h''.bytes ≡ h'.bytes)
kfree-kzalloc_align h h' bs size alignment ptr v behind small small' given =
    let (r, h₁, e, result) = kzalloc_align-Result h bs size alignment v behind small small' in
    let same_result : ◌≡◌ {A = Option ℕ × Heap} (r, h₁) (some ptr, h') = cc (e, given) in
    let same : Result (chunks_for size) (alignment / chunk_size) bs h (some ptr) h' =
      subst
        (λ (s : Option ℕ × Heap). Result (chunks_for size) (alignment / chunk_size) bs h s.0 s.1)
        {x = (r, h₁)} {y = (some ptr, h')} same_result result in
    kfree-Result (chunks_for size) (alignment / chunk_size) ptr bs h h' same
