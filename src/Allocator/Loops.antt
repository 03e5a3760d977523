-- ===== src/Allocator/Loops.antt =====
-- The loops of cos318-project5/usb/allocator.c that keep the sizes of the used and of the free space
-- before a chunk: update_allocated and update_free.
use operativsystemer.Base.{
  ℕ, zero, suc, ◌+◌, ◌-◌, ◌^◌, ◌≤◌, ◌<◌, ◌≡◌, ◌≢◌, refl, sym, subst, ◌∙◌, ap, some, List, [], ◌∷◌,
  arith, ==_ne, ==_refl, lt→ltb, ltb, ltb→lt, Bool-cases, inl, inr,
}
use native.Mathlib.Nat.{add-zero}
use operativsystemer.Allocator.{
  Chunks, chunk_num, wrap, set_total, update_allocated, update_free, update_previous,
}
use operativsystemer.Allocator.Blocks.{
  Block, free, used, Behind, Behind-other, IsFree, IsUsed, IsUsed-other,
}

pub set_total-other : (i t : ℕ) (c : Chunks) (j : ℕ) → j ≢ i → set_total i t c j ≡ c j
set_total-other i t c j ne = rw (==_ne j i ne)

pub set_total-here : (i t : ℕ) (c : Chunks) → (set_total i t c i).total_size ≡ t
set_total-here i t c = rw (==_refl i)

pub set_total-is_free : (i t : ℕ) (c : Chunks) (j : ℕ) → (set_total i t c j).is_free ≡ (c j).is_free
set_total-is_free i t c j = ground arith

pub set_total-size : (i t : ℕ) (c : Chunks) (j : ℕ) → (set_total i t c j).size ≡ (c j).size
set_total-size i t c j = ground arith

IsUsed-set_total : (i n t : ℕ) (c : Chunks) → IsUsed c i n → IsUsed (set_total i t c) i n
IsUsed-set_total i n t c v = record {
  some_chunk = v.some_chunk;
  first = set_total-is_free i t c i ∙ v.first;
  first_size = set_total-size i t c i ∙ v.first_size;
  last = set_total-is_free i t c (i + n - 1) ∙ v.last;
  last_size = set_total-size i t c (i + n - 1) ∙ v.last_size;
  inner = λ j b h. set_total-is_free i t c j ∙ v.inner j b h;
}

pub update_free-other : (i t : ℕ) (c : Chunks) (j : ℕ) → i ≤ j → update_free i t c j ≡ c j
unfolding update_free
update_free-other zero t c j h = refl
update_free-other (suc i) t c j h = ground (
  arith,
  update_free-other i (wrap (t + 1)) (set_total i (wrap (t + 1)) c) j,
  set_total-other i (wrap (t + 1)) c j,
)

update_free-step :
    (i t : ℕ) (c : Chunks)
    → t + 1 < 2 ^ 32
    → (c i).is_free ≡ 1
    → update_free (suc i) t c ≡ update_free i (suc t) (set_total i (suc t) c)
unfolding update_free
update_free-step i t c small h = let e : wrap (t + 1) ≡ suc t = omega arith in rw (h, e)

update_free-stop : (i t : ℕ) (c : Chunks) → (c i).is_free ≡ 0 → update_free (suc i) t c ≡ c
unfolding update_free
update_free-stop i t c h = rw h

-- The last chunk of the blocks before `i`.
Behind-used :
    (i n : ℕ) (c : Chunks) (bs : List Block) (f u : ℕ)
    → Behind c (suc i) (used n ∷ bs) f u
    → (c i).is_free ≡ 0
Behind-used i n c bs f u h =
    let e : suc i - n + n - 1 ≡ i = omega (arith, h.0, h.1.some_chunk) in
    subst (λ j. (c j).is_free ≡ 0) e h.1.last

-- The sizes of the free chunks before `i` become right where `t` free chunks follow.
pub update_free-Behind :
    (i t : ℕ) (c : Chunks) (bs : List Block) (f u : ℕ)
    → t + i < 2 ^ 32
    → Behind c i bs f u
    → Behind (update_free i t c) i bs t u
unfolding update_free
update_free-Behind zero t c [] f u small h = h
update_free-Behind zero t c (free ∷ bs) f u small h = absurd (omega (arith, h.0))
update_free-Behind zero t c (used n ∷ bs) f u small h = absurd (omega (arith, h.0, h.1.some_chunk))
update_free-Behind (suc i) t c [] f u small h = absurd (omega arith)
update_free-Behind (suc i) t c (used n ∷ bs) f u small h =
    subst (λ r. Behind r (suc i) (used n ∷ bs) t u)
      (sym (update_free-stop i t c (Behind-used i n c bs f u h))) h
update_free-Behind (suc i) t c (free ∷ bs) f u small (pos, here, before) =
    subst (λ r. Behind r (suc i) (free ∷ bs) t u)
      (sym (update_free-step i t c (omega arith) marked))
      (
        omega arith,
        rw (e, update_free-other i (suc t) filled i (omega arith))
            (record {
              marked = set_total-is_free i (suc t) c i ∙ marked;
              total = set_total-here i (suc t) c;
            }),
        subst (λ k. Behind (update_free i (suc t) filled) k bs (suc t) 0) (sym e)
            (update_free-Behind i (suc t) filled bs (suc f) 0 (omega arith) (
              Behind-other c filled i bs (suc f) 0
                (λ j k. set_total-other i (suc t) c j (omega arith))
                (subst (λ k. Behind c k bs (suc f) 0) e before))),
      )
  where
    e : suc i - 1 ≡ i
    e = omega arith

    marked : (c i).is_free ≡ 1
    marked = rw e at here.marked

    filled : Chunks
    filled = set_total i (suc t) c

update_allocated-step :
    (fuel i n t : ℕ) (c : Chunks)
    → 1 ≤ n
    → n ≤ i
    → i < 2 ^ 32
    → n + t < 2 ^ 32
    → (c (i - 1)).is_free ≡ 0
    → (c (i - 1)).size ≡ n
    → (c (i - n)).size ≡ n
    → update_allocated (suc fuel) i t c
      ≡ update_allocated fuel (i - n) (n + t) (set_total (i - n) (n + t) c)
unfolding update_allocated
update_allocated-step fuel i n t c some_chunk inside small sum_small last last_size first_size =
    rw (lt→ltb 0 i (omega arith), last, last_size, at, first_size, total)
  where
    at : wrap (i + 2 ^ 32 - n) ≡ i - n
    at = omega arith

    total : wrap (t + n) ≡ n + t
    total = omega arith

update_allocated-stop :
    (fuel i t : ℕ) (c : Chunks)
    → (c (i - 1)).is_free ≡ 1
    → update_allocated (suc fuel) i t c ≡ some c
unfolding update_allocated
update_allocated-stop fuel i t c h = elim (Bool-cases (ltb 0 i)) [
  | inl pos ↦ rw (pos, h)
  | inr start ↦ rw start
]

-- The sizes of the blocks in use before `i` become right where `t` chunks in use follow.
pub update_allocated-Behind :
    (fuel i t : ℕ) (c : Chunks) (bs : List Block) (f u : ℕ)
    → i < fuel
    → t + i < 2 ^ 32
    → Behind c i bs f u
    → (c' : Chunks) × (update_allocated fuel i t c ≡ some c')
      × Behind c' i bs f t
      × ((j : ℕ) → i ≤ j → c' j ≡ c j)
unfolding update_allocated
update_allocated-Behind zero i t c bs f u enough small h = absurd (omega arith)
update_allocated-Behind (suc fuel) i t c [] f u enough small h = (c, rw h, h, λ j b. refl)
update_allocated-Behind (suc fuel) i t c (free ∷ bs) f u enough small h =
    (c, update_allocated-stop fuel i t c h.1.marked, h, λ j b. refl)
update_allocated-Behind (suc fuel) i t c (used n ∷ bs) f u enough small (inside, here, total, h) =
    let (c', e, v, same) =
      update_allocated-Behind fuel (i - n) (n + t) filled bs 0 (n + u) fewer (omega arith) before in
    (
      c',
      update_allocated-step fuel i n t c some_chunk inside (omega arith) (omega arith) last
            last_size first_size
          ∙ e,
      (
        inside,
        IsUsed-other filled c' (i - n) n (λ j b k. same j b)
            (IsUsed-set_total (i - n) n (n + t) c here),
        ap (λ m. m.total_size) (same (i - n) (omega arith)) ∙ set_total-here (i - n) (n + t) c,
        v,
      ),
      λ j b. same j (omega arith) ∙ set_total-other (i - n) (n + t) c j (omega arith),
    )
  where
    open here use {some_chunk, first_size}

    filled : Chunks
    filled = set_total (i - n) (n + t) c

    fewer : i - n < fuel
    fewer = omega (arith, here.some_chunk)

    before : Behind filled (i - n) bs 0 (n + u)
    before =
        Behind-other c filled (i - n) bs 0 (n + u)
          (λ j k. set_total-other (i - n) (n + t) c j (omega arith)) h

    e : i - n + n - 1 ≡ i - 1
    e = omega (arith, here.some_chunk)

    last : (c (i - 1)).is_free ≡ 0
    last = subst (λ j. (c j).is_free ≡ 0) e here.last

    last_size : (c (i - 1)).size ≡ n
    last_size = subst (λ j. (c j).size ≡ n) e here.last_size

-- The sizes before a block at `i` that is now in use become right.
pub update_previous-Behind :
    (i : ℕ) (c : Chunks) (bs : List Block) (f u : ℕ)
    → i ≤ chunk_num
    → (c i).total_size ≤ chunk_num
    → Behind c i bs f u
    → (c' : Chunks) × (update_previous i c ≡ some c')
      × Behind c' i bs 0 (c i).total_size
      × ((j : ℕ) → i ≤ j → c' j ≡ c j)
unfolding update_previous
update_previous-Behind i c [] f u inside total h = (c, rw h, h, λ j b. refl)
update_previous-Behind i c (free ∷ bs) f u inside total h = (
  update_free i 0 c,
  rw (lt→ltb 0 i h.0, h.1.marked),
  update_free-Behind i 0 c (free ∷ bs) f u (omega arith) h,
  λ j b. update_free-other i 0 c j b,
)
update_previous-Behind i c (used n ∷ bs) f u inside total h =
    let (c', e, v, same) =
      update_allocated-Behind (chunk_num + 1) i (c i).total_size c (used n ∷ bs) f u (omega arith)
        (omega arith) h in
    (c', rw (lt→ltb 0 i pos, last) e, v, same)
  where
    pos : 0 < i
    pos = omega (arith, h.0, h.1.some_chunk)

    last : (c (i - 1)).is_free ≡ 0
    last =
        subst (λ j. (c j).is_free ≡ 0)
          (let e : i - n + n - 1 ≡ i - 1 = omega (arith, h.0, h.1.some_chunk) in e) h.1.last

-- `update_free` walks over the free chunks from `i` to `i + n`, and goes on before `i`.
pub update_free-fill :
    (n i t : ℕ) (c : Chunks)
    → t + n < 2 ^ 32
    → ((j : ℕ) → i ≤ j → j < i + n → (c j).is_free ≡ 1)
    → (c' : Chunks) × (update_free (i + n) t c ≡ update_free i (t + n) c')
      × ((j : ℕ) → i ≤ j → j < i + n → IsFree (c' j) (t + (i + n - j)))
      × ((j : ℕ) → j < i → c' j ≡ c j)
      × ((j : ℕ) → i + n ≤ j → c' j ≡ c j)
update_free-fill zero i t c small marked =
    (c, rw (add-zero, add-zero), λ j b h. absurd (omega arith), λ j h. refl, λ j h. refl)
update_free-fill (suc n) i t c small marked =
    let (c', e, filled, below, above) =
      update_free-fill n i (suc t) here (omega arith)
        (λ j b h. set_total-is_free (i + n) (suc t) c j ∙ marked j b (omega arith)) in
    (
      c',
      ap (λ k. update_free k t c) last
          ∙ update_free-step (i + n) t c (omega arith) (marked (i + n) (omega arith) (omega arith))
          ∙ e
          ∙ ap (λ k. update_free i k c') (omega arith),
      λ j b h. elim (Bool-cases (ltb j (i + n))) [
        | inl inside ↦ subst (IsFree (c' j)) (omega arith) (filled j b (ltb→lt j (i + n) inside))
        | inr end ↦
            let at : j ≡ i + n = ground arith in
            rw (at, above (i + n) (omega arith))
              (record {
                marked =
                    set_total-is_free (i + n) (suc t) c (i + n)
                    ∙ marked (i + n) (omega arith) (omega arith);
                total = set_total-here (i + n) (suc t) c ∙ omega arith;
              })
      ],
      λ j h. below j h ∙ set_total-other (i + n) (suc t) c j (omega arith),
      λ j h. above j (omega arith) ∙ set_total-other (i + n) (suc t) c j (omega arith),
    )
  where
    here : Chunks
    here = set_total (i + n) (suc t) c

    last : i + suc n ≡ suc (i + n)
    last = omega arith
