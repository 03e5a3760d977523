-- ===== src/Queue/Sorted.antt =====
-- `queue_put_sort`: an insertion that keeps the order of the comparison.
use mathlib.Core.List.{Perm}
use mathlib.Core.List.Perm
use operativsystemer.Base.{
  ℕ, zero, suc, ◌<◌, ◌≡◌, ◌≢◌, refl, Bool, true, false, ◌||◌, inl, inr, some, List, [], ◌∷◌, ◌++◌,
  append-nil, append_assoc, subst, arith, ◌==◌, Bool-cases, if◌then◌else◌, length,
}
use operativsystemer.Queue.{Ptr, null, Heap, queue_put, put_sort_loop, queue_put_sort}
use operativsystemer.Queue.Access.{get_next-ok}
use operativsystemer.Queue.Chain.{
  has, ◌∉◌, Distinct, Chain, IsQueue, prev-has, has-append, Distinct-left, Distinct-right,
  Distinct-parts, Distinct-insert, Chain-split, Chain-join, frame, first, next-first,
}
use operativsystemer.Queue.Refine.{put_heap, queue_put_lem, put_heap-Chain, queue_put-snoc}

-- In front of the first item that `e` may precede, else at the end.
unfoldable pub insert_sorted : (Ptr → Ptr → Bool) → Ptr → List Ptr → List Ptr
insert_sorted lte e [] = e ∷ []
insert_sorted lte e (y ∷ ys) = if lte e y then e ∷ y ∷ ys else y ∷ insert_sorted lte e ys

module _ (h : Heap) (q : Ptr) (xs : List Ptr) (y : Ptr) (ys : List Ptr) (e : Ptr)
    (v : IsQueue h q (xs ++ y ∷ ys)) (n : e ≢ null) (out : e ∉ (q ∷ (xs ++ y ∷ ys))) where
  parts : Chain h q xs y × Chain h y ys q
  parts = Chain-split h q xs y ys q v.circle

  disjoint : (p : Ptr) → has p (q ∷ xs) ≡ true → has p (y ∷ ys) ≡ false
  disjoint p = Distinct-parts p (q ∷ xs) (y ∷ ys) v.apart

  out_parts : (e ∉ (q ∷ xs)) × (e ∉ (y ∷ ys))
  out_parts = ground (arith, has-append e xs (y ∷ ys))

  real_parts : (null ∉ (q ∷ xs)) × (null ∉ (y ∷ ys))
  real_parts = ground (arith, v.real, has-append null xs (y ∷ ys))

  before-real : (h.prev y ≢ null) × (e ≢ h.prev y)
  before-real = ground (arith, prev-has h q xs y parts.0, out_parts, real_parts)

  middle-out : (y ≢ q) × (y ∉ xs)
  middle-out = ground (arith, disjoint y)

  -- `queue_put(y, e)` at an item `y` in the middle puts `e` before it.
  put-before : (g : Heap) × (queue_put y e h ≡ some (tt, g)) × IsQueue g q (xs ++ e ∷ y ∷ ys)
  put-before = (
    g,
    queue_put_lem h y e (ground (arith, real_parts)) n before-real.0 before-real.1
        (ground (arith, out_parts)),
    record {
      circle = circle;
      apart = Distinct-insert e (q ∷ xs) (y ∷ ys) v.apart out;
      real = ground (arith, v.real, has-append null xs (y ∷ ys), has-append null xs (e ∷ y ∷ ys));
    },
  )
    where
      g : Heap
      g = put_heap h y e

      right : Distinct (y ∷ ys)
      right = Distinct-right (q ∷ xs) (y ∷ ys) v.apart

      back : Chain g y ys q
      back =
          frame h g y ys q parts.1
            (λ p i. ground (arith, prev-has h q xs y parts.0, out_parts, disjoint p))
            (λ p i. ground (arith, has-append p ys (q ∷ []), out_parts, right, middle-out))

      circle : Chain g q (xs ++ e ∷ y ∷ ys) q
      circle =
          subst (λ l. Chain g q l q) (append_assoc xs (e ∷ []) (y ∷ ys))
            (Chain-join g q (xs ++ e ∷ []) y ys q
              (put_heap-Chain h q xs y e parts.0 out_parts.0 (ground (arith, out_parts))
                (Distinct-left (q ∷ xs) (y ∷ ys) v.apart) middle-out.1)
              back)

put_sort_loop-insert :
    (lte : Ptr → Ptr → Bool) (fuel : ℕ) (h : Heap) (q e : Ptr) (xs ys : List Ptr)
    → IsQueue h q (xs ++ ys)
    → e ≢ null
    → e ∉ (q ∷ (xs ++ ys))
    → length ys < fuel
    → (g : Heap) × (put_sort_loop lte fuel q e (first ys q) h ≡ some (tt, g))
      × IsQueue g q (xs ++ insert_sorted lte e ys)
unfolding put_sort_loop insert_sorted
put_sort_loop-insert lte zero h q e xs ys v n out f = absurd (omega arith)
put_sort_loop-insert lte (suc fuel) h q e xs [] v n out f =
    let stop : ((q == null) || (q == q)) ≡ true = ground arith in
    rw stop (
      subst (λ l. (g : Heap) × (queue_put q e h ≡ some (tt, g)) × IsQueue g q (l ++ e ∷ []))
        (append-nil xs) (queue_put-snoc h q (xs ++ []) e v n out))
put_sort_loop-insert lte (suc fuel) h q e xs (y ∷ ys) v n out f =
    rw go (elim (Bool-cases (lte e y)) [
      | inl here ↦ rw here (put-before h q xs y ys e v n out)
      | inr on ↦
          rw
            (
              on,
              get_next-ok y (ground (arith, real_parts h q xs y ys e v n out)),
              next-first h y ys q (parts h q xs y ys e v n out).1,
              ← append_assoc xs (y ∷ []) (insert_sorted lte e ys),
            )
            (put_sort_loop-insert lte fuel h q e (xs ++ y ∷ []) ys
              (rw (append_assoc xs (y ∷ []) ys) v) n (rw (append_assoc xs (y ∷ []) ys) out)
              (omega arith))
    ])
  where
    go : ((y == null) || (y == q)) ≡ false
    go = ground (arith, real_parts h q xs y ys e v n out, middle-out h q xs y ys e v n out)

-- Every item may precede all that stand behind it.
abbrev pub All : (Ptr → Type 0) → List Ptr → Type 0
All P [] = Unit {0}
All P (x ∷ xs) = P x × All P xs

abbrev pub IsSorted : (Ptr → Ptr → Bool) → List Ptr → Type 0
IsSorted lte [] = Unit {0}
IsSorted lte (x ∷ xs) = All (λ y. lte x y ≡ true) xs × IsSorted lte xs

module _ (lte : Ptr → Ptr → Bool) (total : (a b : Ptr) → (lte a b || lte b a) ≡ true)
    (trans : (a b c : Ptr) → lte a b ≡ true → lte b c ≡ true → lte a c ≡ true) (e : Ptr) where
  All-insert :
      (x : Ptr) (ys : List Ptr)
      → lte x e ≡ true
      → All (λ y. lte x y ≡ true) ys
      → All (λ y. lte x y ≡ true) (insert_sorted lte e ys)
  unfolding insert_sorted
  All-insert x [] p a = (p, tt)
  All-insert x (y ∷ ys) p a = ground (arith, All-insert x ys p a.1)

  All-mono :
      (y : Ptr) (ys : List Ptr)
      → lte e y ≡ true
      → All (λ z. lte y z ≡ true) ys
      → All (λ z. lte e z ≡ true) ys
  All-mono y [] p a = tt
  All-mono y (z ∷ zs) p a = (trans e y z p a.0, All-mono y zs p a.1)

  pub insert_sorted-IsSorted :
      (xs : List Ptr) → IsSorted lte xs → IsSorted lte (insert_sorted lte e xs)
  unfolding insert_sorted
  insert_sorted-IsSorted [] s = (tt, tt)
  insert_sorted-IsSorted (y ∷ ys) s = elim (Bool-cases (lte e y)) [
    | inl p ↦ rw p ((p, All-mono y ys p s.0), s)
    | inr p ↦ rw p (All-insert y ys (ground (arith, total e y)) s.0, insert_sorted-IsSorted ys s.1)
  ]

pub has-insert_sorted :
    (lte : Ptr → Ptr → Bool) (p e : Ptr) (xs : List Ptr)
    → has p (insert_sorted lte e xs) ≡ ((p == e) || has p xs)
unfolding insert_sorted
has-insert_sorted lte p e [] = refl
has-insert_sorted lte p e (y ∷ ys) = ground (arith, has-insert_sorted lte p e ys)

pub insert_sorted-Distinct :
    (lte : Ptr → Ptr → Bool) (e : Ptr) (xs : List Ptr)
    → Distinct xs
    → e ∉ xs
    → Distinct (insert_sorted lte e xs)
unfolding insert_sorted
insert_sorted-Distinct lte e [] d o = (refl, tt)
insert_sorted-Distinct lte e (y ∷ ys) d o =
    ground (arith, has-insert_sorted lte y e ys, insert_sorted-Distinct lte e ys d.1)

pub insert_sorted-All :
    (P : Ptr → Type 0) (lte : Ptr → Ptr → Bool) (e : Ptr) (xs : List Ptr)
    → P e
    → All P xs
    → All P (insert_sorted lte e xs)
unfolding insert_sorted
insert_sorted-All P lte e [] p a = (p, tt)
insert_sorted-All P lte e (y ∷ ys) p a = elim (Bool-cases (lte e y)) [
  | inl h ↦ rw h (p, a)
  | inr h ↦ rw h (a.0, insert_sorted-All P lte e ys p a.1)
]

insert_sorted-perm :
    (lte : Ptr → Ptr → Bool) (e : Ptr) (xs : List Ptr) → Perm (insert_sorted lte e xs) (e ∷ xs)
unfolding insert_sorted
insert_sorted-perm lte e [] = Perm.refl (e ∷ [])
insert_sorted-perm lte e (y ∷ ys) = elim (Bool-cases (lte e y)) [
  | inl p ↦ rw p (Perm.refl (e ∷ y ∷ ys))
  | inr p ↦ rw p (Perm.trans (Perm.cons y (insert_sorted-perm lte e ys)) (Perm.swap e y ys))
]

-- For a total and transitive comparison, `queue_put_sort` of a node that is not in the queue ends
-- without a fault and leaves the queue with the old items and the new one, sorted if it was sorted.
pub queue_put_sort-IsSorted :
    (lte : Ptr → Ptr → Bool)
    → ((a b : Ptr) → (lte a b || lte b a) ≡ true)
    → ((a b c : Ptr) → lte a b ≡ true → lte b c ≡ true → lte a c ≡ true)
    → (fuel : ℕ) (h : Heap) (q e : Ptr) (xs : List Ptr) → IsQueue h q xs
    → e ≢ null
    → e ∉ (q ∷ xs)
    → length xs < fuel
    → IsSorted lte xs
    → (g : Heap) × (ys : List Ptr) × (queue_put_sort lte fuel q e h ≡ some (tt, g))
      × IsQueue g q ys
      × Perm ys (e ∷ xs)
      × IsSorted lte ys
unfolding queue_put_sort
queue_put_sort-IsSorted lte total trans fuel h q e xs v n out f s =
    let (g, run, v') = put_sort_loop-insert lte fuel h q e [] xs v n out f in
    (
      g,
      insert_sorted lte e xs,
      rw (get_next-ok q (ground (arith, v.real)), next-first h q xs q v.circle) run,
      v',
      insert_sorted-perm lte e xs,
      insert_sorted-IsSorted lte total trans e xs s,
    )
