-- ===== src/Queue/Chain.antt =====
-- What a queue of queue.c stands for: the items between the sentinel and itself.
use operativsystemer.Base.{
  ◌≡◌, ◌≢◌, refl, Bool, true, false, ◌||◌, List, [], ◌∷◌, ◌++◌, arith, ◌==◌,
}
use operativsystemer.Queue.{Ptr, null, Heap}

abbrev pub has : Ptr → List Ptr → Bool
has a [] = false
has a (x ∷ xs) = (a == x) || has a xs

infix 40 ◌∉◌
abbrev pub ◌∉◌ : Ptr → List Ptr → Type 0
a ∉ xs = has a xs ≡ false

abbrev pub Distinct : List Ptr → Type 0
Distinct [] = Unit {0}
Distinct (x ∷ xs) = (x ∉ xs) × Distinct xs

-- `next` of `a` is `b`, and `prev` of `b` is `a`.
abbrev pub Link : Heap → Ptr → Ptr → Type 0
Link h a b = (h.next a ≡ b) × (h.prev b ≡ a)

-- From `a` the links lead through the items to `z`.
abbrev pub Chain : Heap → Ptr → List Ptr → Ptr → Type 0
Chain h a [] z = Link h a z
Chain h a (x ∷ xs) z = Link h a x × Chain h x xs z

-- The sentinel `q` heads a circle of distinct nodes, none of which is NULL.
pub record IsQueue (h : Heap) (q : Ptr) (xs : List Ptr) : Type 0 where
  pub circle : Chain h q xs q
  pub apart : Distinct (q ∷ xs)
  pub real : null ∉ (q ∷ xs)

-- The node that `z` points back to is the last of the chain.
pub prev-has :
    (h : Heap) (a : Ptr) (xs : List Ptr) (z : Ptr) → Chain h a xs z → has (h.prev z) (a ∷ xs) ≡ true
prev-has h a [] z c = ground arith
prev-has h a (x ∷ xs) z c = ground (arith, prev-has h x xs z c.1)

pub has-append : (a : Ptr) (xs ys : List Ptr) → has a (xs ++ ys) ≡ (has a xs || has a ys)
has-append a [] ys = refl
has-append a (x ∷ xs) ys = ground (arith, has-append a xs ys)

pub Distinct-snoc : (xs : List Ptr) (e : Ptr) → Distinct xs → e ∉ xs → Distinct (xs ++ e ∷ [])
Distinct-snoc [] e d o = ground arith
Distinct-snoc (x ∷ xs) e d o = ground (arith, Distinct-snoc xs e d.1, has-append x xs (e ∷ []))

-- A chain survives a change that spares the `next` of its start and items and the `prev` of its
-- items and its end.
pub frame :
    (h g : Heap) (a : Ptr) (xs : List Ptr) (z : Ptr)
    → Chain h a xs z
    → ((p : Ptr) → has p (a ∷ xs) ≡ true → g.next p ≡ h.next p)
    → ((p : Ptr) → has p (xs ++ z ∷ []) ≡ true → g.prev p ≡ h.prev p)
    → Chain g a xs z
frame h g a [] z c n p = ground (arith, n a, p z)
frame h g a (x ∷ xs) z c n p = (
  (ground (arith, n a), ground (arith, p x)),
  frame h g x xs z c.1 (λ b i. n b (ground arith)) (λ b i. p b (ground arith)),
)

pub Distinct-left : (xs ys : List Ptr) → Distinct (xs ++ ys) → Distinct xs
Distinct-left [] ys d = tt
Distinct-left (x ∷ xs) ys d = (ground (arith, has-append x xs ys), Distinct-left xs ys d.1)

pub Distinct-right : (xs ys : List Ptr) → Distinct (xs ++ ys) → Distinct ys
Distinct-right [] ys d = d
Distinct-right (x ∷ xs) ys d = Distinct-right xs ys d.1

-- No node stands in both parts of a distinct list.
pub Distinct-parts :
    (p : Ptr) (xs ys : List Ptr) → Distinct (xs ++ ys) → has p xs ≡ true → has p ys ≡ false
Distinct-parts p [] ys d i = cc
Distinct-parts p (x ∷ xs) ys d i = ground (arith, has-append x xs ys, Distinct-parts p xs ys d.1)

pub Distinct-join :
    (xs ys : List Ptr)
    → Distinct xs
    → Distinct ys
    → ((p : Ptr) → has p xs ≡ true → has p ys ≡ false)
    → Distinct (xs ++ ys)
Distinct-join [] ys d e o = e
Distinct-join (x ∷ xs) ys d e o =
    (ground (arith, has-append x xs ys, o x), Distinct-join xs ys d.1 e (λ p i. o p (ground arith)))

pub Distinct-insert :
    (e : Ptr) (xs ys : List Ptr) → Distinct (xs ++ ys) → e ∉ (xs ++ ys) → Distinct (xs ++ e ∷ ys)
Distinct-insert e [] ys d o = (o, d)
Distinct-insert e (x ∷ xs) ys d o = (
  ground (arith, has-append x xs ys, has-append x xs (e ∷ ys)),
  Distinct-insert e xs ys d.1 (ground arith),
)

module _ (h : Heap) where
  pub Chain-split :
      (a : Ptr) (xs : List Ptr) (y : Ptr) (ys : List Ptr) (z : Ptr)
      → Chain h a (xs ++ y ∷ ys) z
      → Chain h a xs y × Chain h y ys z
  Chain-split a [] y ys z c = c
  Chain-split a (x ∷ xs) y ys z c =
      let (front, back) = Chain-split x xs y ys z c.1 in ((c.0, front), back)

  pub Chain-join :
      (a : Ptr) (xs : List Ptr) (y : Ptr) (ys : List Ptr) (z : Ptr)
      → Chain h a xs y
      → Chain h y ys z
      → Chain h a (xs ++ y ∷ ys) z
  Chain-join a [] y ys z front back = (front, back)
  Chain-join a (x ∷ xs) y ys z front back = (front.0, Chain-join x xs y ys z front.1 back)

-- The first of the items, or the end where there is none.
abbrev pub first : List Ptr → Ptr → Ptr
first [] z = z
first (x ∷ xs) z = x

pub next-first :
    (h : Heap) (a : Ptr) (xs : List Ptr) (z : Ptr) → Chain h a xs z → h.next a ≡ first xs z
next-first h a [] z c = c.0
next-first h a (x ∷ xs) z c = c.0.0

pub first-ne_null : (xs : List Ptr) (z : Ptr) → null ∉ xs → z ≢ null → first xs z ≢ null
first-ne_null [] z o n = n
first-ne_null (x ∷ xs) z o n = ground arith
