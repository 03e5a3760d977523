-- ===== src/Queue/Refine.antt =====
-- queue.c implements first-in-first-out lists.
use operativsystemer.Base.{◌≡◌, ◌≢◌, some, List, [], ◌∷◌, ◌++◌, arith, ◌==◌, ==_refl, ==_ne}
use operativsystemer.Queue.{Ptr, null, Heap, update, queue_init, queue_get, queue_put, queue_empty}
use operativsystemer.Queue.Access.{get_prev-ok, get_next-ok, set_prev-ok, set_next-ok}
use operativsystemer.Queue.Chain.{
  ◌∉◌, Distinct, Chain, IsQueue, prev-has, has-append, Distinct-snoc, frame, first, next-first,
  first-ne_null,
}

-- The store after `queue_put(z, e)`.
abbrev pub put_heap : Heap → Ptr → Ptr → Heap
put_heap h z e = record {
  prev = update (update h.prev e (h.prev z)) z e;
  next = update (update h.next e z) (h.prev z) e;
}

pub queue_put_lem :
    (h : Heap) (z e : Ptr)
    → z ≢ null
    → e ≢ null
    → h.prev z ≢ null
    → e ≢ h.prev z
    → e ≢ z
    → queue_put z e h ≡ some (tt, put_heap h z e)
unfolding queue_put
queue_put_lem h z e nz ne nl el ez = simp (
  get_prev-ok z nz,
  set_prev-ok e ne,
  set_next-ok e ne,
  get_prev-ok e ne,
  ==_refl,
  set_next-ok (h.prev z) nl,
  get_next-ok e ne,
  ==_ne e (h.prev z) el,
  set_prev-ok z nz,
)

-- `queue_put(z, e)` puts `e` behind the last item of the chain that ends at `z`.
pub put_heap-Chain :
    (h : Heap) (a : Ptr) (xs : List Ptr) (z e : Ptr)
    → Chain h a xs z
    → e ∉ (a ∷ xs)
    → e ≢ z
    → Distinct (a ∷ xs)
    → z ∉ xs
    → Chain (put_heap h z e) a (xs ++ e ∷ []) z
put_heap-Chain h a [] z e c out ne d o = ground arith
put_heap-Chain h a (x ∷ xs) z e c out ne d o = (
  ground (arith, prev-has h x xs z c.1),
  put_heap-Chain h x xs z e c.1 (ground arith) ne (ground arith) (ground arith),
)

abbrev get_heap : Heap → Ptr → Heap
get_heap h x = record {
  prev = update h.prev (h.next x) (h.prev x);
  next = update h.next (h.prev x) (h.next x);
}

get_heap-Chain :
    (h : Heap) (q x : Ptr) (xs : List Ptr)
    → Chain h q (x ∷ xs) q
    → Distinct (q ∷ x ∷ xs)
    → Chain (get_heap h x) q xs q
get_heap-Chain h q x [] c d = ground arith
get_heap-Chain h q x (y ∷ ys) c d = (
  ground arith,
  frame h (get_heap h x) y ys q c.1.1 (λ b i. ground arith)
      (λ b i. ground (arith, has-append b ys (q ∷ []))),
)

-- `queue_init` makes the empty queue.
pub queue_init-IsQueue :
    (h : Heap) (q : Ptr) → q ≢ null → (g : Heap) × (queue_init q h ≡ some (tt, g)) × IsQueue g q []
unfolding queue_init
queue_init-IsQueue h q n = (
  record { prev = update h.prev q q; next = update h.next q q },
  simp (set_next-ok q n, set_prev-ok q n),
  record { circle = ground arith; apart = ground arith; real = ground arith },
)

pub put_heap-IsQueue :
    (h : Heap) (q : Ptr) (xs : List Ptr) (item : Ptr)
    → IsQueue h q xs
    → item ≢ null
    → item ∉ (q ∷ xs)
    → IsQueue (put_heap h q item) q (xs ++ item ∷ [])
put_heap-IsQueue h q xs item v n out = record {
  circle = put_heap-Chain h q xs q item v.circle out (ground arith) v.apart (ground arith);
  apart =
      (ground (arith, has-append q xs (item ∷ [])), Distinct-snoc xs item v.apart.1 (ground arith));
  real = ground (arith, has-append null xs (item ∷ []));
}

-- On a queue, `queue_put` of a node that is not in it succeeds and puts the node at the back.
pub queue_put-snoc :
    (h : Heap) (q : Ptr) (xs : List Ptr) (item : Ptr)
    → IsQueue h q xs
    → item ≢ null
    → item ∉ (q ∷ xs)
    → (g : Heap) × (queue_put q item h ≡ some (tt, g)) × IsQueue g q (xs ++ item ∷ [])
queue_put-snoc h q xs item v n out = (
  put_heap h q item,
  queue_put_lem h q item (ground arith) n (ground (arith, prev-has h q xs q v.circle))
      (ground (arith, prev-has h q xs q v.circle)) (ground arith),
  put_heap-IsQueue h q xs item v n out,
)

queue_get_lem :
    (h : Heap) (q x : Ptr)
    → q ≢ null
    → h.next q ≡ x
    → x ≢ q
    → x ≢ null
    → h.prev x ≢ null
    → h.next x ≢ null
    → x ≢ h.prev x
    → queue_get q h ≡ some (x, get_heap h x)
unfolding queue_get
queue_get_lem h q x nq e xq nx np nn xp = simp (
  get_next-ok q nq,
  e,
  ==_ne x q xq,
  get_prev-ok x nx,
  get_next-ok x nx,
  set_next-ok (h.prev x) np,
  ==_ne x (h.prev x) xp,
  set_prev-ok (h.next x) nn,
)

-- `queue_get` removes the front node and returns it.
pub queue_get-cons :
    (h : Heap) (q x : Ptr) (xs : List Ptr)
    → IsQueue h q (x ∷ xs)
    → (g : Heap) × (queue_get q h ≡ some (x, g)) × IsQueue g q xs
queue_get-cons h q x xs v = (
  get_heap h x,
  queue_get_lem h q x (ground arith) (ground arith) (ground arith) (ground arith) (ground arith)
      next_real (ground arith),
  record {
    circle = get_heap-Chain h q x xs v.circle v.apart;
    apart = ground arith;
    real = ground arith;
  },
)
  where
    next_real : h.next x ≢ null
    next_real =
        rw (next-first h x xs q v.circle.1) (first-ne_null xs q (ground arith) (ground arith))

-- On the empty queue `queue_get` returns NULL and changes nothing.
pub queue_get-nil : (h : Heap) (q : Ptr) → IsQueue h q [] → queue_get q h ≡ some (null, h)
unfolding queue_get
queue_get-nil h q v = simp (get_next-ok q (ground arith), v.circle.0, ==_refl)

pub queue_empty_lem :
    (h : Heap) (q : Ptr) (xs : List Ptr)
    → IsQueue h q xs
    → queue_empty q h ≡ some (first xs q == q, h)
unfolding queue_empty
queue_empty_lem h q xs v = simp (get_next-ok q (ground arith), next-first h q xs q v.circle)
