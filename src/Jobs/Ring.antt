-- ===== src/Jobs/Ring.antt =====
-- The ring of jobs as a list: the jobs behind `current_running`, in their order.
use operativsystemer.Base.{◌≡◌, ◌≢◌, refl, List, [], ◌∷◌, ◌++◌, arith, ==_ne, ==_refl}
use operativsystemer.Queue.{Ptr, null, Heap}
use operativsystemer.Queue.Chain.{
  ◌∉◌, Distinct, Chain, IsQueue, prev-has, has-append, Distinct-snoc, frame, Chain-join,
}
use operativsystemer.Queue.Refine.{put_heap-IsQueue}
use operativsystemer.Jobs.{Machine, insert_job, remove_job, insert_pcb, set_next}

-- A circle of distinct jobs that starts at `c` and goes on with `xs`.
abbrev pub IsRing : Heap → Ptr → List Ptr → Type 0
IsRing h c xs = IsQueue h c xs

insert_job-Chain :
    (h : Heap) (c : Ptr) (xs : List Ptr) (job : Ptr)
    → Chain h c xs c
    → Distinct (c ∷ xs)
    → job ∉ (c ∷ xs)
    → Chain (insert_job job c h) c (job ∷ xs) c
unfolding insert_job
insert_job-Chain h c [] job chain d out = ground arith
insert_job-Chain h c (x ∷ xs) job chain d out = (
  ground arith,
  (
    ground arith,
    frame h (insert_job job c h) x xs c chain.1 (λ b i. ground arith)
        (λ b i. ground (arith, has-append b xs (c ∷ []))),
  ),
)

-- `insert_job` puts a job right behind the current one.
pub insert_job-IsRing :
    (h : Heap) (c : Ptr) (xs : List Ptr) (job : Ptr)
    → IsRing h c xs
    → job ≢ null
    → job ∉ (c ∷ xs)
    → IsRing (insert_job job c h) c (job ∷ xs)
insert_job-IsRing h c xs job v n out = record {
  circle = insert_job-Chain h c xs job v.circle v.apart out;
  apart = ground arith;
  real = ground arith;
}

-- The ring starts at the next job as well.
pub rotate-IsRing :
    (h : Heap) (c x : Ptr) (xs : List Ptr) → IsRing h c (x ∷ xs) → IsRing h x (xs ++ c ∷ [])
rotate-IsRing h c x xs v = record {
  circle = Chain-join h x xs c [] x v.circle.1 v.circle.0;
  apart = (ground (arith, has-append x xs (c ∷ [])), Distinct-snoc xs c v.apart.1.1 (ground arith));
  real = ground (arith, has-append null xs (c ∷ []));
}

-- The end of a chain that comes back to its start is passed over.
remove_job-Chain :
    (h : Heap) (a : Ptr) (xs : List Ptr) (z e : Ptr)
    → Chain h a xs e
    → h.next e ≡ z
    → Distinct (a ∷ xs)
    → e ∉ (a ∷ xs)
    → z ∉ xs
    → z ≢ e
    → Chain (remove_job e h) a xs z
unfolding remove_job
remove_job-Chain h a [] z e c n d out o ne = ground arith
remove_job-Chain h a (x ∷ xs) z e c n d out o ne = (
  ground (arith, prev-has h x xs e c.1),
  remove_job-Chain h x xs z e c.1 n (ground arith) (ground arith) (ground arith) ne,
)

-- `remove_job` of the current job leaves the ring of the others, from the next one on.
pub remove_job-IsRing :
    (h : Heap) (c x : Ptr) (xs : List Ptr) → IsRing h c (x ∷ xs) → IsRing (remove_job c h) x xs
remove_job-IsRing h c x xs v = record {
  circle =
      remove_job-Chain h x xs x c v.circle.1 v.circle.0.0 (ground arith) (ground arith)
        (ground arith) (ground arith);
  apart = ground arith;
  real = ground arith;
}

-- `insert_pcb` puts a new job behind all others, and makes a ring of one job where there was none.
pub insert_pcb-IsRing :
    (m : Machine) (xs : List Ptr) (p : Ptr)
    → IsRing m.ring m.current_running xs
    → p ≢ null
    → p ∉ (m.current_running ∷ xs)
    → IsRing (insert_pcb p m).ring m.current_running (xs ++ p ∷ [])
unfolding insert_pcb
insert_pcb-IsRing m xs p v n out =
    let real : m.current_running ≢ null = ground arith in
    let last : p ≢ m.ring.prev m.current_running =
      ground (arith, prev-has m.ring m.current_running xs m.current_running v.circle) in
    rw (==_ne m.current_running null real) (
      rw (==_refl p) (
        rw (==_ne p m.current_running (ground arith))
          (put_heap-IsQueue m.ring m.current_running xs p v n out)))

-- A field `next` of a job outside of the ring is no part of it.
pub set_next-IsRing :
    (h : Heap) (c : Ptr) (xs : List Ptr) (p v : Ptr)
    → IsRing h c xs
    → p ∉ (c ∷ xs)
    → IsRing (set_next p v h) c xs
set_next-IsRing h c xs p v r out = record {
  circle = frame h (set_next p v h) c xs c r.circle (λ b i. ground arith) (λ b i. refl);
  apart = r.apart;
  real = r.real;
}
