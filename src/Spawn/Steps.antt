-- ===== src/Spawn/Steps.antt =====
-- The ring of jobs and the free pcbs as kernel.c makes jobs.
use operativsystemer.Base.{
  ◌≡◌, ◌≢◌, inl, inr, refl, sym, subst, ◌∙◌, ap, true, false, List, [], ◌∷◌, ◌++◌, arith,
  Bool-cases,
}
use operativsystemer.Queue.{Ptr, null, Heap}
use operativsystemer.Queue.Chain.{has, ◌∉◌, Distinct, prev-has, Distinct-parts, Distinct-right}
use operativsystemer.Jobs.{Machine, running, set_status, insert_pcb}
use operativsystemer.Jobs.Ring.{IsRing, insert_pcb-IsRing}
use operativsystemer.Memory.{update}

-- From `p` the field `next` leads through the free pcbs to NULL.
abbrev pub FreeList : Heap → Ptr → List Ptr → Type 0
FreeList h p [] = p ≡ null
FreeList h p (x ∷ xs) = (p ≡ x) × (x ≢ null) × FreeList h (h.next x) xs

-- The jobs in their order, from the current one on.
abbrev pub IsJobs : Machine → List Ptr → Type 0
IsJobs m [] = m.current_running ≡ null
IsJobs m (c ∷ xs) = (m.current_running ≡ c) × IsRing m.ring c xs

FreeList-frame :
    (h g : Heap) (p : Ptr) (xs : List Ptr)
    → FreeList h p xs
    → ((q : Ptr) → has q xs ≡ true → g.next q ≡ h.next q)
    → FreeList g p xs
FreeList-frame h g p [] f same = f
FreeList-frame h g p (x ∷ xs) f same = (
  f.0,
  f.1,
  subst (λ n. FreeList g n xs) (sym (same x (ground arith)))
      (FreeList-frame h g (h.next x) xs f.2 (λ q i. same q (ground arith))),
)

-- Which `next` fields insert_pcb changes.
insert_pcb-other :
    (m : Machine) (p q : Ptr)
    → q ≢ p
    → q ≢ m.ring.prev m.current_running
    → p ≢ m.current_running
    → (insert_pcb p m).ring.next q ≡ m.ring.next q
unfolding insert_pcb
insert_pcb-other m p q n l r = ground arith

insert_pcb-first :
    (m : Machine) (p q : Ptr)
    → m.current_running ≡ null
    → q ≢ p
    → (insert_pcb p m).ring.next q ≡ m.ring.next q
unfolding insert_pcb
insert_pcb-first m p q e n = ground arith

insert_pcb-IsJobs :
    (m : Machine) (jobs : List Ptr) (p : Ptr)
    → IsJobs m jobs
    → p ≢ null
    → p ∉ jobs
    → IsJobs (insert_pcb p m) (jobs ++ p ∷ [])
unfolding insert_pcb
insert_pcb-IsJobs m [] p j n out = (
  ground arith,
  record { circle = (ground arith, ground arith); apart = ground arith; real = ground arith },
)
insert_pcb-IsJobs m (c ∷ xs) p j n out = (
  ground (arith, j.1.real),
  subst (λ a. IsRing (insert_pcb p m).ring a (xs ++ p ∷ [])) j.0
      (insert_pcb-IsRing m xs p (subst (λ a. IsRing m.ring a xs) (sym j.0) j.1) n
        (subst (λ a. p ∉ (a ∷ xs)) (sym j.0) out)),
)

-- The free list behind the pcb that is put into the ring.
insert_pcb-FreeList :
    (m : Machine) (jobs : List Ptr) (p first : Ptr) (free : List Ptr)
    → IsJobs m jobs
    → Distinct (jobs ++ p ∷ free)
    → FreeList m.ring first free
    → FreeList (insert_pcb p m).ring first free
insert_pcb-FreeList m [] p first free j d f =
    FreeList-frame m.ring (insert_pcb p m).ring first free f
      (λ q i. insert_pcb-first m p q j (ground (arith, d.0)))
insert_pcb-FreeList m (c ∷ xs) p first free j d f =
    let right : Distinct (p ∷ free) = Distinct-right (c ∷ xs) (p ∷ free) d in
    let last : has (m.ring.prev c) (p ∷ free) ≡ false =
      Distinct-parts (m.ring.prev c) (c ∷ xs) (p ∷ free) d (prev-has m.ring c xs c j.1.circle) in
    let at : m.ring.prev m.current_running ≡ m.ring.prev c = ap m.ring.prev j.0 in
    let start : has c (p ∷ free) ≡ false = Distinct-parts c (c ∷ xs) (p ∷ free) d (ground arith) in
    FreeList-frame m.ring (insert_pcb p m).ring first free f (λ q i.
      insert_pcb-other m p q (ground (arith, right.0)) (ground (arith, last, at))
        (ground (arith, start, j.0)))

-- A pcb that the free list gives is no job.
pub free_out :
    (jobs : List Ptr) (p : Ptr) (free : List Ptr) → Distinct (jobs ++ p ∷ free) → p ∉ jobs
free_out jobs p free d = elim (Bool-cases (has p jobs)) [
  | inl i ↦ absurd (ground (arith, Distinct-parts p jobs (p ∷ free) d i))
  | inr o ↦ o
]

IsJobs-same :
    (m n : Machine) (jobs : List Ptr)
    → n.ring ≡ m.ring
    → n.current_running ≡ m.current_running
    → IsJobs m jobs
    → IsJobs n jobs
IsJobs-same m n [] r c j = c ∙ j
IsJobs-same m n (x ∷ xs) r c j = (c ∙ j.0, subst (λ h. IsRing h x xs) (sym r) j.1)

insert_pcb-free : (p : Ptr) (m : Machine) → (insert_pcb p m).next_free_pcb ≡ m.next_free_pcb
unfolding insert_pcb
insert_pcb-free p m = ground arith

-- The machine as it is handed to insert_pcb.
unfoldable pub ready : Ptr → Machine → Machine
ready p m = record (set_status p running m) {
  next_free_pcb = m.ring.next p;
  yield_count = update m.yield_count p 0;
}

pub ready-IsJobs :
    (m : Machine) (jobs : List Ptr) (p : Ptr) (free : List Ptr)
    → IsJobs m jobs
    → p ≢ null
    → Distinct (jobs ++ p ∷ free)
    → FreeList m.ring (m.ring.next p) free
    → IsJobs (insert_pcb p (ready p m)) (jobs ++ p ∷ [])
      × FreeList (insert_pcb p (ready p m)).ring (insert_pcb p (ready p m)).next_free_pcb free
unfolding ready
ready-IsJobs m jobs p free j n d f =
    let before : IsJobs (ready p m) jobs = IsJobs-same m (ready p m) jobs refl refl j in
    (
      insert_pcb-IsJobs (ready p m) jobs p before n (free_out jobs p free d),
      subst (λ q. FreeList (insert_pcb p (ready p m)).ring q free)
          (sym (insert_pcb-free p (ready p m)))
          (insert_pcb-FreeList (ready p m) jobs p (m.ring.next p) free before d f),
    )
