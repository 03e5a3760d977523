-- ===== src/Spawn/Start.antt =====
-- The first jobs of kernel.c, and how many it can make.
use operativsystemer.Base.{
  ℕ, zero, suc, ◌+◌, ◌-◌, ◌*◌, ◌≤◌, ◌<◌, ◌≡◌, inl, inr, refl, sym, subst, ◌∙◌, ap, false, some,
  none, List, [], ◌∷◌, ◌++◌, append_assoc, append-nil, arith, length, ltb, ◌==◌, ==_ne, ==_refl,
  Bool-cases,
}
use operativsystemer.Queue.{Ptr, null, Heap}
use operativsystemer.Queue.Chain.{has, Distinct}
use operativsystemer.Jobs.{set_next, alloc_pcb}
use operativsystemer.Memory.{Disk, Process}
use operativsystemer.Spawn.{
  System, Pcb, set_up, create_thread, create_threads, create_process, init_pcb_table, link_pcbs,
  pcb_size, stack_min, stack_max,
}
use operativsystemer.Spawn.Steps.{FreeList}
use operativsystemer.Spawn.Created.{IsStarted, create_thread-IsStarted}

-- `n` pcbs of the table from the one at `p` on.
unfoldable pub pcbs : ℕ → Ptr → List Ptr
pcbs zero p = []
pcbs (suc n) p = p ∷ pcbs n (p + pcb_size)

pcbs-above : (n : ℕ) (p q : Ptr) → q < p → has q (pcbs n p) ≡ false
unfolding pcbs
pcbs-above zero p q h = refl
pcbs-above (suc n) p q h = ground (arith, pcbs-above n (p + pcb_size) q (omega arith))

pcbs-Distinct : (n : ℕ) (p : Ptr) → Distinct (pcbs n p)
unfolding pcbs
pcbs-Distinct zero p = tt
pcbs-Distinct (suc n) p =
    (pcbs-above n (p + pcb_size) p (omega arith), pcbs-Distinct n (p + pcb_size))

pcbs-split : (n k : ℕ) (p : Ptr) → pcbs (n + k) p ≡ pcbs n p ++ pcbs k (p + n * pcb_size)
unfolding pcbs
pcbs-split zero k p =
    let same : 0 + k ≡ k = omega arith in
    let at : p ≡ p + 0 * pcb_size = omega arith in ap (λ j. pcbs j p) same ∙ ap (pcbs k) at
pcbs-split (suc n) k p =
    let same : suc n + k ≡ suc (n + k) = omega arith in
    let at : p + pcb_size + n * pcb_size ≡ p + suc n * pcb_size = omega arith in
    ap (λ j. pcbs j p) same
    ∙ ap (λ xs. p ∷ xs)
        (pcbs-split n k (p + pcb_size) ∙ ap (λ q. pcbs n (p + pcb_size) ++ pcbs k q) at)

pcbs-length : (n : ℕ) (p : Ptr) → length (pcbs n p) ≡ n
unfolding pcbs
pcbs-length zero p = refl
pcbs-length (suc n) p = ap suc (pcbs-length n (p + pcb_size))

-- The links of pcbs before `p` stay.
link_pcbs-before :
    (left : ℕ) (p q : Ptr) (h : Heap) → q < p → (link_pcbs left p h).next q ≡ h.next q
unfolding link_pcbs
link_pcbs-before zero p q h l = refl
link_pcbs-before (suc left) p q h l =
    link_pcbs-before left (p + pcb_size) q (set_next p (p + pcb_size) h) (omega arith)
    ∙ ground arith

-- The free list that init_pcb_table makes.
linked-FreeList :
    (left : ℕ) (p : Ptr) (h : Heap)
    → 0 < p
    → FreeList (set_next (p + left * pcb_size) null (link_pcbs left p h)) p (pcbs (suc left) p)
unfolding link_pcbs pcbs
linked-FreeList zero p h pos = (refl, (λ e. absurd (omega arith)), ground arith)
linked-FreeList (suc left) p h pos =
    let linked : Heap = set_next p (p + pcb_size) h in
    let last : p + pcb_size + left * pcb_size ≡ p + suc left * pcb_size = omega arith in
    let g : Heap = set_next (p + suc left * pcb_size) null (link_pcbs left (p + pcb_size) linked) in
    let first : g.next p ≡ p + pcb_size =
      rw (==_ne p (p + suc left * pcb_size) (omega arith))
        (link_pcbs-before left (p + pcb_size) p linked (omega arith) ∙ rw (==_refl p) refl) in
    let rest : FreeList g (p + pcb_size) (pcbs (suc left) (p + pcb_size)) =
      subst
        (λ e.
          FreeList (set_next e null (link_pcbs left (p + pcb_size) linked)) (p + pcb_size)
            (pcbs (suc left) (p + pcb_size)))
        last (linked-FreeList left (p + pcb_size) linked (omega arith)) in
    (
      refl,
      (λ e. omega arith),
      subst (λ q. FreeList g q (pcbs (suc left) (p + pcb_size))) (sym first) rest,
    )

pub init_pcb_table-IsStarted :
    {C : Type 0} (table : Ptr) (s : System C)
    → 0 < table
    → s.next_pid ≡ 0
    → s.next_stack ≡ stack_min
    → IsStarted (record s { machine = init_pcb_table table s.machine }) [] (pcbs 128 table)
unfolding init_pcb_table
init_pcb_table-IsStarted table s pos none_made fresh = record {
  ring = refl;
  list = linked-FreeList 127 table s.machine.ring pos;
  apart = pcbs-Distinct 128 table;
  stacks = omega (arith, none_made, fresh);
  numbered = record {
    below = λ p h. absurd (ground arith);
    own_stack = λ p h. absurd (ground arith);
    own_pid = λ p q h. absurd (ground arith);
  };
}

module _ {C : Type 0} (disk : Disk C) where
  create_threads-IsStarted :
      (start_addr : ℕ → ℕ) (new : List Ptr) (i : ℕ) (s : System C) (jobs free : List Ptr)
      → IsStarted s jobs (new ++ free)
      → s.next_pid + length new ≤ 80
      → (t : System C) × (create_threads disk start_addr (length new) i s ≡ some t)
        × IsStarted t (jobs ++ new) free
  unfolding create_threads
  create_threads-IsStarted start_addr [] i s jobs free v room =
      (s, refl, subst (λ xs. IsStarted s xs free) (sym (append-nil jobs)) v)
  create_threads-IsStarted start_addr (p ∷ new) i s jobs free v room =
      let one : (t : System C) × (create_thread disk (start_addr i) s ≡ some t)
          × IsStarted t (jobs ++ p ∷ []) (new ++ free)
          × (t.next_pid ≡ s.next_pid + 1) =
        create_thread-IsStarted disk (start_addr i) s jobs p (new ++ free) v (omega arith) in
      let rest : (t : System C) × (create_threads disk start_addr (length new) (i + 1) one.0
            ≡ some t)
          × IsStarted t ((jobs ++ p ∷ []) ++ new) free =
        create_threads-IsStarted start_addr new (i + 1) one.0 (jobs ++ p ∷ []) free one.2
          (omega (arith, one.3)) in
      (
        rest.0,
        rw (one.1) (rest.1),
        subst (λ xs. IsStarted rest.0 xs free) (append_assoc jobs (p ∷ []) new) rest.2,
      )

  -- After init_pcb_table on a table that is not at NULL, with no process ids or stacks given, the
  -- loop of `_start` makes any number of threads up to 80: they are the first pcbs of the table in the
  -- ring, in their order, with the process ids and kernel stacks of different jobs, and the other
  -- pcbs of the 128 are free.
  pub create_threads-pcbs :
      (start_addr : ℕ → ℕ) (n : ℕ) (table : Ptr) (s : System C)
      → n ≤ 80
      → 0 < table
      → s.next_pid ≡ 0
      → s.next_stack ≡ stack_min
      → (t : System C) × (create_threads disk start_addr n 0
            (record s { machine = init_pcb_table table s.machine })
          ≡ some t)
        × IsStarted t (pcbs n table) (pcbs (128 - n) (table + n * pcb_size))
  create_threads-pcbs start_addr n table s few pos none_made fresh =
      let all : IsStarted (record s { machine = init_pcb_table table s.machine }) []
          (pcbs 128 table) =
        init_pcb_table-IsStarted table s pos none_made fresh in
      let split : pcbs 128 table ≡ pcbs n table ++ pcbs (128 - n) (table + n * pcb_size) =
        ap (λ k. pcbs k table) (omega arith) ∙ pcbs-split n (128 - n) table in
      let made : (t : System C) × (create_threads disk start_addr (length (pcbs n table)) 0
              (record s { machine = init_pcb_table table s.machine })
            ≡ some t)
          × IsStarted t (pcbs n table) (pcbs (128 - n) (table + n * pcb_size)) =
        create_threads-IsStarted start_addr (pcbs n table) 0
          (record s { machine = init_pcb_table table s.machine }) []
          (pcbs (128 - n) (table + n * pcb_size))
          (subst (λ xs. IsStarted (record s { machine = init_pcb_table table s.machine }) [] xs)
            split all)
          (omega (arith, none_made, pcbs-length n table)) in
      (
        made.0,
        subst
            (λ k.
              create_threads disk start_addr k 0
                (record s { machine = init_pcb_table table s.machine })
              ≡ some made.0)
            (pcbs-length n table) made.1,
        made.2,
      )

  set_up-none :
      (kind : Pcb → Pcb) (image : Process → Process) (p : Ptr) (s : System C)
      → stack_max ≤ s.next_stack
      → set_up disk kind image p s ≡ none
  unfolding set_up
  set_up-none kind image p s full =
      let out : ltb s.next_stack stack_max ≡ false = ground arith in rw out refl

  -- Once 80 jobs were made, create_process and create_thread halt the machine, although pcbs of the
  -- 128 are free, or become free by exit: the stacks of jobs are not used again.
  create_process_full :
      (start location size : ℕ) (s : System C) (jobs free : List Ptr)
      → IsStarted s jobs free
      → 80 ≤ s.next_pid
      → (create_process disk location size s ≡ none) × (create_thread disk start s ≡ none)
  unfolding create_process create_thread alloc_pcb
  create_process_full start location size s jobs free i full =
      elim (Bool-cases (s.machine.next_free_pcb == null)) [
        | inl gone ↦ (rw gone refl, rw gone refl)
        | inr more ↦ (
          rw more (set_up-none _ _ s.machine.next_free_pcb _ (omega (arith, i.stacks))),
          rw more (set_up-none _ _ s.machine.next_free_pcb _ (omega (arith, i.stacks))),
        )
      ]
