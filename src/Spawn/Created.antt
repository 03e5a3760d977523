-- ===== src/Spawn/Created.antt =====
-- What the jobs of kernel.c are after init_pcb_table, create_thread and create_process.
use operativsystemer.Base.{
  ℕ, ◌+◌, ◌*◌, ◌<◌, ◌≡◌, refl, sym, subst, ◌∙◌, ap, true, false, some, List, [], ◌∷◌, ◌++◌,
  append_assoc, arith, ltb, ==_ne, ==_refl,
}
use operativsystemer.Queue.{Ptr, null}
use operativsystemer.Queue.Chain.{Distinct}
use operativsystemer.Jobs.{Machine, running, set_status, alloc_pcb, insert_pcb}
use operativsystemer.Memory.{Disk, Memory, Process, update}
use operativsystemer.Memory.Start.{setup_page_table}
use operativsystemer.Spawn.{
  System, Pcb, new_pcb, thread_pcb, set_up, create_thread, stack_min, stack_max, stack_size,
}
use operativsystemer.Spawn.Steps.{FreeList, IsJobs, ready, ready-IsJobs, free_out}
use operativsystemer.Spawn.Numbers.{IsNumbered, Keeps, new_pcb-IsNumbered}

-- The jobs stand in the ring and the other pcbs in the free list; the stacks are taken in order.
pub record IsStarted {C : Type 0} (s : System C) (jobs free : List Ptr) : Type 0 where
  pub ring : IsJobs s.machine jobs
  pub list : FreeList s.machine.ring s.machine.next_free_pcb free
  pub apart : Distinct (jobs ++ free)
  pub stacks : s.next_stack ≡ stack_min + s.next_pid * stack_size
  pub numbered : IsNumbered s.pcb s.next_pid jobs

-- What a creation makes of the system, with `n` the memory after setup_page_table.
made : {C : Type 0} → (Pcb → Pcb) → Memory C → Ptr → System C → System C
made kind n p s = record s {
  machine =
      insert_pcb p (record (set_status p running s.machine) {
        yield_count = update s.machine.yield_count p 0;
      });
  memory = n;
  pcb = update s.pcb p (kind (new_pcb s.next_pid s.next_stack (s.pcb p)));
  next_pid = s.next_pid + 1;
  next_stack = s.next_stack + stack_size;
}

made-IsStarted :
    {C : Type 0} (kind : Pcb → Pcb) (n : Memory C) (p : Ptr) (s : System C) (jobs free : List Ptr)
    → Keeps kind
    → IsStarted s jobs (p ∷ free)
    → IsStarted
        (made kind n p
          (record s { machine = record s.machine { next_free_pcb = s.machine.ring.next p } }))
        (jobs ++ p ∷ [])
        free
unfolding made ready
made-IsStarted kind n p s jobs free keeps i =
    let machine : IsJobs (insert_pcb p (ready p s.machine)) (jobs ++ p ∷ [])
        × FreeList (insert_pcb p (ready p s.machine)).ring
            (insert_pcb p (ready p s.machine)).next_free_pcb free =
      ready-IsJobs s.machine jobs p free i.ring i.list.1 i.apart i.list.2 in
    record {
      ring = machine.0;
      list = machine.1;
      apart = subst Distinct (sym (append_assoc jobs (p ∷ []) free)) i.apart;
      stacks = omega (arith, i.stacks);
      numbered =
          new_pcb-IsNumbered kind s.pcb s.next_pid s.next_stack p jobs keeps
            (free_out jobs p free i.apart) i.stacks i.numbered;
    }

abbrev pub as_thread : Process → Process
as_thread p = record p { is_thread = true; swap_loc = 0; swap_size = 0; page_fault_count = 0 }

abbrev pub as_process : ℕ → ℕ → Process → Process
as_process location size p = record p {
  is_thread = false;
  swap_loc = location;
  swap_size = size;
  page_fault_count = 0;
}

-- The memory that setup_page_table is called with.
abbrev pub with_image : {C : Type 0} → (Process → Process) → Ptr → Memory C → Memory C
with_image image p m = record m { pcb = update m.pcb p (image (m.pcb p)) }

abbrev taken : {C : Type 0} → Ptr → System C → System C
taken p s = record s { machine = record s.machine { next_free_pcb = s.machine.ring.next p } }

alloc_pcb-next :
    (m : Machine) (p : Ptr) (free : List Ptr)
    → FreeList m.ring m.next_free_pcb (p ∷ free)
    → alloc_pcb m ≡ some (p, record m { next_free_pcb = m.ring.next p })
unfolding alloc_pcb
alloc_pcb-next m p free f =
    rw (==_ne m.next_free_pcb null (λ e. f.1 (sym f.0 ∙ e)))
      (ap (λ q. some (q, record m { next_free_pcb = m.ring.next q })) f.0)

-- A thread runs on the directory of the kernel.
in_kernel : {C : Type 0} → Ptr → Memory C → Memory C
in_kernel p m = record m {
  pcb = update m.pcb p (record (m.pcb p) { page_directory = m.kernel_pdir });
}

module _ {C : Type 0} (disk : Disk C) where
  setup_page_table-thread :
      (p : Ptr) (m : Memory C)
      → (m.pcb p).is_thread ≡ true
      → setup_page_table disk p m ≡ some (in_kernel p m)
  unfolding setup_page_table in_kernel
  setup_page_table-thread p m e = rw e refl

  set_up-made :
      (kind : Pcb → Pcb) (image : Process → Process) (p : Ptr) (s : System C) (n : Memory C)
      → s.next_stack < stack_max
      → setup_page_table disk p
          (with_image (λ q. image (record q { page_fault_count = 0 })) p s.memory)
        ≡ some n
      → set_up disk kind image p s ≡ some (made kind n p s)
  unfolding set_up made
  set_up-made kind image p s n room e =
      let fits : ltb s.next_stack stack_max ≡ true = ground arith in rw fits (rw e refl)

  -- With a free pcb and less than 80 jobs made so far, create_thread succeeds.
  pub create_thread-IsStarted :
      (start : ℕ) (s : System C) (jobs : List Ptr) (p : Ptr) (free : List Ptr)
      → IsStarted s jobs (p ∷ free)
      → s.next_pid < 80
      → (t : System C) × (create_thread disk start s ≡ some t)
        × IsStarted t (jobs ++ p ∷ []) free
        × (t.next_pid ≡ s.next_pid + 1)
  unfolding create_thread made Keeps
  create_thread-IsStarted start s jobs p free i room = (
    made (thread_pcb start) (in_kernel p (with_image as_thread p s.memory)) p (taken p s),
    rw (alloc_pcb-next s.machine p free i.list) (
        set_up-made (thread_pcb start)
          (λ p. record p { is_thread = true; swap_loc = 0; swap_size = 0 }) p (taken p s)
          (in_kernel p (with_image as_thread p s.memory)) (omega (arith, i.stacks))
          (setup_page_table-thread p (with_image as_thread p s.memory) (rw (==_refl p) refl))),
    made-IsStarted (thread_pcb start) (in_kernel p (with_image as_thread p s.memory)) p s jobs free
        (λ q. (refl, refl)) i,
    refl,
  )
