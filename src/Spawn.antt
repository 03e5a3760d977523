-- ===== src/Spawn.antt =====
-- How cos318-project6/kernel.c makes jobs: init_pcb_table, create_thread and create_process, and
-- loadproc, over the ring of jobs and the memory. A pcb is its address, by which memory.c
-- knows the task too. `none` is a machine that halts.
pub mod Steps
pub mod Numbers
pub mod Created
pub mod Start
use operativsystemer.Base.{
  ℕ, zero, suc, ◌+◌, ◌-◌, ◌*◌, Bool, true, false, Option, none, some, ◌>>=◌, ◌==◌, ltb,
  if◌then◌else◌,
}
use operativsystemer.Queue.{Ptr, null, Heap}
use operativsystemer.Jobs.{Machine, JobStatus, running, set_next, set_status, alloc_pcb, insert_pcb}
use operativsystemer.Memory.{Disk, Memory, Process, update, process_start, process_stack}
use operativsystemer.Memory.Start.{setup_page_table}
use operativsystemer.Descriptors.{kernel_cs, kernel_data, process_cs, process_ds}

-- The fields of `pcb_t` that neither the ring nor memory.c uses.
pub record Pcb : Type 0 where
  pub pid : ℕ
  pub user_stack : ℕ
  pub kernel_stack : ℕ
  pub base_kernel_stack : ℕ
  pub disable_count : ℕ
  pub preempt_count : ℕ
  pub nested_count : ℕ
  pub start_pc : ℕ
  pub cs : ℕ
  pub ds : ℕ
  pub first_time : Bool
  pub priority : ℕ
  pub int_controller_mask : ℕ
  pub in_v86 : ℕ
  pub v86_if : ℕ

abbrev pub pcb_table_size : ℕ
pcb_table_size = 128

abbrev pub stack_min : ℕ
stack_min = 196608

abbrev pub stack_max : ℕ
stack_max = 524288

abbrev pub stack_offset : ℕ
stack_offset = 4092

abbrev pub stack_size : ℕ
stack_size = 4096

abbrev pub kernel_ds : ℕ
kernel_ds = kernel_data * 8

-- `sizeof(pcb_t)`.
abbrev pub pcb_size : ℕ
pcb_size = 116

-- The static variables of kernel.c with the ring and the memory.
pub record System (C : Type 0) : Type 0 where
  pub machine : Machine
  pub memory : Memory C
  pub pcb : Ptr → Pcb
  pub next_pid : ℕ
  pub next_stack : ℕ

-- The loop of `init_pcb_table`: `left` pcbs from the one at `p` on are linked to the next.
unfoldable pub link_pcbs : ℕ → Ptr → Heap → Heap
link_pcbs zero p h = h
link_pcbs (suc left) p h = link_pcbs left (p + pcb_size) (set_next p (p + pcb_size) h)

-- `table` is the address of the array `pcb`.
unfoldable pub init_pcb_table : Ptr → Machine → Machine
init_pcb_table table m = record m {
  ring =
      set_next (table + (pcb_table_size - 1) * pcb_size) null
        (link_pcbs (pcb_table_size - 1) table m.ring);
  next_free_pcb = table;
  current_running = null;
}

-- What a thread and a process have in common.
abbrev pub new_pcb : ℕ → ℕ → Pcb → Pcb
new_pcb pid stack p = record p {
  pid = pid;
  kernel_stack = stack + stack_offset;
  base_kernel_stack = stack + stack_offset;
  first_time = true;
  priority = 10;
  nested_count = 0;
  disable_count = 1;
  preempt_count = 0;
  int_controller_mask = 188;
  in_v86 = 0;
  v86_if = 0;
}

abbrev pub thread_pcb : ℕ → Pcb → Pcb
thread_pcb start p = record p { user_stack = 0; start_pc = start; cs = kernel_cs; ds = kernel_ds }

abbrev pub process_pcb : Pcb → Pcb
process_pcb p = record p {
  user_stack = process_stack;
  start_pc = process_start;
  cs = process_cs + 3;
  ds = process_ds + 3;
}

module _ {C : Type 0} (disk : Disk C) where
  -- A job in the pcb `p` with the next process id and stack; `kind` sets the rest of the pcb and
  -- `image` is what memory.c reads of it.
  unfoldable pub set_up : (Pcb → Pcb) → (Process → Process) → Ptr → System C → Option (System C)
  set_up kind image p s =
      if ltb s.next_stack stack_max
      then setup_page_table disk p memory >>= (λ n. some (record s {
        machine = insert_pcb p (record (set_status p running s.machine) {
          yield_count = update s.machine.yield_count p 0;
        });
        memory = n;
        pcb = update s.pcb p (kind (new_pcb s.next_pid s.next_stack (s.pcb p)));
        next_pid = s.next_pid + 1;
        next_stack = s.next_stack + stack_size;
      }))
      else none
    where
      memory : Memory C
      memory = record s.memory {
        pcb = update s.memory.pcb p (image (record (s.memory.pcb p) { page_fault_count = 0 }));
      }

  -- `start` is the entry of `start_addr` for the thread.
  unfoldable pub create_thread : ℕ → System C → Option (System C)
  create_thread start s = alloc_pcb s.machine >>= (λ r.
      set_up (thread_pcb start) (λ p. record p { is_thread = true; swap_loc = 0; swap_size = 0 })
        r.0 (record s { machine = r.1 }))

  unfoldable pub create_process : ℕ → ℕ → System C → Option (System C)
  create_process location size s = alloc_pcb s.machine >>= (λ r.
      set_up process_pcb
        (λ p. record p { is_thread = false; swap_loc = location; swap_size = size }) r.0
        (record s { machine = r.1 }))

  unfoldable pub loadproc : ℕ → ℕ → System C → Option (System C)
  loadproc location size s = create_process location size s

  -- The loop of `_start` over the threads, from the one of number `i` on.
  unfoldable pub create_threads : (ℕ → ℕ) → ℕ → ℕ → System C → Option (System C)
  create_threads start_addr zero i s = some s
  create_threads start_addr (suc left) i s =
      create_thread (start_addr i) s >>= (λ n. create_threads start_addr left (i + 1) n)
