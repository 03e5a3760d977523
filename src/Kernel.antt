-- ===== src/Kernel.antt =====
-- The process scheduler of cos318-project4/scheduler.c. Each function runs between
-- `enter_critical` and `leave_critical`, so a call is one step on the kernel's state.
pub mod Lottery
pub mod Invariant
pub mod Wake
pub mod Dispatch
pub mod Idle
pub mod Run
pub mod Sleep
use operativsystemer.Base.{
  ℕ, zero, suc, ◌+◌, ◌-◌, ◌*◌, ◌/◌, ◌%◌, ◌^◌, Bool, true, false, Option, none, some, List, [], ◌∷◌,
  ◌++◌, ◌==◌, leb, ltb, if◌then◌else◌, length, ◌>>=◌,
}
use operativsystemer.Queue.Sorted.{insert_sorted}

pub data Status : Type 0 where
  exited first_time ready blocked : Status

-- `pcb_t`, without the saved registers. A task is the index of its entry in `pcb`, and a lock is
-- named by a number.
pub record Pcb : Type 0 where
  pub priority : ℕ
  pub status : Status
  pub entry_count : ℕ
  pub sleep_until : ℕ
  pub last_entry_time : ℕ
  pub total_process_time : ℕ
  pub waiting_for_lock : Option ℕ

-- The globals of scheduler.c. A queue is the list of its tasks, front first. The pool of tickets,
-- `total_ready_priority`, is an `int` by its bit pattern.
pub record Kernel : Type 0 where
  pub pcb : ℕ → Pcb
  pub current_running : ℕ
  pub ready_queue : List ℕ
  pub sleep_queue : List ℕ
  pub total_ready_priority : ℕ
  pub num_ticks : ℕ
  pub my_rand : ℕ

abbrev pub priority_of : Kernel → ℕ → ℕ
priority_of k t = (k.pcb t).priority

-- A write to a field of a pcb.
abbrev pub update_pcb : (ℕ → Pcb) → ℕ → Pcb → ℕ → Pcb
update_pcb f t v a = if a == t then v else f a

abbrev pub set_status : Kernel → ℕ → Status → Kernel
set_status k t s = record k { pcb = update_pcb k.pcb t (record (k.pcb t) { status = s }) }

-- `rand_step` of util.c, in 32 bits.
unfoldable pub rand_step : ℕ → ℕ
rand_step seed = (1103515245 * seed + 12345) % 2 ^ 32 / 2 ^ 16

unfoldable pub order_by_wake_up : Kernel → ℕ → ℕ → Bool
order_by_wake_up k a b = leb (k.pcb a).sleep_until (k.pcb b).sleep_until

-- `task` is marked READY and joins the ready queue with its tickets.
pub make_ready : Kernel → ℕ → Kernel
make_ready k task = record (set_status k task ready) {
  total_ready_priority = (k.total_ready_priority + (k.pcb task).priority) % 2 ^ 32;
  ready_queue = k.ready_queue ++ task ∷ [];
}

-- The loop of `try_wake`, over the sleep queue.
pub wake_loop : ℕ → List ℕ → Kernel → Kernel
unfolding make_ready
wake_loop now [] k = k
wake_loop now (sleeper ∷ rest) k =
    let woken = wake_loop now rest (make_ready (record k { sleep_queue = rest }) sleeper) in
    if leb (k.pcb sleeper).sleep_until now then woken else k

pub try_wake : Kernel → Kernel
unfolding wake_loop
try_wake k = wake_loop k.num_ticks k.sleep_queue k

pub put_current_running : Kernel → Kernel
unfolding make_ready
put_current_running k = make_ready k k.current_running

unfoldable pub unblock : Kernel → ℕ → Kernel
unfolding make_ready
unblock k task = make_ready k task

abbrev pub mark_sleeping : ℕ → Kernel → Kernel
mark_sleeping milliseconds k = record k {
  pcb = update_pcb k.pcb k.current_running (record (k.pcb k.current_running) {
    sleep_until = (k.num_ticks + milliseconds) % 2 ^ 64;
    status = blocked;
  });
}

-- The current task joins the sleep queue by its wake-up time; the part of `do_sleep` before the
-- scheduler runs.
unfoldable pub prepare_sleep : ℕ → Kernel → Kernel
prepare_sleep milliseconds k = record (mark_sleeping milliseconds k) {
  sleep_queue =
      insert_sorted (order_by_wake_up (mark_sleeping milliseconds k)) k.current_running
        k.sleep_queue;
}

-- The draw: walk the ready queue from its front, at each task either spend its tickets and put it
-- at the back, or choose it. `none` is a read through NULL at an empty queue, or no fuel.
unfoldable pub draw : (ℕ → ℕ) → ℕ → ℕ → List ℕ → Option (ℕ × List ℕ)
draw priority zero choice queue = none
draw priority (suc fuel) choice [] = none
draw priority (suc fuel) choice (p ∷ rest) =
    let next = draw priority fuel (choice - priority p) (rest ++ p ∷ []) in
    if leb (priority p) choice then next else some (p, rest)

abbrev pub is_empty : List ℕ → Bool
is_empty [] = true
is_empty (x ∷ xs) = false

-- While no task is ready, the processor idles with interrupts on. In each round the timer advances
-- `num_ticks` by the next number of the list; `none` if the list ends before a task is ready.
pub await_ready : List ℕ → Kernel → Option Kernel
unfolding try_wake
await_ready [] k = if is_empty k.ready_queue then none else some k
await_ready (t ∷ ticks) k =
    let later =
      await_ready ticks (try_wake (record k { num_ticks = (k.num_ticks + t) % 2 ^ 64 })) in
    if is_empty k.ready_queue then later else some k

-- The processor time of the task that stops running is added up, in 64 bits.
abbrev pub account : ℕ → Kernel → Kernel
account timer k = record k {
  pcb = update_pcb k.pcb k.current_running (record c {
    total_process_time = (c.total_process_time + (timer + 2 ^ 64 - c.last_entry_time)) % 2 ^ 64;
  });
}
  where
    c : Pcb
    c = k.pcb k.current_running

-- The chosen task runs: its tickets leave the pool.
abbrev pub dispatch : ℕ → ℕ → List ℕ → ℕ → Kernel → Kernel
dispatch chosen rand queue timer k = record k {
  pcb =
      update_pcb k.pcb chosen
        (record c { entry_count = (c.entry_count + 1) % 2 ^ 32; last_entry_time = timer });
  current_running = chosen;
  ready_queue = queue;
  total_ready_priority = (k.total_ready_priority + 2 ^ 32 - c.priority) % 2 ^ 32;
  my_rand = rand;
}
  where
    c : Pcb
    c = k.pcb chosen

-- The remainder of a number that is not negative goes by the absolute value of the divisor.
abbrev pub magnitude : ℕ → ℕ
magnitude n = if ltb n (2 ^ 31) then n else 2 ^ 32 - n

-- The lottery of `scheduler`, from the draw of the random number on. A modulo by 0 is a fault.
pub lottery : ℕ → Kernel → Option Kernel
lottery timer k =
    let rand = rand_step k.my_rand in
    if k.total_ready_priority == 0 then none else do
      (chosen, queue) ←
          draw (priority_of k) (length k.ready_queue) (rand % magnitude k.total_ready_priority)
            k.ready_queue
      some (dispatch chosen rand queue timer k)

-- `timer` and `timer'` are the two readings of the time stamp counter.
pub scheduler : (timer timer' : ℕ) → List ℕ → Kernel → Option Kernel
unfolding await_ready lottery
scheduler timer timer' ticks k = do
  k' ← await_ready ticks (try_wake (account timer k))
  lottery timer' k'

module _ (timer timer' : ℕ) (ticks : List ℕ) where
  pub do_yield : Kernel → Option Kernel
  unfolding scheduler put_current_running
  do_yield k = scheduler timer timer' ticks (put_current_running k)

  pub do_exit : Kernel → Option Kernel
  unfolding scheduler
  do_exit k = scheduler timer timer' ticks (set_status k k.current_running exited)

  -- `milliseconds` is the argument as a 64-bit unsigned number.
  pub do_sleep : ℕ → Kernel → Option Kernel
  unfolding scheduler prepare_sleep
  do_sleep milliseconds k = scheduler timer timer' ticks (prepare_sleep milliseconds k)

pub data ℤ : Type 0 where
  pos : ℕ → ℤ
  negsuc : ℕ → ℤ

-- A priority below 1 is ignored.
pub do_setpriority : ℤ → Kernel → Kernel
do_setpriority (negsuc n) k = k
do_setpriority (pos priority) k =
    if leb 1 priority
    then record k {
      pcb =
          update_pcb k.pcb k.current_running
            (record (k.pcb k.current_running) { priority = priority });
    }
    else k

pub do_getpriority : Kernel → ℕ
do_getpriority k = (k.pcb k.current_running).priority
