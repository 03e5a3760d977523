-- ===== src/Tests/Tasks.antt =====
-- scheduler.c on three tasks.
use operativsystemer.Base.{
  ◌^◌, ℕ, ◌+◌, ◌%◌, ◌≤◌, ◌<◌, ◌≡◌, refl, inl, inr, none, some, List, [], ◌∷◌, ◌++◌, arith, ◌==◌,
  if◌then◌else◌,
}
use operativsystemer.Kernel.{
  Kernel, Pcb, ready, blocked, priority_of, dispatch, rand_step, try_wake, lottery, scheduler,
  do_sleep, prepare_sleep,
}
use operativsystemer.Kernel.Lottery.{tickets, lottery-Drawn}
use operativsystemer.Kernel.Invariant.{IsScheduled, IsRunning}
use operativsystemer.Kernel.Wake.{due, later, wake_time, try_wake-due}
use operativsystemer.Kernel.Idle.{sum}
use operativsystemer.Kernel.Run.{scheduler-IsRunning}
use operativsystemer.Kernel.Sleep.{do_sleep-IsRunning, HasJoined}

abbrev runner : Pcb
runner = record {
  priority = 2;
  status = ready;
  entry_count = 0;
  sleep_until = 0;
  last_entry_time = 0;
  total_process_time = 0;
  waiting_for_lock = none;
}

abbrev sleeper : Pcb
sleeper = record runner { status = blocked; sleep_until = 50 }

-- Task 1 runs, 2 and 3 are ready, and 4 sleeps until time 50.
abbrev three_tasks : Kernel
three_tasks = record {
  pcb = λ t. if t == 4 then sleeper else runner;
  current_running = 1;
  ready_queue = 2 ∷ 3 ∷ [];
  sleep_queue = 4 ∷ [];
  total_ready_priority = 4;
  num_ticks = 60;
  my_rand = 7;
}

three_tasks-IsScheduled : IsScheduled three_tasks
unfolding tickets
three_tasks-IsScheduled = record {
  total = refl;
  small = omega arith;
  positive = λ t. ground arith;
  apart = ground arith;
  runnable = ground arith;
  asleep = ground arith;
  sorted = (tt, tt);
}

three_tasks-IsRunning : IsRunning three_tasks
three_tasks-IsRunning = record {
  scheduled = three_tasks-IsScheduled;
  current = refl;
  bounded = unfold tickets in omega arith;
}

-- Only the sleeper is left, and it is early.
abbrev all_asleep : Kernel
all_asleep = record three_tasks { ready_queue = []; total_ready_priority = 0; num_ticks = 10 }

all_asleep-IsScheduled : IsScheduled all_asleep
unfolding tickets
all_asleep-IsScheduled = record {
  total = refl;
  small = omega arith;
  positive = λ t. ground arith;
  apart = ground arith;
  runnable = tt;
  asleep = ground arith;
  sorted = (tt, tt);
}

scheduler-IsRunning_example :
    (g : Kernel) × (scheduler 5 6 (30 ∷ 10 ∷ []) all_asleep ≡ some g)
    × IsRunning g
    × ((g.pcb g.current_running).status ≡ ready)
unfolding sum
scheduler-IsRunning_example =
    scheduler-IsRunning 5 6 (30 ∷ 10 ∷ []) all_asleep all_asleep-IsScheduled
      (inr (4, [], refl, omega arith, omega arith))

do_sleep-IsRunning_example :
    (s : Kernel) × (g : Kernel) × HasJoined 100 three_tasks s
    × (do_sleep 5 6 [] 100 three_tasks ≡ scheduler 5 6 [] s)
    × (do_sleep 5 6 [] 100 three_tasks ≡ some g)
    × IsRunning g
    × ((g.pcb g.current_running).status ≡ ready)
do_sleep-IsRunning_example =
    do_sleep-IsRunning 5 6 [] 100 three_tasks three_tasks-IsRunning
      (inl (unfold prepare_sleep in λ e. cc))

lottery-Drawn_example :
    (front back : List ℕ) × (chosen : ℕ) × ((2 ∷ 3 ∷ []) ≡ front ++ chosen ∷ back)
    × (lottery 6 three_tasks ≡ some (dispatch chosen (rand_step 7) (back ++ front) 6 three_tasks))
    × (tickets (priority_of three_tasks) front ≤ rand_step 7 % 4)
    × (rand_step 7 % 4 < tickets (priority_of three_tasks) front + priority_of three_tasks chosen)
unfolding tickets
lottery-Drawn_example = lottery-Drawn 6 three_tasks refl (omega arith) (omega arith)

try_wake-due_example :
    ((try_wake three_tasks).ready_queue ≡ (2 ∷ 3 ∷ []) ++ due (wake_time three_tasks) 60 (4 ∷ []))
    × ((try_wake three_tasks).sleep_queue ≡ later (wake_time three_tasks) 60 (4 ∷ []))
    × ((try_wake three_tasks).total_ready_priority
        ≡ (4 + tickets (priority_of three_tasks) (due (wake_time three_tasks) 60 (4 ∷ [])))
          % 2 ^ 32)
try_wake-due_example = try_wake-due three_tasks (tt, tt) (omega arith)
