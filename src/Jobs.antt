-- ===== src/Jobs.antt =====
-- The ring of jobs of cos318-project6/scheduler.c and kernel.c: the jobs that may run stand in a
-- circle through `next` and `previous`, with `current_running` as its start; the pcbs that are free
-- and the jobs that wait for a lock stand in lists. `none` is a machine that halts or does not
-- go on. The functions run with interrupts off; a pcb is its address.
pub mod Ring
pub mod Next
pub mod Waiting
pub mod Keeps
use operativsystemer.Base.{
  ℕ, zero, suc, ◌+◌, ◌%◌, ◌^◌, Bool, true, false, Option, none, some, ◌>>=◌, ◌==◌, ltb,
  if◌then◌else◌,
}
use operativsystemer.Queue.{Ptr, null, Heap, update}

-- `status` of a pcb.
pub data JobStatus : Type 0 where
  running : JobStatus
  blocked : JobStatus
  sleeping : JobStatus
  exited : JobStatus

abbrev pub is_running : JobStatus → Bool
is_running running = true
is_running _ = false

-- The fields of the pcbs, and the static pointers.
pub record Machine : Type 0 where
  pub ring : Heap
  pub next_blocked : Ptr → Ptr
  pub status : Ptr → JobStatus
  pub wakeup_time : Ptr → ℕ
  pub yield_count : Ptr → ℕ
  pub current_running : Ptr
  pub next_free_pcb : Ptr

abbrev pub set_next : Ptr → Ptr → Heap → Heap
set_next p v h = record h { next = update h.next p v }

abbrev pub set_previous : Ptr → Ptr → Heap → Heap
set_previous p v h = record h { prev = update h.prev p v }

abbrev pub set_status : Ptr → JobStatus → Machine → Machine
set_status p s m = record m { status = λ a. if a == p then s else m.status a }

unfoldable pub insert_job : Ptr → Ptr → Heap → Heap
insert_job job q h =
    let linked = set_previous job q (set_next job (h.next q) h) in
    set_next q job (set_previous (linked.next q) job linked)

unfoldable pub remove_job : Ptr → Heap → Heap
remove_job job h =
    let passed = set_next (h.prev job) (h.next job) h in
    set_previous (passed.next job) (passed.prev job) passed

-- `insert_pcb` puts a new job behind all others.
unfoldable pub insert_pcb : Ptr → Machine → Machine
insert_pcb p m =
    if m.current_running == null
    then record m { current_running = p; ring = set_previous p p (set_next p p m.ring) }
    else record m { ring = behind m.ring }
  where
    behind : Heap → Heap
    behind h =
        let c = m.current_running in
        let linked = set_previous p (h.prev c) (set_next p c h) in
        let back = set_previous (linked.next p) p linked in set_next (back.prev p) p back

unfoldable pub alloc_pcb : Machine → Option (Ptr × Machine)
alloc_pcb m =
    if m.next_free_pcb == null
    then none
    else some (m.next_free_pcb, record m { next_free_pcb = m.ring.next m.next_free_pcb })

unfoldable pub free_pcb : Ptr → Machine → Machine
free_pcb p m =
    let removed = remove_job p m.ring in
    record m { ring = set_next p m.next_free_pcb removed; next_free_pcb = p }

-- The job of `current_running` goes on to the next one, and the one that it was goes away.
abbrev pub advance : Machine → Machine
advance m = record m { current_running = m.ring.next m.current_running }

-- A turn of the loop of `scheduler`, at the time `t`.
unfoldable pub turn : ℕ → Machine → Option Machine
turn t m = by_status (m.status c)
  where
    c : Ptr
    c = m.current_running

    after : Machine
    after = advance m

    leave : (Machine → Machine) → Option Machine
    leave remove = if m.ring.next c == c then none else some (remove after)

    by_status : JobStatus → Option Machine
    by_status sleeping =
        some (advance (if ltb (m.wakeup_time c) t then set_status c running m else m))
    by_status running = some after
    by_status blocked =
        leave (λ n. record n { ring = remove_job (n.ring.prev n.current_running) n.ring })
    by_status exited = leave (λ n. free_pcb (n.ring.prev n.current_running) n)

-- The loop of `scheduler`: on fuel, with the readings of the timer by their number.
unfoldable pub schedule : ℕ → (ℕ → ℕ) → Machine → Option Machine
schedule zero timer m = none
schedule (suc fuel) timer m = turn (timer 0) m >>= (λ n.
    let rest = schedule fuel (λ i. timer (i + 1)) n in
    if is_running (n.status n.current_running) then some n else rest)

unfoldable pub yield : ℕ → (ℕ → ℕ) → Machine → Option Machine
yield fuel timer m = schedule fuel timer (record m {
  yield_count =
      update m.yield_count m.current_running ((m.yield_count m.current_running + 1) % 2 ^ 32);
})

unfoldable pub exit : ℕ → (ℕ → ℕ) → Machine → Option Machine
exit fuel timer m = schedule fuel timer (set_status m.current_running exited m)

-- `block`, without the spinlock: the waiting list starts with the job that came last.
unfoldable pub join : Ptr → Machine → Ptr × Machine
join q m =
    let c = m.current_running in
    (c, record (set_status c blocked m) { next_blocked = update m.next_blocked c q })

-- The loop of `unblock`: the node before the last one of the waiting list, from `tmp` on.
unfoldable pub find_last : (Ptr → Ptr) → ℕ → Ptr → Option Ptr
find_last next_blocked zero tmp = none
find_last next_blocked (suc fuel) tmp =
    let rest = find_last next_blocked fuel (next_blocked tmp) in
    if next_blocked (next_blocked tmp) == null then some tmp else rest

-- The end of `unblock`, for the job that it takes from the waiting list.
abbrev pub wake : Ptr → Machine → Machine
wake job m = record (set_status job running m) { ring = insert_job job m.current_running m.ring }

-- The waiting list after the call, and the machine.
unfoldable pub unblock : ℕ → Ptr → Machine → Option (Ptr × Machine)
unblock fuel q m =
    if q == null
    then none
    else if m.next_blocked q == null
    then some (null, wake q m)
    else find_last m.next_blocked fuel q >>= (λ tmp.
      some
        (q, wake (m.next_blocked tmp) (record m { next_blocked = update m.next_blocked tmp null })))
