-- ===== src/Jobs/Next.antt =====
-- The job that `scheduler` of cos318-project6/scheduler.c picks.
use operativsystemer.Base.{
  ℕ, zero, suc, ◌+◌, ◌<◌, ◌≡◌, ◌≢◌, ◌⊎◌, inl, inr, refl, sym, subst, ◌∙◌, ap, some, List, [], ◌∷◌,
  ◌++◌, length, append-nil, append_assoc, arith, ◌==◌, ==_ne, ltb, Bool-cases,
}
use operativsystemer.Queue.{Ptr}
use operativsystemer.Queue.Chain.{◌∉◌, has-append}
use operativsystemer.Jobs.{
  JobStatus, running, blocked, sleeping, exited, Machine, set_status, remove_job, free_pcb, turn,
  schedule,
}
use operativsystemer.Jobs.Ring.{IsRing, rotate-IsRing, remove_job-IsRing, set_next-IsRing}

-- The job that goes on standing in the ring when another one is picked, if any.
abbrev pub stays : JobStatus → Ptr → List Ptr
stays running c = c ∷ []
stays sleeping c = c ∷ []
stays blocked c = []
stays exited c = []

abbrev pub AllSleep : (Ptr → JobStatus) → List Ptr → Type 0
AllSleep f [] = Unit {0}
AllSleep f (x ∷ xs) = (f x ≡ sleeping) × AllSleep f xs

-- No status changes but from sleeping to running.
abbrev pub Kept : (Ptr → JobStatus) → (Ptr → JobStatus) → Type 0
Kept f g = (p : Ptr) → (g p ≡ f p) ⊎ ((f p ≡ sleeping) × (g p ≡ running))

pub Kept-trans : (f g k : Ptr → JobStatus) → Kept f g → Kept g k → Kept f k
Kept-trans f g k a b p = join (a p) (b p)
  where
    join :
        (g p ≡ f p) ⊎ ((f p ≡ sleeping) × (g p ≡ running))
        → (k p ≡ g p) ⊎ ((g p ≡ sleeping) × (k p ≡ running))
        → (k p ≡ f p) ⊎ ((f p ≡ sleeping) × (k p ≡ running))
    join (inl e) (inl d) = inl (d ∙ e)
    join (inl e) (inr d) = inr (sym e ∙ d.0, d.1)
    join (inr e) (inl d) = inr (e.0, d ∙ e.1)
    join (inr e) (inr d) = inr (e.0, d.1)

-- What a turn of the loop leaves, where `x` stands behind the current job.
pub record Turned (m n : Machine) (x : Ptr) (xs : List Ptr) : Type 0 where
  pub current : n.current_running ≡ x
  pub ring : IsRing n.ring x xs
  pub kept : Kept m.status n.status
  pub others : (p : Ptr) → p ≢ m.current_running → n.status p ≡ m.status p
  pub waiting : n.next_blocked ≡ m.next_blocked

-- Waking the current job, where it sleeps.
pub set_status-Kept :
    (m : Machine) (p : Ptr)
    → m.status m.current_running ≡ sleeping
    → ((set_status m.current_running running m).status p ≡ m.status p)
      ⊎ ((m.status p ≡ sleeping) × ((set_status m.current_running running m).status p ≡ running))
set_status-Kept m p e = elim (Bool-cases (p == m.current_running)) [
  | inl same ↦ let at : p ≡ m.current_running = ground arith in inr (rw at e, rw same refl)
  | inr other ↦ inl (rw other refl)
]

pub turn-Turned :
    (t : ℕ) (m : Machine) (x : Ptr) (xs : List Ptr) (s : JobStatus)
    → IsRing m.ring m.current_running (x ∷ xs)
    → m.status m.current_running ≡ s
    → (n : Machine) × (turn t m ≡ some n) × Turned m n x (xs ++ stays s m.current_running)
unfolding turn free_pcb
turn-Turned t m x xs running v e = (
  record m { current_running = x },
  rw e (rw (v.circle.0.0) refl),
  record {
    current = refl;
    ring = rotate-IsRing m.ring m.current_running x xs v;
    kept = λ p. inl refl;
    others = λ p ne. refl;
    waiting = refl;
  },
)
turn-Turned t m x xs sleeping v e = elim (Bool-cases (ltb (m.wakeup_time m.current_running) t)) [
  | inl due ↦ (
    record (set_status m.current_running running m) { current_running = x },
    rw e (rw due (rw (v.circle.0.0) refl)),
    record {
      current = refl;
      ring = rotate-IsRing m.ring m.current_running x xs v;
      kept = λ p. set_status-Kept m p e;
      others = λ p ne. rw (==_ne p m.current_running ne) refl;
      waiting = refl;
    },
  )
  | inr early ↦ (
    record m { current_running = x },
    rw e (rw early (rw (v.circle.0.0) refl)),
    record {
      current = refl;
      ring = rotate-IsRing m.ring m.current_running x xs v;
      kept = λ p. inl refl;
      others = λ p ne. refl;
      waiting = refl;
    },
  )
]
turn-Turned t m x xs blocked v e = (
  record m { current_running = x; ring = remove_job m.current_running m.ring },
  rw e (rw (v.circle.0.0) (rw (v.circle.0.1) (rw (==_ne x m.current_running (ground arith)) refl))),
  record {
    current = refl;
    ring = rw append-nil (remove_job-IsRing m.ring m.current_running x xs v);
    kept = λ p. inl refl;
    others = λ p ne. refl;
    waiting = refl;
  },
)
turn-Turned t m x xs exited v e = (
  free_pcb m.current_running (record m { current_running = x }),
  rw e (rw (v.circle.0.0) (rw (v.circle.0.1) (rw (==_ne x m.current_running (ground arith)) refl))),
  record {
    current = refl;
    ring = rw append-nil (
        set_next-IsRing (remove_job m.current_running m.ring) x xs m.current_running m.next_free_pcb
          (remove_job-IsRing m.ring m.current_running x xs v) (ground arith));
    kept = λ p. inl refl;
    others = λ p ne. refl;
    waiting = refl;
  },
)

-- What `scheduler` leaves, where job `r` was picked.
pub record Picked (m n : Machine) (r : Ptr) (xs : List Ptr) : Type 0 where
  pub current : n.current_running ≡ r
  pub ready : n.status r ≡ running
  pub ring : IsRing n.ring r xs
  pub kept : Kept m.status n.status
  pub waiting : n.next_blocked ≡ m.next_blocked

AllSleep-frame :
    (f g : Ptr → JobStatus) (c : Ptr) (xs : List Ptr)
    → c ∉ xs
    → ((p : Ptr) → p ≢ c → g p ≡ f p)
    → AllSleep f xs
    → AllSleep g xs
AllSleep-frame f g c [] out same a = tt
AllSleep-frame f g c (x ∷ xs) out same a =
    (same x (ground arith) ∙ a.0, AllSleep-frame f g c xs (ground arith) same a.1)

-- With more fuel than sleeping jobs before the first one that is running, scheduler ends and picks
-- that job. The sleeping jobs stay in the ring, the current one does unless it is blocked or
-- exited, and no status changes but from sleeping to running.
pub schedule-Picked :
    (fuel : ℕ) (timer : ℕ → ℕ) (m : Machine) (pre : List Ptr) (r : Ptr) (post : List Ptr)
    → IsRing m.ring m.current_running (pre ++ r ∷ post)
    → AllSleep m.status pre
    → m.status r ≡ running
    → length pre < fuel
    → (n : Machine) × (schedule fuel timer m ≡ some n)
      × Picked m n r (post ++ (stays (m.status m.current_running) m.current_running ++ pre))
unfolding schedule
schedule-Picked zero timer m pre r post v a e h = absurd (omega arith)
schedule-Picked (suc fuel) timer m [] r post v a e h =
    let turned : (n : Machine) × (turn (timer 0) m ≡ some n)
        × Turned m n r (post ++ stays (m.status m.current_running) m.current_running) =
      turn-Turned (timer 0) m r post (m.status m.current_running) v refl in
    let n : Machine = turned.0 in
    let ready : n.status r ≡ running = turned.2.others r (ground arith) ∙ e in
    (
      n,
      rw (turned.1) (rw (turned.2.current) (rw ready refl)),
      record {
        current = turned.2.current;
        ready = ready;
        ring = rw append-nil (turned.2.ring);
        kept = turned.2.kept;
        waiting = turned.2.waiting;
      },
    )
schedule-Picked (suc fuel) timer m (y ∷ ys) r post v a e h =
    let s : List Ptr = stays (m.status m.current_running) m.current_running in
    let turned : (n : Machine) × (turn (timer 0) m ≡ some n)
        × Turned m n y ((ys ++ r ∷ post) ++ s) =
      turn-Turned (timer 0) m y (ys ++ r ∷ post) (m.status m.current_running) v refl in
    let n : Machine = turned.0 in
    let asleep : n.status y ≡ sleeping = turned.2.others y (ground arith) ∙ a.0 in
    let ring : IsRing n.ring n.current_running (ys ++ r ∷ (post ++ s)) =
      rw (turned.2.current)
        (subst (IsRing n.ring y) (append_assoc ys (r ∷ post) s) turned.2.ring) in
    let rest : (k : Machine) × (schedule fuel (λ i. timer (i + 1)) n ≡ some k)
        × Picked n k r
            ((post ++ s) ++ (stays (n.status n.current_running) n.current_running ++ ys)) =
      schedule-Picked fuel (λ i. timer (i + 1)) n ys r (post ++ s) ring
        (AllSleep-frame m.status n.status m.current_running ys
          (ground (arith, has-append m.current_running ys (r ∷ post))) turned.2.others a.1)
        (turned.2.others r (ground (arith, has-append m.current_running ys (r ∷ post))) ∙ e)
        (omega arith) in
    let standing : stays (n.status n.current_running) n.current_running ≡ y ∷ [] =
      rw (turned.2.current) (rw asleep refl) in
    (
      rest.0,
      rw (turned.1) (rw (turned.2.current) (rw asleep (rest.1))),
      record {
        current = rest.2.current;
        ready = rest.2.ready;
        ring =
            subst (IsRing rest.0.ring r)
              (ap (λ w. (post ++ s) ++ (w ++ ys)) standing ∙ append_assoc post s (y ∷ ys))
              rest.2.ring;
        kept = Kept-trans m.status n.status rest.0.status turned.2.kept rest.2.kept;
        waiting = rest.2.waiting ∙ turned.2.waiting;
      },
    )
