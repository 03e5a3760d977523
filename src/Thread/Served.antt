-- ===== src/Thread/Served.antt =====
-- The steps of the jobs that share a lock of cos318-project6/thread.c, and what each of them keeps.
use operativsystemer.Base.{
  ℕ, ◌+◌, ◌≤◌, ◌≡◌, ◌≢◌, inl, inr, refl, sym, subst, ◌∙◌, ap, true, false, some, none, Option, List,
  [], ◌∷◌, ◌++◌, length, some-injective, arith, ◌==◌, ==_ne, ==_refl, Option-cases, Bool-cases,
  if◌then◌else◌, append-nil, ◌%◌, ◌^◌,
}
use operativsystemer.Queue.{Ptr, update}
use operativsystemer.Queue.Chain.{has, ◌∉◌, Distinct, Distinct-snoc}
use operativsystemer.Jobs.{
  JobStatus, running, blocked, exited, Machine, set_status, schedule, join, yield, exit, wake,
}
use operativsystemer.Jobs.Ring.{IsRing, insert_job-IsRing}
use operativsystemer.Jobs.Next.{Kept, stays}
use operativsystemer.Jobs.Keeps.{
  can_run, AllCan, Left, schedule-Left, stays-can_run, Left-AllCan, has-snoc,
}
use operativsystemer.Thread.{JobLock, unlocked, locked, lock_acquire, lock_release}
use operativsystemer.Thread.Lines.{
  IsLine, lock_acquire-free, lock_acquire-taken, lock_acquire-IsLine, lock_release-last,
  lock_release-next,
}

-- The kernel, a lock, and the jobs that asked for it and have not given it back, first come first.
pub record System : Type 0 where
  pub machine : Machine
  pub lock : JobLock
  pub line : List Ptr

-- A step of the current job. `timer` and `fuel` are those of the loops.
pub data Step : System → System → Type 0 where
  acquires :
      (fuel : ℕ) (timer : ℕ → ℕ) (m n : Machine) (l k : JobLock) (line : List Ptr)
      → m.current_running ∉ line
      → lock_acquire fuel timer l m ≡ some (k, n)
      → Step
          (record { machine = m; lock = l; line = line })
          (record { machine = n; lock = k; line = line ++ m.current_running ∷ [] })
  releases :
      (fuel : ℕ) (m n : Machine) (l k : JobLock) (line : List Ptr)
      → length line ≤ fuel
      → lock_release fuel l m ≡ some (k, n)
      → Step
          (record { machine = m; lock = l; line = m.current_running ∷ line })
          (record { machine = n; lock = k; line = line })
  yields :
      (fuel : ℕ) (timer : ℕ → ℕ) (m n : Machine) (l : JobLock) (line : List Ptr)
      → yield fuel timer m ≡ some n
      → Step
          (record { machine = m; lock = l; line = line })
          (record { machine = n; lock = l; line = line })
  exits :
      (fuel : ℕ) (timer : ℕ → ℕ) (m n : Machine) (l : JobLock) (line : List Ptr)
      → m.current_running ∉ line
      → exit fuel timer m ≡ some n
      → Step
          (record { machine = m; lock = l; line = line })
          (record { machine = n; lock = l; line = line })

pub data Reach (s : System) : System → Type 0 where
  here : Reach s s
  next : {t u : System} → Reach s t → Step t u → Reach s u

-- The jobs behind the first of the line are blocked.
abbrev pub IsParked : (Ptr → JobStatus) → List Ptr → Type 0
IsParked f [] = Unit {0}
IsParked f (o ∷ ws) = (p : Ptr) → has p ws ≡ true → f p ≡ blocked

pub record IsServed (s : System) : Type 0 where
  pub behind : List Ptr
  pub ring : IsRing s.machine.ring s.machine.current_running behind
  pub can : AllCan s.machine.status (s.machine.current_running ∷ behind)
  pub served : IsLine s.machine.next_blocked s.lock s.line
  pub apart : Distinct s.line
  pub parked : IsParked s.machine.status s.line

false-ne_true : false ≢ true
false-ne_true e = ground arith

pub can_run-ne : (f : Ptr → JobStatus) (p q : Ptr) → can_run (f p) ≡ true → f q ≡ blocked → p ≢ q
can_run-ne f p q c b e =
    absurd (false-ne_true (sym (ap can_run b) ∙ ap (λ a. can_run (f a)) (sym e) ∙ c))

Kept-blocked : (f g : Ptr → JobStatus) (p : Ptr) → Kept f g → f p ≡ blocked → g p ≡ blocked
Kept-blocked f g p k b = elim (k p) [
  | inl e ↦ e ∙ b
  | inr e ↦ absurd (false-ne_true (sym (ap can_run b) ∙ ap can_run (e.0)))
]

-- Whatever the loops of scheduler do, a line that was parked stays so.
IsParked-Kept :
    (f g : Ptr → JobStatus) (line : List Ptr) → Kept f g → IsParked f line → IsParked g line
IsParked-Kept f g [] k h = tt
IsParked-Kept f g (o ∷ ws) k h = λ p i. Kept-blocked f g p k (h p i)

-- A job that was made blocked or exited leaves the ring.
gone-AllCan :
    (f g : Ptr → JobStatus) (c : Ptr) (xs : List Ptr) (s : JobStatus)
    → g c ≡ s
    → stays s c ≡ []
    → c ∉ xs
    → ((p : Ptr) → p ≢ c → g p ≡ f p)
    → AllCan f (c ∷ xs)
    → AllCan g (xs ++ stays (g c) c)
gone-AllCan f g c xs s e gone out same can p i =
    let inside : has p xs ≡ true =
      sym (
        ap (λ s. has p (xs ++ stays s c)) e
        ∙ ap (λ w. has p (xs ++ w)) gone
        ∙ ap (has p) (append-nil xs))
      ∙ i in
    let ne : p ≢ c = λ q. absurd (false-ne_true (sym out ∙ ap (λ a. has a xs) (sym q) ∙ inside)) in
    ap can_run (same p ne) ∙ can p (ground arith)

-- What scheduler makes of a machine whose line is parked.
schedule-IsServed :
    (fuel : ℕ) (timer : ℕ → ℕ) (m n : Machine) (xs : List Ptr) (k : JobLock) (line : List Ptr)
    → IsRing m.ring m.current_running xs
    → AllCan m.status (xs ++ stays (m.status m.current_running) m.current_running)
    → IsParked m.status line
    → IsLine m.next_blocked k line
    → Distinct line
    → schedule fuel timer m ≡ some n
    → IsServed (record { machine = n; lock = k; line = line })
schedule-IsServed fuel timer m n xs k line v can parked served apart r =
    let after : Left m n (xs ++ stays (m.status m.current_running) m.current_running)
        × (n.status n.current_running ≡ running) =
      schedule-Left fuel timer m n xs v can r in
    record {
      behind = after.0.behind;
      ring = after.0.ring;
      can =
          Left-AllCan m n (xs ++ stays (m.status m.current_running) m.current_running) (after.0)
            can;
      served = subst (λ nb. IsLine nb k line) (sym after.0.waiting) served;
      apart = apart;
      parked = IsParked-Kept m.status n.status line after.0.kept parked;
    }

block-IsServed :
    (fuel : ℕ) (timer : ℕ → ℕ) (m n : Machine) (l : JobLock) (o : Ptr) (ws : List Ptr)
    → IsServed (record { machine = m; lock = l; line = o ∷ ws })
    → m.current_running ∉ (o ∷ ws)
    → schedule fuel timer (join l.waiting m).1 ≡ some n
    → IsServed (record {
      machine = n;
      lock = record { waiting = m.current_running; status = l.status; spinlock = unlocked };
      line = o ∷ (ws ++ m.current_running ∷ []);
    })
unfolding join
block-IsServed fuel timer m n l o ws inv out r =
    schedule-IsServed fuel timer joined n inv.behind
      (record { waiting = m.current_running; status = l.status; spinlock = unlocked })
      (o ∷ (ws ++ m.current_running ∷ [])) inv.ring
      (gone-AllCan m.status joined.status m.current_running inv.behind blocked
        (rw (==_refl m.current_running) refl) refl (ground arith)
        (λ p ne. rw (==_ne p m.current_running ne) refl) inv.can)
      (λ p i. parked p i)
      (lock_acquire-IsLine m.next_blocked l m.current_running o ws inv.served (ground arith)
        (ground arith))
      (Distinct-snoc (o ∷ ws) m.current_running inv.apart out) r
  where
    joined : Machine
    joined = (join l.waiting m).1

    parked : (p : Ptr) → has p (ws ++ m.current_running ∷ []) ≡ true → joined.status p ≡ blocked
    parked p i = elim (Bool-cases (p == m.current_running)) [
      | inl same ↦ rw same refl
      | inr other ↦ rw other (inv.parked p (ground (arith, has-snoc p ws m.current_running)))
    ]

lock_acquire-stuck :
    (fuel : ℕ) (timer : ℕ → ℕ) (l : JobLock) (m : Machine) (o : Ptr) (ws : List Ptr)
    → IsLine m.next_blocked l (o ∷ ws)
    → schedule fuel timer (join l.waiting m).1 ≡ none
    → lock_acquire fuel timer l m ≡ none
unfolding lock_acquire operativsystemer.Thread.block join
lock_acquire-stuck fuel timer l m o ws h e = rw (h.0) (rw (h.1) (rw e refl))

-- A result that is known in two ways.
known : {A : Type 0} (o : Option A) (x y : A) (P : A → Type 0) → o ≡ some x → o ≡ some y → P x → P y
known o x y P a b h = subst P (some-injective x y (sym a ∙ b)) h

none-ne_some : {A : Type 0} (a : A) → none ≢ some a
none-ne_some a e = ground arith

pub acquire-IsServed :
    (fuel : ℕ) (timer : ℕ → ℕ) (m n : Machine) (l k : JobLock) (line : List Ptr)
    → IsServed (record { machine = m; lock = l; line = line })
    → m.current_running ∉ line
    → lock_acquire fuel timer l m ≡ some (k, n)
    → IsServed (record { machine = n; lock = k; line = line ++ m.current_running ∷ [] })
acquire-IsServed fuel timer m n l k [] inv out r =
    let got : (k : JobLock) × (lock_acquire fuel timer l m ≡ some (k, m))
        × IsLine m.next_blocked k (m.current_running ∷ []) =
      lock_acquire-free fuel timer l m inv.served in
    known (lock_acquire fuel timer l m) (got.0, m) (k, n)
      (λ a. IsServed (record { machine = a.1; lock = a.0; line = m.current_running ∷ [] })) got.1 r
      (record {
        behind = inv.behind;
        ring = inv.ring;
        can = inv.can;
        served = got.2;
        apart = (refl, tt);
        parked = λ p i. absurd (ground arith);
      })
acquire-IsServed fuel timer m n l k (o ∷ ws) inv out r =
    elim (Option-cases (schedule fuel timer (join l.waiting m).1)) [
      | inl stuck ↦
          absurd (
            none-ne_some (k, n) (sym (lock_acquire-stuck fuel timer l m o ws inv.served stuck) ∙ r))
      | inr (j, e) ↦
          known (lock_acquire fuel timer l m)
            (record { waiting = m.current_running; status = l.status; spinlock = unlocked }, j)
            (k, n)
            (λ a.
              IsServed
                (record { machine = a.1; lock = a.0; line = o ∷ (ws ++ m.current_running ∷ []) }))
            (lock_acquire-taken fuel timer l m j o ws inv.served e) r
            (block-IsServed fuel timer m j l o ws inv out e)
    ]

pub release-IsServed :
    (fuel : ℕ) (m n : Machine) (l k : JobLock) (line : List Ptr)
    → IsServed (record { machine = m; lock = l; line = m.current_running ∷ line })
    → length line ≤ fuel
    → lock_release fuel l m ≡ some (k, n)
    → IsServed (record { machine = n; lock = k; line = line })
release-IsServed fuel m n l k [] inv f r =
    let got : (k : JobLock) × (lock_release fuel l m ≡ some (k, m)) × IsLine m.next_blocked k [] =
      lock_release-last fuel l m m.current_running inv.served in
    known (lock_release fuel l m) (got.0, m) (k, n)
      (λ a. IsServed (record { machine = a.1; lock = a.0; line = [] })) got.1 r
      (record {
        behind = inv.behind;
        ring = inv.ring;
        can = inv.can;
        served = got.2;
        apart = tt;
        parked = tt;
      })
release-IsServed fuel m n l k (w ∷ ws) inv f r =
    let got : (k : JobLock) × (nb : Ptr → Ptr) × (lock_release fuel l m
          ≡ some (k, wake w (record m { next_blocked = nb })))
        × IsLine nb k (w ∷ ws) =
      lock_release-next fuel l m m.current_running w ws inv.served inv.apart.1 (omega arith) in
    known (lock_release fuel l m) (got.0, wake w (record m { next_blocked = got.1 })) (k, n)
      (λ a. IsServed (record { machine = a.1; lock = a.0; line = w ∷ ws })) got.2 r
      (record {
        behind = w ∷ inv.behind;
        ring =
            insert_job-IsRing m.ring m.current_running inv.behind w inv.ring inv.served.2.0.0 fresh;
        can = can;
        served = got.3;
        apart = inv.apart.1;
        parked = parked;
      })
  where
    fresh : w ∉ (m.current_running ∷ inv.behind)
    fresh = elim (Bool-cases (has w (m.current_running ∷ inv.behind))) [
      | inl i ↦ absurd (can_run-ne m.status w w (inv.can w i) (inv.parked w (ground arith)) refl)
      | inr out ↦ out
    ]

    awake : Ptr → JobStatus
    awake p = if p == w then running else m.status p

    can : AllCan awake (m.current_running ∷ w ∷ inv.behind)
    can p i = elim (Bool-cases (p == w)) [
      | inl same ↦ rw same refl
      | inr other ↦ rw other (inv.can p (ground arith))
    ]

    parked : (p : Ptr) → has p ws ≡ true → awake p ≡ blocked
    parked p i =
        let ne : p ≢ w =
          λ e. absurd (false-ne_true (sym inv.apart.1.0 ∙ ap (λ a. has a ws) (sym e) ∙ i)) in
        rw (==_ne p w ne) (inv.parked p (ground arith))

pub yield-IsServed :
    (fuel : ℕ) (timer : ℕ → ℕ) (m n : Machine) (l : JobLock) (line : List Ptr)
    → IsServed (record { machine = m; lock = l; line = line })
    → yield fuel timer m ≡ some n
    → IsServed (record { machine = n; lock = l; line = line })
unfolding yield
yield-IsServed fuel timer m n l line inv r =
    let standing : stays (m.status m.current_running) m.current_running ≡ m.current_running ∷ [] =
      stays-can_run (m.status m.current_running) m.current_running
        (inv.can m.current_running (ground arith)) in
    schedule-IsServed fuel timer
      (record m {
        yield_count =
            update m.yield_count m.current_running ((m.yield_count m.current_running + 1) % 2 ^ 32);
      })
      n inv.behind l line inv.ring
      (λ p i. inv.can p (
        sym (ap (λ w. has p (inv.behind ++ w)) standing ∙ has-snoc p inv.behind m.current_running)
        ∙ i))
      inv.parked inv.served inv.apart r

IsParked-other :
    (f : Ptr → JobStatus) (c : Ptr) (line : List Ptr)
    → can_run (f c) ≡ true
    → IsParked f line
    → IsParked (λ a. if a == c then exited else f a) line
IsParked-other f c [] can h = tt
IsParked-other f c (o ∷ ws) can h =
    λ p i. let ne : p ≢ c = λ e. can_run-ne f c p can (h p i) (sym e) in rw (==_ne p c ne) (h p i)

pub exit-IsServed :
    (fuel : ℕ) (timer : ℕ → ℕ) (m n : Machine) (l : JobLock) (line : List Ptr)
    → IsServed (record { machine = m; lock = l; line = line })
    → exit fuel timer m ≡ some n
    → IsServed (record { machine = n; lock = l; line = line })
unfolding exit
exit-IsServed fuel timer m n l line inv r =
    schedule-IsServed fuel timer (set_status m.current_running exited m) n inv.behind l line
      inv.ring
      (gone-AllCan m.status (set_status m.current_running exited m).status m.current_running
        inv.behind exited (rw (==_refl m.current_running) refl) refl (ground arith)
        (λ p ne. rw (==_ne p m.current_running ne) refl) inv.can)
      (IsParked-other m.status m.current_running line (inv.can m.current_running (ground arith))
        inv.parked)
      inv.served inv.apart r
