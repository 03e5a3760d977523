-- ===== src/Jobs/Keeps.antt =====
-- What `scheduler` of cos318-project6/scheduler.c leaves whenever it returns.
use operativsystemer.Base.{
  ℕ, zero, suc, ◌+◌, ◌≡◌, ◌≢◌, inl, inr, refl, sym, subst, ◌∙◌, ap, Bool, true, false, some, none,
  some-injective, List, [], ◌∷◌, ◌++◌, arith, ==_refl, ltb, Bool-cases, Option-cases, if◌then◌else◌,
}
use operativsystemer.Queue.{Ptr}
use operativsystemer.Queue.Chain.{has, has-append}
use operativsystemer.Jobs.{
  JobStatus, running, blocked, sleeping, exited, is_running, Machine, set_status, turn, schedule,
}
use operativsystemer.Jobs.Ring.{IsRing}
use operativsystemer.Jobs.Next.{stays, Kept, Kept-trans, Turned, turn-Turned, set_status-Kept}

-- A job that may stand in the ring.
abbrev pub can_run : JobStatus → Bool
can_run running = true
can_run sleeping = true
can_run blocked = false
can_run exited = false

abbrev pub AllCan : (Ptr → JobStatus) → List Ptr → Type 0
AllCan f xs = (p : Ptr) → has p xs ≡ true → can_run (f p) ≡ true

-- What holds of the machine after, where `xs` are the jobs that were in the ring or stay in it.
pub record Left (m n : Machine) (xs : List Ptr) : Type 0 where
  pub behind : List Ptr
  pub ring : IsRing n.ring n.current_running behind
  pub same : (p : Ptr) → has p (n.current_running ∷ behind) ≡ has p xs
  pub kept : Kept m.status n.status
  pub waiting : n.next_blocked ≡ m.next_blocked

Kept-can_run :
    (f g : Ptr → JobStatus) (p : Ptr) → Kept f g → can_run (f p) ≡ true → can_run (g p) ≡ true
Kept-can_run f g p k c = elim (k p) [ inl e ↦ ap can_run e ∙ c | inr e ↦ ap can_run (e.1) ]

none-ne_some : (n : Machine) → none ≢ some n
none-ne_some n e = ground arith

pub stays-can_run : (s : JobStatus) (c : Ptr) → can_run s ≡ true → stays s c ≡ c ∷ []
stays-can_run running c h = refl
stays-can_run sleeping c h = refl
stays-can_run blocked c h = absurd (ground arith)
stays-can_run exited c h = absurd (ground arith)

is_running-eq : (s : JobStatus) → is_running s ≡ true → s ≡ running
is_running-eq running h = refl
is_running-eq sleeping h = absurd (ground arith)
is_running-eq blocked h = absurd (ground arith)
is_running-eq exited h = absurd (ground arith)

-- A turn that leaves the ring and its start as they are.
stay-Left :
    (m n k : Machine)
    → IsRing m.ring m.current_running []
    → k.ring ≡ m.ring
    → k.current_running ≡ m.current_running
    → Kept m.status k.status
    → k.next_blocked ≡ m.next_blocked
    → some k ≡ some n
    → Left m n (m.current_running ∷ [])
stay-Left m n k v r c s w e =
    subst (λ k. Left m k (m.current_running ∷ [])) (some-injective k n e)
      (record { behind = []; ring = rw r (rw c v); same = λ p. rw c refl; kept = s; waiting = w })

-- A turn in a ring of one job.
turn-alone :
    (t : ℕ) (m n : Machine) (s : JobStatus)
    → IsRing m.ring m.current_running []
    → m.status m.current_running ≡ s
    → turn t m ≡ some n
    → Left m n (stays s m.current_running)
unfolding turn
turn-alone t m n running v e r =
    stay-Left m n m v refl refl (λ p. inl refl) refl (sym (rw e (rw (v.circle.0) refl)) ∙ r)
turn-alone t m n sleeping v e r = elim (Bool-cases (ltb (m.wakeup_time m.current_running) t)) [
  | inl due ↦
      stay-Left m n (set_status m.current_running running m) v refl refl
        (λ p. set_status-Kept m p e) refl (sym (rw e (rw due (rw (v.circle.0) refl))) ∙ r)
  | inr early ↦
      stay-Left m n m v refl refl (λ p. inl refl) refl
        (sym (rw e (rw early (rw (v.circle.0) refl))) ∙ r)
]
turn-alone t m n blocked v e r =
    absurd (none-ne_some n (sym (rw e (rw (v.circle.0) (rw (==_refl m.current_running) refl))) ∙ r))
turn-alone t m n exited v e r =
    absurd (none-ne_some n (sym (rw e (rw (v.circle.0) (rw (==_refl m.current_running) refl))) ∙ r))

turn-Left :
    (t : ℕ) (m n : Machine) (xs : List Ptr)
    → IsRing m.ring m.current_running xs
    → turn t m ≡ some n
    → Left m n (xs ++ stays (m.status m.current_running) m.current_running)
turn-Left t m n [] v r = turn-alone t m n (m.status m.current_running) v refl r
turn-Left t m n (x ∷ xs) v r =
    let turned : (k : Machine) × (turn t m ≡ some k)
        × Turned m k x (xs ++ stays (m.status m.current_running) m.current_running) =
      turn-Turned t m x xs (m.status m.current_running) v refl in
    let e : turned.0 ≡ n = some-injective turned.0 n (sym turned.1 ∙ r) in
    subst (λ k. Left m k (x ∷ (xs ++ stays (m.status m.current_running) m.current_running))) e
      (record {
        behind = xs ++ stays (m.status m.current_running) m.current_running;
        ring = rw (turned.2.current) (turned.2.ring);
        same = λ p. rw (turned.2.current) refl;
        kept = turned.2.kept;
        waiting = turned.2.waiting;
      })

schedule-zero : (timer : ℕ → ℕ) (m : Machine) → schedule zero timer m ≡ none
unfolding schedule
schedule-zero timer m = refl

pub has-snoc : (p : Ptr) (xs : List Ptr) (c : Ptr) → has p (xs ++ c ∷ []) ≡ has p (c ∷ xs)
has-snoc p xs c = ground (arith, has-append p xs (c ∷ []))

schedule-turn :
    (fuel : ℕ) (timer : ℕ → ℕ) (m k : Machine)
    → turn (timer 0) m ≡ some k
    → schedule (suc fuel) timer m ≡ (
        if is_running (k.status k.current_running)
        then some k
        else schedule fuel (λ i. timer (i + 1)) k)
unfolding schedule
schedule-turn fuel timer m k e = rw e refl

schedule-stuck :
    (fuel : ℕ) (timer : ℕ → ℕ) (m : Machine)
    → turn (timer 0) m ≡ none
    → schedule (suc fuel) timer m ≡ none
unfolding schedule
schedule-stuck fuel timer m e = rw e refl

-- After a turn the ring holds the jobs that may run.
pub Left-AllCan :
    (m n : Machine) (xs : List Ptr) (l : Left m n xs)
    → AllCan m.status xs
    → AllCan n.status (n.current_running ∷ l.behind)
Left-AllCan m n xs l a p i = Kept-can_run m.status n.status p l.kept (a p (sym (l.same p) ∙ i))

Left-trans :
    (m k n : Machine) (xs ys : List Ptr) (l : Left m k xs)
    → Left k n ys
    → ((p : Ptr) → has p ys ≡ has p (k.current_running ∷ l.behind))
    → Left m n xs
Left-trans m k n xs ys l r e = record {
  behind = r.behind;
  ring = r.ring;
  same = λ p. r.same p ∙ e p ∙ l.same p;
  kept = Kept-trans m.status k.status n.status l.kept r.kept;
  waiting = r.waiting ∙ l.waiting;
}

abbrev pub ring_after : Machine → List Ptr → List Ptr
ring_after m xs = xs ++ stays (m.status m.current_running) m.current_running

-- Whenever scheduler returns, the current job is running, and the ring holds the jobs that it held,
-- less the current one of the call if that was blocked or exited.
pub schedule-Left :
    (fuel : ℕ) (timer : ℕ → ℕ) (m n : Machine) (xs : List Ptr)
    → IsRing m.ring m.current_running xs
    → AllCan m.status (ring_after m xs)
    → schedule fuel timer m ≡ some n
    → Left m n (ring_after m xs) × (n.status n.current_running ≡ running)
schedule-Left zero timer m n xs v a r = absurd (none-ne_some n (sym (schedule-zero timer m) ∙ r))
schedule-Left (suc fuel) timer m n xs v a r = elim (Option-cases (turn (timer 0) m)) [
  | inl stuck ↦ absurd (none-ne_some n (sym (schedule-stuck fuel timer m stuck) ∙ r))
  | inr (k, e) ↦
      let l : Left m k (ring_after m xs) = turn-Left (timer 0) m k xs v e in
      let can : AllCan k.status (k.current_running ∷ l.behind) =
        Left-AllCan m k (ring_after m xs) l a in
      let standing : stays (k.status k.current_running) k.current_running ≡ k.current_running ∷ [] =
        stays-can_run (k.status k.current_running) k.current_running
          (can k.current_running (ground arith)) in
      let turned : ring_after k l.behind ≡ l.behind ++ k.current_running ∷ [] =
        ap (λ w. l.behind ++ w) standing in
      let moved : (p : Ptr) → has p (ring_after k l.behind) ≡ has p (k.current_running ∷ l.behind) =
        λ p. ap (has p) turned ∙ has-snoc p l.behind k.current_running in
      let rest : schedule fuel (λ i. timer (i + 1)) k ≡ some n
          → Left k n (ring_after k l.behind) × (n.status n.current_running ≡ running) =
        λ q.
          schedule-Left fuel (λ i. timer (i + 1)) k n l.behind l.ring
            (λ p i. can p (sym (moved p) ∙ i)) q in
      elim (Bool-cases (is_running (k.status k.current_running))) [
        | inl up ↦
            let same : k ≡ n =
              some-injective k n (sym (schedule-turn fuel timer m k e ∙ rw up refl) ∙ r) in
            (
              subst (λ n. Left m n (ring_after m xs)) same l,
              subst (λ n. n.status n.current_running ≡ running) same
                  (is_running-eq (k.status k.current_running) up),
            )
        | inr down ↦
            let back : Left k n (ring_after k l.behind) × (n.status n.current_running ≡ running) =
              rest (sym (schedule-turn fuel timer m k e ∙ rw down refl) ∙ r) in
            (Left-trans m k n (ring_after m xs) (ring_after k l.behind) l (back.0) moved, back.1)
      ]
]
