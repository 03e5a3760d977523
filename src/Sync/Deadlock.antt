-- ===== src/Sync/Deadlock.antt =====
-- The deadlock detection of sync.c.
use operativsystemer.Base.{
  ℕ, zero, suc, ◌+◌, ◌≤◌, ◌<◌, ◌≡◌, ◌≢◌, ◌↔◌, subst, ◌⊎◌, inl, inr, true, false, Option, none, some,
  arith, ◌==◌, Bool-cases, Option-cases,
}
use operativsystemer.Sync.{System, num_pcbs, deadlock_loop, check_for_deadlock}

-- From the task at hand, `n` steps from a task to the owner of the lock that it waits for lead to
-- `src`, every task on the way waits for a lock, and so does `src`.
pub data WaitsFor (s : System) (src : ℕ) : ℕ → Option ℕ → Type 0 where
  here : {l : ℕ} → (s.kernel.pcb src).waiting_for_lock ≡ some l → WaitsFor s src zero (some src)
  step :
      {n l i : ℕ}
      → i ≢ src
      → (s.kernel.pcb i).waiting_for_lock ≡ some l
      → WaitsFor s src n (s.locks l).owner
      → WaitsFor s src (suc n) (some i)

module _ (s : System) (src : ℕ) where
  found :
      (timeout i l : ℕ)
      → (s.kernel.pcb i).waiting_for_lock ≡ some l
      → ((i == src) ≡ true) ⊎ ((i == src) ≡ false)
      → deadlock_loop s src (suc timeout) (some i) ≡ true
      → (deadlock_loop s src timeout (s.locks l).owner ≡ true
          → (n : ℕ) × (n < timeout) × WaitsFor s src n (s.locks l).owner)
      → (n : ℕ) × (n < suc timeout) × WaitsFor s src n (some i)
  unfolding deadlock_loop
  found timeout i l e (inl same) h rest =
      let q : i ≡ src = ground arith in
      (0, omega arith, rw q (here (subst (λ t. (s.kernel.pcb t).waiting_for_lock ≡ some l) q e)))
  found timeout i l e (inr other) h rest =
      let (n, lt, w) = rest (ground arith) in (suc n, omega arith, step (ground arith) e w)

  loop-WaitsFor :
      (timeout : ℕ) (i : Option ℕ)
      → deadlock_loop s src timeout i ≡ true
      → (n : ℕ) × (n < timeout) × WaitsFor s src n i
  unfolding deadlock_loop
  loop-WaitsFor zero i h = cc
  loop-WaitsFor (suc timeout) none h = cc
  loop-WaitsFor (suc timeout) (some i) h = elim (Option-cases (s.kernel.pcb i).waiting_for_lock) [
    | inl e ↦ absurd (ground arith)
    | inr (l, e) ↦
        found timeout i l e (Bool-cases (i == src)) h (loop-WaitsFor timeout (s.locks l).owner)
  ]

  WaitsFor-loop :
      (timeout : ℕ) {n : ℕ} {i : Option ℕ}
      → WaitsFor s src n i
      → n < timeout
      → deadlock_loop s src timeout i ≡ true
  unfolding deadlock_loop
  WaitsFor-loop zero w h = absurd (omega arith)
  WaitsFor-loop (suc timeout) (here e) h = ground arith
  WaitsFor-loop (suc timeout) (step n e w) h = ground (arith, WaitsFor-loop timeout w)

  -- `check_for_deadlock` says yes exactly if the chain from a task to the owner of the lock that it waits
  -- for leads from the given owner to the asking task in at most as many steps as there are pcbs,
  -- every task on the way and the asking one waiting for a lock.
  pub check_for_deadlock_iff :
      (owner : Option ℕ)
      → (check_for_deadlock s owner src ≡ true)
        ↔ ((n : ℕ) × (n ≤ num_pcbs) × WaitsFor s src n owner)
  unfolding check_for_deadlock
  check_for_deadlock_iff owner = (
    λ h. (let (n, lt, w) = loop-WaitsFor (num_pcbs + 1) owner h in (n, omega arith, w)),
    λ h. WaitsFor-loop (num_pcbs + 1) h.2 (omega arith),
  )
