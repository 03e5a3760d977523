-- ===== src/Spawn/Numbers.antt =====
-- The process ids and the kernel stacks as kernel.c makes jobs.
use operativsystemer.Base.{
  ℕ, ◌+◌, ◌*◌, ◌<◌, ◌≡◌, ◌≢◌, ◌⊎◌, inl, inr, refl, sym, subst, ◌∙◌, ap, true, List, [], ◌∷◌, ◌++◌,
  arith, ◌==◌, ==_ne, ==_refl, Bool-cases,
}
use operativsystemer.Queue.{Ptr}
use operativsystemer.Queue.Chain.{has, ◌∉◌, has-append}
use operativsystemer.Memory.{update}
use operativsystemer.Spawn.{Pcb, new_pcb, stack_min, stack_size, stack_offset}

-- Each job has a process id of its own, below `next_pid`, and the kernel stack of that number.
pub record IsNumbered (pcb : Ptr → Pcb) (next_pid : ℕ) (jobs : List Ptr) : Type 0 where
  pub below : (p : Ptr) → has p jobs ≡ true → (pcb p).pid < next_pid
  pub own_stack :
      (p : Ptr)
      → has p jobs ≡ true
      → (pcb p).base_kernel_stack ≡ stack_min + (pcb p).pid * stack_size + stack_offset
  pub own_pid :
      (p q : Ptr) → has p jobs ≡ true → has q jobs ≡ true → (pcb p).pid ≡ (pcb q).pid → p ≡ q

-- A creation keeps the process id and the stack that a job was given.
unfoldable pub Keeps : (Pcb → Pcb) → Type 0
Keeps kind = (q : Pcb) → ((kind q).pid ≡ q.pid) × ((kind q).base_kernel_stack ≡ q.base_kernel_stack)

-- A job of the longer list is the new one or an old one.
new_or_old :
    (jobs : List Ptr) (p q : Ptr)
    → p ∉ jobs
    → has q (jobs ++ p ∷ []) ≡ true
    → (q ≡ p) ⊎ ((has q jobs ≡ true) × (q ≢ p))
new_or_old jobs p q out h = elim (Bool-cases (q == p)) [
  | inl same ↦ inl (ground arith)
  | inr other ↦
      let ne : q ≢ p = ground arith in inr (ground (arith, has-append q jobs (p ∷ [])), ne)
]

pub new_pcb-IsNumbered :
    (kind : Pcb → Pcb) (pcb : Ptr → Pcb) (pid stack : ℕ) (p : Ptr) (jobs : List Ptr)
    → Keeps kind
    → p ∉ jobs
    → stack ≡ stack_min + pid * stack_size
    → IsNumbered pcb pid jobs
    → IsNumbered (update pcb p (kind (new_pcb pid stack (pcb p)))) (pid + 1) (jobs ++ p ∷ [])
unfolding Keeps
new_pcb-IsNumbered kind pcb pid stack p jobs keeps out at i = record {
  below = λ q h. elim (found q h) [
    | inl new ↦ subst (λ a. (now a).pid < pid + 1) (sym new) (omega (arith, new_pid))
    | inr old ↦ subst (λ a. a.pid < pid + 1) (sym (kept q old.1)) (omega (arith, i.below q old.0))
  ];
  own_stack = λ q h. elim (found q h) [
    | inl new ↦
        subst (λ a. (now a).base_kernel_stack ≡ stack_min + (now a).pid * stack_size + stack_offset)
          (sym new) (omega (arith, new_pid, new_stack, at))
    | inr old ↦
        subst (λ a. a.base_kernel_stack ≡ stack_min + a.pid * stack_size + stack_offset)
          (sym (kept q old.1)) (i.own_stack q old.0)
  ];
  own_pid = λ q r h k e. elim (found q h) [
    | inl new ↦ elim (found r k) [
      | inl too ↦ new ∙ sym too
      | inr old ↦ absurd (omega (arith, pid_of q new, e, old_pid r old))
    ]
    | inr old ↦ elim (found r k) [
      | inl new ↦ absurd (omega (arith, pid_of r new, e, old_pid q old))
      | inr both ↦
          i.own_pid q r old.0 both.0
            (sym (ap (λ a. a.pid) (kept q old.1)) ∙ e ∙ ap (λ a. a.pid) (kept r both.1))
    ]
  ];
}
  where
    now : Ptr → Pcb
    now = update pcb p (kind (new_pcb pid stack (pcb p)))

    found : (q : Ptr) → has q (jobs ++ p ∷ []) ≡ true → (q ≡ p) ⊎ ((has q jobs ≡ true) × (q ≢ p))
    found q h = new_or_old jobs p q out h

    new_pid : (now p).pid ≡ pid
    new_pid = rw (==_refl p) ((keeps (new_pcb pid stack (pcb p))).0)

    new_stack : (now p).base_kernel_stack ≡ stack + stack_offset
    new_stack = rw (==_refl p) ((keeps (new_pcb pid stack (pcb p))).1)

    pid_of : (q : Ptr) → q ≡ p → (now q).pid ≡ pid
    pid_of q new = ap (λ a. (now a).pid) new ∙ new_pid

    kept : (q : Ptr) → q ≢ p → now q ≡ pcb q
    kept q ne = rw (==_ne q p ne) refl

    old_pid : (q : Ptr) → (has q jobs ≡ true) × (q ≢ p) → (now q).pid < pid
    old_pid q old = subst (λ a. a.pid < pid) (sym (kept q old.1)) (i.below q old.0)
