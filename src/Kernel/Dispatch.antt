-- ===== src/Kernel/Dispatch.antt =====
-- The step of `scheduler` that makes the chosen task the running one.
use mathlib.Core.Path.{subst₂}
use operativsystemer.Base.{
  fun_ext, ap₂, ◌∙◌, ℕ, ◌+◌, ◌%◌, ◌^◌, ◌<◌, ◌-◌, ◌≡◌, refl, sym, ap, subst, true, false, List, [],
  ◌∷◌, ◌++◌, arith,
}
use operativsystemer.Queue.Chain.{
  has, ◌∉◌, Distinct, has-append, Distinct-left, Distinct-right, Distinct-parts, Distinct-join,
}
use operativsystemer.Queue.Sorted.{All, IsSorted}
use operativsystemer.Kernel.{
  Kernel, Status, ready, blocked, priority_of, order_by_wake_up, account, dispatch,
}
use operativsystemer.Kernel.Lottery.{tickets, tickets-append}
use operativsystemer.Kernel.Invariant.{IsScheduled, IsRunning, order-eq, All-append}

module _ (P : ℕ → Type 0) where
  All-left : (xs ys : List ℕ) → All P (xs ++ ys) → All P xs
  All-left [] ys a = tt
  All-left (x ∷ xs) ys a = (a.0, All-left xs ys a.1)

  All-right : (xs ys : List ℕ) → All P (xs ++ ys) → All P ys
  All-right [] ys a = a
  All-right (x ∷ xs) ys a = All-right xs ys a.1

  pub All-map : (Q : ℕ → Type 0) → ((t : ℕ) → P t → Q t) → (xs : List ℕ) → All P xs → All Q xs
  All-map Q f [] a = tt
  All-map Q f (x ∷ xs) a = (f x a.0, All-map Q f xs a.1)

-- The queue that is left when its task `c` is chosen.
module _ (front back rest : List ℕ) (c : ℕ) (d : Distinct ((front ++ c ∷ back) ++ rest)) where
  whole : Distinct (front ++ c ∷ back)
  whole = Distinct-left (front ++ c ∷ back) rest d

  inside : (p : ℕ) → has p (front ++ c ∷ back) ≡ true → has p rest ≡ false
  inside p = Distinct-parts p (front ++ c ∷ back) rest d

  turned-Distinct : Distinct ((back ++ front) ++ rest)
  turned-Distinct =
      Distinct-join (back ++ front) rest
        (Distinct-join back front (Distinct-right front (c ∷ back) whole).1
          (Distinct-left front (c ∷ back) whole)
          (λ p i. ground (arith, Distinct-parts p front (c ∷ back) whole)))
        (Distinct-right (front ++ c ∷ back) rest d)
        (λ p i. ground (arith, inside p, has-append p front (c ∷ back), has-append p back front))

  chosen-out : c ∉ ((back ++ front) ++ rest)
  chosen-out = ground (
    arith,
    has-append c (back ++ front) rest,
    has-append c back front,
    inside c,
    has-append c front (c ∷ back),
    Distinct-parts c front (c ∷ back) whole,
    Distinct-right front (c ∷ back) whole,
  )

module _ (k : Kernel) (front back : List ℕ) (c rand timer : ℕ)
    (e : k.ready_queue ≡ front ++ c ∷ back) (v : IsScheduled k) where
  abbrev pub after : Kernel
  after = dispatch c rand (back ++ front) timer k

  pub same_status : (t : ℕ) (s : Status) → (k.pcb t).status ≡ s → (after.pcb t).status ≡ s
  same_status t s h = ground arith

  same_priority : priority_of after ≡ priority_of k
  same_priority = fun_ext λ t. ground arith

  same_order : order_by_wake_up after ≡ order_by_wake_up k
  same_order = order-eq k after (λ t. ground arith)

  pub dispatch-IsRunning : IsRunning after
  unfolding tickets
  dispatch-IsRunning = record {
    scheduled = record {
      total =
          subst
            (λ f.
              (k.total_ready_priority + 2 ^ 32 - priority_of k c) % 2 ^ 32
              ≡ tickets f (back ++ front))
            (sym same_priority)
            (omega (
              arith,
              v.total,
              ap (tickets (priority_of k)) e,
              tickets-append (priority_of k) back front,
              tickets-append (priority_of k) front (c ∷ back),
              tickets-append (priority_of k) k.ready_queue k.sleep_queue,
              v.small,
            ));
      small =
          subst (λ f. tickets f ((back ++ front) ++ k.sleep_queue) < 2 ^ 31) (sym same_priority)
            (omega (arith, left));
      positive = λ t. ground (arith, v.positive t);
      apart = turned-Distinct front back k.sleep_queue c apart;
      runnable =
          All-map _ _ (λ t. same_status t ready) (back ++ front)
            (All-append _ back front (All-right _ front (c ∷ back) queued).1
              (All-left _ front (c ∷ back) queued));
      asleep = All-map _ _ (λ t. same_status t blocked) k.sleep_queue v.asleep;
      sorted = subst (λ f. IsSorted f k.sleep_queue) (sym same_order) v.sorted;
    };
    current = chosen-out front back k.sleep_queue c apart;
    bounded =
        subst (λ f. tickets f ((back ++ front) ++ k.sleep_queue) + f c < 2 ^ 31) (sym same_priority)
          left;
  }
    where
      apart : Distinct ((front ++ c ∷ back) ++ k.sleep_queue)
      apart = subst (λ l. Distinct (l ++ k.sleep_queue)) e v.apart

      left : tickets (priority_of k) ((back ++ front) ++ k.sleep_queue) + priority_of k c < 2 ^ 31
      left = omega (
        arith,
        v.small,
        ap (tickets (priority_of k)) e,
        tickets-append (priority_of k) (back ++ front) k.sleep_queue,
        tickets-append (priority_of k) back front,
        tickets-append (priority_of k) front (c ∷ back),
        tickets-append (priority_of k) k.ready_queue k.sleep_queue,
      )

      queued : All (λ t. (k.pcb t).status ≡ ready) (front ++ c ∷ back)
      queued = subst (All (λ t. (k.pcb t).status ≡ ready)) e v.runnable

-- The invariant reads no other field of a pcb than these three.
pub same-IsScheduled :
    (k g : Kernel)
    → ((t : ℕ) → (g.pcb t).priority ≡ (k.pcb t).priority)
    → ((t : ℕ) → (g.pcb t).status ≡ (k.pcb t).status)
    → ((t : ℕ) → (g.pcb t).sleep_until ≡ (k.pcb t).sleep_until)
    → g.ready_queue ≡ k.ready_queue
    → g.sleep_queue ≡ k.sleep_queue
    → g.total_ready_priority ≡ k.total_ready_priority
    → IsScheduled k
    → IsScheduled g
same-IsScheduled k g p s w r z n v = record {
  total = n ∙ v.total ∙ ap₂ tickets (sym (fun_ext p)) (sym r);
  small = subst₂ (λ f l. tickets f l < 2 ^ 31) (sym (fun_ext p)) (sym (ap₂ ◌++◌ r z)) v.small;
  positive = λ t. rw (p t) (v.positive t);
  apart = rw (r, z) v.apart;
  runnable = rw r (All-map _ _ (λ t h. s t ∙ h) k.ready_queue v.runnable);
  asleep = rw z (All-map _ _ (λ t h. s t ∙ h) k.sleep_queue v.asleep);
  sorted = subst₂ IsSorted (sym (order-eq k g w)) (sym z) v.sorted;
}

pub account-IsScheduled : (timer : ℕ) (k : Kernel) → IsScheduled k → IsScheduled (account timer k)
account-IsScheduled timer k v =
    same-IsScheduled k (account timer k) (λ t. ground arith) (λ t. ground arith) (λ t. ground arith)
      refl refl refl v

pub tick-IsScheduled :
    (n : ℕ) (k : Kernel) → IsScheduled k → IsScheduled (record k { num_ticks = n })
tick-IsScheduled n k v =
    same-IsScheduled k (record k { num_ticks = n }) (λ t. refl) (λ t. refl) (λ t. refl) refl refl
      refl v
