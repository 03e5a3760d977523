-- ===== src/Kernel/Lottery.antt =====
-- The lottery of `scheduler`: each ready task holds as many tickets as its priority.
use operativsystemer.Base.{
  ℕ, zero, suc, ◌+◌, ◌-◌, ◌%◌, ◌^◌, ◌≤◌, ◌<◌, ◌≡◌, ◌≢◌, refl, Option, some, List, [], ◌∷◌, ◌++◌,
  append_assoc, append-nil, inl, inr, arith, ==_ne, leb, Bool-cases, length,
}
use operativsystemer.Kernel.{magnitude, Kernel, priority_of, rand_step, draw, dispatch, lottery}

unfoldable pub tickets : (ℕ → ℕ) → List ℕ → ℕ
tickets priority [] = 0
tickets priority (t ∷ ts) = priority t + tickets priority ts

pub tickets-append :
    (f : ℕ → ℕ) (xs ys : List ℕ) → tickets f (xs ++ ys) ≡ tickets f xs + tickets f ys
unfolding tickets
tickets-append f [] ys = omega arith
tickets-append f (x ∷ xs) ys = omega (arith, tickets-append f xs ys)

-- The ticket number `choice` belongs to `chosen`, and the queue goes on behind it.
pub record Drawn (f : ℕ → ℕ) (choice : ℕ) (ys xs : List ℕ) (r : Option (ℕ × List ℕ)) : Type 0 where
  pub front : List ℕ
  pub chosen : ℕ
  pub back : List ℕ
  pub split : ys ≡ front ++ chosen ∷ back
  pub result : r ≡ some (chosen, back ++ (xs ++ front))
  pub above : tickets f front ≤ choice
  pub below : choice < tickets f front + f chosen

pub draw-Drawn :
    (f : ℕ → ℕ) (fuel choice : ℕ) (ys xs : List ℕ)
    → choice < tickets f ys
    → length ys ≤ fuel
    → Drawn f choice ys xs (draw f fuel choice (ys ++ xs))
unfolding draw tickets
draw-Drawn f fuel choice [] xs h e = absurd (omega arith)
draw-Drawn f zero choice (y ∷ ys) xs h e = absurd (omega arith)
draw-Drawn f (suc fuel) choice (y ∷ ys) xs h e = elim (Bool-cases (leb (f y) choice)) [
  | inr stop ↦ record {
    front = [];
    chosen = y;
    back = ys;
    split = refl;
    result = rw (stop, append-nil xs);
    above = omega arith;
    below = ground arith;
  }
  | inl on ↦
      let rest = draw-Drawn f fuel (choice - f y) ys (xs ++ y ∷ []) (ground arith) (omega arith) in
      record {
        front = y ∷ rest.front;
        chosen = rest.chosen;
        back = rest.back;
        split = rw (← rest.split);
        result =
            rw (on, append_assoc ys xs (y ∷ []), rest.result, append_assoc xs (y ∷ []) rest.front);
        above = ground (arith, rest.above);
        below = ground (arith, rest.below);
      }
]

-- With tickets in the pool, less than 2^31 of them, the lottery ends, with the task that holds the drawn ticket, and turns
-- the ready queue to what stood behind that task.
pub lottery-Drawn :
    (timer : ℕ) (k : Kernel)
    → k.total_ready_priority ≡ tickets (priority_of k) k.ready_queue
    → k.total_ready_priority ≢ 0
    → k.total_ready_priority < 2 ^ 31
    → (front back : List ℕ) × (chosen : ℕ) × (k.ready_queue ≡ front ++ chosen ∷ back)
      × (lottery timer k ≡ some (dispatch chosen (rand_step k.my_rand) (back ++ front) timer k))
      × (tickets (priority_of k) front ≤ rand_step k.my_rand % k.total_ready_priority)
      × (rand_step k.my_rand % k.total_ready_priority
          < tickets (priority_of k) front + (k.pcb chosen).priority)
unfolding lottery
lottery-Drawn timer k e n small = (d.front, d.back, d.chosen, d.split, run, d.above, d.below)
  where
    choice : ℕ
    choice = rand_step k.my_rand % k.total_ready_priority

    f : ℕ → ℕ
    f = priority_of k

    d : Drawn f choice k.ready_queue [] (draw f (length k.ready_queue) choice (k.ready_queue ++ []))
    d = draw-Drawn f (length k.ready_queue) choice k.ready_queue [] (omega arith) (omega arith)

    drawn : draw f (length k.ready_queue) choice k.ready_queue ≡ some (d.chosen, d.back ++ d.front)
    drawn = rw append-nil at d.result

    run :
        lottery timer k ≡ some (dispatch d.chosen (rand_step k.my_rand) (d.back ++ d.front) timer k)
    run =
        let int : magnitude k.total_ready_priority ≡ k.total_ready_priority = ground arith in
        rw (==_ne k.total_ready_priority 0 n, int, drawn)

rand_step-lt : (seed : ℕ) → rand_step seed < 2 ^ 16
unfolding rand_step
rand_step-lt seed = omega arith
