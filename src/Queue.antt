-- ===== src/Queue.antt =====
-- The circular doubly linked queues of cos318-project4/queue.c (the file of cos318-project3 is the
-- same), over an explicit store of `node_t` structures.
mod Access
pub mod Chain
pub mod Refine
pub mod Fifo
pub mod Sorted
use operativsystemer.Base.{ℕ, zero, suc, Bool, ◌||◌, Option, none, some, ◌==◌, if◌then◌else◌}

abbrev pub Ptr : Type 0
Ptr = ℕ

abbrev pub null : Ptr
null = 0

-- The `prev` and `next` fields of every `node_t`. The nodes are parts of static objects (the pcb
-- table, locks, condition variables), so each address but NULL holds one.
pub record Heap : Type 0 where
  pub prev : Ptr → Ptr
  pub next : Ptr → Ptr

abbrev pub update : (Ptr → Ptr) → Ptr → Ptr → Ptr → Ptr
update f p v a = if a == p then v else f a

-- `none` is a fault: a field of NULL was read or written, or a loop ran out of fuel.
abbrev pub M : Type 0 → Type 0
M A = Heap → Option (A × Heap)

-- What follows a command runs unless that command was a fault.
abbrev pub continue : {A B : Type 0} → Option (A × Heap) → (A → M B) → Option (B × Heap)
continue none f = none
continue (some (a, h)) f = f a h

infixl 5 ◌>>=◌ ◌>>◌
abbrev pub ◌>>=◌ : {A B : Type 0} → M A → (A → M B) → M B
m >>= f = λ h. continue (m h) f

abbrev pub ◌>>◌ : {A B : Type 0} → M A → M B → M B
m >> k = m >>= λ _. k

abbrev pub pure : {A : Type 0} → A → M A
pure a h = some (a, h)

-- A test between two commands.
abbrev pub branch : {A : Type 0} → Bool → M A → M A → M A
branch b m k h = if b then m h else k h

pub get_prev : Ptr → M Ptr
get_prev p h = if p == null then none else some (h.prev p, h)

pub get_next : Ptr → M Ptr
get_next p h = if p == null then none else some (h.next p, h)

pub set_prev : Ptr → Ptr → M (Unit {0})
set_prev p v h = if p == null then none else some (tt, record h { prev = update h.prev p v })

pub set_next : Ptr → Ptr → M (Unit {0})
set_next p v h = if p == null then none else some (tt, record h { next = update h.next p v })

pub queue_init : Ptr → M (Unit {0})
queue_init queue = do set_next queue queue; set_prev queue queue

-- NULL stands for `none` in the result, as in the source.
pub queue_get : Ptr → M Ptr
queue_get queue = do
  item ← get_next queue
  branch (item == queue) (pure null) do
    before ← get_prev item
    after ← get_next item
    set_next before after
    after' ← get_next item
    before' ← get_prev item
    set_prev after' before'
    pure item

pub queue_put : Ptr → Ptr → M (Unit {0})
queue_put queue item = do
  last ← get_prev queue
  set_prev item last
  set_next item queue
  before ← get_prev item
  set_next before item
  after ← get_next item
  set_prev after item

pub queue_empty : Ptr → M Bool
queue_empty queue = do first ← get_next queue; pure (first == queue)

pub queue_first : Ptr → M Ptr
queue_first queue = do first ← get_next queue; pure (if first == queue then null else first)

-- The comparison `lte` is a function pointer of the caller.
pub put_sort_loop : (Ptr → Ptr → Bool) → ℕ → Ptr → Ptr → Ptr → M (Unit {0})
put_sort_loop lte zero q elt iter = λ h. none
put_sort_loop lte (suc fuel) q elt iter = branch ((iter == null) || (iter == q)) (queue_put q elt) (
    branch (lte elt iter) (queue_put iter elt)
      do after ← get_next iter; put_sort_loop lte fuel q elt after)

pub queue_put_sort : (Ptr → Ptr → Bool) → ℕ → Ptr → Ptr → M (Unit {0})
unfolding put_sort_loop
queue_put_sort lte fuel q elt = do first ← get_next q; put_sort_loop lte fuel q elt first
