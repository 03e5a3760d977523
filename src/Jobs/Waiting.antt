-- ===== src/Jobs/Waiting.antt =====
-- The waiting lists of cos318-project6/scheduler.c in the order of arrival: block puts a job at the
-- start of the list, unblock takes the last one.
use operativsystemer.Base.{
  ℕ, zero, suc, ◌+◌, ◌≤◌, ◌≡◌, ◌≢◌, refl, ◌∙◌, true, some, List, [], ◌∷◌, ◌++◌, length, arith,
  ==_ne, ==_refl,
}
use operativsystemer.Queue.{Ptr, null, update}
use operativsystemer.Queue.Chain.{has, ◌∉◌, Distinct}
use operativsystemer.Jobs.{Machine, find_last, unblock, wake}

-- From `older` on, each job of the list points to the one that came before it, and `q` is the last.
abbrev pub Line : (Ptr → Ptr) → Ptr → List Ptr → Ptr → Type 0
Line nb older [] q = q ≡ older
Line nb older (w ∷ ws) q = ((w ≢ null) × (nb w ≡ older)) × Line nb w ws q

pub Line-frame :
    (nb nb' : Ptr → Ptr) (older : Ptr) (ws : List Ptr) (q : Ptr)
    → ((p : Ptr) → has p ws ≡ true → nb' p ≡ nb p)
    → Line nb older ws q
    → Line nb' older ws q
Line-frame nb nb' older [] q same l = l
Line-frame nb nb' older (w ∷ ws) q same l = (
  (l.0.0, same w (ground arith) ∙ l.0.1),
  Line-frame nb nb' w ws q (λ p i. same p (ground arith)) l.1,
)

-- A job that joins the list comes last in it.
pub Line-snoc :
    (nb : Ptr → Ptr) (older : Ptr) (ws : List Ptr) (q c : Ptr)
    → c ≢ null
    → nb c ≡ q
    → Line nb older ws q
    → Line nb older (ws ++ c ∷ []) c
Line-snoc nb older [] q c n at l = ((n, at ∙ l), refl)
Line-snoc nb older (w ∷ ws) q c n at l = (l.0, Line-snoc nb w ws q c n at l.1)

pub Line-ne_null :
    (nb : Ptr → Ptr) (older : Ptr) (ws : List Ptr) (q : Ptr)
    → older ≢ null
    → Line nb older ws q
    → q ≢ null
Line-ne_null nb older [] q a l = rw l a
Line-ne_null nb older (w ∷ ws) q a l = Line-ne_null nb w ws q l.0.0 l.1

Line-real :
    (nb : Ptr → Ptr) (older : Ptr) (ws : List Ptr) (q : Ptr)
    → older ≢ null
    → nb older ≢ null
    → Line nb older ws q
    → (q ≢ null) × (nb q ≢ null)
Line-real nb older [] q a b l = rw l (a, b)
Line-real nb older (w ∷ ws) q a b l = Line-real nb w ws q l.0.0 (ground arith) l.1

-- The walk from the start of the list to the job `x`.
find_last-walk :
    (nb : Ptr → Ptr) (x older : Ptr) (k : ℕ) (ws : List Ptr) (q : Ptr)
    → nb older ≢ null
    → older ≢ null
    → ((fuel : ℕ) → k ≤ fuel → find_last nb fuel older ≡ some x)
    → Line nb older ws q
    → (fuel : ℕ) → k + length ws ≤ fuel
    → find_last nb fuel q ≡ some x
unfolding find_last
find_last-walk nb x older k [] q n o walk l fuel h = rw l (walk fuel (omega arith))
find_last-walk nb x older k (w ∷ ws) q n o walk l fuel h =
    find_last-walk nb x w (k + 1) ws q (ground arith) l.0.0 longer l.1 fuel (omega arith)
  where
    longer : (fuel : ℕ) → k + 1 ≤ fuel → find_last nb fuel w ≡ some x
    longer zero g = absurd (omega arith)
    longer (suc fuel) g = rw (l.0.1) (rw (==_ne (nb older) null n) (walk fuel (omega arith)))

find_last-here :
    (nb : Ptr → Ptr) (x w : Ptr)
    → nb x ≡ w
    → nb w ≡ null
    → (fuel : ℕ) → 1 ≤ fuel
    → find_last nb fuel x ≡ some x
unfolding find_last
find_last-here nb x w a b zero h = absurd (omega arith)
find_last-here nb x w a b (suc fuel) h = rw a (rw b refl)

-- With at least as much fuel as jobs, unblock takes the job that has waited longest: it is made
-- running and put behind the current job, and the others go on waiting in their order.
pub unblock-oldest :
    (fuel : ℕ) (m : Machine) (w : Ptr) (ws : List Ptr) (q : Ptr)
    → Line m.next_blocked null (w ∷ ws) q
    → Distinct (w ∷ ws)
    → length ws ≤ fuel
    → (r : Ptr) × (nb : Ptr → Ptr) × (unblock fuel q m
        ≡ some (r, wake w (record m { next_blocked = nb })))
      × Line nb null ws r
      × ((p : Ptr) → p ∉ ws → nb p ≡ m.next_blocked p)
unfolding unblock
unblock-oldest fuel m w [] q l d h =
    (null, m.next_blocked, rw (l.1) (rw (==_ne w null l.0.0) (rw (l.0.1) refl)), refl, λ p o. refl)
unblock-oldest fuel m w (x ∷ ws) q l d h =
    let at_x : (fuel : ℕ) → 1 ≤ fuel → find_last m.next_blocked fuel x ≡ some x =
      find_last-here m.next_blocked x w l.1.0.1 l.0.1 in
    let behind : m.next_blocked x ≢ null = ground arith in
    let walk : find_last m.next_blocked fuel q ≡ some x =
      find_last-walk m.next_blocked x x 1 ws q behind l.1.0.0 at_x l.1.1 fuel (omega arith) in
    let real : (q ≢ null) × (m.next_blocked q ≢ null) =
      Line-real m.next_blocked x ws q l.1.0.0 behind l.1.1 in
    (
      q,
      update m.next_blocked x null,
      rw (==_ne q null real.0)
          (rw (==_ne (m.next_blocked q) null real.1) (rw walk (rw (l.1.0.1) refl))),
      (
        (l.1.0.0, rw (==_refl x) refl),
        Line-frame m.next_blocked (update m.next_blocked x null) x ws q (λ p i. ground arith) l.1.1,
      ),
      λ p o. ground arith,
    )
