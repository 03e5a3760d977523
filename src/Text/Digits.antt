-- ===== src/Text/Digits.antt =====
-- The loop of itoa of cos318-project6/util.c writes the digits from the last to the first.
use operativsystemer.Base.{
  ℕ, zero, suc, ◌+◌, ◌*◌, ◌/◌, ◌%◌, ◌^◌, ◌≤◌, ◌<◌, ◌≡◌, ◌≢◌, refl, ap, ◌∙◌, some, List, [], ◌∷◌,
  length, arith, ◌==◌, ltb, true, false, ==_ne, ==_refl, Bool-cases, inl, inr,
}
use operativsystemer.Text.{Cells, put}
use operativsystemer.Text.Numbers.{AreDigits, digit_char}
use operativsystemer.Text.Convert.{itoa_loop, tenth, digit_of}

-- Digits from the last to the first, from the byte at `p` on.
unfoldable pub StandsAt : Cells → ℕ → List ℕ → Type 0
StandsAt m p [] = zero ≡ zero
StandsAt m p (d ∷ ds) = (m p ≡ digit_char d) × StandsAt m (p + 1) ds

unfoldable pub value_back : List ℕ → ℕ
value_back [] = 0
value_back (d ∷ ds) = value_back ds * 10 + d

unfoldable pub tens : ℕ → ℕ
tens zero = 1
tens (suc k) = 10 * tens k

more_digits : (k n : ℕ) → n < tens (suc k) → n / 10 ≢ 0 → 0 < k
unfolding tens
more_digits zero n small z = absurd (z (omega arith))
more_digits (suc k) n small z = omega arith

-- What the loop of itoa leaves, for a number with at most `k` digits.
unfoldable pub Written : ℕ → ℕ → ℕ → ℕ → Cells → Type 0
Written k fuel n p m =
    (ds : List ℕ) × (m' : Cells) × (itoa_loop fuel n p m ≡ some (p + length ds, m'))
    × StandsAt m' p ds
    × AreDigits ds
    × (value_back ds ≡ n)
    × (length ds ≤ k)
    × ((a : ℕ) → a < p → m' a ≡ m a)

next_digit :
    (k fuel n p : ℕ) (m : Cells)
    → n < 2 ^ 31
    → (n / 10 == 0) ≡ false
    → Written k fuel (n / 10) (p + 1) (put m p (digit_of n))
    → Written (suc k) (suc fuel) n p m
unfolding Written itoa_loop StandsAt value_back AreDigits
next_digit k fuel n p m int more (ds, m', e, at, digits, value, short, before) =
    let dig : digit_of n ≡ n % 10 + 48 = ground arith in
    let ten : tenth n ≡ n / 10 = ground arith in
    let lt : ltb (n / 10) (2 ^ 31) ≡ true = ground arith in
    (
      n % 10 ∷ ds,
      m',
      rw (ten, more, lt) (e ∙ ap (λ x. some (x, m')) (omega arith)),
      (before p (omega arith) ∙ rw (==_refl p) dig, at),
      (omega arith, digits),
      omega (arith, value),
      omega arith,
      (λ a h. before a (omega arith) ∙ rw (==_ne a p (omega arith))),
    )

last_digit :
    (k fuel n p : ℕ) (m : Cells)
    → n < 2 ^ 31
    → (n / 10 == 0) ≡ true
    → Written (suc k) (suc fuel) n p m
unfolding Written itoa_loop StandsAt value_back AreDigits
last_digit k fuel n p m int one =
    let dig : digit_of n ≡ n % 10 + 48 = ground arith in
    let ten : tenth n ≡ n / 10 = ground arith in
    let z : n / 10 ≡ 0 = ground arith in
    (
      n % 10 ∷ [],
      put m p (digit_of n),
      rw (ten, one),
      (rw (==_refl p) dig, refl),
      (omega arith, refl),
      omega arith,
      omega arith,
      (λ a h. rw (==_ne a p (omega arith))),
    )

fewer_digits : (k n : ℕ) → n < tens (suc k) → n / 10 < tens k
unfolding tens
fewer_digits k n small = omega arith

pub itoa_loop-Written :
    (k fuel n p : ℕ) (m : Cells) → n < tens k → n < 2 ^ 31 → 0 < k → k ≤ fuel → Written k fuel n p m
itoa_loop-Written zero fuel n p m small int pos le = absurd (omega arith)
itoa_loop-Written (suc k) zero n p m small int pos le = absurd (omega arith)
itoa_loop-Written (suc k) (suc fuel) n p m small int pos le = elim (Bool-cases (n / 10 == 0)) [
  | inl one ↦ last_digit k fuel n p m int one
  | inr more ↦
      let z : n / 10 ≢ 0 = ground arith in
      next_digit k fuel n p m int more (
        itoa_loop-Written k fuel (n / 10) (p + 1) (put m p (digit_of n)) (fewer_digits k n small)
          (omega arith) (more_digits k n small z) (omega arith))
]
