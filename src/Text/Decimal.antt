-- ===== src/Text/Decimal.antt =====
-- Numbers to text and back: itoa and atoi of cos318-project6/util.c.
use operativsystemer.Base.{
  ℕ, zero, suc, ◌+◌, ◌-◌, ◌^◌, ◌≤◌, ◌<◌, ◌≡◌, ◌≢◌, refl, ap, ◌∙◌, subst, some, List, [], ◌∷◌, ◌++◌,
  length, map, length-append, length-map, arith, ltb, true, false, ==_ne, ==_refl, Bool-cases, inl,
  inr,
}
use operativsystemer.Text.{Cells, put, atoi, atoi_loop}
use operativsystemer.Text.Bytes.{IsString}
use operativsystemer.Text.Numbers.{
  value_from, AreDigits, digit_char, atoi-value_from, atoi-negative,
}
use operativsystemer.Text.Convert.{itoa, reverse}
use operativsystemer.Text.Reverse.{reverse-reversed}
use operativsystemer.Text.Digits.{StandsAt, value_back, tens, Written, itoa_loop-Written}

StandsAt-IsString :
    (m m' : Cells) (p : ℕ) (ds cs : List ℕ)
    → StandsAt m p ds
    → ((a : ℕ) → a < p + length ds → m' a ≡ m a)
    → IsString m' (p + length ds) cs
    → IsString m' p (map digit_char ds ++ cs)
unfolding StandsAt IsString
StandsAt-IsString m m' p [] cs at same rest = subst (λ x. IsString m' x cs) (omega arith) rest
StandsAt-IsString m m' p (d ∷ ds) cs at same rest = (
  same p (omega arith) ∙ at.0,
  (λ e. omega arith),
  StandsAt-IsString m m' (p + 1) ds cs at.1 (λ a h. same a (omega arith))
      (subst (λ x. IsString m' x cs) (omega arith) rest),
)

-- The reversed list before another one.
rev_onto : List ℕ → List ℕ → List ℕ
rev_onto [] acc = acc
rev_onto (d ∷ ds) acc = rev_onto ds (d ∷ acc)

value_from-rev_onto :
    (ds acc : List ℕ) → value_from 0 (rev_onto ds acc) ≡ value_from (value_back ds) acc
unfolding value_from rev_onto value_back
value_from-rev_onto [] acc = refl
value_from-rev_onto (d ∷ ds) acc = value_from-rev_onto ds (d ∷ acc)

rev_onto-AreDigits : (ds acc : List ℕ) → AreDigits ds → AreDigits acc → AreDigits (rev_onto ds acc)
unfolding AreDigits rev_onto
rev_onto-AreDigits [] acc a b = b
rev_onto-AreDigits (d ∷ ds) acc a b = rev_onto-AreDigits ds (d ∷ acc) a.1 (a.0, b)

length-rev_onto : (ds acc : List ℕ) → length (rev_onto ds acc) ≡ length ds + length acc
unfolding rev_onto
length-rev_onto [] acc = omega arith
length-rev_onto (d ∷ ds) acc = length-rev_onto ds (d ∷ acc) ∙ omega arith

reversed-IsString :
    (m m' : Cells) (p s : ℕ) (ds acc : List ℕ)
    → StandsAt m p ds
    → ((a k : ℕ) → a + k + 1 ≡ length ds → m' (s + a) ≡ m (p + k))
    → IsString m' (s + length ds) (map digit_char acc)
    → IsString m' s (map digit_char (rev_onto ds acc))
unfolding StandsAt IsString rev_onto
reversed-IsString m m' p s [] acc at back rest =
    subst (λ x. IsString m' x (map digit_char acc)) (omega arith) rest
reversed-IsString m m' p s (d ∷ ds) acc at back rest =
    reversed-IsString m m' (p + 1) s ds (d ∷ acc) at.1
      (λ a k e. back a (k + 1) (omega arith) ∙ ap m (omega arith))
      (
        back (length ds) 0 (omega arith) ∙ ap m (omega arith) ∙ at.0,
        (λ e. omega arith),
        subst (λ x. IsString m' x (map digit_char acc)) (omega arith) rest,
      )

atoi-digits :
    (m : Cells) (fuel s : ℕ) (ds : List ℕ)
    → AreDigits ds
    → IsString m s (map digit_char ds)
    → length ds < fuel
    → value_from 0 ds < 2 ^ 31
    → atoi m fuel s ≡ some (value_from 0 ds)
unfolding IsString value_from atoi atoi_loop
atoi-digits m zero s [] a h room small = absurd (omega arith)
atoi-digits m (suc fuel) s [] a h room small = rw h
atoi-digits m fuel s (d ∷ ds) a h room small = atoi-value_from m fuel s d ds a h room small

IsString-end : (m : Cells) (p : ℕ) (xs : List ℕ) → IsString m p xs → m (p + length xs) ≡ 0
unfolding IsString
IsString-end m p [] h = ap m (omega arith) ∙ h
IsString-end m p (x ∷ xs) h = ap m (omega arith) ∙ IsString-end m (p + 1) xs h.2

-- `reverse` of the digits that the loop of itoa wrote, with the characters `cs` behind them.
reverse-digits :
    (fuel s : ℕ) (k after : Cells) (ds cs : List ℕ)
    → StandsAt k s ds
    → ((a : ℕ) → a < s + length ds → after a ≡ k a)
    → IsString after (s + length ds) cs
    → length ds + length cs < fuel
    → (m' : Cells) × (reverse fuel s after ≡ some m')
      × IsString m' (s + length cs) (map digit_char (rev_onto ds []))
      × ((a j : ℕ) → a + j + 1 ≡ length ds + length cs → m' (s + a) ≡ after (s + j))
reverse-digits fuel s k after ds cs at same rest room =
    let len : length (map digit_char ds ++ cs) ≡ length ds + length cs =
      length-append (map digit_char ds) cs ∙ ap (λ x. x + length cs) (length-map ds digit_char) in
    let string : IsString after s (map digit_char ds ++ cs) =
      StandsAt-IsString k after s ds cs at same rest in
    let (m', e, back, end) =
      reverse-reversed fuel s after (map digit_char ds ++ cs) string (omega (arith, len)) in
    let zero_end : m' (s + length cs + length ds) ≡ 0 =
      ap m' (omega (arith, len)) ∙ end ∙ IsString-end after s (map digit_char ds ++ cs) string in
    (
      m',
      e,
      reversed-IsString k m' s (s + length cs) ds [] at
          (λ a j sum.
            ap m' (omega arith)
            ∙ back (length cs + a) j (omega (arith, len))
            ∙ same (s + j) (omega arith))
          (unfold IsString in zero_end),
      (λ a j sum. back a j (omega (arith, len))),
    )

itoa-small :
    (fuel n s : ℕ) (m : Cells)
    → 12 ≤ fuel
    → n < 2 ^ 31
    → Written 10 fuel n s m
    → (m' : Cells) × (itoa fuel n s m ≡ some m') × (atoi m' fuel s ≡ some n)
unfolding itoa Written
itoa-small fuel n s m room small (ds, k, e, at, digits, value, short, before) =
    let int : ltb n (2 ^ 31) ≡ true = ground arith in
    let (m', e', string, back) =
      reverse-digits fuel s k (put k (s + length ds) 0) ds [] at
        (λ a h. rw (==_ne a (s + length ds) (omega arith)))
        (unfold IsString in rw (==_refl (s + length ds))) (omega arith) in
    let total : value_from 0 (rev_onto ds []) ≡ n =
      value_from-rev_onto ds [] ∙ (unfold value_from in value) in
    (
      m',
      rw (int, e) e',
      atoi-digits m' fuel s (rev_onto ds [])
            (rev_onto-AreDigits ds [] digits (unfold AreDigits in refl))
            (subst (λ x. IsString m' x (map digit_char (rev_onto ds []))) (omega arith) string)
            (let l : length (rev_onto ds []) ≡ length ds + 0 = length-rev_onto ds [] in omega arith)
            (omega (arith, total))
          ∙ ap some total,
    )

itoa-negative :
    (fuel n s : ℕ) (m : Cells)
    → 12 ≤ fuel
    → n < 2 ^ 32
    → 2 ^ 31 < n
    → Written 10 fuel (2 ^ 32 - n) s m
    → (m' : Cells) × (itoa fuel n s m ≡ some m') × (atoi m' fuel s ≡ some n)
unfolding itoa Written
itoa-negative fuel n s m room word above (ds, k, e, at, digits, value, short, before) =
    let int : ltb n (2 ^ 31) ≡ false = ground arith in
    let end : ℕ = s + length ds in
    let (m', e', string, back) =
      reverse-digits fuel s k (put (put k end 45) (end + 1) 0) ds (45 ∷ []) at
        (λ a h. rw (==_ne a (end + 1) (omega arith), ==_ne a end (omega arith)))
        (unfold IsString in
          (
            rw (==_ne end (end + 1) (omega arith), ==_refl end),
            (λ q. omega arith),
            rw (==_refl (end + 1)),
          ))
        (omega arith) in
    let total : value_from 0 (rev_onto ds []) ≡ 2 ^ 32 - n =
      value_from-rev_onto ds [] ∙ (unfold value_from in value) in
    let minus : m' s ≡ 45 =
      ap m' (omega arith)
      ∙ back 0 (length ds) (omega arith)
      ∙ rw (==_ne end (end + 1) (omega arith), ==_refl end) in
    (
      m',
      rw (int, e) e',
      atoi-negative m' fuel s (rev_onto ds [])
            (rev_onto-AreDigits ds [] digits (unfold AreDigits in refl))
            (unfold IsString in (minus, (λ q. omega arith), string))
            (let l : length (rev_onto ds []) ≡ length ds + 0 = length-rev_onto ds [] in omega arith)
            (omega (arith, total)) (omega (arith, total))
          ∙ ap some (omega (arith, total)),
    )

ten_digits : (n : ℕ) → n < 2 ^ 31 → n < tens 10
unfolding tens
ten_digits n small = omega arith

-- For an `int` other than -2^31, and fuel for the eleven characters that it has at most: itoa ends, and
-- atoi of the string that it wrote is the `int` again.
pub atoi-itoa :
    (fuel n s : ℕ) (m : Cells)
    → 12 ≤ fuel
    → n < 2 ^ 32
    → n ≢ 2 ^ 31
    → (m' : Cells) × (itoa fuel n s m ≡ some m') × (atoi m' fuel s ≡ some n)
atoi-itoa fuel n s m room word ne = elim (Bool-cases (ltb n (2 ^ 31))) [
  | inl positive ↦
      let small : n < 2 ^ 31 = ground arith in
      itoa-small fuel n s m room small
        (itoa_loop-Written 10 fuel n s m (ten_digits n small) small (omega arith) (omega arith))
  | inr negative ↦
      let above : 2 ^ 31 < n = ground arith in
      let small : 2 ^ 32 - n < 2 ^ 31 = omega arith in
      itoa-negative fuel n s m room word above (
        itoa_loop-Written 10 fuel (2 ^ 32 - n) s m (ten_digits (2 ^ 32 - n) small) small
          (omega arith) (omega arith))
]
