-- ===== src/Text/Numbers.antt =====
-- atoi of cos318-project6/util.c against the value of a decimal number.
use operativsystemer.Base.{
  ℕ, zero, suc, ◌+◌, ◌-◌, ◌*◌, ◌%◌, ◌^◌, ◌≤◌, ◌<◌, ◌≡◌, refl, ap, some, List, [], ◌∷◌, length, map,
  arith, ◌==◌, false, ==_ne,
}
use operativsystemer.Text.{Cells, atoi_loop, atoi}
use operativsystemer.Text.Bytes.{IsString}

-- The value of decimal digits behind those whose value is `n`.
unfoldable pub value_from : ℕ → List ℕ → ℕ
value_from n [] = n
value_from n (d ∷ ds) = value_from (n * 10 + d) ds

unfoldable pub AreDigits : List ℕ → Type 0
AreDigits [] = zero ≡ zero
AreDigits (d ∷ ds) = (d < 10) × AreDigits ds

-- The characters of digits.
abbrev pub digit_char : ℕ → ℕ
digit_char d = d + 48

value_from-le : (n : ℕ) (ds : List ℕ) → n ≤ value_from n ds
unfolding value_from
value_from-le n [] = omega arith
value_from-le n (d ∷ ds) =
    let rest : n * 10 + d ≤ value_from (n * 10 + d) ds = value_from-le (n * 10 + d) ds in
    omega arith

atoi_loop-value_from :
    (m : Cells) (fuel s n : ℕ) (ds : List ℕ)
    → AreDigits ds
    → IsString m s (map digit_char ds)
    → length ds < fuel
    → value_from n ds < 2 ^ 32
    → atoi_loop m fuel s n ≡ some (value_from n ds)
unfolding atoi_loop value_from AreDigits IsString
atoi_loop-value_from m zero s n ds digits a h small = absurd (omega arith)
atoi_loop-value_from m (suc fuel) s n [] digits a h small = rw a refl
atoi_loop-value_from m (suc fuel) s n (d ∷ ds) digits a h small =
    let rest : n * 10 + d ≤ value_from (n * 10 + d) ds = value_from-le (n * 10 + d) ds in
    let step : (n * 10 + (d + 48) + 2 ^ 32 - 48) % 2 ^ 32 ≡ n * 10 + d = omega arith in
    rw (a.0) (
      rw (==_ne (d + 48) 0 (omega arith)) (
        rw step
          (atoi_loop-value_from m fuel (s + 1) (n * 10 + d) ds digits.1 a.2 (omega arith) small)))

-- With more fuel than digits, atoi of decimal digits without a sign is their value, where that
-- value is below 2^31.
pub atoi-value_from :
    (m : Cells) (fuel s : ℕ) (d : ℕ) (ds : List ℕ)
    → AreDigits (d ∷ ds)
    → IsString m s (map digit_char (d ∷ ds))
    → length (d ∷ ds) < fuel
    → value_from 0 (d ∷ ds) < 2 ^ 31
    → atoi m fuel s ≡ some (value_from 0 (d ∷ ds))
unfolding atoi IsString AreDigits
atoi-value_from m fuel s d ds digits a h small =
    let ne : (m s == 45) ≡ false = ==_ne (m s) 45 (ground (arith, a.0)) in
    rw ne (atoi_loop-value_from m fuel s 0 (d ∷ ds) digits a h (omega arith))

-- With more fuel than digits, atoi of a minus sign and decimal digits is the bit pattern of the
-- negated value, where the value is above 0 and at most 2^31.
pub atoi-negative :
    (m : Cells) (fuel s : ℕ) (ds : List ℕ)
    → AreDigits ds
    → IsString m s (45 ∷ map digit_char ds)
    → length ds < fuel
    → 0 < value_from 0 ds
    → value_from 0 ds ≤ 2 ^ 31
    → atoi m fuel s ≡ some (2 ^ 32 - value_from 0 ds)
unfolding atoi IsString
atoi-negative m fuel s ds digits a h above small = rw (a.0) (
    rw (atoi_loop-value_from m fuel (s + 1) 0 ds digits a.2 h (omega arith))
      (ap some (omega arith)))
