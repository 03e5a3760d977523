-- ===== src/Tests/Texts.antt =====
-- util.c on overlapping bytes, on short strings and on a small window of the screen.
use operativsystemer.Base.{
  ℕ, ◌+◌, ◌<◌, ◌≡◌, ◌≢◌, refl, some, arith, ◌==◌, [], ◌∷◌, if◌then◌else◌, ◌^◌,
}
use operativsystemer.Text.{Cells, bcopy, strlen, same_string, scroll, print_str, blank, atoi}
use operativsystemer.Text.Numbers.{AreDigits, value_from}
use operativsystemer.Text.Bytes.{IsString, bcopy-moved, strlen-length}

-- "ab" at 100 and "ac" at 200, among zeros.
abbrev bytes : Cells
bytes a =
    if a == 100
    then 97
    else if a == 101
    then 98
    else if a == 200
    then 97
    else if a == 201
    then 99
    else 0

IsString-100 : IsString bytes 100 (97 ∷ 98 ∷ [])
unfolding IsString
IsString-100 = (refl, (λ e. omega arith), (refl, (λ e. omega arith), refl))

IsString-200 : IsString bytes 200 (97 ∷ 99 ∷ [])
unfolding IsString
IsString-200 = (refl, (λ e. omega arith), (refl, (λ e. omega arith), refl))

bcopy_overlap : bcopy 100 101 2 bytes 102 ≡ 98
unfolding bcopy operativsystemer.Text.copy_down
bcopy_overlap = refl

bcopy-moved_example :
    ((j : ℕ) → j < 2 → bcopy 100 101 2 bytes (101 + j) ≡ bytes (100 + j))
    × ((a : ℕ) → ((j : ℕ) → j < 2 → a ≢ 101 + j) → bcopy 100 101 2 bytes a ≡ bytes a)
bcopy-moved_example = bcopy-moved 100 101 2 bytes

strlen-length_example : strlen bytes 3 100 ≡ some 2
strlen-length_example = strlen-length bytes 3 100 (97 ∷ 98 ∷ []) IsString-100 (omega arith)

-- "-47" at 100.
abbrev number : Cells
number a = if a == 100 then 45 else if a == 101 then 52 else if a == 102 then 55 else 0

AreDigits-47 : AreDigits (4 ∷ 7 ∷ [])
unfolding AreDigits
AreDigits-47 = (omega arith, (omega arith, refl))

IsString-47 : IsString number 101 (52 ∷ 55 ∷ [])
unfolding IsString
IsString-47 = (refl, (λ e. omega arith), (refl, (λ e. omega arith), refl))

value_from-bounds : (0 < value_from 0 (4 ∷ 7 ∷ [])) × (value_from 0 (4 ∷ 7 ∷ []) < 2 ^ 31)
unfolding value_from
value_from-bounds = (omega arith, omega arith)

IsString-minus : IsString number 100 (45 ∷ 52 ∷ 55 ∷ [])
unfolding IsString
IsString-minus =
    (refl, (λ e. omega arith), (refl, (λ e. omega arith), (refl, (λ e. omega arith), refl)))
