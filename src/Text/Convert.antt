-- ===== src/Text/Convert.antt =====
-- Numbers to text in cos318-project6/util.c: itoa, itohex, reverse, print_int and print_hex. An `int`
-- is its bit pattern.
use operativsystemer.Base.{
  ℕ, zero, suc, ◌+◌, ◌-◌, ◌/◌, ◌%◌, ◌^◌, Option, none, some, ◌>>=◌, ◌==◌, ltb, if◌then◌else◌,
}
use operativsystemer.Text.{Cells, put, strlen, print_char, print_loop}

abbrev pub swapped : Cells → ℕ → ℕ → Cells
swapped m a b = put (put m a (m b)) b (m a)

-- The loop of `reverse`, on fuel, with the bytes before `j` left.
unfoldable pub reverse_loop : ℕ → ℕ → ℕ → ℕ → Cells → Option Cells
reverse_loop zero s i j m = none
reverse_loop (suc fuel) s i j m =
    let rest = reverse_loop fuel s (i + 1) (j - 1) (swapped m (s + i) (s + (j - 1))) in
    if ltb (i + 1) j then rest else some m

unfoldable pub reverse : ℕ → ℕ → Cells → Option Cells
reverse fuel s m = strlen m fuel s >>= (λ n. reverse_loop fuel s 0 n m)

-- `n % 10 + '0'` and `n / 10`, which round to 0, also for the negative number that has no negation.
abbrev pub digit_of : ℕ → ℕ
digit_of n = if ltb n (2 ^ 31) then n % 10 + 48 else 48 - (2 ^ 32 - n) % 10

abbrev pub tenth : ℕ → ℕ
tenth n = if ltb n (2 ^ 31) then n / 10 else 2 ^ 32 - (2 ^ 32 - n) / 10

-- The loop of `itoa`, on fuel: the memory, and the place behind the last digit.
unfoldable pub itoa_loop : ℕ → ℕ → ℕ → Cells → Option (ℕ × Cells)
itoa_loop zero n p m = none
itoa_loop (suc fuel) n p m =
    let written = put m p (digit_of n) in
    let rest = itoa_loop fuel (tenth n) (p + 1) written in
    if tenth n == 0
    then some (p + 1, written)
    else if ltb (tenth n) (2 ^ 31)
    then rest
    else some (p + 1, written)

-- 45 is the minus sign.
unfoldable pub itoa : ℕ → ℕ → ℕ → Cells → Option Cells
itoa fuel n s m =
    if ltb n (2 ^ 31)
    then itoa_loop fuel n s m >>= (λ r. reverse fuel s (put r.1 r.0 0))
    else itoa_loop fuel (2 ^ 32 - n) s m
      >>= (λ r. reverse fuel s (put (put r.1 r.0 45) (r.0 + 1) 0))

abbrev pub hex_char : ℕ → ℕ
hex_char d = if ltb d 10 then d + 48 else d - 10 + 97

unfoldable pub itohex_loop : ℕ → ℕ → ℕ → Cells → Option (ℕ × Cells)
itohex_loop zero n p m = none
itohex_loop (suc fuel) n p m =
    let written = put m p (hex_char (n % 16)) in
    let rest = itohex_loop fuel (n / 16) (p + 1) written in
    if n / 16 == 0 then some (p + 1, written) else rest

unfoldable pub itohex : ℕ → ℕ → ℕ → Cells → Option Cells
itohex fuel n s m = itohex_loop fuel n s m >>= (λ r. reverse fuel s (put r.1 r.0 0))

-- `buf` is the address of the local array.
unfoldable pub print_int : ℕ → ℕ → ℕ → ℕ → ℕ → Cells → Cells → Option Cells
print_int fuel buf line col num m screen =
    if ltb num (2 ^ 31)
    then shown num col screen
    else shown (2 ^ 32 - num) ((col + 1) % 2 ^ 32) (print_char line col 45 screen)
  where
    shown : ℕ → ℕ → Cells → Option Cells
    shown n col screen =
        itoa fuel n buf m
        >>= (λ k. strlen k fuel buf >>= (λ l. some (print_loop k buf line col l 0 screen)))

unfoldable pub print_hex : ℕ → ℕ → ℕ → ℕ → ℕ → Cells → Cells → Option Cells
print_hex fuel buf line col num m screen =
    itohex fuel num buf m
    >>= (λ k. strlen k fuel buf >>= (λ l. some (print_loop k buf line col l 0 screen)))
