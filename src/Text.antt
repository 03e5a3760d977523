-- ===== src/Text.antt =====
-- The routines of cos318-project6/util.c on bytes and on the text screen of 80 columns and 25 lines.
-- A memory is a function from addresses; the screen is one from the index of the cell. A loop that
-- looks for a zero byte has fuel, and is `none` without it.
pub mod Bytes
pub mod Screen
pub mod Numbers
pub mod Convert
pub mod Reverse
pub mod Digits
pub mod Decimal
use operativsystemer.Base.{
  ℕ, zero, suc, ◌+◌, ◌-◌, ◌*◌, ◌%◌, ◌^◌, Bool, true, false, ◌||◌, Option, none, some, ◌>>=◌, ◌==◌,
  ltb, if◌then◌else◌,
}

abbrev pub Cells : Type 0
Cells = ℕ → ℕ

abbrev pub put : Cells → ℕ → ℕ → Cells
put m p v a = if a == p then v else m a

-- The loop of `bcopy` from the last byte down, with `size` bytes left.
unfoldable pub copy_down : ℕ → ℕ → ℕ → Cells → Cells
copy_down source destin zero m = m
copy_down source destin (suc i) m = copy_down source destin i (put m (destin + i) (m (source + i)))

-- The loop from the first byte up, from index `i` on.
unfoldable pub copy_up : ℕ → ℕ → ℕ → ℕ → Cells → Cells
copy_up source destin zero i m = m
copy_up source destin (suc left) i m =
    copy_up source destin left (i + 1) (put m (destin + i) (m (source + i)))

unfoldable pub bcopy : ℕ → ℕ → ℕ → Cells → Cells
bcopy source destin size m =
    if size == 0
    then m
    else if ltb source destin
    then copy_down source destin size m
    else copy_up source destin size 0 m

unfoldable pub bzero : ℕ → ℕ → Cells → Cells
bzero area zero m = m
bzero area (suc size) m = bzero area size (put m (area + size) 0)

-- From the byte at `s` on, with `n` bytes counted.
unfoldable pub strlen_loop : Cells → ℕ → ℕ → ℕ → Option ℕ
strlen_loop m zero s n = none
strlen_loop m (suc fuel) s n =
    let rest = strlen_loop m fuel (s + 1) (n + 1) in if m s == 0 then some n else rest

abbrev pub strlen : Cells → ℕ → ℕ → Option ℕ
strlen m fuel s = strlen_loop m fuel s 0

unfoldable pub same_string : Cells → ℕ → ℕ → ℕ → Option Bool
same_string m zero s1 s2 = none
same_string m (suc fuel) s1 s2 =
    let rest = same_string m fuel (s1 + 1) (s2 + 1) in
    if (m s1 == 0) || (m s2 == 0)
    then some (m s1 == m s2)
    else if m s1 == m s2
    then rest
    else some false

-- The attribute 0x07 with no character.
abbrev pub blank : ℕ
blank = 1792

-- The loops of `clear_screen`, from column `i` and line `j` on.
unfoldable pub clear_line : ℕ → ℕ → ℕ → Cells → Cells
clear_line j zero i screen = screen
clear_line j (suc left) i screen = clear_line j left (i + 1) (put screen (j * 80 + i) blank)

unfoldable pub clear_lines : ℕ → ℕ → ℕ → ℕ → Cells → Cells
clear_lines minx width zero j screen = screen
clear_lines minx width (suc left) j screen =
    clear_lines minx width left (j + 1) (clear_line j width minx screen)

abbrev pub clear_screen : ℕ → ℕ → ℕ → ℕ → Cells → Cells
clear_screen minx miny maxx maxy screen = clear_lines minx (maxx - minx) (maxy - miny) miny screen

-- The loops of `scroll`.
unfoldable pub scroll_line : ℕ → ℕ → ℕ → ℕ → Cells → Cells
scroll_line maxy j zero i screen = screen
scroll_line maxy j (suc left) i screen =
    scroll_line maxy j left (i + 1)
      (put screen (j * 80 + i) (if ltb (j + 1) maxy then screen (j * 80 + i + 80) else blank))

unfoldable pub scroll_lines : ℕ → ℕ → ℕ → ℕ → ℕ → Cells → Cells
scroll_lines minx width maxy zero j screen = screen
scroll_lines minx width maxy (suc left) j screen =
    scroll_lines minx width maxy left (j + 1) (scroll_line maxy j width minx screen)

abbrev pub scroll : ℕ → ℕ → ℕ → ℕ → Cells → Cells
scroll minx miny maxx maxy screen = scroll_lines minx (maxx - minx) maxy (maxy - miny) miny screen

-- The cell `0x07 << 8 | c` of a `char`, which is negative from 128 on.
abbrev pub cell : ℕ → ℕ
cell c = if ltb c 128 then blank + c else 0xff00 + c

-- Lines and columns are `int`s by their bit patterns: a negative one is large.
unfoldable pub print_char : ℕ → ℕ → ℕ → Cells → Cells
print_char line col c screen =
    if ltb 24 line || ltb 79 col then screen else put screen (line * 80 + col) (cell c)

-- The loop of `print_str` over the `n` bytes of the string, from index `i` on.
unfoldable pub print_loop : Cells → ℕ → ℕ → ℕ → ℕ → ℕ → Cells → Cells
print_loop m str line col zero i screen = screen
print_loop m str line col (suc left) i screen =
    print_loop m str line col left (i + 1)
      (print_char line ((col + i) % 2 ^ 32) (m (str + i)) screen)

unfoldable pub print_str : ℕ → Cells → ℕ → ℕ → ℕ → Cells → Option Cells
print_str fuel m line col str screen =
    strlen m fuel str >>= (λ n. some (print_loop m str line col n 0 screen))

-- The loop of `atoi` from the byte at `s` on, with the value `n` so far, as a 32-bit word.
unfoldable pub atoi_loop : Cells → ℕ → ℕ → ℕ → Option ℕ
atoi_loop m zero s n = none
atoi_loop m (suc fuel) s n =
    let rest = atoi_loop m fuel (s + 1) ((n * 10 + m s + 2 ^ 32 - 48) % 2 ^ 32) in
    if m s == 0 then some n else rest

-- The value is an `int`, by its bit pattern. 45 is the minus sign.
unfoldable pub atoi : Cells → ℕ → ℕ → Option ℕ
atoi m fuel s =
    if m s == 45
    then atoi_loop m fuel (s + 1) 0 >>= (λ n. some ((2 ^ 32 - n) % 2 ^ 32))
    else atoi_loop m fuel s 0
