-- ===== src/Tests/Numerals.antt =====
-- itoa, itohex and print_int of cos318-project6/util.c on a few numbers, and on the one without a
-- negation.
use operativsystemer.Base.{ℕ, arith, ◌-◌, ◌^◌, ◌≡◌, refl, Option, some, ◌>>=◌, List, [], ◌∷◌}
use operativsystemer.Text.{Cells, strlen_loop, atoi, atoi_loop, print_char, print_loop}
use operativsystemer.Text.Convert.{
  itoa, itoa_loop, itohex, itohex_loop, reverse, reverse_loop, print_int,
}
use operativsystemer.Text.Decimal.{atoi-itoa}

abbrev dirty : Cells
dirty a = 120

abbrev five : Option Cells → Option (List ℕ)
five r = r >>= (λ m. some (m 50 ∷ m 51 ∷ m 52 ∷ m 53 ∷ m 54 ∷ []))

five-itoa : five (itoa 12 4307 50 dirty) ≡ some (52 ∷ 51 ∷ 48 ∷ 55 ∷ 0 ∷ [])
unfolding itoa itoa_loop reverse reverse_loop strlen_loop
five-itoa = refl

five-itoa_negative : five (itoa 12 (2 ^ 32 - 27) 50 dirty) ≡ some (45 ∷ 50 ∷ 55 ∷ 0 ∷ 120 ∷ [])
unfolding itoa itoa_loop reverse reverse_loop strlen_loop
five-itoa_negative = refl

-- A minus sign and a parenthesis stand for -2^31.
five-itoa_least : five (itoa 12 (2 ^ 31) 50 dirty) ≡ some (45 ∷ 40 ∷ 0 ∷ 120 ∷ 120 ∷ [])
unfolding itoa itoa_loop reverse reverse_loop strlen_loop
five-itoa_least = refl

five-itohex : five (itohex 12 48879 50 dirty) ≡ some (98 ∷ 101 ∷ 101 ∷ 102 ∷ 0 ∷ [])
unfolding itohex itohex_loop reverse reverse_loop strlen_loop
five-itohex = refl

atoi-itoa_4307 : itoa 12 4307 50 dirty >>= (λ m. atoi m 12 50) ≡ some 4307
unfolding itoa itoa_loop reverse reverse_loop strlen_loop atoi atoi_loop
atoi-itoa_4307 = refl

print_int-cells :
    print_int 12 50 1 78 (2 ^ 32 - 27) dirty dirty >>= (λ c. some (c 158 ∷ c 159 ∷ c 160 ∷ []))
    ≡ some (1837 ∷ 1842 ∷ 120 ∷ [])
unfolding print_int itoa itoa_loop reverse reverse_loop strlen_loop print_char print_loop
print_int-cells = refl

atoi-itoa_example :
    (m : Cells) × (itoa 12 (2 ^ 32 - 4307) 50 dirty ≡ some m)
    × (atoi m 12 50 ≡ some (2 ^ 32 - 4307))
atoi-itoa_example = atoi-itoa 12 (2 ^ 32 - 4307) 50 dirty (omega arith) (omega arith) (omega arith)
