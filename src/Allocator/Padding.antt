-- ===== src/Allocator/Padding.antt =====
-- The free chunks that kzalloc_align of cos318-project5/usb/allocator.c leaves for the alignment.
use operativsystemer.Base.{
  ℕ, zero, suc, ◌+◌, ◌-◌, ◌%◌, ◌≤◌, ◌<◌, ◌≡◌, ◌⊎◌, refl, sym, ◌∙◌, ap, arith, ltb, ltb→lt,
  Bool-cases, inl, inr, ==_ne, false,
}
use native.Mathlib.Nat.{mod-add-mod, mod-eq_of_lt, mod-lt, mod_self}
use operativsystemer.Allocator.{padding}

-- A chunk where a block with an alignment of `align` chunks may begin.
abbrev pub Aligned : ℕ → ℕ → Type 0
Aligned align i = (align ≡ 0) ⊎ (i % align ≡ 0)

pub padding_lem : (a i : ℕ) → padding (suc a) i ≡ (suc a - i % suc a) % suc a
padding_lem a i = rw (==_ne (suc a) 0 (λ e. absurd (omega arith)))

padding-zero : (a i : ℕ) → i % suc a ≡ 0 → padding (suc a) i ≡ 0
padding-zero a i h =
    padding_lem a i
    ∙ ap (λ r. (suc a - r) % suc a) h
    ∙ ap (λ t. t % suc a) (omega arith)
    ∙ mod_self (suc a)

padding-pos : (a i : ℕ) → 0 < i % suc a → padding (suc a) i ≡ suc a - i % suc a
padding-pos a i h = padding_lem a i ∙ mod-eq_of_lt (omega arith)

pub Aligned-padding : (align i : ℕ) → Aligned align (i + padding align i)
Aligned-padding zero i = inl refl
Aligned-padding (suc a) i = inr (elim (Bool-cases (ltb 0 (i % suc a))) [
  | inl pos ↦
      let inside : i % suc a < suc a = mod-lt i (omega arith) in
      ap (λ p. (i + p) % suc a) (padding-pos a i (ltb→lt 0 (i % suc a) pos))
      ∙ sym (mod-add-mod i (suc a) (suc a - i % suc a))
      ∙ ap (λ t. t % suc a) (omega arith)
      ∙ mod_self (suc a)
  | inr start ↦
      let zero_rest : i % suc a ≡ 0 = ground arith in
      ap (λ p. (i + p) % suc a) (padding-zero a i zero_rest)
      ∙ ap (λ t. t % suc a) (omega arith)
      ∙ zero_rest
])

-- There is no aligned chunk before the padding.
pub padding-least : (align i o : ℕ) → Aligned align (i + o) → padding align i ≤ o
padding-least zero i o h = omega arith
padding-least (suc a) i o (inl h) = absurd (omega arith)
padding-least (suc a) i o (inr h) = elim (Bool-cases (ltb 0 (i % suc a))) [
  | inr start ↦ omega (arith, padding-zero a i (ground arith))
  | inl pos ↦ elim (Bool-cases (ltb o (suc a - i % suc a))) [
    | inr late ↦ omega (arith, padding-pos a i (ltb→lt 0 (i % suc a) pos), late_enough late)
    | inl early ↦
        let inside : i % suc a + o < suc a = omega (arith, ltb→lt o (suc a - i % suc a) early) in
        let e : i % suc a + o ≡ 0 = sym (mod-eq_of_lt inside) ∙ mod-add-mod i (suc a) o ∙ h in
        absurd (omega (arith, ltb→lt 0 (i % suc a) pos))
  ]
]
  where
    late_enough : ltb o (suc a - i % suc a) ≡ false → suc a - i % suc a ≤ o
    late_enough h = ground arith
