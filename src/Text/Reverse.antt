-- ===== src/Text/Reverse.antt =====
-- reverse of cos318-project6/util.c.
use operativsystemer.Base.{
  ℕ, zero, suc, ◌+◌, ◌-◌, ◌*◌, ◌≤◌, ◌<◌, ◌≡◌, ◌≢◌, refl, sym, ap, ◌∙◌, some, List, length, arith,
  ◌==◌, ltb, ==_ne, ==_refl, Bool-cases, inl, inr,
}
use operativsystemer.Text.{Cells}
use operativsystemer.Text.Bytes.{IsString, strlen-length}
use operativsystemer.Text.Convert.{reverse, reverse_loop, swapped}

swapped-first : (m : Cells) (x y : ℕ) → x ≢ y → swapped m x y x ≡ m y
swapped-first m x y ne = rw (==_ne x y ne, ==_refl x)

swapped-second : (m : Cells) (x y : ℕ) → swapped m x y y ≡ m x
swapped-second m x y = rw (==_refl y)

swapped-other : (m : Cells) (x y a : ℕ) → a ≢ x → a ≢ y → swapped m x y a ≡ m a
swapped-other m x y a ne ne' = rw (==_ne a y ne', ==_ne a x ne)

-- Behind the loop of `reverse`, the bytes between `i` and `j` stand in the other order, and the others
-- as they were.
reverse_loop-reversed :
    (fuel s i j : ℕ) (m : Cells)
    → i ≤ j
    → j < i + 2 * fuel
    → (m' : Cells) × (reverse_loop fuel s i j m ≡ some m')
      × ((a k : ℕ) → a + k + 1 ≡ i + j → i ≤ a → a < j → m' (s + a) ≡ m (s + k))
      × ((a : ℕ) → ((k : ℕ) → i ≤ k → k < j → a ≢ s + k) → m' a ≡ m a)
unfolding reverse_loop
reverse_loop-reversed zero s i j m le h = absurd (omega arith)
reverse_loop-reversed (suc fuel) s i j m le h = elim (Bool-cases (ltb (i + 1) j)) [
  | inl more ↦
      let lt : i + 1 < j = ground arith in
      let (m', e, inside, outside) =
        reverse_loop-reversed fuel s (i + 1) (j - 1) (swapped m (s + i) (s + (j - 1))) (omega arith)
          (omega arith) in
      (
        m',
        rw more e,
        (λ a k sum from to. elim (Bool-cases (a == i)) [
          | inl first ↦
              let at : a ≡ i = ground arith in
              let other : k ≡ j - 1 = omega arith in
              outside (s + a) (λ l low high. omega arith)
              ∙ ap (swapped m (s + i) (s + (j - 1))) (ap (λ x. s + x) at)
              ∙ swapped-first m (s + i) (s + (j - 1)) (omega arith)
              ∙ ap (λ x. m (s + x)) (sym other)
          | inr later ↦ elim (Bool-cases (k == i)) [
            | inl last ↦
                let at : a ≡ j - 1 = ground arith in
                let other : k ≡ i = ground arith in
                outside (s + a) (λ l low high. omega arith)
                ∙ ap (swapped m (s + i) (s + (j - 1))) (ap (λ x. s + x) at)
                ∙ swapped-second m (s + i) (s + (j - 1))
                ∙ ap (λ x. m (s + x)) (sym other)
            | inr within ↦
                let ne : a ≢ i = ground arith in
                let ne' : k ≢ i = ground arith in
                inside a k (omega arith) (omega arith) (omega arith)
                ∙ swapped-other m (s + i) (s + (j - 1)) (s + k) (omega arith) (omega arith)
          ]
        ]),
        (λ a out.
            outside a (λ l low high. out l (omega arith) (omega arith))
            ∙ swapped-other m (s + i) (s + (j - 1)) a (out i (omega arith) (omega arith))
                (out (j - 1) (omega arith) (omega arith))),
      )
  | inr done ↦
      let ge : j ≤ i + 1 = ground arith in
      (
        m,
        rw done,
        (λ a k sum from to. let at : a ≡ k = omega arith in ap (λ x. m (s + x)) at),
        λ a out. refl,
      )
]

-- `reverse` of a string.
pub reverse-reversed :
    (fuel s : ℕ) (m : Cells) (xs : List ℕ)
    → IsString m s xs
    → length xs < fuel
    → (m' : Cells) × (reverse fuel s m ≡ some m')
      × ((a k : ℕ) → a + k + 1 ≡ length xs → m' (s + a) ≡ m (s + k))
      × (m' (s + length xs) ≡ m (s + length xs))
unfolding reverse
reverse-reversed fuel s m xs h room =
    let (m', e, inside, outside) =
      reverse_loop-reversed fuel s 0 (length xs) m (omega arith) (omega arith) in
    (
      m',
      rw (strlen-length m fuel s xs h room) e,
      (λ a k sum. inside a k (omega arith) (omega arith) (omega arith)),
      outside (s + length xs) (λ k low high. omega arith),
    )
