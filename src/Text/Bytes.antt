-- ===== src/Text/Bytes.antt =====
-- bcopy, bzero, strlen and same_string of cos318-project6/util.c.
use operativsystemer.Base.{
  ℕ, zero, suc, ◌+◌, ◌≤◌, ◌<◌, ◌≡◌, ◌≢◌, refl, sym, ◌∙◌, ap, Bool, true, false, ◌&&◌, some, ◌==◌,
  List, [], ◌∷◌, length, ltb, leb, if◌then◌else◌, arith, ==_ne, ==_refl, Bool-cases, inl, inr,
}
use operativsystemer.Text.{
  Cells, copy_down, copy_up, bcopy, strlen_loop, strlen, same_string, bzero, put,
}

copy_down-other :
    (source destin size : ℕ) (m : Cells) (a : ℕ)
    → ((j : ℕ) → j < size → a ≢ destin + j)
    → copy_down source destin size m a ≡ m a
unfolding copy_down
copy_down-other source destin zero m a out = refl
copy_down-other source destin (suc i) m a out =
    copy_down-other source destin i _ a (λ j h. out j (omega arith))
    ∙ rw (==_ne a (destin + i) (out i (omega arith))) refl

copy_down-moved :
    (source destin size : ℕ) (m : Cells) (j : ℕ)
    → source < destin
    → j < size
    → copy_down source destin size m (destin + j) ≡ m (source + j)
unfolding copy_down
copy_down-moved source destin zero m j lower h = absurd (omega arith)
copy_down-moved source destin (suc i) m j lower h = elim (Bool-cases (ltb j i)) [
  | inl below ↦
      let ne : source + j ≢ destin + i = ground arith in
      copy_down-moved source destin i _ j lower (ground arith)
      ∙ rw (==_ne (source + j) (destin + i) ne) refl
  | inr last ↦
      let e : j ≡ i = ground arith in
      rw e (
        copy_down-other source destin i _ (destin + i) (λ r b. omega arith)
        ∙ rw (==_refl (destin + i)) refl)
]

copy_up-other :
    (source destin left i : ℕ) (m : Cells) (a : ℕ)
    → ((j : ℕ) → i ≤ j → j < i + left → a ≢ destin + j)
    → copy_up source destin left i m a ≡ m a
unfolding copy_up
copy_up-other source destin zero i m a out = refl
copy_up-other source destin (suc left) i m a out =
    copy_up-other source destin left (i + 1) _ a (λ j b c. out j (omega arith) (omega arith))
    ∙ rw (==_ne a (destin + i) (out i (omega arith) (omega arith))) refl

copy_up-moved :
    (source destin left i : ℕ) (m : Cells) (j : ℕ)
    → destin ≤ source
    → i ≤ j
    → j < i + left
    → copy_up source destin left i m (destin + j) ≡ m (source + j)
unfolding copy_up
copy_up-moved source destin zero i m j lower b h = absurd (omega arith)
copy_up-moved source destin (suc left) i m j lower b h = elim (Bool-cases (ltb i j)) [
  | inl above ↦
      let ne : source + j ≢ destin + i = ground arith in
      copy_up-moved source destin left (i + 1) _ j lower (ground arith) (omega arith)
      ∙ rw (==_ne (source + j) (destin + i) ne) refl
  | inr first ↦
      let e : j ≡ i = ground arith in
      rw e (
        copy_up-other source destin left (i + 1) _ (destin + i) (λ r b c. omega arith)
        ∙ rw (==_refl (destin + i)) refl)
]

-- bcopy moves `size` bytes, also where source and destination overlap, and changes no byte outside of
-- the destination.
pub bcopy-moved :
    (source destin size : ℕ) (m : Cells)
    → ((j : ℕ) → j < size → bcopy source destin size m (destin + j) ≡ m (source + j))
      × ((a : ℕ) → ((j : ℕ) → j < size → a ≢ destin + j) → bcopy source destin size m a ≡ m a)
unfolding bcopy
bcopy-moved source destin zero m = (λ j h. absurd (omega arith), λ a out. refl)
bcopy-moved source destin (suc size) m = elim (Bool-cases (ltb source destin)) [
  | inl lower ↦ rw (==_ne (suc size) 0 (omega arith)) (
      rw lower (
        λ j h. copy_down-moved source destin (suc size) m j (ground arith) h,
        λ a out. copy_down-other source destin (suc size) m a out,
      ))
  | inr upper ↦ rw (==_ne (suc size) 0 (omega arith)) (
      rw upper (
        λ j h.
            copy_up-moved source destin (suc size) 0 m j (ground arith) (omega arith) (omega arith),
        λ a out. copy_up-other source destin (suc size) 0 m a (λ j b c. out j (omega arith)),
      ))
]

-- The bytes of a string from an address on, without the zero byte that ends it.
unfoldable pub IsString : Cells → ℕ → List ℕ → Type 0
IsString m s [] = m s ≡ 0
IsString m s (x ∷ xs) = (m s ≡ x) × (x ≢ 0) × IsString m (s + 1) xs

-- Whether two lists are the same.
unfoldable pub same_list : List ℕ → List ℕ → Bool
same_list [] [] = true
same_list [] (y ∷ ys) = false
same_list (x ∷ xs) [] = false
same_list (x ∷ xs) (y ∷ ys) = (x == y) && same_list xs ys

-- With more fuel than characters, same_string ends, and says whether two strings are the same.
same_string-same_list :
    (m : Cells) (fuel s1 s2 : ℕ) (xs ys : List ℕ)
    → IsString m s1 xs
    → IsString m s2 ys
    → length xs < fuel
    → same_string m fuel s1 s2 ≡ some (same_list xs ys)
unfolding same_string IsString same_list
same_string-same_list m zero s1 s2 xs ys a b h = absurd (omega arith)
same_string-same_list m (suc fuel) s1 s2 [] [] a b h = rw a (rw b refl)
same_string-same_list m (suc fuel) s1 s2 [] (y ∷ ys) a b h =
    rw a (rw (b.0) (ap some (==_ne 0 y (λ e. b.1 (sym e)))))
same_string-same_list m (suc fuel) s1 s2 (x ∷ xs) [] a b h =
    rw (a.0) (rw b (rw (==_ne x 0 a.1) refl))
same_string-same_list m (suc fuel) s1 s2 (x ∷ xs) (y ∷ ys) a b h = rw (a.0) (
    rw (b.0) (
      rw (==_ne x 0 a.1) (
        rw (==_ne y 0 b.1) (elim (Bool-cases (x == y)) [
          | inl e ↦
              rw e (same_string-same_list m fuel (s1 + 1) (s2 + 1) xs ys a.2 b.2 (omega arith))
          | inr n ↦ rw n refl
        ]))))

strlen_loop-length :
    (m : Cells) (fuel s n : ℕ) (xs : List ℕ)
    → IsString m s xs
    → length xs < fuel
    → strlen_loop m fuel s n ≡ some (n + length xs)
unfolding strlen_loop IsString
strlen_loop-length m zero s n xs a h = absurd (omega arith)
strlen_loop-length m (suc fuel) s n [] a h = rw a (ap some (omega arith))
strlen_loop-length m (suc fuel) s n (x ∷ xs) a h = rw (a.0) (
    rw (==_ne x 0 a.1)
      (strlen_loop-length m fuel (s + 1) (n + 1) xs a.2 (omega arith) ∙ ap some (omega arith)))

-- With more fuel than characters, strlen is the number of the characters.
pub strlen-length :
    (m : Cells) (fuel s : ℕ) (xs : List ℕ)
    → IsString m s xs
    → length xs < fuel
    → strlen m fuel s ≡ some (length xs)
strlen-length m fuel s xs a h = strlen_loop-length m fuel s 0 xs a h ∙ ap some (omega arith)

-- `bzero` clears the bytes of its area, and no other ones.
pub bzero_lem :
    (area size : ℕ) (m : Cells) (a : ℕ)
    → bzero area size m a ≡ (if leb area a && ltb a (area + size) then 0 else m a)
unfolding bzero
bzero_lem area zero m a = ground arith
bzero_lem area (suc size) m a = ground (arith, bzero_lem area size (put m (area + size) 0) a)
