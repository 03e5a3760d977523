-- ===== src/Shell/Parse.antt =====
-- parseLine of cos318-project6/shell.c finds the words of a line.
use operativsystemer.Base.{
  ℕ, zero, suc, ◌+◌, ◌≤◌, ◌<◌, ◌≡◌, ◌≢◌, refl, sym, subst, ap, ap₂, ◌∙◌, true, false, Option, some,
  List, [], ◌∷◌, ◌++◌, append_assoc, append-nil, ◌==◌, if◌then◌else◌, length, arith, Bool-cases,
  inl, inr, ==_ne, ==_refl,
}
use operativsystemer.Text.{Cells, put}
use operativsystemer.Text.Bytes.{IsString}
use operativsystemer.Shell.{skip_spaces, skip_word, parse_loop}
use operativsystemer.Shell.Words.{
  space, begins, words, after_spaces, word, after_word, words-after_spaces, words-word, length-word,
  begins-after_word, begins-after_spaces, length-after_spaces, length-after_word, word-char,
  words-nil,
}

-- The strings at some addresses.
abbrev pub Args : Cells → List ℕ → List (List ℕ) → Type 0
Args line [] [] = Unit {0}
Args line [] (w ∷ ws) = ⊥
Args line (a ∷ argv) [] = ⊥
Args line (a ∷ argv) (w ∷ ws) = IsString line a w × Args line argv ws

IsString-nil : (line : Cells) (s : ℕ) → IsString line s [] → line s ≡ 0
unfolding IsString
IsString-nil line s v = v

IsString-cons : (line : Cells) (s x : ℕ) (xs : List ℕ) → IsString line s (x ∷ xs) → line s ≢ 0
unfolding IsString
IsString-cons line s x xs v = λ e. v.1 (sym v.0 ∙ e)

IsString-other :
    (line line' : Cells) (s : ℕ) (xs : List ℕ)
    → ((a : ℕ) → s ≤ a → line' a ≡ line a)
    → IsString line s xs
    → IsString line' s xs
unfolding IsString
IsString-other line line' s [] same v = same s (omega arith) ∙ v
IsString-other line line' s (x ∷ xs) same (at, pos, later) = (
  same s (omega arith) ∙ at,
  pos,
  IsString-other line line' (s + 1) xs (λ a k. same a (omega arith)) later,
)

-- The spaces that a text begins with.
spaces : List ℕ → ℕ
spaces [] = 0
spaces (x ∷ xs) = if x == space then suc (spaces xs) else 0

skip_spaces-lem :
    (fuel : ℕ) (line : Cells) (s : ℕ) (xs : List ℕ)
    → IsString line s xs
    → length xs < fuel
    → (line' : Cells) × (skip_spaces fuel line s ≡ some (line', s + spaces xs))
      × IsString line' (s + spaces xs) (after_spaces xs)
      × ((begins xs ≡ false) → line' s ≡ 0)
      × ((a : ℕ) → a < s → line' a ≡ line a)
unfolding skip_spaces IsString after_spaces spaces
skip_spaces-lem zero line s xs v h = absurd (omega arith)
skip_spaces-lem (suc fuel) line s [] v h =
    let e : s + 0 ≡ s = omega arith in (line, rw (v, e), rw e v, λ b. v, λ a k. refl)
skip_spaces-lem (suc fuel) line s (x ∷ xs) (at, pos, later) h = elim (Bool-cases (x == space)) [
  | inr char ↦
      let e : s + 0 ≡ s = omega arith in
      (
        line,
        rw (at, char, e),
        rw (char, e) (at, pos, later),
        λ b. absurd (ground arith),
        λ a k. refl,
      )
  | inl blank ↦
      let (line', run, string, start, same) =
        skip_spaces-lem fuel (put line s 0) (s + 1) xs
          (IsString-other line (put line s 0) (s + 1) xs (λ a k. rw (==_ne a s (omega arith)))
            later)
          (omega arith) in
      let e : s + suc (spaces xs) ≡ s + 1 + spaces xs = omega arith in
      (
        line',
        rw (at, blank, e) run,
        rw (blank, e) string,
        λ b. same s (omega arith) ∙ rw (==_refl s),
        λ a k. same a (omega arith) ∙ rw (==_ne a s (omega arith)),
      )
]

skip_word-lem :
    (fuel : ℕ) (line : Cells) (s : ℕ) (xs : List ℕ)
    → IsString line s xs
    → length xs < fuel
    → (skip_word fuel line s ≡ some (s + length (word xs)))
      × IsString line (s + length (word xs)) (after_word xs)
unfolding skip_word IsString word after_word
skip_word-lem zero line s xs v h = absurd (omega arith)
skip_word-lem (suc fuel) line s [] v h = let e : s + 0 ≡ s = omega arith in (rw (v, e), rw e v)
skip_word-lem (suc fuel) line s (x ∷ xs) (at, pos, later) h = elim (Bool-cases (x == space)) [
  | inl blank ↦
      let e : s + 0 ≡ s = omega arith in (rw (at, blank, e), rw (blank, e) (at, pos, later))
  | inr char ↦
      let (run, string) = skip_word-lem fuel line (s + 1) xs later (omega arith) in
      let e : s + suc (length (word xs)) ≡ s + 1 + length (word xs) = omega arith in
      (rw (at, char, ==_ne x 0 pos, e) run, rw (char, e) string)
]

-- A word with a zero byte behind it is a string.
IsString-word :
    (line line' : Cells) (s : ℕ) (xs : List ℕ)
    → IsString line s xs
    → ((a : ℕ) → a < s + length (word xs) → line' a ≡ line a)
    → line' (s + length (word xs)) ≡ 0
    → IsString line' s (word xs)
unfolding IsString word
IsString-word line line' s [] v same end = subst (λ a. line' a ≡ 0) (omega arith) end
IsString-word line line' s (x ∷ xs) (at, pos, later) same end = elim (Bool-cases (x == space)) [
  | inl blank ↦ rw blank (subst (λ a. line' a ≡ 0) (empty blank) end)
  | inr char ↦ rw char (
    same s (omega (arith, length-word x xs char)) ∙ at,
    pos,
    IsString-word line line' (s + 1) xs later (λ a k. same a (omega (arith, length-word x xs char)))
        (subst (λ a. line' a ≡ 0) (omega (arith, length-word x xs char)) end),
  )
]
  where
    empty : x == space ≡ true → s + length (word (x ∷ xs)) ≡ s
    empty blank = rw blank (omega arith)

-- What `parse_loop` leaves: the words of the text as strings, at addresses from `s` on.
abbrev pub Parsed : Cells → ℕ → List ℕ → List ℕ → Option (Cells × List ℕ) → Type 0
Parsed line s argv xs r =
    (line' : Cells) × (new : List ℕ) × (r ≡ some (line', argv ++ new))
    × Args line' new (words xs)
    × ((begins xs ≡ false) → line' s ≡ 0)
    × ((a : ℕ) → a < s → line' a ≡ line a)

parse_loop-end :
    (fuel : ℕ) (line line₁ : Cells) (s t : ℕ) (argv xs : List ℕ)
    → skip_spaces (suc fuel) line s ≡ some (line₁, t)
    → line₁ t ≡ 0
    → after_spaces xs ≡ []
    → ((begins xs ≡ false) → line₁ s ≡ 0)
    → ((a : ℕ) → a < s → line₁ a ≡ line a)
    → Parsed line s argv xs (parse_loop (suc fuel) line s argv)
unfolding parse_loop
parse_loop-end fuel line line₁ s t argv xs skip end e start same = (
  line₁,
  [],
  rw (skip, end, append-nil),
  subst (Args line₁ []) (sym words-nil ∙ ap words (sym e) ∙ words-after_spaces xs) tt,
  start,
  same,
)

parse_loop-step :
    (fuel : ℕ) (line line₁ : Cells) (s t u : ℕ) (argv : List ℕ)
    → skip_spaces (suc fuel) line s ≡ some (line₁, t)
    → line₁ t ≢ 0
    → skip_word (suc fuel) line₁ t ≡ some u
    → parse_loop (suc fuel) line s argv ≡ parse_loop fuel line₁ u (argv ++ t ∷ [])
unfolding parse_loop
parse_loop-step fuel line line₁ s t u argv skip pos past = rw (skip, ==_ne (line₁ t) 0 pos, past)

-- One word, before what the rest of the loop leaves.
Parsed-cons :
    (line line₁ : Cells) (s t x : ℕ) (argv xs zs : List ℕ) (r : Option (Cells × List ℕ))
    → s ≤ t
    → (x == space) ≡ false
    → after_spaces xs ≡ x ∷ zs
    → IsString line₁ t (x ∷ zs)
    → ((begins xs ≡ false) → line₁ s ≡ 0)
    → ((a : ℕ) → a < s → line₁ a ≡ line a)
    → Parsed line₁ (t + length (word (x ∷ zs))) (argv ++ t ∷ []) (after_word (x ∷ zs)) r
    → Parsed line s argv xs r
Parsed-cons line line₁ s t x argv xs zs r le char e string start same
      (line₂, new, run, args, end, same₂) =
    (
      line₂,
      t ∷ new,
      run ∙ ap (λ l. some (line₂, l)) (append_assoc argv (t ∷ []) new),
      subst (Args line₂ (t ∷ new)) found (
        IsString-word line₁ line₂ t (x ∷ zs) string same₂ (end (begins-after_word (x ∷ zs))),
        args,
      ),
      λ b. same₂ s (omega (arith, length-word x zs char)) ∙ start b,
      λ a k. same₂ a (omega (arith, length-word x zs char)) ∙ same a k,
    )
  where
    found : word (x ∷ zs) ∷ words (after_word (x ∷ zs)) ≡ words xs
    found =
        ap₂ (λ w l. w ∷ words l) (word-char x zs char).0 (word-char x zs char).1
        ∙ sym (words-word x zs char)
        ∙ ap words (sym e)
        ∙ words-after_spaces xs

-- With more fuel than characters, parse_loop ends, and finds the words of the text.
pub parse_loop-Parsed :
    (fuel : ℕ) (line : Cells) (s : ℕ) (argv xs : List ℕ)
    → IsString line s xs
    → length xs < fuel
    → Parsed line s argv xs (parse_loop fuel line s argv)
parse_loop-Parsed zero line s argv xs v h = absurd (omega arith)
parse_loop-Parsed (suc fuel) line s argv xs v h =
    let (line₁, skip, string, start, same) = skip_spaces-lem (suc fuel) line s xs v h in
    go line₁ (s + spaces xs) (omega arith) skip start same (after_spaces xs) refl string
      (λ t argv' zs. parse_loop-Parsed fuel line₁ t argv' zs)
  where
    go :
        (line₁ : Cells) (t : ℕ)
        → s ≤ t
        → skip_spaces (suc fuel) line s ≡ some (line₁, t)
        → ((begins xs ≡ false) → line₁ s ≡ 0)
        → ((a : ℕ) → a < s → line₁ a ≡ line a)
        → (zs : List ℕ) → after_spaces xs ≡ zs
        → IsString line₁ t zs
        → ((u : ℕ) (argv' ys : List ℕ)
            → IsString line₁ u ys
            → length ys < fuel
            → Parsed line₁ u argv' ys (parse_loop fuel line₁ u argv'))
        → Parsed line s argv xs (parse_loop (suc fuel) line s argv)
    go line₁ t le skip start same [] e string rec =
        parse_loop-end fuel line line₁ s t argv xs skip (IsString-nil line₁ t string) e start same
    go line₁ t le skip start same (z ∷ zs) e string rec =
        let char = begins-after_spaces xs e in
        let shorter : length (z ∷ zs) ≤ length xs =
          subst (λ l. length l ≤ length xs) e (length-after_spaces xs) in
        let (past, rest) = skip_word-lem (suc fuel) line₁ t (z ∷ zs) string (omega arith) in
        let next =
          rec (t + length (word (z ∷ zs))) (argv ++ t ∷ []) (after_word (z ∷ zs)) rest
            (omega (arith, length-after_word zs, ap length (word-char z zs char).1)) in
        Parsed-cons line line₁ s t z argv xs zs (parse_loop (suc fuel) line s argv) le char e string
          start same
          (subst (Parsed line₁ (t + length (word (z ∷ zs))) (argv ++ t ∷ []) (after_word (z ∷ zs)))
            (sym (
              parse_loop-step fuel line line₁ s t (t + length (word (z ∷ zs))) argv skip
                (IsString-cons line₁ t z zs string) past))
            next)
