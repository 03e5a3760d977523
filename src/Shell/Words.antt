-- ===== src/Shell/Words.antt =====
-- The words of a text, as parseLine of cos318-project6/shell.c is to find them.
use operativsystemer.Base.{
  ℕ, suc, ◌*◌, ◌≤◌, ◌≡◌, refl, Bool, true, false, not, List, [], ◌∷◌, ◌==◌, if◌then◌else◌, length,
  arith, Bool-cases, inl, inr,
}

abbrev pub space : ℕ
space = b' '

-- Whether a text begins with a word.
abbrev pub begins : List ℕ → Bool
begins [] = false
begins (x ∷ xs) = not (x == space)

abbrev pub join : ℕ → List (List ℕ) → List (List ℕ)
join x [] = (x ∷ []) ∷ []
join x (w ∷ ws) = (x ∷ w) ∷ ws

-- The specification: the words of a text, which spaces part.
unfoldable pub words : List ℕ → List (List ℕ)
words [] = []
words (x ∷ xs) =
    if x == space then words xs else if begins xs then join x (words xs) else (x ∷ []) ∷ words xs

-- A text without the spaces, or the word, that it begins with, and that word.
unfoldable pub after_spaces : List ℕ → List ℕ
after_spaces [] = []
after_spaces (x ∷ xs) = if x == space then after_spaces xs else x ∷ xs

unfoldable pub word : List ℕ → List ℕ
word [] = []
word (x ∷ xs) = if x == space then [] else x ∷ word xs

unfoldable pub after_word : List ℕ → List ℕ
after_word [] = []
after_word (x ∷ xs) = if x == space then x ∷ xs else after_word xs

pub words-after_spaces : (xs : List ℕ) → words (after_spaces xs) ≡ words xs
unfolding words after_spaces
words-after_spaces [] = refl
words-after_spaces (x ∷ xs) = ground (arith, words-after_spaces xs)

-- The first word of a text that begins with one.
pub words-word :
    (x : ℕ) (xs : List ℕ)
    → (x == space) ≡ false
    → words (x ∷ xs) ≡ (x ∷ word xs) ∷ words (after_word xs)
unfolding words word after_word
words-word x [] n = ground arith
words-word x (y ∷ xs) n = ground (arith, words-word y xs)

pub length-word :
    (x : ℕ) (xs : List ℕ) → (x == space) ≡ false → length (word (x ∷ xs)) ≡ suc (length (word xs))
unfolding word
length-word x xs char = rw char

pub begins-after_word : (xs : List ℕ) → begins (after_word xs) ≡ false
unfolding after_word
begins-after_word [] = refl
begins-after_word (x ∷ xs) = ground (arith, begins-after_word xs)

pub begins-after_spaces :
    (xs : List ℕ) {z : ℕ} {zs : List ℕ} → after_spaces xs ≡ z ∷ zs → (z == space) ≡ false
unfolding after_spaces
begins-after_spaces [] e = cc
begins-after_spaces (x ∷ xs) {z} {zs} e = ground (arith, begins-after_spaces xs {z = z} {zs = zs})

pub length-after_spaces : (xs : List ℕ) → length (after_spaces xs) ≤ length xs
unfolding after_spaces
length-after_spaces [] = omega arith
length-after_spaces (x ∷ xs) = ground (arith, length-after_spaces xs)

pub length-after_word : (xs : List ℕ) → length (after_word xs) ≤ length xs
unfolding after_word
length-after_word [] = omega arith
length-after_word (x ∷ xs) = ground (arith, length-after_word xs)

pub word-char :
    (x : ℕ) (xs : List ℕ)
    → (x == space) ≡ false
    → (word (x ∷ xs) ≡ x ∷ word xs) × (after_word (x ∷ xs) ≡ after_word xs)
unfolding word after_word
word-char x xs char = rw char (refl, refl)

pub words-nil : words [] ≡ []
unfolding words
words-nil = refl

length-join-begins :
    (x : ℕ) (xs : List ℕ) → begins xs ≡ true → length (join x (words xs)) ≡ length (words xs)
length-join-begins x [] b = cc
length-join-begins x (y ∷ xs) b = rw (words-word y xs (ground arith)) refl

-- A text of n characters has at most half as many words, rounded up.
pub length-words :
    (xs : List ℕ)
    → (2 * length (words xs) ≤ suc (length xs))
      × ((begins xs ≡ false) → 2 * length (words xs) ≤ length xs)
unfolding words
length-words [] = (omega arith, λ b. omega arith)
length-words (x ∷ xs) =
    let (most, most_space) = length-words xs in
    elim (Bool-cases (x == space)) [
      | inl blank ↦ rw blank (omega arith, λ b. most)
      | inr char ↦ elim (Bool-cases (begins xs)) [
        | inl more ↦
            rw (char, more)
              (omega (arith, length-join-begins x xs more), λ b. absurd (ground arith))
        | inr end ↦ rw (char, end) (omega (arith, most_space end), λ b. absurd (ground arith))
      ]
    ]
