-- ===== src/Shell/Line.antt =====
-- readLine of cos318-project6/shell.c, and the words of the line that it reads.
use operativsystemer.Base.{
  ℕ, zero, suc, ◌+◌, ◌%◌, ◌≤◌, ◌<◌, ◌≡◌, ◌≢◌, ◌⊎◌, refl, ap, ◌∙◌, false, some, List, [], ◌∷◌, ◌++◌,
  ltb, length, take, length-take, arith, Bool-cases, inl, inr, ==_ne, ==_refl, lt→ltb,
}
use operativsystemer.Text.{Cells, put}
use operativsystemer.Text.Bytes.{IsString}
use operativsystemer.Shell.{
  Window, max_line, size_x, return_r, write_char, write_str, read_loop, read_line, parse_line,
}
use operativsystemer.Shell.Words.{words, length-words}
use operativsystemer.Shell.Parse.{Args, parse_loop-Parsed}

-- The characters of a line, as `getchar` gives them.
abbrev pub Chars : List ℕ → Type 0
Chars [] = Unit {0}
Chars (c ∷ cs) = ((c ≢ 0) × (c ≢ return_r) × (c < 128)) × Chars cs

read_loop-return :
    (rest : List ℕ) (i : ℕ) (line : Cells) (w : Window)
    → read_loop (return_r ∷ rest) i line w ≡ some (put line i 0, write_char return_r w, rest)
unfolding read_loop
read_loop-return rest i line w = elim (Bool-cases (ltb i max_line)) [
  | inl room ↦ rw room
  | inr full ↦ rw full
]

read_loop-store :
    (x : ℕ) (cs : List ℕ) (i : ℕ) (line : Cells) (w : Window)
    → x ≢ return_r
    → x < 128
    → i < max_line
    → read_loop (x ∷ cs) i line w ≡ read_loop cs (i + 1) (put line i x) (write_char x w)
unfolding read_loop
read_loop-store x cs i line w other small room =
    let byte : x % 256 ≡ x = omega arith in
    rw (==_ne x return_r other, lt→ltb i max_line room, byte)

read_loop-drop :
    (x : ℕ) (cs : List ℕ) (i : ℕ) (line : Cells) (w : Window)
    → x ≢ return_r
    → max_line ≤ i
    → read_loop (x ∷ cs) i line w ≡ read_loop cs i line (write_char x w)
unfolding read_loop
read_loop-drop x cs i line w other full =
    let none_left : ltb i max_line ≡ false = ground arith in rw (==_ne x return_r other, none_left)

off : (a i : ℕ) → (a < i) ⊎ (max_line < a) → i ≤ max_line → a ≢ i
off a i k h e = omega arith

shift : (a i : ℕ) → (a < i) ⊎ (max_line < a) → (a < i + 1) ⊎ (max_line < a)
shift a i (inl k) = inl (omega arith)
shift a i (inr k) = inr k

-- readLine ends at the first return; the line is what stands before it, cut at 48 characters.
read_loop-take :
    (xs rest : List ℕ) (n i : ℕ) (line : Cells) (w : Window)
    → Chars xs
    → i + n ≡ max_line
    → (line' : Cells) × (read_loop (xs ++ return_r ∷ rest) i line w
        ≡ some (line', write_str (xs ++ return_r ∷ []) w, rest))
      × IsString line' i (take n xs)
      × ((a : ℕ) → (a < i) ⊎ (max_line < a) → line' a ≡ line a)
unfolding write_str IsString
read_loop-take [] rest zero i line w v h = (
  put line i 0,
  read_loop-return rest i line w,
  rw (==_refl i),
  (λ a k. rw (==_ne a i (off a i k (omega arith)))),
)
read_loop-take [] rest (suc n) i line w v h = (
  put line i 0,
  read_loop-return rest i line w,
  rw (==_refl i),
  (λ a k. rw (==_ne a i (off a i k (omega arith)))),
)
read_loop-take (x ∷ xs) rest zero i line w ((pos, other, small), v) h =
    let (line', run, string, same) = read_loop-take xs rest zero i line (write_char x w) v h in
    (
      line',
      read_loop-drop x (xs ++ return_r ∷ rest) i line w other (omega arith) ∙ run,
      string,
      same,
    )
read_loop-take (x ∷ xs) rest (suc n) i line w ((pos, other, small), v) h =
    let (line', run, string, same) =
      read_loop-take xs rest n (i + 1) (put line i x) (write_char x w) v (omega arith) in
    (
      line',
      read_loop-store x (xs ++ return_r ∷ rest) i line w other small (omega arith) ∙ run,
      (same i (inl (omega arith)) ∙ rw (==_refl i), pos, string),
      (λ a k. same a (shift a i k) ∙ rw (==_ne a i (off a i k (omega arith)))),
    )

pub length-Args :
    (line : Cells) (argv : List ℕ) (ws : List (List ℕ))
    → Args line argv ws
    → length argv ≡ length ws
length-Args line [] [] h = refl
length-Args line [] (w ∷ ws) h = absurd h
length-Args line (a ∷ argv) [] h = absurd h
length-Args line (a ∷ argv) (w ∷ ws) h = ap suc (length-Args line argv ws h.1)

-- A line of seven-bit characters up to a return is read and echoed, however long it is, and the rest
-- of the characters stays; readLine changes no byte behind the first 49 of the 51 bytes of the
-- line. parseLine of the line ends: its words are those of the first 48 characters typed, and there
-- are at most 24 of them, fewer than argv has room for.
pub read_line-words :
    (xs rest : List ℕ) (line : Cells) (w : Window)
    → Chars xs
    → (line₁ : Cells) × (line₂ : Cells) × (argv : List ℕ) × (read_line
          (xs ++ return_r ∷ rest)
          line
          w
        ≡ some (line₁, write_str (xs ++ return_r ∷ []) w, rest))
      × (parse_line line₁ ≡ some (line₂, argv))
      × Args line₂ argv (words (take max_line xs))
      × (length argv ≤ 24)
      × ((a : ℕ) → max_line < a → line₁ a ≡ line a)
unfolding read_line parse_line
read_line-words xs rest line w v =
    let text : List ℕ = take max_line xs in
    let short : length text ≤ max_line = omega (arith, length-take max_line xs) in
    let (line₁, run, string, same) = read_loop-take xs rest max_line 0 line w v (omega arith) in
    let (line₂, argv, parsed, args, _, _) =
      parse_loop-Parsed (size_x + 1) line₁ 0 [] text string (omega arith) in
    (
      line₁,
      line₂,
      argv,
      run,
      parsed,
      args,
      omega (arith, length-Args line₂ argv (words text) args, (length-words text).0),
      (λ a h. same a (inr h)),
    )
