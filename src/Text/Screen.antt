-- ===== src/Text/Screen.antt =====
-- The text screen of cos318-project6/util.c: scroll and print_str.
use operativsystemer.Base.{
  ℕ, zero, suc, ◌+◌, ◌-◌, ◌*◌, ◌%◌, ◌^◌, ◌≤◌, ◌<◌, ◌≡◌, ◌≢◌, refl, ◌∙◌, ap, ◌||◌, some, List,
  length, ltb, if◌then◌else◌, arith, ==_ne, ==_refl, Bool-cases, inl, inr,
}
use operativsystemer.Text.{
  Cells, blank, scroll, scroll_line, scroll_lines, print_char, print_loop, print_str,
}
use operativsystemer.Text.Bytes.{IsString, strlen-length}

-- What `scroll` puts into column `x` of line `y`.
abbrev pub scrolled : ℕ → Cells → ℕ → ℕ → ℕ
scrolled maxy screen y x = if ltb (y + 1) maxy then screen ((y + 1) * 80 + x) else blank

scroll_line-other :
    (maxy j left i : ℕ) (screen : Cells) (a : ℕ)
    → ((x : ℕ) → i ≤ x → x < i + left → a ≢ j * 80 + x)
    → scroll_line maxy j left i screen a ≡ screen a
unfolding scroll_line
scroll_line-other maxy j zero i screen a out = refl
scroll_line-other maxy j (suc left) i screen a out =
    scroll_line-other maxy j left (i + 1) _ a (λ x b c. out x (omega arith) (omega arith))
    ∙ rw (==_ne a (j * 80 + i) (out i (omega arith) (omega arith))) refl

scroll_line-scrolled :
    (maxy j left i : ℕ) (screen : Cells) (x : ℕ)
    → i + left ≤ 80
    → i ≤ x
    → x < i + left
    → scroll_line maxy j left i screen (j * 80 + x) ≡ scrolled maxy screen j x
unfolding scroll_line
scroll_line-scrolled maxy j zero i screen x w a b = absurd (omega arith)
scroll_line-scrolled maxy j (suc left) i screen x w a b = elim (Bool-cases (ltb i x)) [
  | inl right ↦
      let ne : (j + 1) * 80 + x ≢ j * 80 + i = λ e. omega arith in
      scroll_line-scrolled maxy j left (i + 1) _ x (omega arith) (ground arith) (omega arith)
      ∙ rw (==_ne ((j + 1) * 80 + x) (j * 80 + i) ne) refl
  | inr here ↦
      let e : x ≡ i = ground arith in
      let at : (j + 1) * 80 + i ≡ j * 80 + i + 80 = omega arith in
      rw e (
        scroll_line-other maxy j left (i + 1) _ (j * 80 + i) (λ r b c. omega arith)
        ∙ rw (==_refl (j * 80 + i)) (rw at refl))
]

scroll_lines-above :
    (minx width maxy left j : ℕ) (screen : Cells) (y x : ℕ)
    → minx + width ≤ 80
    → x < 80
    → y < j
    → scroll_lines minx width maxy left j screen (y * 80 + x) ≡ screen (y * 80 + x)
unfolding scroll_lines
scroll_lines-above minx width maxy zero j screen y x w in_x h = refl
scroll_lines-above minx width maxy (suc left) j screen y x w in_x h =
    scroll_lines-above minx width maxy left (j + 1) _ y x w in_x (omega arith)
    ∙ scroll_line-other maxy j width minx screen (y * 80 + x) (λ r b c. omega arith)

scroll_lines-scrolled :
    (minx width maxy left j : ℕ) (screen : Cells) (y x : ℕ)
    → minx + width ≤ 80
    → minx ≤ x
    → x < minx + width
    → j ≤ y
    → y < j + left
    → scroll_lines minx width maxy left j screen (y * 80 + x) ≡ scrolled maxy screen y x
unfolding scroll_lines
scroll_lines-scrolled minx width maxy zero j screen y x w a b c d = absurd (omega arith)
scroll_lines-scrolled minx width maxy (suc left) j screen y x w a b c d =
    elim (Bool-cases (ltb j y)) [
      | inl below ↦
          scroll_lines-scrolled minx width maxy left (j + 1) _ y x w a b (ground arith)
            (omega arith)
          ∙ ap (λ v. if ltb (y + 1) maxy then v else blank)
              (scroll_line-other maxy j width minx screen ((y + 1) * 80 + x)
                (λ r e f. ground arith))
      | inr here ↦
          let e : y ≡ j = ground arith in
          rw e (
            scroll_lines-above minx width maxy left (j + 1) _ j x w (omega arith) (omega arith)
            ∙ scroll_line-scrolled maxy j width minx screen x w a b)
    ]

-- scroll changes no cell outside of its window.
pub scroll_lines-other :
    (minx width maxy left j : ℕ) (screen : Cells) (a : ℕ)
    → ((y x : ℕ) → j ≤ y → y < j + left → minx ≤ x → x < minx + width → a ≢ y * 80 + x)
    → scroll_lines minx width maxy left j screen a ≡ screen a
unfolding scroll_lines
scroll_lines-other minx width maxy zero j screen a out = refl
scroll_lines-other minx width maxy (suc left) j screen a out =
    scroll_lines-other minx width maxy left (j + 1) _ a
      (λ y x b h. out y x (omega arith) (omega arith))
    ∙ scroll_line-other maxy j width minx screen a
        (λ x b h. out j x (omega arith) (omega arith) b h)

-- scroll of a window of at most 80 columns moves each of its lines one line up, as the line was
-- before the call, and blanks the last one.
scroll-scrolled :
    (minx miny maxx maxy : ℕ) (screen : Cells) (y x : ℕ)
    → maxx ≤ 80
    → minx ≤ x
    → x < maxx
    → miny ≤ y
    → y < maxy
    → scroll minx miny maxx maxy screen (y * 80 + x) ≡ scrolled maxy screen y x
scroll-scrolled minx miny maxx maxy screen y x w a b c d =
    scroll_lines-scrolled minx (maxx - minx) maxy (maxy - miny) miny screen y x (omega arith) a
      (omega arith) c (omega arith)

print_char-other :
    (line col c : ℕ) (screen : Cells) (a : ℕ)
    → ((x : ℕ) → line ≤ 24 → x ≤ 79 → a ≢ line * 80 + x)
    → print_char line col c screen a ≡ screen a
unfolding print_char
print_char-other line col c screen a out = elim (Bool-cases (ltb 24 line || ltb 79 col)) [
  | inl clipped ↦ rw clipped refl
  | inr inside ↦
      rw inside (rw (==_ne a (line * 80 + col) (out col (ground arith) (ground arith))) refl)
]

pub print_char-other_cell :
    (line col c : ℕ) (screen : Cells) (a : ℕ)
    → a ≢ line * 80 + col
    → print_char line col c screen a ≡ screen a
unfolding print_char
print_char-other_cell line col c screen a ne = elim (Bool-cases (ltb 24 line || ltb 79 col)) [
  | inl clipped ↦ rw clipped
  | inr inside ↦ rw (inside, ==_ne a (line * 80 + col) ne)
]

print_loop-other :
    (m : Cells) (str line col left i : ℕ) (screen : Cells) (a : ℕ)
    → ((x : ℕ) → line ≤ 24 → x ≤ 79 → a ≢ line * 80 + x)
    → print_loop m str line col left i screen a ≡ screen a
unfolding print_loop
print_loop-other m str line col zero i screen a out = refl
print_loop-other m str line col (suc left) i screen a out =
    print_loop-other m str line col left (i + 1) _ a out
    ∙ print_char-other line ((col + i) % 2 ^ 32) (m (str + i)) screen a out

-- print_str of a string, with more fuel than characters, ends, and changes no cell but those of its
-- line, whatever the line, the column and the length of the string.
print_str-clipped :
    (fuel : ℕ) (m : Cells) (line col str : ℕ) (screen : Cells) (xs : List ℕ)
    → IsString m str xs
    → length xs < fuel
    → (after : Cells) × (print_str fuel m line col str screen ≡ some after)
      × ((a : ℕ) → ((x : ℕ) → line ≤ 24 → x ≤ 79 → a ≢ line * 80 + x) → after a ≡ screen a)
unfolding print_str
print_str-clipped fuel m line col str screen xs whole h = (
  print_loop m str line col (length xs) 0 screen,
  rw (strlen-length m fuel str xs whole h) refl,
  print_loop-other m str line col (length xs) 0 screen,
)
