-- ===== src/Shell/Cursor.antt =====
-- What the shell of cos318-project6 writes stays in its window of the screen.
use operativsystemer.Base.{
  ℕ, ◌+◌, ◌-◌, ◌*◌, ◌%◌, ◌≤◌, ◌<◌, ◌≡◌, refl, ap, ◌∙◌, true, false, ◌&&◌, ◌||◌, List, [], ◌∷◌, ◌==◌,
  ltb, leb, arith, Bool-cases, inl, inr,
}
use operativsystemer.Text.{Cells, scroll}
use operativsystemer.Text.Screen.{scroll_lines-other, print_char-other_cell}
use operativsystemer.Shell.{
  Window, min_x, min_y, max_x, max_y, size_x, print_inside, moved, return_r, return_n, write_char,
  write_str,
}

-- The cursor stands in the window.
pub record IsInside (w : Window) : Type 0 where
  pub right : min_x ≤ w.cursor_x
  pub left : w.cursor_x < max_x
  pub above : w.cursor_y < max_y

-- A cell of the window.
abbrev pub InWindow : ℕ → Type 0
InWindow a = (y : ℕ) × (x : ℕ) × (a ≡ y * 80 + x) × (min_x ≤ x) × (x < max_x) × (y < max_y)

print_inside-other :
    (y x c : ℕ) (screen : Cells) (a : ℕ) → ¬ InWindow a → print_inside y x c screen a ≡ screen a
print_inside-other y x c screen a out =
    elim (Bool-cases (leb min_x x && (ltb x max_x && (leb min_y y && ltb y max_y)))) [
      | inr outside ↦ rw outside
      | inl inside ↦ rw inside (
          print_char-other_cell y x (c % 256) screen a
            (λ e. out (y, x, e, ground arith, ground arith, ground arith)))
    ]

moved-other : (c : ℕ) (w : Window) (a : ℕ) → ¬ InWindow a → (moved c w).screen a ≡ w.screen a
moved-other c w a out = elim (Bool-cases ((c == return_r) || (c == return_n))) [
  | inl line ↦ rw line
  | inr char ↦ rw char (print_inside-other w.cursor_y w.cursor_x c w.screen a out)
]

write_char-IsInside : (c : ℕ) (w : Window) → IsInside w → IsInside (write_char c w)
unfolding write_char
write_char-IsInside c w v = ground arith

write_char-other :
    (c : ℕ) (w : Window) (a : ℕ) → ¬ InWindow a → (write_char c w).screen a ≡ w.screen a
unfolding write_char
write_char-other c w a out = elim (Bool-cases (leb max_y (moved c w).cursor_y)) [
  | inr stays ↦ ap (λ (r : Window). r.screen a) (scrolls_not stays) ∙ moved-other c w a out
  | inl scrolls ↦
      ap (λ (r : Window). r.screen a) (scrolls_up scrolls)
      ∙ scroll_lines-other min_x size_x max_y max_y min_y (moved c w).screen a
          (λ y x b h l r e. out (y, x, e, l, r, h))
      ∙ moved-other c w a out
]
  where
    scrolls_not : leb max_y (moved c w).cursor_y ≡ false → write_char c w ≡ moved c w
    scrolls_not h = rw h

    scrolls_up :
        leb max_y (moved c w).cursor_y ≡ true
        → write_char c w ≡ record (moved c w) {
          screen = scroll min_x min_y max_x max_y (moved c w).screen;
          cursor_y = (moved c w).cursor_y - 1;
        }
    scrolls_up h = rw h

-- From a cursor inside of the window, `writeStr` of any characters leaves it inside, and changes no
-- cell of the screen outside of the window.
pub write_str-IsInside :
    (s : List ℕ) (w : Window)
    → IsInside w
    → IsInside (write_str s w) × ((a : ℕ) → ¬ InWindow a → (write_str s w).screen a ≡ w.screen a)
unfolding write_str
write_str-IsInside [] w v = (v, λ a out. refl)
write_str-IsInside (c ∷ s) w v =
    let (inside, same) = write_str-IsInside s (write_char c w) (write_char-IsInside c w v) in
    (inside, λ a out. same a out ∙ write_char-other c w a out)
