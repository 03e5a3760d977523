-- ===== src/Tests/Typed.antt =====
-- The keyboard driver and the shell of cos318-project6 at small inputs.
use operativsystemer.Base.{
  ℕ, ◌≤◌, ◌<◌, ◌≡◌, refl, Option, some, List, [], ◌∷◌, ◌++◌, length, take, arith, false,
}
use operativsystemer.Text.{Cells}
use operativsystemer.Text.Bytes.{same_list}
use operativsystemer.Keyboard.{Keyboard}
use operativsystemer.Mailbox.{Mbox}
use operativsystemer.Mailbox.Fifo.{emptied-IsMbox}
use operativsystemer.Typing.Order.{Event, interrupt, read, Holds, run, typed, run-typed}
use operativsystemer.Shell.{
  Window, call, usage, ls, min_x, max_line, prompt, return_r, read_line, parse_line, turn,
  write_str,
}
use operativsystemer.Shell.Cursor.{InWindow, IsInside, write_str-IsInside}
use operativsystemer.Shell.Line.{Chars, read_line-words}
use operativsystemer.Shell.Parse.{Args}
use operativsystemer.Shell.Commands.{action, all_commands, choose, name_of, takes}
use operativsystemer.Shell.Turn.{turn-action}
use operativsystemer.Shell.Words.{words}

abbrev idle : Keyboard
idle = record { shift_status = 0; key_release = false; multiread = false }

abbrev mailbox : Mbox
mailbox = record {
  used = 1;
  more_space = [];
  more_data = [];
  count = 0;
  head = 0;
  tail = 0;
  buffer = λ i. 7;
}

mailbox-Holds : Holds mailbox []
mailbox-Holds = (emptied-IsMbox mailbox 1, tt)

-- The shift key and Q are pressed, and a character is read twice.
abbrev events : List Event
events = interrupt 42 0 ∷ interrupt 16 0 ∷ read ∷ read ∷ []

run-typed_example :
    (out : List (Option ℕ)) × (run events idle mailbox ≡ some out)
    × (typed events idle [] ≡ some out)
run-typed_example = run-typed events idle mailbox [] (omega arith) mailbox-Holds

abbrev window : Window
window = record { screen = λ a. 0; cursor_x = min_x; cursor_y = 6 }

-- "ls x y" has too many words for the command.
abbrev line : List ℕ
line = b'l' ∷ b's' ∷ b' ' ∷ b'x' ∷ b' ' ∷ b'y' ∷ []

line-Chars : Chars line
line-Chars = omega arith

action_line : action (words line) ≡ usage
unfolding action all_commands words choose name_of takes same_list
action_line = refl

action_ls : action (words (take 2 line)) ≡ call ls
unfolding action all_commands words choose name_of takes same_list
action_ls = refl

turn-action_example :
    turn (line ++ return_r ∷ []) (λ a. 0) window
    ≡ some (
      action (words (take max_line line)),
      write_str (line ++ return_r ∷ []) (write_str prompt window),
      [],
    )
turn-action_example = turn-action line [] (λ a. 0) window line-Chars

read_line-words_example :
    (line₁ : Cells) × (line₂ : Cells) × (argv : List ℕ) × (read_line
        (line ++ return_r ∷ [])
        (λ a. 0)
        window
      ≡ some (line₁, write_str (line ++ return_r ∷ []) window, []))
    × (parse_line line₁ ≡ some (line₂, argv))
    × Args line₂ argv (words (take max_line line))
    × (length argv ≤ 24)
    × ((a : ℕ) → max_line < a → line₁ a ≡ 0)
read_line-words_example = read_line-words line [] (λ a. 0) window line-Chars

window-IsInside : IsInside window
window-IsInside = omega arith

write_str-IsInside_example :
    IsInside (write_str line window)
    × ((a : ℕ) → ¬ InWindow a → (write_str line window).screen a ≡ 0)
write_str-IsInside_example = write_str-IsInside line window window-IsInside
