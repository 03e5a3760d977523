-- ===== src/Shell/Turn.antt =====
-- A turn of the shell of cos318-project6/shell.c: from the characters that the user types to the
-- command.
use operativsystemer.Base.{
  ℕ, ◌+◌, ◌≡◌, refl, ap, ◌∙◌, some, List, [], ◌∷◌, ◌++◌, ◌==◌, length, take, Bool-cases, inl, inr,
  ==_ne,
}
use operativsystemer.Text.{Cells}
use operativsystemer.Text.Bytes.{IsString, same_list}
use operativsystemer.Shell.{
  Command, prompt, Entry, Window, commands, dispatch, exec, max_line, return_r, same_literal, turn,
  write_str,
}
use operativsystemer.Shell.Line.{Chars, read_line-words, length-Args}
use operativsystemer.Shell.Parse.{Args}
use operativsystemer.Shell.Commands.{action, choose, all_commands, AreEntries, commands-AreEntries}
use operativsystemer.Shell.Words.{words}

same_literal-same_list :
    (xs : List ℕ) (line : Cells) (s : ℕ) (w : List ℕ)
    → IsString line s w
    → same_literal xs line s ≡ same_list xs w
unfolding same_literal same_list IsString
same_literal-same_list [] line s [] v = rw v
same_literal-same_list [] line s (y ∷ ys) v = rw (v.0, ==_ne y 0 v.1)
same_literal-same_list (x ∷ xs) line s [] v = rw v
same_literal-same_list (x ∷ xs) line s (y ∷ ys) (at, pos, later) =
    rw (at, ==_ne y 0 pos)
      (elim (Bool-cases (x == y)) [
        | inl same ↦ rw same (same_literal-same_list xs line (s + 1) ys later)
        | inr other ↦ rw other
      ])

exec-choose :
    (es : List Entry) (cs : List Command) (line : Cells) (s argc : ℕ) (w : List ℕ)
    → AreEntries es cs
    → IsString line s w
    → exec es line s argc ≡ choose cs w argc
unfolding exec choose AreEntries
exec-choose [] [] line s argc w same v = refl
exec-choose [] (c ∷ cs) line s argc w same v = absurd same
exec-choose (e ∷ es) [] line s argc w same v = absurd same
exec-choose (e ∷ es) (c ∷ cs) line s argc w (name, code, most, same) v = rw (
  same_literal-same_list e.name line s w v,
  exec-choose es cs line s argc w same v,
  name,
  code,
  most argc,
)

dispatch-action :
    (line : Cells) (argv : List ℕ) (ws : List (List ℕ))
    → Args line argv ws
    → dispatch line argv ≡ action ws
unfolding dispatch action
dispatch-action line [] [] h = refl
dispatch-action line [] (w ∷ ws) h = absurd h
dispatch-action line (a ∷ argv) [] h = absurd h
dispatch-action line (a ∷ argv) (w ∷ ws) h =
    exec-choose commands all_commands line a (length (a ∷ argv)) w commands-AreEntries h.0
    ∙ ap (choose all_commands w) (length-Args line (a ∷ argv) (w ∷ ws) h)

-- Whatever the line and the window held before, a turn with a line of seven-bit characters up to a
-- return writes "# ", ends, and takes the command from the words of the first 48 of the characters: the
-- command whose name is the first word is called where it takes that number of words, and has
-- its usage written otherwise; without such a command it is not found, and without a word nothing is
-- done.
pub turn-action :
    (xs rest : List ℕ) (line : Cells) (w : Window)
    → Chars xs
    → turn (xs ++ return_r ∷ rest) line w
      ≡ some (
        action (words (take max_line xs)),
        write_str (xs ++ return_r ∷ []) (write_str prompt w),
        rest,
      )
unfolding turn
turn-action xs rest line w v =
    let (line₁, line₂, argv, run, parsed, args, few, same) =
      read_line-words xs rest line (write_str prompt w) v in
    rw (run, parsed, dispatch-action line₂ argv (words (take max_line xs)) args)
