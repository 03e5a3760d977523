-- ===== src/Shell.antt =====
-- The shell of cos318-project6/shell.c and its screen, shellutil.c: a window of the text screen, the
-- line that the user types, its words, and the command that they name. The characters that
-- getchar gives are a list.
pub mod Cursor
pub mod Words
pub mod Parse
pub mod Line
pub mod Commands
pub mod Turn
use operativsystemer.Base.{
  ℕ, zero, suc, ◌+◌, ◌-◌, ◌%◌, Bool, true, false, ◌&&◌, ◌||◌, not, Option, none, some, ◌>>=◌, List,
  [], ◌∷◌, ◌++◌, ◌==◌, ltb, leb, if◌then◌else◌, length,
}
use operativsystemer.Text.{Cells, put, print_char, scroll, clear_screen}

abbrev pub min_x : ℕ
min_x = 30

abbrev pub size_x : ℕ
size_x = 50

abbrev pub max_x : ℕ
max_x = min_x + size_x

abbrev pub min_y : ℕ
min_y = 0

abbrev pub size_y : ℕ
size_y = 7

abbrev pub max_y : ℕ
max_y = min_y + size_y

abbrev pub max_line : ℕ
max_line = size_x - 2

abbrev pub return_r : ℕ
return_r = 13

abbrev pub return_n : ℕ
return_n = 10

-- The screen, with the cursor of the shell.
pub record Window : Type 0 where
  pub screen : Cells
  pub cursor_x : ℕ
  pub cursor_y : ℕ

-- The macro `PRINT_CHAR`.
abbrev pub print_inside : ℕ → ℕ → ℕ → Cells → Cells
print_inside y x c screen =
    if leb min_x x && (ltb x max_x && (leb min_y y && ltb y max_y))
    then print_char y x (c % 256) screen
    else screen

-- `writeChar` up to the test of the cursor.
abbrev pub moved : ℕ → Window → Window
moved c w =
    if (c == return_r) || (c == return_n)
    then record w { cursor_x = min_x; cursor_y = w.cursor_y + 1 }
    else record w {
      screen = print_inside w.cursor_y w.cursor_x c w.screen;
      cursor_x = if ltb w.cursor_x (max_x - 1) then w.cursor_x + 1 else w.cursor_x;
    }

unfoldable pub write_char : ℕ → Window → Window
write_char c w =
    if leb max_y (moved c w).cursor_y
    then record (moved c w) {
      screen = scroll min_x min_y max_x max_y (moved c w).screen;
      cursor_y = (moved c w).cursor_y - 1;
    }
    else moved c w

-- `writeStr` of the characters of a string.
unfoldable pub write_str : List ℕ → Window → Window
write_str [] w = w
write_str (c ∷ s) w = write_str s (write_char c w)

pub clear_shell_screen : Window → Window
clear_shell_screen w = record {
  screen = clear_screen min_x min_y max_x max_y w.screen;
  cursor_x = min_x;
  cursor_y = min_y;
}

-- The loop of `readLine`, with `i` characters of the line read: `none` where the characters end. The
-- rest of the characters is left.
unfoldable pub read_loop : List ℕ → ℕ → Cells → Window → Option (Cells × Window × List ℕ)
read_loop [] i line w = none
read_loop (c ∷ cs) i line w =
    let stored : Bool = ltb i max_line && not (c == return_r) in
    let line' : Cells = if stored then put line i (c % 256) else line in
    let i' : ℕ = if stored then i + 1 else i in
    let rest = read_loop cs i' line' (write_char c w) in
    if c == return_r then some (put line' i' 0, write_char c w, cs) else rest

unfoldable pub read_line : List ℕ → Cells → Window → Option (Cells × Window × List ℕ)
read_line cs line w = read_loop cs 0 line w

-- The loops of `parseLine` over spaces and over a word, on fuel.
unfoldable pub skip_spaces : ℕ → Cells → ℕ → Option (Cells × ℕ)
skip_spaces zero line s = none
skip_spaces (suc fuel) line s =
    let rest = skip_spaces fuel (put line s 0) (s + 1) in
    if line s == b' ' then rest else some (line, s)

unfoldable pub skip_word : ℕ → Cells → ℕ → Option ℕ
skip_word zero line s = none
skip_word (suc fuel) line s =
    let rest = skip_word fuel line (s + 1) in
    if not (line s == b' ') && not (line s == 0) then rest else some s

-- The outer loop, with the words found so far by their first characters: `argv`, of `argc` items.
unfoldable pub parse_loop : ℕ → Cells → ℕ → List ℕ → Option (Cells × List ℕ)
parse_loop zero line s argv = none
parse_loop (suc fuel) line s argv = skip_spaces (suc fuel) line s >>= λ (line', s').
    (let next = skip_word (suc fuel) line' s' >>= λ t. parse_loop fuel line' t (argv ++ s' ∷ []) in
      if line' s' == 0 then some (line', argv) else next)

-- A line has 51 bytes.
unfoldable pub parse_line : Cells → Option (Cells × List ℕ)
parse_line line = parse_loop (size_x + 1) line 0 []

-- The commands: the functions that the loop of the shell calls.
pub data Command : Type 0 where
  exit : Command
  fire : Command
  clear : Command
  mkfs : Command
  open_file : Command
  read_file : Command
  write_file : Command
  lseek : Command
  mkdir : Command
  rmdir : Command
  cd : Command
  close_file : Command
  link : Command
  unlink : Command
  stat : Command
  ls : Command
  create : Command
  cat : Command
  list_processes : Command
  load_process : Command

-- A use of the macro `EXEC_COMMAND`: the name of a command, the least and the greatest number of words
-- with it, and its function.
pub record Entry : Type 0 where
  pub name : List ℕ
  pub least : ℕ
  pub most : ℕ
  pub code : Command

abbrev command : List ℕ → ℕ → ℕ → Command → Entry
command n l m c = record { name = n; least = l; most = m; code = c }

unfoldable pub commands : List Entry
commands =
    command (b'e' ∷ b'x' ∷ b'i' ∷ b't' ∷ []) 1 1 exit
    ∷ command (b'f' ∷ b'i' ∷ b'r' ∷ b'e' ∷ []) 1 1 fire
    ∷ command (b'c' ∷ b'l' ∷ b'e' ∷ b'a' ∷ b'r' ∷ []) 1 1 clear
    ∷ command (b'm' ∷ b'k' ∷ b'f' ∷ b's' ∷ []) 1 1 mkfs
    ∷ command (b'o' ∷ b'p' ∷ b'e' ∷ b'n' ∷ []) 3 3 open_file
    ∷ command (b'r' ∷ b'e' ∷ b'a' ∷ b'd' ∷ []) 3 3 read_file
    ∷ command (b'w' ∷ b'r' ∷ b'i' ∷ b't' ∷ b'e' ∷ []) 3 3 write_file
    ∷ command (b'l' ∷ b's' ∷ b'e' ∷ b'e' ∷ b'k' ∷ []) 3 3 lseek
    ∷ command (b'm' ∷ b'k' ∷ b'd' ∷ b'i' ∷ b'r' ∷ []) 2 2 mkdir
    ∷ command (b'r' ∷ b'm' ∷ b'd' ∷ b'i' ∷ b'r' ∷ []) 2 2 rmdir
    ∷ command (b'c' ∷ b'd' ∷ []) 2 2 cd
    ∷ command (b'c' ∷ b'l' ∷ b'o' ∷ b's' ∷ b'e' ∷ []) 2 2 close_file
    ∷ command (b'l' ∷ b'i' ∷ b'n' ∷ b'k' ∷ []) 3 3 link
    ∷ command (b'u' ∷ b'n' ∷ b'l' ∷ b'i' ∷ b'n' ∷ b'k' ∷ []) 2 2 unlink
    ∷ command (b's' ∷ b't' ∷ b'a' ∷ b't' ∷ []) 2 2 stat
    ∷ command (b'l' ∷ b's' ∷ []) 1 2 ls
    ∷ command (b'c' ∷ b'r' ∷ b'e' ∷ b'a' ∷ b't' ∷ b'e' ∷ []) 3 3 create
    ∷ command (b'c' ∷ b'a' ∷ b't' ∷ []) 2 2 cat
    ∷ command (b'l' ∷ b'i' ∷ b's' ∷ b't' ∷ []) 1 1 list_processes
    ∷ command (b'l' ∷ b'o' ∷ b'a' ∷ b'd' ∷ []) 2 2 load_process
    ∷ []

-- What a turn of the loop does: it calls a command, writes its usage, writes that there is no such
-- command, or does nothing.
pub data Action : Type 0 where
  call : Command → Action
  usage : Action
  not_found : Action
  nothing : Action

-- `same_string` of a literal and the string at `s`.
unfoldable pub same_literal : List ℕ → Cells → ℕ → Bool
same_literal [] line s = line s == 0
same_literal (x ∷ xs) line s =
    if line s == 0 then false else if x == line s then same_literal xs line (s + 1) else false

-- The uses of `EXEC_COMMAND` in their order, for the word at `s` and `argc` words.
unfoldable pub exec : List Entry → Cells → ℕ → ℕ → Action
exec [] line s argc = not_found
exec (c ∷ cs) line s argc =
    let rest = exec cs line s argc in
    if same_literal c.name line s
    then if leb c.least argc && leb argc c.most then call c.code else usage
    else rest

unfoldable pub dispatch : Cells → List ℕ → Action
dispatch line [] = nothing
dispatch line (s ∷ argv) = exec commands line s (length (s ∷ argv))

-- "# ".
abbrev pub prompt : List ℕ
prompt = b'#' ∷ b' ' ∷ []

-- A turn of the loop of the shell, up to the command.
unfoldable pub turn : List ℕ → Cells → Window → Option (Action × Window × List ℕ)
turn input line w = read_line input line (write_str prompt w) >>= λ (line', w', rest).
    (parse_line line' >>= λ (line'', argv). some (dispatch line'' argv, w', rest))
