-- ===== src/Typing.antt =====
-- The keyboard driver of cos318-project6/keyboard.c behind its handlers, which are those of
-- cos318-project4/keyboard.c: putchar puts a character into the mailbox of the driver, and getchar
-- takes one from it. The mailbox is used between `enter_critical` and `leave_critical`.
use operativsystemer.Base.{
  ℕ, ◌+◌, ◌-◌, ◌^◌, Option, none, some, ◌>>=◌, List, [], ◌∷◌, ◌==◌, leb, if◌then◌else◌, get_or,
}
use operativsystemer.Keyboard.{Character, Keyboard}
use operativsystemer.Keyboard
use operativsystemer.Mailbox.{
  Mbox, Message, header_size, mbox_open, mbox_recv, mbox_send, mbox_stat,
}
pub mod Order

-- The key of the mailbox of the driver.
abbrev pub queue : ℕ
queue = 0

abbrev pub char_msg_size : ℕ
char_msg_size = header_size + 1

-- `keyboard_init` on the table of mailboxes: `none` where ASSERT fails.
unfoldable pub keyboard_init : (ℕ → Mbox) → Option (ℕ × (ℕ → Mbox))
keyboard_init boxes =
    let (opened, boxes') = mbox_open queue boxes in opened >>= λ mbox. some (mbox, boxes')

-- A `char` read into an `int`, by its bit pattern.
abbrev pub int_of_char : ℕ → ℕ
int_of_char b = if leb 128 b then b + 2 ^ 32 - 256 else b

abbrev pub char_message : ℕ → Message
char_message c = record { size = 1; body = c ∷ [] }

-- The message that `getchar` got: `none` where ASSERT fails.
unfoldable pub read_message : Option (Message × List ℕ × Mbox) → Option (Option (ℕ × Mbox))
read_message none = some none
read_message (some (m, woken, q)) =
    if m.size == 1 then some (some (int_of_char (get_or m.body 0 0), q)) else none

-- `getchar`: `some none` where the caller waits for a character.
unfoldable pub getchar : Mbox → Option (Option (ℕ × Mbox))
unfolding read_message
getchar q = read_message (mbox_recv q)

-- `putchar`: `none` where the caller would wait in mbox_send.
unfoldable pub putchar : Character → Mbox → Option Mbox
putchar c q =
    let (count, space) = mbox_stat q in
    if leb char_msg_size space
    then (mbox_send (char_message c.character) q >>= λ r. some r.1)
    else some q

-- The character of a handler, if there is one, is put.
unfoldable pub put_character : Option Character × Keyboard → Mbox → Option (Keyboard × Mbox)
put_character (none, k) q = some (k, q)
put_character (some c, k) q = putchar c q >>= λ q'. some (k, q')

-- The interrupt of the keyboard: `none` where the table of keys is read out of bounds, or the
-- handler would wait.
unfoldable pub keyboard_interrupt : ℕ → ℕ → Keyboard → Mbox → Option (Keyboard × Mbox)
keyboard_interrupt scan second k q =
    Keyboard.keyboard_interrupt scan second k >>= λ r. put_character r q
