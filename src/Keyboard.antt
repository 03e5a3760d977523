-- ===== src/Keyboard.antt =====
-- The keyboard driver of cos318-project4/keyboard.c: from scan codes to characters. The port is read
-- by the caller; a character goes to the caller, since `putchar` has no body in the source.
pub mod Shift
use operativsystemer.Base.{
  ℕ, zero, suc, ◌+◌, ◌-◌, ◌/◌, ◌%◌, Bool, true, false, Option, none, some, List, [], ◌∷◌, ◌==◌, ltb,
  leb, if◌then◌else◌,
}

-- The handlers of the keys.
pub data Handler : Type 0 where
  normal_handler : Handler
  escape_handler : Handler
  right_shift_handler : Handler
  left_shift_handler : Handler
  control_handler : Handler
  alt_handler : Handler
  caps_lock_handler : Handler
  num_lock_handler : Handler
  scroll_lock_handler : Handler

-- `struct ascii`.
pub record Ascii : Type 0 where
  pub no_shift : ℕ
  pub shift : ℕ
  pub control : ℕ
  pub handler : Handler

-- `struct character`.
pub record Character : Type 0 where
  pub character : ℕ
  pub attribute : ℕ
  pub scancode : ℕ

-- The static variables.
pub record Keyboard : Type 0 where
  pub shift_status : ℕ
  pub key_release : Bool
  pub multiread : Bool

abbrev pub right_shift : ℕ
right_shift = 1

abbrev pub left_shift : ℕ
left_shift = 2

abbrev pub caps_shift : ℕ
caps_shift = 4

abbrev pub control_key : ℕ
control_key = 8

abbrev pub alt_key : ℕ
alt_key = 16

abbrev entry : ℕ → ℕ → ℕ → Handler → Ascii
entry n s c h = record { no_shift = n; shift = s; control = c; handler = h }

unfoldable pub scan_to_ascii : List Ascii
scan_to_ascii =
    entry 0 0 0 normal_handler
    ∷ entry 27 27 27 escape_handler
    ∷ entry 49 33 0 normal_handler
    ∷ entry 50 64 0 normal_handler
    ∷ entry 51 35 0 normal_handler
    ∷ entry 52 36 0 normal_handler
    ∷ entry 53 37 0 normal_handler
    ∷ entry 54 94 30 normal_handler
    ∷ entry 55 38 0 normal_handler
    ∷ entry 56 42 0 normal_handler
    ∷ entry 57 40 0 normal_handler
    ∷ entry 48 41 0 normal_handler
    ∷ entry 45 95 31 normal_handler
    ∷ entry 61 43 0 normal_handler
    ∷ entry 8 8 127 normal_handler
    ∷ entry 9 0 0 normal_handler
    ∷ entry 113 81 17 normal_handler
    ∷ entry 119 87 23 normal_handler
    ∷ entry 101 69 5 normal_handler
    ∷ entry 114 82 18 normal_handler
    ∷ entry 116 84 20 normal_handler
    ∷ entry 121 89 25 normal_handler
    ∷ entry 117 85 21 normal_handler
    ∷ entry 105 73 9 normal_handler
    ∷ entry 111 79 15 normal_handler
    ∷ entry 112 80 16 normal_handler
    ∷ entry 91 123 27 normal_handler
    ∷ entry 93 125 29 normal_handler
    ∷ entry 13 13 10 normal_handler
    ∷ entry 0 0 0 control_handler
    ∷ entry 97 65 1 normal_handler
    ∷ entry 115 83 19 normal_handler
    ∷ entry 100 68 4 normal_handler
    ∷ entry 102 70 6 normal_handler
    ∷ entry 103 71 7 normal_handler
    ∷ entry 104 72 8 normal_handler
    ∷ entry 106 74 10 normal_handler
    ∷ entry 107 75 11 normal_handler
    ∷ entry 108 76 12 normal_handler
    ∷ entry 59 58 0 normal_handler
    ∷ entry 39 34 0 normal_handler
    ∷ entry 96 126 0 normal_handler
    ∷ entry 0 0 0 left_shift_handler
    ∷ entry 92 124 0 normal_handler
    ∷ entry 122 90 26 normal_handler
    ∷ entry 120 88 24 normal_handler
    ∷ entry 99 67 3 normal_handler
    ∷ entry 118 86 22 normal_handler
    ∷ entry 98 66 2 normal_handler
    ∷ entry 110 78 14 normal_handler
    ∷ entry 109 77 13 normal_handler
    ∷ entry 44 60 0 normal_handler
    ∷ entry 46 46 0 normal_handler
    ∷ entry 47 63 0 normal_handler
    ∷ entry 0 0 0 right_shift_handler
    ∷ entry 42 42 0 normal_handler
    ∷ entry 0 0 0 alt_handler
    ∷ entry 32 32 2 normal_handler
    ∷ entry 0 0 0 caps_lock_handler
    ∷ entry 0 0 0 normal_handler
    ∷ entry 0 0 0 normal_handler
    ∷ entry 0 0 0 normal_handler
    ∷ entry 0 0 0 normal_handler
    ∷ entry 0 0 0 normal_handler
    ∷ entry 0 0 0 normal_handler
    ∷ entry 0 0 0 normal_handler
    ∷ entry 0 0 0 normal_handler
    ∷ entry 0 0 0 normal_handler
    ∷ entry 0 0 0 normal_handler
    ∷ entry 0 0 0 num_lock_handler
    ∷ entry 0 0 0 scroll_lock_handler
    ∷ entry 0 55 0 normal_handler
    ∷ entry 0 56 0 normal_handler
    ∷ entry 0 57 0 normal_handler
    ∷ entry 45 45 0 normal_handler
    ∷ entry 0 52 0 normal_handler
    ∷ entry 0 53 0 normal_handler
    ∷ entry 0 54 0 normal_handler
    ∷ entry 43 43 0 normal_handler
    ∷ entry 0 49 0 normal_handler
    ∷ entry 0 50 0 normal_handler
    ∷ entry 0 51 0 normal_handler
    ∷ entry 0 48 0 normal_handler
    ∷ entry 0 46 0 normal_handler
    ∷ []

unfoldable pub get_key : List Ascii → ℕ → Option Ascii
get_key [] i = none
get_key (a ∷ table) zero = some a
get_key (a ∷ table) (suc i) = get_key table i

-- `shift_status & bit`, `shift_status |= bit` and `shift_status &= ~bit`, for one bit.
abbrev pub has_bit : ℕ → ℕ → Bool
has_bit status bit = status / bit % 2 == 1

abbrev pub set_bit : ℕ → ℕ → ℕ
set_bit status bit = if has_bit status bit then status else status + bit

abbrev pub clear_bit : ℕ → ℕ → ℕ
clear_bit status bit = if has_bit status bit then status - bit else status

-- The character for a key, by the `switch` on the shift status.
unfoldable pub convert : Ascii → ℕ → ℕ
convert a status =
    if status == left_shift
    then a.shift
    else if status == right_shift
    then a.shift
    else if status == caps_shift
    then a.shift
    else if status == control_key
    then a.control
    else if status == 0
    then a.no_shift
    else 0

-- The handlers of the keys that set a bit while they are held.
abbrev pub hold_handler : ℕ → Keyboard → Keyboard
hold_handler bit k = record k {
  shift_status = if k.key_release then clear_bit k.shift_status bit else set_bit k.shift_status bit;
}

unfoldable pub toggle_caps : Keyboard → Keyboard
toggle_caps k =
    if k.key_release
    then k
    else if has_bit k.shift_status caps_shift
    then record k { shift_status = clear_bit k.shift_status caps_shift }
    else record k { shift_status = set_bit k.shift_status caps_shift }

-- A handler, with the entry and the scan code of its key: the character that it puts, if any.
unfoldable pub handle : Handler → Ascii → ℕ → Keyboard → Option Character × Keyboard
handle normal_handler a scan k = (
  if k.key_release
      then none
      else some (record {
        character = convert a k.shift_status;
        attribute = k.shift_status;
        scancode = scan;
      }),
  k,
)
handle escape_handler a scan k = (none, k)
handle right_shift_handler a scan k = (none, hold_handler right_shift k)
handle left_shift_handler a scan k = (none, hold_handler left_shift k)
handle control_handler a scan k = (none, hold_handler control_key k)
handle alt_handler a scan k = (none, hold_handler alt_key k)
handle caps_lock_handler a scan k = (none, toggle_caps k)
handle num_lock_handler a scan k = (none, k)
handle scroll_lock_handler a scan k = (none, k)

-- The call of the handler of `key`: `none` where the table is read out of its bounds.
unfoldable pub call_handler : ℕ → Keyboard → Option (Option Character × Keyboard)
call_handler key k = if ltb key 84 then call (get_key scan_to_ascii key) else some (none, k)
  where
    call : Option Ascii → Option (Option Character × Keyboard)
    call none = none
    call (some a) = some (handle a.handler a key k)

-- `scan` is the byte that the port gives, `second` the one that it gives next.
unfoldable pub keyboard_interrupt : ℕ → ℕ → Keyboard → Option (Option Character × Keyboard)
keyboard_interrupt scan second k =
    if scan % 128 == 224
    then call_handler second (record released { multiread = true })
    else call_handler (scan % 128) released
  where
    released : Keyboard
    released = record k { key_release = leb 128 scan }
