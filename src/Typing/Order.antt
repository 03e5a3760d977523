-- ===== src/Typing/Order.antt =====
-- The characters that the keyboard of cos318-project6 gives are read in the order of the keys.
use operativsystemer.Base.{
  ℕ, zero, suc, ◌+◌, ◌*◌, ◌%◌, ◌<◌, ◌≡◌, refl, sym, subst, ◌∙◌, Bool, true, false, ◌&&◌, Option,
  none, some, ◌>>=◌, List, [], ◌∷◌, ◌++◌, map, ◌==◌, ltb, leb, if◌then◌else◌, length, arith, ltb→lt,
  Option-cases, Bool-cases, inl, inr,
}
use mathlib.Core.List.{map-append}
use operativsystemer.Keyboard.{
  Ascii, Character, Keyboard, Handler, normal_handler, escape_handler, right_shift_handler,
  left_shift_handler, control_handler, alt_handler, caps_lock_handler, num_lock_handler,
  scroll_lock_handler, convert, get_key, scan_to_ascii, call_handler, handle,
}
use operativsystemer.Keyboard
use operativsystemer.Keyboard.Shift.{keyboard_interrupt-bounds}
use operativsystemer.Mailbox.{
  Mbox, buffer_size, mbox_stat, message_bytes, int_bytes, space_available,
}
use operativsystemer.Mailbox.Fifo.{
  IsMbox, encode, mbox_send-snoc, mbox_recv-cons, mbox_recv-nil, space_available-encode,
}
use operativsystemer.Typing.{
  char_message, char_msg_size, getchar, keyboard_interrupt, put_character, putchar,
}

-- Seven-bit characters, as they stand in the mailbox.
abbrev pub Typed : List ℕ → Type 0
Typed [] = Unit {0}
Typed (c ∷ cs) = (c < 128) × Typed cs

abbrev pub Holds : Mbox → List ℕ → Type 0
Holds q cs = IsMbox q (map char_message cs) × Typed cs

length-encode_chars : (cs : List ℕ) → length (encode (map char_message cs)) ≡ 5 * length cs
unfolding encode message_bytes int_bytes
length-encode_chars [] = refl
length-encode_chars (c ∷ cs) = omega (arith, length-encode_chars cs)

-- The table of keys has no character of more than seven bits.
fits : Ascii → Bool
fits a = ltb a.no_shift 128 && (ltb a.shift 128 && ltb a.control 128)

all_fit : List Ascii → Bool
unfolding fits
all_fit [] = true
all_fit (a ∷ table) = fits a && all_fit table

scan_to_ascii-fits : all_fit scan_to_ascii ≡ true
unfolding all_fit scan_to_ascii
scan_to_ascii-fits = refl

get_key-fits :
    (table : List Ascii) (i : ℕ) (a : Ascii)
    → all_fit table ≡ true
    → get_key table i ≡ some a
    → fits a ≡ true
unfolding all_fit get_key
get_key-fits [] i a h e = cc
get_key-fits (x ∷ table) zero a h e = ground arith
get_key-fits (x ∷ table) (suc i) a h e = get_key-fits table i a (ground arith) e

convert-lt : (a : Ascii) (s : ℕ) → fits a ≡ true → convert a s < 128
unfolding fits convert
convert-lt a s h = ground arith

-- What a key gives has seven bits.
abbrev Gives : Option Character → Type 0
Gives none = Unit {0}
Gives (some c) = c.character < 128

handle-Gives :
    (h : Handler) (a : Ascii) (scan : ℕ) (k : Keyboard)
    → fits a ≡ true
    → Gives (handle h a scan k).0
unfolding handle
handle-Gives normal_handler a scan k f = elim (Bool-cases k.key_release) [
  | inl released ↦ rw released tt
  | inr pressed ↦ rw pressed (convert-lt a k.shift_status f)
]
handle-Gives escape_handler a scan k f = tt
handle-Gives right_shift_handler a scan k f = tt
handle-Gives left_shift_handler a scan k f = tt
handle-Gives control_handler a scan k f = tt
handle-Gives alt_handler a scan k f = tt
handle-Gives caps_lock_handler a scan k f = tt
handle-Gives num_lock_handler a scan k f = tt
handle-Gives scroll_lock_handler a scan k f = tt

abbrev GivesAny : Option (Option Character × Keyboard) → Type 0
GivesAny none = Unit {0}
GivesAny (some r) = Gives r.0

call_handler-GivesAny : (key : ℕ) (k : Keyboard) → GivesAny (call_handler key k)
unfolding call_handler
call_handler-GivesAny key k = elim (Bool-cases (ltb key 84)) [
  | inr unknown ↦ rw unknown tt
  | inl known ↦ elim (Option-cases (get_key scan_to_ascii key)) [
    | inl out ↦ rw (known, out) tt
    | inr (a, found) ↦
        rw (known, found)
          (handle-Gives a.handler a key k
            (get_key-fits scan_to_ascii key a scan_to_ascii-fits found))
  ]
]

keyboard_interrupt-GivesAny :
    (scan second : ℕ) (k : Keyboard) → GivesAny (Keyboard.keyboard_interrupt scan second k)
unfolding Keyboard.keyboard_interrupt
keyboard_interrupt-GivesAny scan second k =
    let single : (scan % 128 == 224) ≡ false = ground arith in
    rw single (call_handler-GivesAny (scan % 128) _)

-- The specification: characters in the order of their keys, of which 204 are kept at most.
abbrev pub keep : Option Character → List ℕ → List ℕ
keep none cs = cs
keep (some c) cs = if ltb (length cs) 204 then cs ++ c.character ∷ [] else cs

Typed-snoc : (cs : List ℕ) (c : ℕ) → Typed cs → c < 128 → Typed (cs ++ c ∷ [])
Typed-snoc [] c v h = (h, tt)
Typed-snoc (x ∷ cs) c v h = (v.0, Typed-snoc cs c v.1 h)

put_character-keep :
    (c : Option Character) (k : Keyboard) (q : Mbox) (cs : List ℕ)
    → Holds q cs
    → Gives c
    → (q' : Mbox) × (put_character (c, k) q ≡ some (k, q')) × Holds q' (keep c cs)
unfolding put_character putchar mbox_stat
put_character-keep none k q cs v g = (q, refl, v)
put_character-keep (some c) k q cs v g = elim (Bool-cases (ltb (length cs) 204)) [
  | inl room ↦
      let (q', sent, v') =
        mbox_send-snoc q (map char_message cs) (char_message c.character) v.0 (refl, omega arith)
          (omega (arith, length-encode_chars cs, ltb→lt (length cs) 204 room)) in
      let space : leb char_msg_size (space_available q) ≡ true =
        ground (arith, space_left, length-encode_chars cs) in
      (
        q',
        rw (space, sent),
        rw room (
          subst (IsMbox q') (sym (map-append char_message cs (c.character ∷ []))) v',
          Typed-snoc cs c.character v.1 g,
        ),
      )
  | inr full ↦
      let space : leb char_msg_size (space_available q) ≡ false =
        ground (arith, space_left, length-encode_chars cs) in
      (q, rw space, rw full v)
]
  where
    space_left : space_available q + length (encode (map char_message cs)) ≡ buffer_size
    space_left = space_available-encode q (map char_message cs) v.0

getchar-cons :
    (c : ℕ) (q : Mbox) (cs : List ℕ)
    → Holds q (c ∷ cs)
    → (q' : Mbox) × (getchar q ≡ some (some (c, q'))) × Holds q' cs
unfolding getchar
getchar-cons c q cs v =
    let (q', e, v') = mbox_recv-cons q (char_message c) (map char_message cs) v.0 in
    let seven : leb 128 c ≡ false = ground (arith, v.1.0) in (q', rw (e, seven), (v', v.1.1))

getchar-nil : (q : Mbox) → Holds q [] → getchar q ≡ some none
unfolding getchar
getchar-nil q v = rw (mbox_recv-nil q v.0)

-- What happens at the keyboard: an interrupt with the bytes of the port, or a call of `getchar`.
pub data Event : Type 0 where
  interrupt : ℕ → ℕ → Event
  read : Event

answer : (Mbox → Option (List (Option ℕ))) → Mbox → Option (ℕ × Mbox) → Option (List (Option ℕ))
answer rest q none = rest q >>= λ cs. some (none ∷ cs)
answer rest q (some (c, q')) = rest q' >>= λ cs. some (some c ∷ cs)

-- What the calls of `getchar` give, `none` where the caller has to wait.
pub run : List Event → Keyboard → Mbox → Option (List (Option ℕ))
unfolding answer
run [] k q = some []
run (interrupt scan second ∷ es) k q = keyboard_interrupt scan second k q >>= λ r. run es r.0 r.1
run (read ∷ es) k q = getchar q >>= λ r. answer (run es k) q r

-- The specification, by a list of characters.
pub typed : List Event → Keyboard → List ℕ → Option (List (Option ℕ))
typed [] k cs = some []
typed (interrupt scan second ∷ es) k cs =
    Keyboard.keyboard_interrupt scan second k >>= λ r. typed es r.1 (keep r.0 cs)
typed (read ∷ es) k [] = typed es k [] >>= λ out. some (none ∷ out)
typed (read ∷ es) k (c ∷ cs) = typed es k cs >>= λ out. some (some c ∷ out)

interrupt-put :
    (scan second : ℕ) (k : Keyboard) (q : Mbox) {r : Option Character × Keyboard}
    → Keyboard.keyboard_interrupt scan second k ≡ some r
    → keyboard_interrupt scan second k q ≡ put_character r q
unfolding keyboard_interrupt
interrupt-put scan second k q e = rw e

-- In every order of interrupts, with any bytes, and of calls of getchar, from a shift status of five
-- bits and a mailbox that holds the characters `cs`: no interrupt waits or fails, and the calls get
-- the characters of the keys in their order, of which the mailbox keeps 204 at most and drops
-- the ones that come while it is full.
pub run-typed :
    (es : List Event) (k : Keyboard) (q : Mbox) (cs : List ℕ)
    → k.shift_status < 32
    → Holds q cs
    → (out : List (Option ℕ)) × (run es k q ≡ some out) × (typed es k cs ≡ some out)
unfolding run typed
run-typed [] k q cs bits v = ([], refl, refl)
run-typed (read ∷ es) k q [] bits v =
    let (out, e, e') = run-typed es k q [] bits v in (none ∷ out, rw (getchar-nil q v, e), rw e')
run-typed (read ∷ es) k q (c ∷ cs) bits v =
    let (q', got, v') = getchar-cons c q cs v in
    let (out, e, e') = run-typed es k q' cs bits v' in (some c ∷ out, rw (got, e), rw e')
run-typed (interrupt scan second ∷ es) k q cs bits v =
    let ((c, k'), pressed, _, bits', _) = keyboard_interrupt-bounds scan second 0 k bits in
    let given : Gives c = subst GivesAny pressed (keyboard_interrupt-GivesAny scan second k) in
    let (q', put, v') = put_character-keep c k' q cs v given in
    let (out, e, e') = run-typed es k' q' (keep c cs) bits' v' in
    (out, rw (interrupt-put scan second k q pressed ∙ put) e, rw pressed e')
