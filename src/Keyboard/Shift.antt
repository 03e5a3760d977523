-- ===== src/Keyboard/Shift.antt =====
-- What the scan codes do to the shift status of keyboard.c.
use operativsystemer.Base.{
  ℕ, zero, suc, ◌+◌, ◌%◌, ◌<◌, ◌≡◌, ◌⊎◌, refl, true, false, Option, none, some, List, [], ◌∷◌, ◌==◌,
  ltb, leb, arith, length, Bool-cases, inl, inr,
}
use operativsystemer.Keyboard.{
  Handler, normal_handler, escape_handler, right_shift_handler, left_shift_handler, control_handler,
  alt_handler, caps_lock_handler, num_lock_handler, scroll_lock_handler, Ascii, Character, Keyboard,
  scan_to_ascii, get_key, handle, hold_handler, toggle_caps, has_bit, set_bit, clear_bit,
  caps_shift, call_handler, keyboard_interrupt,
}

get_key-found :
    (table : List Ascii) (i : ℕ) → i < length table → (a : Ascii) × (get_key table i ≡ some a)
unfolding get_key
get_key-found [] i h = absurd (omega arith)
get_key-found (a ∷ table) zero h = (a, refl)
get_key-found (a ∷ table) (suc i) h = get_key-found table i (omega arith)

length-scan_to_ascii : length scan_to_ascii ≡ 84
unfolding scan_to_ascii
length-scan_to_ascii = refl

toggle_caps-bounds :
    (k : Keyboard)
    → k.shift_status < 32
    → ((toggle_caps k).shift_status < 32) × ((toggle_caps k).multiread ≡ k.multiread)
unfolding toggle_caps
toggle_caps-bounds k b = elim (Bool-cases k.key_release) [
  | inl released ↦ rw released (b, refl)
  | inr pressed ↦ elim (Bool-cases (has_bit k.shift_status caps_shift)) [
    | inl on ↦ rw pressed (rw on (ground arith, refl))
    | inr off ↦ rw pressed (rw off (ground arith, refl))
  ]
]

handle-bounds :
    (h : Handler) (a : Ascii) (scan : ℕ) (k : Keyboard)
    → k.shift_status < 32
    → ((handle h a scan k).1.shift_status < 32) × ((handle h a scan k).1.multiread ≡ k.multiread)
unfolding handle
handle-bounds normal_handler a scan k b = (b, refl)
handle-bounds escape_handler a scan k b = (b, refl)
handle-bounds right_shift_handler a scan k b = (ground arith, refl)
handle-bounds left_shift_handler a scan k b = (ground arith, refl)
handle-bounds control_handler a scan k b = (ground arith, refl)
handle-bounds alt_handler a scan k b = (ground arith, refl)
handle-bounds caps_lock_handler a scan k b = toggle_caps-bounds k b
handle-bounds num_lock_handler a scan k b = (b, refl)
handle-bounds scroll_lock_handler a scan k b = (b, refl)

-- Whatever two bytes the port gives, and with a shift status of five bits, keyboard_interrupt reads
-- the table of keys within its bounds, the shift status keeps to five bits, multiread stays as
-- it was, and the second byte is not used.
pub keyboard_interrupt-bounds :
    (scan second other : ℕ) (k : Keyboard)
    → k.shift_status < 32
    → (r : Option Character × Keyboard) × (keyboard_interrupt scan second k ≡ some r)
      × (keyboard_interrupt scan other k ≡ some r)
      × (r.1.shift_status < 32)
      × (r.1.multiread ≡ k.multiread)
unfolding keyboard_interrupt call_handler
keyboard_interrupt-bounds scan second other k b =
    let single : (scan % 128 == 224) ≡ false = ground arith in
    elim (Bool-cases (ltb (scan % 128) 84)) [
      | inl known ↦
          let found : (a : Ascii) × (get_key scan_to_ascii (scan % 128) ≡ some a) =
            get_key-found scan_to_ascii (scan % 128) (ground (arith, length-scan_to_ascii)) in
          let kept : ((handle found.0.handler found.0 (scan % 128) released).1.shift_status < 32)
              × ((handle found.0.handler found.0 (scan % 128) released).1.multiread ≡ k.multiread) =
            handle-bounds found.0.handler found.0 (scan % 128) released b in
          (
            handle found.0.handler found.0 (scan % 128) released,
            rw single (rw known (rw (found.1) refl)),
            rw single (rw known (rw (found.1) refl)),
            kept.0,
            kept.1,
          )
      | inr unknown ↦
          ((none, released), rw single (rw unknown refl), rw single (rw unknown refl), b, refl)
    ]
  where
    released : Keyboard
    released = record k { key_release = leb 128 scan }

-- A key that sets a bit of the shift status while it is held, and the bit.
unfoldable pub IsHeld : ℕ → ℕ → Type 0
IsHeld key bit =
    ((key ≡ 42) × (bit ≡ 2))
    ⊎ ((key ≡ 54) × (bit ≡ 1))
    ⊎ ((key ≡ 29) × (bit ≡ 8))
    ⊎ ((key ≡ 56) × (bit ≡ 16))

held :
    (key bit : ℕ) (second : ℕ) (k : Keyboard)
    → IsHeld key bit
    → (keyboard_interrupt key second k
        ≡ some (none, hold_handler bit (record k { key_release = false })))
      × (keyboard_interrupt (key + 128) second k
          ≡ some (none, hold_handler bit (record k { key_release = true })))
unfolding keyboard_interrupt call_handler handle IsHeld scan_to_ascii get_key
held key bit second k (inl (a, b)) = rw a (rw b (refl, refl))
held key bit second k (inr (inl (a, b))) = rw a (rw b (refl, refl))
held key bit second k (inr (inr (inl (a, b)))) = rw a (rw b (refl, refl))
held key bit second k (inr (inr (inr (a, b)))) = rw a (rw b (refl, refl))

set_bit-clear_bit :
    (key bit s : ℕ)
    → IsHeld key bit
    → (has_bit (set_bit s bit) bit ≡ true) × (clear_bit (set_bit s bit) bit ≡ clear_bit s bit)
unfolding IsHeld
set_bit-clear_bit key bit s (inl (a, b)) = rw b (ground arith, ground arith)
set_bit-clear_bit key bit s (inr (inl (a, b))) = rw b (ground arith, ground arith)
set_bit-clear_bit key bit s (inr (inr (inl (a, b)))) = rw b (ground arith, ground arith)
set_bit-clear_bit key bit s (inr (inr (inr (a, b)))) = rw b (ground arith, ground arith)

-- A shift, control or alt key puts no character: when it is pressed, its bit of the shift status is
-- set, and when it is released, its bit is cleared and the others are as they were before.
keyboard_interrupt-held :
    (key bit second : ℕ) (k : Keyboard)
    → IsHeld key bit
    → (p : Keyboard) × (r : Keyboard) × (keyboard_interrupt key second k ≡ some (none, p))
      × (keyboard_interrupt (key + 128) second p ≡ some (none, r))
      × (has_bit p.shift_status bit ≡ true)
      × (r.shift_status ≡ clear_bit k.shift_status bit)
keyboard_interrupt-held key bit second k h =
    let p : Keyboard = hold_handler bit (record k { key_release = false }) in
    let bits : (has_bit (set_bit k.shift_status bit) bit ≡ true)
        × (clear_bit (set_bit k.shift_status bit) bit ≡ clear_bit k.shift_status bit) =
      set_bit-clear_bit key bit k.shift_status h in
    (
      p,
      hold_handler bit (record p { key_release = true }),
      (held key bit second k h).0,
      (held key bit second p h).1,
      bits.0,
      bits.1,
    )
