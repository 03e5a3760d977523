-- ===== src/Tests/Keys.antt =====
-- keyboard.c on the left shift key and the key Q.
use operativsystemer.Base.{◌<◌, ◌≡◌, refl, false, Option, some, arith, inl}
use operativsystemer.Keyboard.{
  Character, Keyboard, keyboard_interrupt, call_handler, handle, get_key, convert, scan_to_ascii,
}
use operativsystemer.Keyboard.Shift.{IsHeld, keyboard_interrupt-bounds}

abbrev idle : Keyboard
idle = record { shift_status = 0; key_release = false; multiread = false }

abbrev shifted : Keyboard
shifted = record { shift_status = 2; key_release = false; multiread = false }

upper_q :
    keyboard_interrupt 16 0 shifted
    ≡ some (some (record { character = 81; attribute = 2; scancode = 16 }), shifted)
unfolding keyboard_interrupt call_handler handle get_key convert scan_to_ascii
upper_q = refl

keyboard_interrupt-bounds_example :
    (r : Option Character × Keyboard) × (keyboard_interrupt 224 16 idle ≡ some r)
    × (keyboard_interrupt 224 30 idle ≡ some r)
    × (r.1.shift_status < 32)
    × (r.1.multiread ≡ false)
keyboard_interrupt-bounds_example = keyboard_interrupt-bounds 224 16 30 idle (omega arith)

IsHeld-42 : IsHeld 42 2
unfolding IsHeld
IsHeld-42 = inl (refl, refl)
