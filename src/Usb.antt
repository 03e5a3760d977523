-- ===== src/Usb.antt =====
-- The search for a descriptor in cos318-project5/usb/usb.c, in the bytes of the configuration that a USB
-- device sent: get_descriptor_ptr.
pub mod Layout
use operativsystemer.Base.{
  ℕ, zero, suc, ◌+◌, ◌-◌, ◌%◌, Option, none, some, ◌==◌, ltb, if◌then◌else◌,
}
use operativsystemer.Text.{Cells}

-- `struct usb_generic_header` at an address: `bLength` and `bDescriptorType`.
abbrev pub length_at : Cells → ℕ → ℕ
length_at m a = m a % 256

abbrev pub type_at : Cells → ℕ → ℕ
type_at m a = m (a + 1) % 256

-- The loop, on fuel: the address of the descriptor, or the null pointer (`some none`).
unfoldable pub get_descriptor_loop : ℕ → ℕ → ℕ → ℕ → ℕ → ℕ → Cells → Option (Option ℕ)
get_descriptor_loop zero descriptor_type index conf_size conf_buff scanned m = none
get_descriptor_loop (suc fuel) descriptor_type index conf_size conf_buff scanned m =
    let len = length_at m conf_buff in
    let same =
      get_descriptor_loop fuel descriptor_type index conf_size (conf_buff + len) (scanned + len)
        m in
    let fewer =
      get_descriptor_loop fuel descriptor_type (index - 1) conf_size (conf_buff + len)
        (scanned + len) m in
    if type_at m conf_buff == descriptor_type
    then if index == 0
      then some (some conf_buff)
      else if ltb (scanned + len) conf_size
      then fewer
      else some none
    else if ltb (scanned + len) conf_size
    then same
    else some none

unfoldable pub get_descriptor_ptr : ℕ → ℕ → ℕ → ℕ → ℕ → Cells → Option (Option ℕ)
get_descriptor_ptr fuel descriptor_type index conf_size conf_buff m =
    get_descriptor_loop fuel descriptor_type index conf_size conf_buff 0 m
