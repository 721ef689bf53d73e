-- ===== src/Keymap.antt =====
-- The tables of keymap.go and the choice between them that the key event of vnc.go makes.
pub mod Lookup
mod Usb1
mod Usb2
use dracd.Common.{
  ℕ, ◌-◌, List, none, some, ◌&&◌, ℤ, negsuc, Outcome, ok, panics, index_out_of_range, leb,
  if◌then◌else◌, get_elem?,
}
use Usb1.{x11_to_usb1}
use Usb2.{x11_to_usb2}

-- An index into an array: out of range, Go panics.
abbrev index {ℓ} : {A : Type ℓ} → List A → ℕ → Outcome A
index xs i = elim (get_elem? xs i) [ none ↦ panics index_out_of_range | some x ↦ ok x ]

-- The scan code that the key event looks up for a key symbol, a uint32; -1 where it has none.
pub usb_keycode : ℕ → Outcome ℤ
usb_keycode key =
    if leb key 255
    then index x11_to_usb1 key
    else if leb 0xff00 key && leb key 0xffff
    then index x11_to_usb2 (key - 0xff00)
    else ok (negsuc 0)
