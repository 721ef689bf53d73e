-- ===== src/Keymap/Usb2.antt =====
-- The table x11ToUsb2 of keymap.go: USB scan codes of the function key symbols from 0xff00 on, in
-- two halves. The entry -1 is a key that has no scan code. There are 256 entries.
use dracd.Common.{List, [], ◌∷◌, ◌++◌, ℤ, pos, negsuc}

-- -1
abbrev absent : ℤ
absent = negsuc 0

-- The entries 0 to 0x7f.
abbrev x11_to_usb2_low : List ℤ
x11_to_usb2_low =
    absent
    ∷ absent
    ∷ absent
    ∷ absent
    ∷ absent
    ∷ absent
    ∷ absent
    ∷ absent
    ∷ pos 0x2a
    ∷ pos 0x2b
    ∷ absent
    ∷ pos 0x9c
    ∷ absent
    ∷ pos 0x28
    ∷ absent
    ∷ absent
    ∷ absent
    ∷ absent
    ∷ absent
    ∷ pos 0x48
    ∷ pos 0x47
    ∷ pos 0x46
    ∷ absent
    ∷ absent
    ∷ absent
    ∷ absent
    ∷ absent
    ∷ pos 0x29
    ∷ absent
    ∷ absent
    ∷ absent
    ∷ absent
    ∷ absent
    ∷ absent
    ∷ absent
    ∷ absent
    ∷ absent
    ∷ absent
    ∷ absent
    ∷ absent
    ∷ absent
    ∷ absent
    ∷ absent
    ∷ absent
    ∷ absent
    ∷ absent
    ∷ absent
    ∷ absent
    ∷ absent
    ∷ absent
    ∷ absent
    ∷ absent
    ∷ absent
    ∷ absent
    ∷ absent
    ∷ absent
    ∷ absent
    ∷ absent
    ∷ absent
    ∷ absent
    ∷ absent
    ∷ absent
    ∷ absent
    ∷ absent
    ∷ absent
    ∷ absent
    ∷ absent
    ∷ absent
    ∷ absent
    ∷ absent
    ∷ absent
    ∷ absent
    ∷ absent
    ∷ absent
    ∷ absent
    ∷ absent
    ∷ absent
    ∷ absent
    ∷ absent
    ∷ absent
    ∷ pos 0x4a
    ∷ pos 0x50
    ∷ pos 0x52
    ∷ pos 0x4f
    ∷ pos 0x51
    ∷ pos 0x4b
    ∷ pos 0x4e
    ∷ pos 0x4d
    ∷ absent
    ∷ absent
    ∷ absent
    ∷ absent
    ∷ absent
    ∷ absent
    ∷ absent
    ∷ absent
    ∷ pos 0x77
    ∷ absent
    ∷ pos 0x74
    ∷ pos 0x49
    ∷ absent
    ∷ pos 0x7a
    ∷ absent
    ∷ pos 0x76
    ∷ pos 0x7e
    ∷ pos 0x9b
    ∷ pos 0x75
    ∷ absent
    ∷ absent
    ∷ absent
    ∷ absent
    ∷ absent
    ∷ absent
    ∷ absent
    ∷ absent
    ∷ absent
    ∷ absent
    ∷ absent
    ∷ absent
    ∷ absent
    ∷ absent
    ∷ absent
    ∷ absent
    ∷ absent
    ∷ absent
    ∷ absent
    ∷ absent
    ∷ pos 0x53
    ∷ []

-- The entries 0x80 to 0xff.
abbrev x11_to_usb2_high : List ℤ
x11_to_usb2_high =
    pos 0xcd
    ∷ absent
    ∷ absent
    ∷ absent
    ∷ absent
    ∷ absent
    ∷ absent
    ∷ absent
    ∷ absent
    ∷ pos 0xba
    ∷ absent
    ∷ absent
    ∷ absent
    ∷ pos 0x58
    ∷ absent
    ∷ absent
    ∷ absent
    ∷ absent
    ∷ absent
    ∷ absent
    ∷ absent
    ∷ absent
    ∷ absent
    ∷ absent
    ∷ absent
    ∷ absent
    ∷ absent
    ∷ absent
    ∷ absent
    ∷ absent
    ∷ absent
    ∷ absent
    ∷ absent
    ∷ absent
    ∷ absent
    ∷ absent
    ∷ absent
    ∷ absent
    ∷ absent
    ∷ absent
    ∷ absent
    ∷ absent
    ∷ pos 0x55
    ∷ absent
    ∷ absent
    ∷ absent
    ∷ pos 0xdc
    ∷ pos 0x54
    ∷ pos 0x62
    ∷ pos 0x59
    ∷ pos 0x5a
    ∷ pos 0x5b
    ∷ pos 0x5c
    ∷ pos 0x5d
    ∷ pos 0x5e
    ∷ pos 0x5f
    ∷ pos 0x60
    ∷ pos 0x61
    ∷ absent
    ∷ absent
    ∷ absent
    ∷ pos 0x67
    ∷ pos 0x3a
    ∷ pos 0x3b
    ∷ pos 0x3c
    ∷ pos 0x3d
    ∷ pos 0x3e
    ∷ pos 0x3f
    ∷ pos 0x40
    ∷ pos 0x41
    ∷ pos 0x42
    ∷ pos 0x43
    ∷ absent
    ∷ absent
    ∷ absent
    ∷ absent
    ∷ absent
    ∷ absent
    ∷ absent
    ∷ absent
    ∷ absent
    ∷ absent
    ∷ absent
    ∷ absent
    ∷ absent
    ∷ absent
    ∷ absent
    ∷ absent
    ∷ absent
    ∷ absent
    ∷ absent
    ∷ absent
    ∷ absent
    ∷ absent
    ∷ absent
    ∷ absent
    ∷ absent
    ∷ pos 0xe1
    ∷ pos 0xe5
    ∷ pos 0xe0
    ∷ pos 0xe4
    ∷ pos 0x39
    ∷ absent
    ∷ absent
    ∷ absent
    ∷ pos 0xe2
    ∷ pos 0xe6
    ∷ absent
    ∷ absent
    ∷ absent
    ∷ absent
    ∷ absent
    ∷ absent
    ∷ absent
    ∷ absent
    ∷ absent
    ∷ absent
    ∷ absent
    ∷ absent
    ∷ absent
    ∷ absent
    ∷ absent
    ∷ absent
    ∷ absent
    ∷ absent
    ∷ absent
    ∷ absent
    ∷ pos 0x4c
    ∷ []

abbrev pub x11_to_usb2 : List ℤ
x11_to_usb2 = x11_to_usb2_low ++ x11_to_usb2_high
