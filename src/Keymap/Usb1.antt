-- ===== src/Keymap/Usb1.antt =====
-- The table x11ToUsb1 of keymap.go: USB scan codes of the Latin-1 key symbols, in two halves. The
-- entry -1 is a key that has no scan code. The source lists 255 entries, for 0 to 0xfe.
use dracd.Common.{List, [], ◌∷◌, ◌++◌, ℤ, pos, negsuc}

-- -1
abbrev absent : ℤ
absent = negsuc 0

-- The entries 0 to 0x7f.
abbrev x11_to_usb1_low : List ℤ
x11_to_usb1_low =
    absent
    ∷ absent
    ∷ absent
    ∷ absent
    ∷ absent
    ∷ absent
    ∷ absent
    ∷ absent
    ∷ absent
    ∷ absent
    ∷ absent
    ∷ absent
    ∷ absent
    ∷ absent
    ∷ absent
    ∷ absent
    ∷ absent
    ∷ absent
    ∷ absent
    ∷ absent
    ∷ absent
    ∷ absent
    ∷ absent
    ∷ absent
    ∷ absent
    ∷ absent
    ∷ absent
    ∷ absent
    ∷ absent
    ∷ absent
    ∷ absent
    ∷ absent
    ∷ pos 0x2c
    ∷ pos 0x1e
    ∷ pos 0x34
    ∷ pos 0x20
    ∷ pos 0x21
    ∷ pos 0x22
    ∷ pos 0x24
    ∷ pos 0x34
    ∷ pos 0x26
    ∷ pos 0x27
    ∷ pos 0x25
    ∷ pos 0x2e
    ∷ pos 0x36
    ∷ pos 0x2d
    ∷ pos 0x37
    ∷ pos 0x38
    ∷ pos 0x27
    ∷ pos 0x1e
    ∷ pos 0x1f
    ∷ pos 0x20
    ∷ pos 0x21
    ∷ pos 0x22
    ∷ pos 0x23
    ∷ pos 0x24
    ∷ pos 0x25
    ∷ pos 0x26
    ∷ pos 0x33
    ∷ pos 0x33
    ∷ pos 0x36
    ∷ pos 0x2e
    ∷ pos 0x37
    ∷ pos 0x38
    ∷ pos 0x1f
    ∷ pos 0x4
    ∷ pos 0x5
    ∷ pos 0x6
    ∷ pos 0x7
    ∷ pos 0x8
    ∷ pos 0x9
    ∷ pos 0xa
    ∷ pos 0xb
    ∷ pos 0xc
    ∷ pos 0xd
    ∷ pos 0xe
    ∷ pos 0xf
    ∷ pos 0x10
    ∷ pos 0x11
    ∷ pos 0x12
    ∷ pos 0x13
    ∷ pos 0x14
    ∷ pos 0x15
    ∷ pos 0x16
    ∷ pos 0x17
    ∷ pos 0x18
    ∷ pos 0x19
    ∷ pos 0x1a
    ∷ pos 0x1b
    ∷ pos 0x1c
    ∷ pos 0x1d
    ∷ pos 0x2f
    ∷ pos 0x31
    ∷ pos 0x30
    ∷ absent
    ∷ pos 0x2d
    ∷ pos 0x35
    ∷ pos 0x4
    ∷ pos 0x5
    ∷ pos 0x6
    ∷ pos 0x7
    ∷ pos 0x8
    ∷ pos 0x9
    ∷ pos 0xa
    ∷ pos 0xb
    ∷ pos 0xc
    ∷ pos 0xd
    ∷ pos 0xe
    ∷ pos 0xf
    ∷ pos 0x10
    ∷ pos 0x11
    ∷ pos 0x12
    ∷ pos 0x13
    ∷ pos 0x14
    ∷ pos 0x15
    ∷ pos 0x16
    ∷ pos 0x17
    ∷ pos 0x18
    ∷ pos 0x19
    ∷ pos 0x1a
    ∷ pos 0x1b
    ∷ pos 0x1c
    ∷ pos 0x1d
    ∷ pos 0x2f
    ∷ pos 0x31
    ∷ pos 0x30
    ∷ pos 0x35
    ∷ absent
    ∷ []

-- The entries 0x80 to 0xfe.
abbrev x11_to_usb1_high : List ℤ
x11_to_usb1_high =
    absent ∷ absent ∷ absent ∷ absent ∷ absent ∷ absent ∷ absent ∷ absent ∷ absent ∷ absent ∷ absent
    ∷ absent ∷ absent ∷ absent ∷ absent ∷ absent ∷ absent ∷ absent ∷ absent ∷ absent ∷ absent
    ∷ absent ∷ absent ∷ absent ∷ absent ∷ absent ∷ absent ∷ absent ∷ absent ∷ absent ∷ absent
    ∷ absent ∷ absent ∷ absent ∷ absent ∷ absent ∷ absent ∷ absent ∷ absent ∷ absent ∷ absent
    ∷ absent ∷ absent ∷ absent ∷ absent ∷ absent ∷ absent ∷ absent ∷ absent ∷ absent ∷ absent
    ∷ absent ∷ absent ∷ absent ∷ absent ∷ absent ∷ absent ∷ absent ∷ absent ∷ absent ∷ absent
    ∷ absent ∷ absent ∷ absent ∷ absent ∷ absent ∷ absent ∷ absent ∷ absent ∷ absent ∷ absent
    ∷ absent ∷ absent ∷ absent ∷ absent ∷ absent ∷ absent ∷ absent ∷ absent ∷ absent ∷ absent
    ∷ absent ∷ absent ∷ absent ∷ absent ∷ absent ∷ absent ∷ absent ∷ absent ∷ absent ∷ absent
    ∷ absent ∷ absent ∷ absent ∷ absent ∷ absent ∷ absent ∷ absent ∷ absent ∷ absent ∷ absent
    ∷ absent ∷ absent ∷ absent ∷ absent ∷ absent ∷ absent ∷ absent ∷ absent ∷ absent ∷ absent
    ∷ absent ∷ absent ∷ absent ∷ absent ∷ absent ∷ absent ∷ absent ∷ absent ∷ absent ∷ absent
    ∷ absent ∷ absent ∷ absent ∷ absent ∷ absent ∷ absent ∷ []

abbrev pub x11_to_usb1 : List ℤ
x11_to_usb1 = x11_to_usb1_low ++ x11_to_usb1_high
