-- ===== src/Vnc/Handshake.antt =====
-- The opening of handleVncConnection, up to the message loop: version, security type, shared flag and
-- ServerInit. Every error of the client ends the connection.
pub mod Accepts
use dracd.Common.{
  ℕ, true, false, zero, suc, List, [], ◌∷◌, ◌++◌, Option, none, some, ℤ, pos, length, take, drop,
  not, ltb, leb_ℤ, same_bytes, if◌then◌else◌, ◌==◌,
}
use dracd.Common.Atoi.{Parsed, number, atoi}
use dracd.Common.Bytes.{be16, be32}
use dracd.Vnc.PixelFmt
use dracd.Vnc.Reader.{Input, read_byte}

-- br.ReadSlice('\n') with `room` bytes left in the buffer: a line with its end, or an error.
pub read_slice : ℕ → Input → Option (List ℕ × Input)
read_slice zero input = none
read_slice (suc room) [] = none
read_slice (suc room) (b ∷ input) = elim (b == 10) [
  | true ↦ some (b ∷ [], input)
  | false ↦ elim (read_slice room input) [ none ↦ none | some (line, rest) ↦ some (b ∷ line, rest) ]
]

-- "RFB 003."
abbrev pub prefix : List ℕ
prefix = b'R' ∷ b'F' ∷ b'B' ∷ 32 ∷ b'0' ∷ b'0' ∷ b'3' ∷ b'.' ∷ []

-- "RFB 003.008\n"
abbrev pub banner : List ℕ
banner = prefix ++ (b'0' ∷ b'0' ∷ b'8' ∷ 10 ∷ [])

abbrev version : Parsed → Option ℤ
version (number n) = some n
version _ = none

-- The version that the client asks for, from its line; none is a client that is turned away.
requested_version : List ℕ → Option ℤ
requested_version line =
    if ltb (length line) 12
    then none
    else if not (same_bytes (take 8 line) prefix)
    then none
    else version (atoi (drop 8 (take 11 line)))

-- Width, height, pixel format, padding and the server's name.
pub server_init : List ℕ → List ℕ
server_init host =
    be16 640 ++ (be16 480 ++ (PixelFmt.write PixelFmt.initial ++ (be32 (length host) ++ host)))

-- What was written, and what is left to read if the client is let in.
abbrev pub Outcome : Type 0
Outcome = List ℕ × Option Input

-- From the security result on.
finish : ℤ → List ℕ → List ℕ → Input → Outcome
finish ver host out input =
    let out' = out ++ (if leb_ℤ (pos 8) ver then be32 0 else []) in
    elim (read_byte input) [
      | none ↦ (out', none)
      | some (shared, rest) ↦ (out' ++ server_init host, some rest)
    ]

-- From the security type on. A type other than 1 is only logged.
secure : ℤ → List ℕ → Input → Outcome
secure ver host input =
    if leb_ℤ (pos 7) ver
    then elim (read_byte input) [
      | none ↦ (banner ++ (1 ∷ 1 ∷ []), none)
      | some (kind, rest) ↦ finish ver host (banner ++ (1 ∷ 1 ∷ [])) rest
    ]
    else finish ver host (banner ++ be32 1) input

with_version : List ℕ → Option ℤ → Input → Outcome
with_version host none rest = (banner, none)
with_version host (some ver) rest = secure ver host rest

with_line : List ℕ → Option (List ℕ × Input) → Outcome
with_line host none = (banner, none)
with_line host (some (line, rest)) = with_version host (requested_version line) rest

pub handshake : List ℕ → Input → Outcome
handshake host input = with_line host (read_slice 4096 input)
