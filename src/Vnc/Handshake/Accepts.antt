-- ===== src/Vnc/Handshake/Accepts.antt =====
-- A client that follows the protocol is let in, and reads what the server announces.
use dracd.Common.{
  ap, ◌∙◌, ◌≢◌, All, ℕ, zero, suc, ◌+◌, ◌*◌, ◌≡◌, refl, ◌<◌, ◌^◌, List, [], ◌∷◌, ◌++◌, Option, some,
  ℤ, pos, length, leb, if◌then◌else◌, arith, same_bytes,
}
use dracd.Common.Atoi.{number, read_digits, atoi}
use dracd.Common.Bytes.{be32, of_be32-be32}
use dracd.Vnc.PixelFmt
use dracd.Vnc.PixelFmt.{PixelFmt}
use dracd.Vnc.Reader.{Input, Read, pure, ◌>>=◌, read_u16, read_u32}
use dracd.Vnc.Handshake.{
  with_line, with_version, read_slice, prefix, banner, requested_version, server_init, finish,
  secure, handshake,
}

-- The line of a client of version 3.abc.
abbrev pub version_line : (a b c : ℕ) → List ℕ
version_line a b c = prefix ++ ((b'0' + a) ∷ (b'0' + b) ∷ (b'0' + c) ∷ 10 ∷ [])

abbrev pub version_of : (a b c : ℕ) → ℕ
version_of a b c = a * 100 + b * 10 + c

-- What the server sends to a client of a version: before 3.7 it names the security type None itself,
-- from 3.7 on it offers None, and from 3.8 on it says that this went well.
abbrev pub transcript : ℕ → List ℕ → List ℕ
transcript ver host =
    banner
    ++ ((if leb 7 ver then 1 ∷ 1 ∷ [] else be32 1)
        ++ ((if leb 8 ver then be32 0 else []) ++ server_init host))

-- The client's choice of a security type, which it makes from 3.7 on.
abbrev pub choice : ℕ → ℕ → List ℕ
choice ver kind = if leb 7 ver then kind ∷ [] else []

atoi_digits :
    (a b c : ℕ)
    → a < 10
    → b < 10
    → c < 10
    → atoi ((b'0' + a) ∷ (b'0' + b) ∷ (b'0' + c) ∷ []) ≡ number (pos (version_of a b c))
unfolding atoi read_digits
atoi_digits a b c ha hb hc = ground arith

requested_version-version_line :
    (a b c : ℕ)
    → a < 10
    → b < 10
    → c < 10
    → requested_version (version_line a b c) ≡ some (pos (version_of a b c))
unfolding requested_version same_bytes
requested_version-version_line a b c ha hb hc = rw (atoi_digits a b c ha hb hc)

-- A line is read with its end, if it holds no other end and the buffer has room for it.
read_slice-line :
    (room : ℕ) (line : List ℕ) (rest : Input)
    → All (λ b. b ≢ 10) line
    → length line < room
    → read_slice room (line ++ (10 ∷ rest)) ≡ some (line ++ (10 ∷ []), rest)
unfolding read_slice
read_slice-line zero line rest whole h = elim h [ ]
read_slice-line (suc room) [] rest whole h = refl
read_slice-line (suc room) (b ∷ line) rest whole h =
    ground (arith, read_slice-line room line rest whole.1 (omega arith))

read_slice-version_line :
    (a b c : ℕ) (rest : Input)
    → read_slice 4096 (version_line a b c ++ rest) ≡ some (version_line a b c, rest)
read_slice-version_line a b c rest =
    read_slice-line 4096 (prefix ++ ((b'0' + a) ∷ (b'0' + b) ∷ (b'0' + c) ∷ [])) rest (omega arith)
      (omega arith)

secure-choice :
    (ver : ℕ) (host : List ℕ) (kind shared : ℕ) (rest : Input)
    → secure (pos ver) host (choice ver kind ++ (shared ∷ rest)) ≡ (transcript ver host, some rest)
unfolding secure finish
secure-choice ver host kind shared rest = ground arith

-- A client of version 3.abc that sends its version line, from 3.7 on a security type, and the shared
-- flag, is let in: the server has written exactly the transcript of that version, and what the client
-- sends next is left for the message loop.
pub handshake-version_line :
    (host : List ℕ) (a b c kind shared : ℕ) (rest : Input)
    → a < 10
    → b < 10
    → c < 10
    → let ver : ℕ = version_of a b c in
      handshake host (version_line a b c ++ (choice ver kind ++ (shared ∷ rest)))
      ≡ (transcript ver host, some rest)
unfolding handshake with_line with_version
handshake-version_line host a b c kind shared rest ha hb hc =
    let line = read_slice-version_line a b c (choice (version_of a b c) kind ++ (shared ∷ rest)) in
    ap (with_line host) line
    ∙ ap (λ (v : Option ℤ). with_version host v (choice (version_of a b c) kind ++ (shared ∷ rest)))
        (requested_version-version_line a b c ha hb hc)
    ∙ secure-choice (version_of a b c) host kind shared rest

-- What a client reads of the announcement: the two sides, the pixel format and the name.
pub read_server_init : Read (ℕ × ℕ × PixelFmt × ℕ)
read_server_init = do
  width ← read_u16 0
  height ← read_u16 0
  pf ← PixelFmt.read PixelFmt.initial
  size ← read_u32 0
  pure (width, height, pf, size)

-- A client reads from ServerInit the size 640 by 480, the initial pixel format and the length of the
-- host's name, which comes next.
read_server_init-server_init :
    (host : List ℕ) (rest : Input)
    → length host < 2 ^ 32
    → read_server_init (server_init host ++ rest)
      ≡ ((640, 480, PixelFmt.initial, length host), host ++ rest)
unfolding read_server_init server_init PixelFmt.read PixelFmt.write
read_server_init-server_init host rest small = rw (of_be32-be32 (length host) small)
