-- ===== src/Tests/Other.antt =====
-- The websocket connection, ctrlReader and an animation.
use dracd.Common.{
  ◌+◌, ◌*◌, min, ℤ, false, ◌∙◌, true, sym, ap, ℕ, zero, suc, ◌≤◌, ◌≡◌, refl, List, [], ◌∷◌, ◌++◌,
  Option, none, some, Text, pos, length, take, drop, arith,
}
use dracd.Common.Texts.{codes}
use dracd.Detect.{Browser}
use dracd.Drac.Control.{Reading, Finish, need_to_connect_video, ctrl_reader}
use dracd.Drac.Control.Closing.{last, ctrl_reader_closes}
use dracd.Drac.Sessions.{AnimatedFrame, connected, video_connected, ready}
use dracd.Gif.{hundredth, encode_gif}
use dracd.Gif.Delays.{total, encode_gif_lasts}
use dracd.WsConn.{WebSocket, fine, create_ws_conn, reads}
use dracd.WsConn.Loss.{IsFramed, Beginnings, reads-Beginnings}

-- A host that answers every request with the same page.
abbrev always : Text → Browser
always page made = some page

-- A connection is the messages to come, and a reader is its message.
abbrev next : List (List ℕ) → Option (ℕ × List ℕ) × List (List ℕ)
next [] = (none, [])
next (m ∷ ms) = (some (2, m), ms)

abbrev messages : WebSocket
messages = record {
  Conn = List (List ℕ);
  Reader = List ℕ;
  next_reader = next;
  read = λ m n conn. (take n m, fine, conn);
  write_message = λ b conn. (true, conn);
  close = λ conn. (true, []);
  set_read_deadline = λ t conn. (true, conn);
  set_write_deadline = λ t conn. (true, conn);
  local_addr = λ conn. [];
  remote_addr = λ conn. [];
}

take-drop : (n : ℕ) (m : List ℕ) → take n m ++ drop n m ≡ m
take-drop zero m = refl
take-drop (suc n) [] = refl
take-drop (suc n) (x ∷ m) = ap (◌∷◌ x) (take-drop n m)

length-take : (n : ℕ) (m : List ℕ) → length (take n m) ≤ n
length-take zero m = omega arith
length-take (suc n) [] = omega arith
length-take (suc n) (x ∷ m) = omega (arith, length-take n m)

-- It keeps to what is documented.
abbrev framed : IsFramed messages
framed = record {
  rest = λ conn. conn;
  reads_message = λ reader m conn. reader ≡ m;
  next_message = λ conn m ms e. (2, m, ms, rw e refl, refl, refl);
  read_message = λ conn reader m n e. (
    take n reader,
    drop n reader,
    fine,
    conn,
    refl,
    sym e ∙ sym (take-drop n reader),
    length-take n reader,
    refl,
  );
}

-- Two messages, read two bytes at a time.
reads-Beginnings_example :
    Beginnings 2
      (reads messages 2 (create_ws_conn messages) 2 ((1 ∷ 2 ∷ 3 ∷ []) ∷ (4 ∷ []) ∷ []))
      ((1 ∷ 2 ∷ 3 ∷ []) ∷ (4 ∷ []) ∷ [])
reads-Beginnings_example =
    reads-Beginnings messages framed ((1 ∷ 2 ∷ 3 ∷ []) ∷ (4 ∷ []) ∷ []) 2
      ((1 ∷ 2 ∷ 3 ∷ []) ∷ (4 ∷ []) ∷ []) refl

-- A DRAC 6 whose video is asked for twice; then the connection is lost.
abbrev page6 : Text
page6 = codes "iDrac8"

abbrev readings : List Reading
readings =
    record { answer = some need_to_connect_video; failed = false }
    ∷ record { answer = some (pos 2); failed = false }
    ∷ record { answer = none; failed = false }
    ∷ record { answer = some need_to_connect_video; failed = false }
    ∷ record { answer = none; failed = true }
    ∷ []

abbrev sockets : ℕ → Text → Option ℕ
sockets k address = some (10 + k)

abbrev at_end : Finish
at_end = record {
  control = record {
    ctrl_socket = some 10;
    video_socket = some 12;
    reported = connected ∷ video_connected ∷ ready ∷ video_connected ∷ [];
    opened = 11 ∷ 12 ∷ [];
    drac_type = pos 8;
    allocated = true;
    ctrl_closes = 0;
  };
  ended = true;
  closed = some 12;
  waited = 1;
}

ctrl_reader_closes_example :
    (at_end.ended ≡ true)
    × (at_end.closed ≡ last at_end.control.opened)
    × (at_end.waited ≡ min 1 (length at_end.control.opened))
unfolding ctrl_reader
ctrl_reader_closes_example =
    ctrl_reader_closes (always page6) (7 ∷ []) (8 ∷ []) (9 ∷ []) sockets readings at_end refl refl

-- Three frames, one and a half seconds apart, and a second since the last.
abbrev three : List AnimatedFrame
three = record { qf = 1; ts = 1500000000 } ∷ record { qf = 2; ts = 3000000000 } ∷ []

abbrev gif : List (ℕ × ℤ)
gif = (0, pos 150) ∷ (1, pos 150) ∷ (2, pos 100) ∷ []

encode_gif_lasts_example :
    (total gif * hundredth + 0 ≤ 4000000000)
    × (4000000000 ≤ 0 + (total gif + length (record { qf = 0; ts = 0 } ∷ three)) * hundredth)
unfolding encode_gif
encode_gif_lasts_example =
    encode_gif_lasts 4000000000 (record { qf = 0; ts = 0 }) three gif
      (omega arith, (omega arith, (omega arith, tt))) (omega arith) refl
