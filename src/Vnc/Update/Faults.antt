-- ===== src/Vnc/Update/Faults.antt =====
-- Where `compact_size` leaves the compact length of the Tight encoding: its third byte keeps seven
-- bits of the size, not eight, and from 4194304 on it writes no length.
use dracd.Common.{ℕ, ◌-◌, ◌^◌, ◌≤◌, ◌<◌, ◌≡◌, some, List, ◌++◌, arith}
use dracd.Vnc.Update.{compact_size}
use dracd.Vnc.Update.Viewer.{read_compact}

-- A size from 2^21 to 2^22 - 1 is read back 2^21 too small.
compact_size_loses :
    (size : ℕ) (rest : List ℕ)
    → 2 ^ 21 ≤ size
    → size < 2 ^ 22
    → read_compact (compact_size size ++ rest) ≡ some (size - 2 ^ 21, rest)
unfolding read_compact compact_size
compact_size_loses size rest h k = ground arith
