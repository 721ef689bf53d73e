-- ===== src/Drac/Control/Closing.antt =====
-- The end of ctrlReader, over all that the controller and the C library may answer.
use dracd.Common.{
  sym, ◌≢◌, subst, ℕ, suc, ◌≡◌, refl, List, [], ◌∷◌, ◌++◌, Option, none, some, Bool, true, false,
  ◌||◌, Text, ℤ, Outcome, ok, panics, length, arith, min,
}
use dracd.Detect.{Browser, Console, get_drac_type}
use dracd.Drac.Sessions.{State}
use dracd.Drac.Control.{
  Reading, Control, fresh, report, connect_video, handle, proceed, ctrl_loop, with_socket,
  host_port, detected, Finish, finish, finished, ctrl_reader,
}

abbrev pub last : List ℕ → Option ℕ
last [] = none
last (s ∷ []) = some s
last (s ∷ t ∷ rest) = last (t ∷ rest)

last-append : (front : List ℕ) (s : ℕ) → last (front ++ s ∷ []) ≡ some s
last-append [] s = refl
last-append (a ∷ []) s = refl
last-append (a ∷ b ∷ front) s = last-append (b ∷ front) s

-- Some read has an error.
abbrev has_error : List Reading → Bool
has_error [] = false
has_error (r ∷ rs) = r.failed || has_error rs

-- videoSocket is the socket of the last videoReader.
abbrev IsLast : Control → Type 0
IsLast c = c.video_socket ≡ last c.opened

connect_video-IsLast : (c : Control) (s : Option ℕ) → IsLast c → IsLast (connect_video c s).0
unfolding connect_video
connect_video-IsLast c none h = h
connect_video-IsLast c (some s) h = ground (arith, last-append c.opened s)

handle-IsLast :
    (dial : ℕ → Option ℕ) (c : Control) (answer : Option ℤ)
    → IsLast c
    → IsLast (handle dial c answer).0
unfolding handle
handle-IsLast dial c none h = h
handle-IsLast dial c (some r) h =
    ground (arith, connect_video-IsLast c (dial (suc (length c.opened))) h)

-- The loop ends at the first error of a read at the latest.
ctrl_loop-ends :
    (dial : ℕ → Option ℕ) (rs : List Reading) (c : Control)
    → has_error rs ≡ true
    → IsLast c
    → ((ctrl_loop dial c rs).1 ≡ true) × IsLast (ctrl_loop dial c rs).0
unfolding ctrl_loop
ctrl_loop-ends dial [] c e h = cc
ctrl_loop-ends dial (r ∷ rs) c e h =
    go r.failed (handle dial c r.answer) e (handle-IsLast dial c r.answer h)
      (ctrl_loop-ends dial rs)
  where
    go :
        (failed : Bool) (x : Control × Bool)
        → (failed || has_error rs) ≡ true
        → IsLast x.0
        → ((c' : Control)
            → has_error rs ≡ true
            → IsLast c'
            → ((ctrl_loop dial c' rs).1 ≡ true) × IsLast (ctrl_loop dial c' rs).0)
        → ((proceed (λ c'. ctrl_loop dial c' rs) failed x).1 ≡ true)
          × IsLast (proceed (λ c'. ctrl_loop dial c' rs) failed x).0
    go failed (c', false) e' h' later = (refl, h')
    go true (c', true) e' h' later = (refl, h')
    go false (c', true) e' h' later = later c' e' h'

-- What is done about the video socket at the end.
abbrev Tidy : Finish → Type 0
Tidy f =
    (f.ended ≡ true)
    × (f.closed ≡ last f.control.opened)
    × (f.waited ≡ min 1 (length f.control.opened))

some_last : (b : ℕ) (opened : List ℕ) → last (b ∷ opened) ≢ none
some_last b [] = λ e. cc
some_last b (c ∷ opened) = some_last c opened

finish-Tidy : (x : Control × Bool) → x.1 ≡ true → IsLast x.0 → Tidy (finish x)
unfolding finish
finish-Tidy (c, false) e h = cc
finish-Tidy (c, true) e h = go c.opened c.video_socket h
  where
    go :
        (opened : List ℕ) (s : Option ℕ)
        → s ≡ last opened
        → (true ≡ true)
          × (s ≡ last opened)
          × ((elim s [ none ↦ 0 | some _ ↦ 1 ]) ≡ min 1 (length opened))
    go [] none q = (refl, q, refl)
    go [] (some a) q = cc
    go (a ∷ opened) (some b) q = (refl, q, ground arith)
    go (a ∷ []) none q = cc
    go (a ∷ b ∷ opened) none q = absurd (some_last b opened (sym q))

ok-injective : {f g : Finish} → ◌≡◌ {A = Outcome Finish} (ok f) (ok g) → f ≡ g
ok-injective e = cc

Tidy-ok :
    (x : Control × Bool) (f : Finish) → x.1 ≡ true → IsLast x.0 → finished (ok x) ≡ ok f → Tidy f
unfolding finished
Tidy-ok x f ends last_one e = subst Tidy (ok-injective e) (finish-Tidy x ends last_one)

dialled-Tidy :
    (dial : ℕ → Option ℕ) (rs : List Reading) (c : Control) (s : Option ℕ) (f : Finish)
    → IsLast c
    → has_error rs ≡ true
    → finished (ok (with_socket dial rs c s)) ≡ ok f
    → Tidy f
unfolding with_socket
dialled-Tidy dial rs c none f l e h = Tidy-ok (report State.connection_error c, true) f refl l h
dialled-Tidy dial rs c (some s) f l e h =
    let started : Control =
      report State.connected (record c { ctrl_socket = some s; allocated = true }) in
    let r = ctrl_loop-ends dial rs started e l in Tidy-ok (ctrl_loop dial started rs) f r.0 r.1 h

detected-Tidy :
    (host : Text) (dial : ℕ → Text → Option ℕ) (rs : List Reading) (o : Outcome (Option Console))
    (f : Finish)
    → has_error rs ≡ true
    → finished (detected host dial rs o) ≡ ok f
    → Tidy f
unfolding detected finished
detected-Tidy host dial rs (panics p) f e h = cc
detected-Tidy host dial rs (ok none) f e h =
    Tidy-ok (report State.connection_error fresh, true) f refl refl h
detected-Tidy host dial rs (ok (some console)) f e h =
    dialled-Tidy (λ k. dial k (host_port host console.video_port)) rs
      (record fresh { drac_type = console.drac_type }) (dial 0 (host_port host console.ctrl_port)) f
      refl e h

-- If a read of the control socket has an error and getDracType does not panic, ctrlReader gets past its
-- loop, whatever was answered before; it then closes the video socket that was opened last, if there is
-- one, and waits for one videoReader, or for none if none was started.
pub ctrl_reader_closes :
    (browse : Browser) (host login passwd : Text) (dial : ℕ → Text → Option ℕ) (rs : List Reading)
    (f : Finish)
    → has_error rs ≡ true
    → ctrl_reader browse host login passwd dial rs ≡ ok f
    → (f.ended ≡ true)
      × (f.closed ≡ last f.control.opened)
      × (f.waited ≡ min 1 (length f.control.opened))
unfolding ctrl_reader
ctrl_reader_closes browse host login passwd dial rs f e h =
    detected-Tidy host dial rs (get_drac_type browse host login passwd).0 f e h
