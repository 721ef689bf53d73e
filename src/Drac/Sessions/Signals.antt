-- ===== src/Drac/Sessions/Signals.antt =====
-- The signals of a client to the handler of its session, drac.go.
use dracd.Common.{
  ℕ, ◌+◌, ◌≡◌, List, [], ◌∷◌, ◌++◌, some, Text, get_elem?, lookup, arith, inl, inr, Option-cases,
}
use dracd.Drac.Recents.{Credentials}
use dracd.Drac.Sessions.{
  Server, Effect, greets, starts, notifies, closes, setup_drac_client, open_session, share_session,
  teardown_drac_client,
}
use dracd.Drac.Sessions.Handling.{notified}

pub notified-append :
    (id : ℕ) (ds es : List Effect) → notified id (ds ++ es) ≡ notified id ds + notified id es
notified-append id [] es = omega arith
notified-append id (greets client ∷ ds) es = notified-append id ds es
notified-append id (starts k c ∷ ds) es = notified-append id ds es
notified-append id (notifies k ∷ ds) es = ground (arith, notified-append id ds es)
notified-append id (closes client ∷ ds) es = notified-append id ds es

-- One send on clientEvent for the coming, and one for the going.
pub setup_notified :
    (s : Server) (now client : ℕ) (host : Text) (given : Credentials)
    → let (s', id, effects) = setup_drac_client s now (some client) host given in
      notified id effects ≡ 1
unfolding setup_drac_client open_session share_session
setup_notified s now client host given = elim (Option-cases (lookup host s.dracmap)) [
  | inl e ↦ rw e (ground arith)
  | inr (id, e) ↦ elim (Option-cases (get_elem? s.contexts id)) [
    | inl gone ↦ rw (e, gone) (ground arith)
    | inr (c, there) ↦ rw (e, there) (ground arith)
  ]
]

pub teardown_notified :
    (s : Server) (id client : ℕ) → notified id (teardown_drac_client s id client).1 ≡ 1
unfolding teardown_drac_client
teardown_notified s id client = elim (Option-cases (get_elem? s.contexts id)) [
  | inl e ↦ rw e (ground arith)
  | inr (c, e) ↦ rw e (ground arith)
]
