-- ===== src/Drac/Sessions/History.antt =====
-- All that happens to the shared state of drac.go while the program runs, in whatever order.
use dracd.Common.{
  ℕ, ◌≡◌, sym, ap, ◌∙◌, List, [], Option, some, Text, get_elem?, modify, lookup, length, ◌≤◌, arith,
}
use dracd.Drac.Recents.{Credentials}
use dracd.Drac.Sessions.{
  DracState, DracCtx, Server, setup_drac_client, teardown_drac_request, teardown_drac_client,
  finish_session,
}
use dracd.Drac.Sessions.Sharing.{
  IsValid, setup_drac_client-IsValid, teardown_drac_client-IsValid, teardown_drac_request-IsValid,
  modify-IsValid,
}
use dracd.Drac.Sessions.Finishing.{finish_session-IsValid}

-- As the program starts.
abbrev pub no_sessions : Server
no_sessions = record { dracmap = []; contexts = []; recent_dracs = []; dracstates = [] }

-- What one hold of dracmapLock does: someone joins or leaves a session, a control connection has finished, or
-- a goroutine of a session changes what is not its host, and reports states.
pub data Change : Server → Server → Type 0 where
  joins :
      (s : Server) (now : ℕ) (client : Option ℕ) (host : Text) (given : Credentials)
      → Change s (setup_drac_client s now client host given).0
  client_leaves : (s : Server) (id client : ℕ) → Change s (teardown_drac_client s id client).0
  request_leaves : (s : Server) (id : ℕ) → Change s (teardown_drac_request s id).0
  finishes :
      (s : Server) (id : ℕ) (c : DracCtx)
      → get_elem? s.contexts id ≡ some c
      → Change s (finish_session s c).0
  works :
      (s : Server) (id : ℕ) (f : DracCtx → DracCtx) (states : List (Text × DracState))
      → ((c : DracCtx) → (f c).host ≡ c.host)
      → Change s (record s { contexts = modify s.contexts id f; dracstates = states })

pub data Reach (s : Server) : Server → Type 0 where
  here : Reach s s
  next : {t u : Server} → Reach s t → Change t u → Reach s u

reported-IsValid :
    (s : Server) (states : List (Text × DracState))
    → IsValid s
    → IsValid (record s { dracstates = states })
reported-IsValid s states v = record {
  registered = v.registered;
  distinct = v.distinct;
  ten = v.ten;
}

Change-IsValid : {s t : Server} → Change s t → IsValid s → IsValid t
Change-IsValid (joins s now client host given) v =
    (setup_drac_client-IsValid s now client host given v).0
Change-IsValid (client_leaves s id client) v = teardown_drac_client-IsValid s id client v
Change-IsValid (request_leaves s id) v = teardown_drac_request-IsValid s id v
Change-IsValid (finishes s id c e) v = finish_session-IsValid s c v
Change-IsValid (works s id f states kept) v =
    reported-IsValid _ states (modify-IsValid s id f kept v)

no_sessions-IsValid : IsValid no_sessions
no_sessions-IsValid = record {
  registered = λ host id e. absurd (cc);
  distinct = tt;
  ten = omega arith;
}

Reach-IsValid : {t : Server} → Reach no_sessions t → IsValid t
Reach-IsValid here = no_sessions-IsValid
Reach-IsValid (next r change) = Change-IsValid change (Reach-IsValid r)

-- Whatever has happened since the program started: if two hosts are in the map with the same session, they are
-- one host, and the session is there and its own; and there are at most ten recent hosts.
pub Reach_own :
    (s : Server) (host other : Text) (id : ℕ)
    → Reach no_sessions s
    → lookup host s.dracmap ≡ some id
    → lookup other s.dracmap ≡ some id
    → (host ≡ other)
      × ((c : DracCtx) × (get_elem? s.contexts id ≡ some c) × (c.host ≡ host))
      × (length s.recent_dracs ≤ 10)
Reach_own s host other id r e e' =
    let v = Reach-IsValid r in
    let (c, there, own) = v.registered host id e in
    let (c', there', own') = v.registered other id e' in
    let same : c ≡ c' = ground (arith, there, there') in
    (sym own ∙ ap (λ (x : DracCtx). x.host) same ∙ own', (c, there, own), v.ten)
