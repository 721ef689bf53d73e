-- ===== src/Tests/Session.antt =====
-- The sessions: recent hosts, joining and the handler.
use dracd.Common.{
  ℕ, ◌+◌, ◌≤◌, ◌≡◌, refl, inr, List, [], ◌∷◌, none, some, true, false, take, arith, same_bytes,
}
use dracd.Drac.Sessions.{Server, Effect, join, setup_drac_client}
use dracd.Drac.Recents.{RecentDracEntry, Credentials, entry, remember, get_recent_drac}
use dracd.Drac.Recents.Mru.{Distinct, resolved, others, remember_lem}
use dracd.Drac.Sessions.Sharing.{IsValid, StartsNone, setup_drac_client_shares}
use dracd.Drac.Handler.{Life, Reach, here, next, request_joins, opened_by_request}
use dracd.Drac.Handler.Lifetime
use dracd.Drac.Handler.Lifetime.{Reach_served, request_leaves_stranded}

abbrev asked : Credentials
asked = record { login = b'r' ∷ []; passwd = [] }

abbrev known : List RecentDracEntry
known = entry (1 ∷ []) 5 asked ∷ entry (2 ∷ []) 4 asked ∷ []

known-Distinct : Distinct known
unfolding get_recent_drac same_bytes
known-Distinct = (refl, (refl, tt))

remember_lem_example : remember (2 ∷ []) 9 asked known ≡ (
  resolved (2 ∷ []) asked known,
  take 10 (entry (2 ∷ []) 9 (resolved (2 ∷ []) asked known) ∷ others (2 ∷ []) known),
)
remember_lem_example = remember_lem (2 ∷ []) 9 asked known known-Distinct (omega arith)

-- A server with nobody connected.
abbrev idle : Server
idle = record { dracmap = []; contexts = []; recent_dracs = known; dracstates = [] }

idle-IsValid : IsValid idle
idle-IsValid = record {
  registered = λ host id e. absurd (cc);
  distinct = known-Distinct;
  ten = omega arith;
}

abbrev once : Server × ℕ × List Effect
once = setup_drac_client idle 7 (some 3) (1 ∷ []) asked

abbrev twice : Server × ℕ × List Effect
twice = setup_drac_client once.0 8 none (1 ∷ []) asked

setup_drac_client_shares_example :
    (twice.1 ≡ once.1) × (twice.0 ≡ join once.0 once.1 none) × StartsNone twice.2
setup_drac_client_shares_example =
    setup_drac_client_shares idle 7 8 (some 3) none (1 ∷ []) asked asked idle-IsValid

abbrev two_requests : Life
two_requests = record opened_by_request { others = 2; signals = 2; new_others = 2 }

Reach_served_example : Lifetime.IsValid two_requests
Reach_served_example =
    Reach_served two_requests (inr (next here (request_joins opened_by_request refl)))

-- One request, whose session has lost its connection.
abbrev lost : Life
lost = record opened_by_request { signals = 0; new_others = 0; reader_ended = true }

request_leaves_stranded_example :
    (m : Life) × Reach lost m
    × (m.running ≡ false)
    × ((k : Life) → Reach m k → (k.running ≡ false) × (lost.signals + 1 ≤ k.signals))
request_leaves_stranded_example = request_leaves_stranded lost refl refl refl refl refl refl refl
