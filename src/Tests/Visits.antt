-- ===== src/Tests/Visits.antt =====
-- Connections of a VNC client from end to end.
use dracd.Common.Unordered.{unordered-IsReordering}
use dracd.Drac.Sessions.{
  DracCtx, new_context, is_unused, has_client, Server, Effect, finish_session, setup_drac_client,
}
use dracd.Drac.Sessions.Crowd.{
  AllGone, Visit, comes, goes, crowd, visited_all, visited_all-SameVisits,
}
use dracd.Common.{
  ◌↔◌, ℕ, none, ◌≡◌, refl, List, [], ◌∷◌, ◌++◌, some, true, Text, lookup, arith, get_elem?, length,
  ◌≤◌, same_bytes,
}
use dracd.Drac.Sessions.Handling.{Shows, setup_drac_client-Shows}
use dracd.Drac.Sessions.Finishing.{Finished, finish_session-Step}
use dracd.Drac.Sessions.History.{no_sessions, Reach, here, next, joins, Reach_own}
use dracd.Drac.Handler.{Life, Step, opened_by_request, on_finished}
use dracd.Drac.Sessions.Sharing.{IsValid, setup_drac_client-IsValid}
use dracd.Vnc.Handshake.Accepts.{version_line, version_of, transcript, choice}
use dracd.Vnc.Messages.{closed}
use dracd.Vnc.Messages.Client.{
  Message, framebuffer_update, key, pointer, encode_all, asks_all, accept_all,
}
use dracd.Connection.{left_loop, new_session, no_credentials, handle_vnc_connection}
use dracd.Connection.Any.{Settles, handle_vnc_connection-Settles}
use dracd.Connection.Client.{visit_effects, handle_vnc_connection-encode_all}

abbrev host : Text
host = 104 ∷ []

abbrev session : DracCtx
session = record (new_context host 5) { ctx = some 1 }

abbrev server : Server
server = record {
  dracmap = (host, 0) ∷ [];
  contexts = session ∷ [];
  recent_dracs = [];
  dracstates = [];
}

mapped : lookup host server.dracmap ≡ some 0
unfolding same_bytes
mapped = refl

-- An update request, the letter a, and a click.
abbrev messages : List Message
messages = framebuffer_update 1 0 0 640 480 ∷ key 1 b'a' ∷ pointer 1 320 240 ∷ []

handle_vnc_connection-encode_all_example :
    handle_vnc_connection
      (λ _ t. t)
      server
      9
      7
      host
      (version_line 0 0 8 ++ (choice (version_of 0 0 8) 1 ++ (1 ∷ encode_all messages)))
    ≡ record {
      written = transcript (version_of 0 0 8) host;
      server = server;
      effects = visit_effects session 0 7;
      actions = asks_all new_session messages;
      stop_sent = true;
      ending = left_loop (closed (accept_all new_session messages));
    }
unfolding has_client
handle_vnc_connection-encode_all_example =
    handle_vnc_connection-encode_all server 9 7 0 host session mapped refl refl 1 refl 0 0 8 1 1
      messages (omega arith) (omega arith) (omega arith) (omega arith)

-- A server that nobody has asked for a host yet.
abbrev unused : Server
unused = record { dracmap = []; contexts = []; recent_dracs = []; dracstates = [] }

unused-IsValid : IsValid unused
unused-IsValid = record { registered = λ host id e. absurd (cc); distinct = tt; ten = omega arith }

handle_vnc_connection-Settles_example :
    IsValid
      (handle_vnc_connection (λ _ t. t) unused 9 7 host (version_line 0 0 3 ++ (1 ∷ 4 ∷ []))).server
    × Settles
        (λ _ t. t)
        unused
        9
        7
        host
        (handle_vnc_connection (λ _ t. t) unused 9 7 host (version_line 0 0 3 ++ (1 ∷ 4 ∷ [])))
handle_vnc_connection-Settles_example =
    handle_vnc_connection-Settles (λ _ t. t) (λ _ t v. v) unused 9 7 host unused-IsValid
      (version_line 0 0 3 ++ (1 ∷ 4 ∷ []))

-- A request opens a session, whose control connection then ends.
abbrev first : Server × ℕ × List Effect
first = setup_drac_client no_sessions 5 none host no_credentials

first-Shows : Shows first.0 host first.1 opened_by_request
first-Shows = setup_drac_client-Shows no_sessions 5 none host no_credentials refl

abbrev ended : Life
ended = record opened_by_request { reader_ended = true }

abbrev ended-Shows : Shows first.0 host first.1 ended
ended-Shows = record {
  ctx = first-Shows.ctx;
  there = first-Shows.there;
  clients = first-Shows.clients;
  others = first-Shows.others;
  mapped = first-Shows.mapped;
}

first-IsValid : IsValid first.0
first-IsValid = (setup_drac_client-IsValid no_sessions 5 none host no_credentials unused-IsValid).0

finish_session-Step_example :
    Step ended (on_finished ended)
    × Shows (finish_session first.0 ended-Shows.ctx).0 host first.1 (on_finished ended)
    × Finished first.0 host ended-Shows.ctx ended
finish_session-Step_example =
    finish_session-Step first.0 host first.1 ended ended-Shows first-IsValid refl refl refl

first-Reach : Reach no_sessions first.0
first-Reach = next here (joins no_sessions 5 none host no_credentials)

Reach_own_example :
    (host ≡ host)
    × ((c : DracCtx) × (get_elem? first.0.contexts first.1 ≡ some c) × (c.host ≡ host))
    × (length first.0.recent_dracs ≤ 10)
Reach_own_example =
    Reach_own first.0 host host first.1 first-Reach (first-Shows.mapped refl)
      (first-Shows.mapped refl)

abbrev new : DracCtx
new = new_context (104 ∷ []) 5

abbrev one_way : List Visit
one_way = comes (some 3) ∷ comes none ∷ comes (some 4) ∷ goes (some 3) ∷ []

abbrev another_way : List Visit
another_way = comes (some 4) ∷ comes (some 3) ∷ goes (some 3) ∷ comes none ∷ []

visited_all-SameVisits_example :
    ((is_unused (visited_all one_way new) ≡ true) ↔ AllGone one_way new)
    × (crowd (visited_all one_way new) ≡ crowd (visited_all another_way new))
visited_all-SameVisits_example =
    visited_all-SameVisits new one_way another_way (unfold has_client in (refl, tt))
      (unfold has_client in (refl, tt))
      (record {
        come = unordered-IsReordering (λ a. omega arith);
        go = refl;
        ask = refl;
        answered = refl;
      })
