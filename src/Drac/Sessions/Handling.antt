-- ===== src/Drac/Sessions/Handling.antt =====
-- The functions that join and leave a session, as drac.go runs them on its shared state, are steps of the
-- session as its handler sees it.
use dracd.Common.{
  Option-cases, inl, inr, ◌<◌, if◌then◌else◌, ◌==◌, ◌-◌, subst, ℕ, suc, ◌+◌, ◌≡◌, refl, ap, List,
  [], ◌∷◌, Option, none, some, true, Text, pos, length, length-append, get_elem?, lookup,
  lookup-insert, get_elem?-modify, get_elem?-append_end, same_bytes_self, arith,
}
use dracd.Drac.Recents.{Credentials}
use dracd.Drac.Sessions.{
  DracCtx, Server, Effect, notifies, closes, new_context, joined, join, left, open_session,
  share_session, setup_drac_client, remove_client, has_client, teardown_drac_request,
  teardown_drac_client,
}
use dracd.Drac.Handler.{
  Life, Step, client_joins, request_joins, client_leaves, request_leaves, opened_by_client,
  opened_by_request,
}

-- The session `id` of a host, on the server, is what its handler sees.
pub record Shows (s : Server) (host : Text) (id : ℕ) (l : Life) : Type 0 where
  pub ctx : DracCtx
  pub there : get_elem? s.contexts id ≡ some ctx
  pub clients : length ctx.vnc_clients ≡ l.clients
  pub others : ctx.other_client_count ≡ pos l.others
  pub mapped : l.registered ≡ true → lookup host s.dracmap ≡ some id

-- The sends on clientEvent of the session.
abbrev pub notified : ℕ → List Effect → ℕ
notified id [] = 0
notified id (notifies k ∷ es) = if k == id then suc (notified id es) else notified id es
notified id (_ ∷ es) = notified id es

-- The clients whose videoChannel is closed.
abbrev pub channels_closed : List Effect → List ℕ
channels_closed [] = []
channels_closed (closes client ∷ es) = client ∷ channels_closed es
channels_closed (_ ∷ es) = channels_closed es

-- The client, if it is one.
abbrev pub client_of : Option ℕ → List ℕ
client_of (some client) = client ∷ []
client_of none = []

-- The session after someone has joined.
abbrev pub after_join : Option ℕ → Life → Life
after_join (some client) l = record l {
  clients = l.clients + 1;
  signals = l.signals + 1;
  new_clients = l.new_clients + 1;
}
after_join none l = record l {
  others = l.others + 1;
  signals = l.signals + 1;
  new_others = l.new_others + 1;
}

after_join-Step :
    (client : Option ℕ) (l : Life) → l.registered ≡ true → Step l (after_join client l)
after_join-Step (some client) l r = client_joins l r
after_join-Step none l r = request_joins l r

join-Shows :
    (s : Server) (host : Text) (id : ℕ) (client : Option ℕ) (l : Life)
    → Shows s host id l
    → Shows (join s id client) host id (after_join client l)
join-Shows s host id (some client) l h = record {
  ctx = joined (some client) h.ctx;
  there = ground (arith, h.there, get_elem?-modify s.contexts id id (joined (some client)));
  clients = omega (arith, h.clients, length-append h.ctx.vnc_clients (client ∷ []));
  others = h.others;
  mapped = h.mapped;
}
join-Shows s host id none l h = record {
  ctx = joined none h.ctx;
  there = ground (arith, h.there, get_elem?-modify s.contexts id id (joined none));
  clients = h.clients;
  others = rw h.others (ground arith);
  mapped = h.mapped;
}

-- A session that is opened, before anyone has joined.
abbrev unused : Life
unused = record opened_by_client { clients = 0; signals = 0; new_clients = 0 }

abbrev pub opened_by : Option ℕ → Life
opened_by (some client) = opened_by_client
opened_by none = opened_by_request

after_join-unused : (client : Option ℕ) → after_join client unused ≡ opened_by client
after_join-unused (some client) = refl
after_join-unused none = refl

-- Whoever asks for a host that has no session opens one, which its handler sees as newly opened.
pub setup_drac_client-Shows :
    (s : Server) (now : ℕ) (client : Option ℕ) (host : Text) (given : Credentials)
    → lookup host s.dracmap ≡ none
    → Shows
        (setup_drac_client s now client host given).0
        host
        (setup_drac_client s now client host given).1
        (opened_by client)
unfolding setup_drac_client open_session
setup_drac_client-Shows s now client host given e =
    let id : ℕ = length s.contexts in
    rw e (
      subst (Shows _ host id) (after_join-unused client) (
        join-Shows _ host id client unused (record {
          ctx = new_context host now;
          there = ground (arith, get_elem?-append_end s.contexts (new_context host now) id);
          clients = refl;
          others = refl;
          mapped = λ _. ground (arith, lookup-insert host host id s.dracmap, same_bytes_self host);
        })))

joins_notified :
    (s : Server) (id : ℕ) (client : Option ℕ)
    → (notified id (share_session s id client).2 ≡ 1)
      × (channels_closed (share_session s id client).2 ≡ [])
unfolding share_session
joins_notified s id none = elim (Option-cases (get_elem? s.contexts id)) [
  | inl e ↦ rw e (ground arith, refl)
  | inr (c, e) ↦ rw e (ground arith, ground arith)
]
joins_notified s id (some client) = elim (Option-cases (get_elem? s.contexts id)) [
  | inl e ↦ rw e (ground arith, refl)
  | inr (c, e) ↦ rw e (ground arith, ground arith)
]

after_join-signals : (client : Option ℕ) (l : Life) → (after_join client l).signals ≡ l.signals + 1
after_join-signals (some client) l = refl
after_join-signals none l = refl

-- Whoever asks for a host with a session that is in the map makes the step of joining it, as the session's
-- handler sees it, with as many sends on its clientEvent as the handler sees come, closes no channel, and gets that
-- session.
pub setup_drac_client-Step :
    (s : Server) (now : ℕ) (client : Option ℕ) (host : Text) (given : Credentials) (id : ℕ)
    (l : Life)
    → Shows s host id l
    → l.registered ≡ true
    → Step l (after_join client l)
      × Shows (setup_drac_client s now client host given).0 host id (after_join client l)
      × ((setup_drac_client s now client host given).1 ≡ id)
      × (let effects : List Effect = (setup_drac_client s now client host given).2 in
          ((after_join client l).signals ≡ l.signals + notified id effects)
          × (channels_closed effects ≡ []))
unfolding setup_drac_client
setup_drac_client-Step s now client host given id l h r =
    let (one, none_closed) = joins_notified s id client in
    rw (h.mapped r) (
      after_join-Step client l r,
      unfold share_session in join-Shows s host id client l h,
      unfold share_session in refl,
      (omega (arith, one, after_join-signals client l), none_closed),
    )

length-remove_client :
    (client : ℕ) (vs : List ℕ)
    → has_client client vs ≡ true
    → length vs ≡ suc (length (remove_client client vs))
unfolding remove_client has_client
length-remove_client client [] h = cc
length-remove_client client (v ∷ vs) h = ground (arith, length-remove_client client vs)

-- The session after someone has left.
abbrev pub after_leave : Option ℕ → Life → Life
after_leave (some client) l = record l { clients = l.clients - 1; signals = l.signals + 1 }
after_leave none l = record l { others = l.others - 1; signals = l.signals + 1 }

-- Someone is in the session: a client in its list, or a request that it counts.
abbrev pub Inside : Option ℕ → DracCtx → Type 0
Inside (some client) c = has_client client c.vnc_clients ≡ true
Inside none c = (n : ℕ) × (c.other_client_count ≡ pos (suc n))

-- Not all clients are still at the send of their first signal, or not all requests there or at their wait.
abbrev pub CanLeave : Option ℕ → Life → Type 0
CanLeave (some client) l = l.new_clients < l.clients
CanLeave none l = l.new_others + l.waiting < l.others

-- teardownDracClient, or teardownDracRequest.
abbrev pub teardown : Option ℕ → Server → ℕ → Server × List Effect
teardown (some client) s id = teardown_drac_client s id client
teardown none s id = teardown_drac_request s id

-- Someone who is in a session that some can leave makes the step of leaving it when it is torn down, as the
-- session's handler sees it, with as many sends on its clientEvent as the handler sees come; and the
-- videoChannel of that client is closed, once, and no other.
pub teardown-Step :
    (s : Server) (host : Text) (id : ℕ) (who : Option ℕ) (l : Life) (h : Shows s host id l)
    → Inside who h.ctx
    → CanLeave who l
    → Step l (after_leave who l)
      × Shows (teardown who s id).0 host id (after_leave who l)
      × ((after_leave who l).signals ≡ l.signals + notified id (teardown who s id).1)
      × (channels_closed (teardown who s id).1 ≡ client_of who)
unfolding teardown_drac_request teardown_drac_client
teardown-Step s host id (some client) l h has free =
    let counted = length-remove_client client h.ctx.vnc_clients has in
    (
      client_leaves l (l.clients - 1) (omega (arith, counted, h.clients)) (omega (arith, free)),
      record {
        ctx = left (some client) h.ctx;
        there = ground (arith, h.there, get_elem?-modify s.contexts id id (left (some client)));
        clients = omega (arith, counted, h.clients);
        others = h.others;
        mapped = h.mapped;
      },
      rw (h.there, has) (ground arith),
      rw (h.there, has) refl,
    )
teardown-Step s host id none l h (n, e) free =
    let counted : l.others ≡ suc n = ground (arith, h.others, e) in
    (
      request_leaves l (l.others - 1) (omega (arith, counted)) (omega (arith, free)),
      record {
        ctx = left none h.ctx;
        there = ground (arith, h.there, get_elem?-modify s.contexts id id (left none));
        clients = h.clients;
        others = rw (e, counted) (ap pos (omega arith));
        mapped = h.mapped;
      },
      ground arith,
      refl,
    )
