-- ===== src/Drac/Sessions/Sharing.antt =====
-- One session for each host, shared by everyone who asks for it.
use dracd.Drac.Sessions.{
  teardown_drac_request, State, DracCtx, Server, Effect, starts, notifies, new_context, joined,
  join, left, leave, greeting, open_session, late_greeting, share_session, enter, setup_drac_client,
  teardown_drac_client,
}
use dracd.Common.{
  All, ℕ, zero, suc, ◌<◌, ◌≤◌, ◌≡◌, refl, ◌∙◌, List, [], ◌∷◌, ◌++◌, Option, none, some, Text,
  length, get_elem?, modify, lookup, insert, same_bytes, same_bytes_iff, same_bytes_self,
  lookup-insert, get_elem?-modify, get_elem?-append_end, ◌==◌, arith, inl, inr, Bool-cases,
}
use dracd.Drac.Recents.{Credentials, remember}
use dracd.Drac.Recents.Mru.{Distinct, remember-Distinct}

-- A host's session exists and is that host's.
abbrev Registered : Server → Text → ℕ → Type 0
Registered s host id = (c : DracCtx) × (get_elem? s.contexts id ≡ some c) × (c.host ≡ host)

pub record IsValid (s : Server) : Type 0 where
  pub registered : (host : Text) (id : ℕ) → lookup host s.dracmap ≡ some id → Registered s host id
  pub distinct : Distinct s.recent_dracs
  pub ten : length s.recent_dracs ≤ 10

host-joined : (client : Option ℕ) (c : DracCtx) → (joined client c).host ≡ c.host
host-joined none c = refl
host-joined (some client) c = refl

host-left : (client : Option ℕ) (c : DracCtx) → (left client c).host ≡ c.host
host-left none c = refl
host-left (some client) c = refl

-- A change of a session that keeps its host.
module _ (s : Server) (id : ℕ) (f : DracCtx → DracCtx)
    (kept : (c : DracCtx) → (f c).host ≡ c.host) where
  modify-Registered :
      (host : Text) (other : ℕ)
      → Registered s host other
      → Registered (record s { contexts = modify s.contexts id f }) host other
  modify-Registered host other (c, e, h) = elim (Bool-cases (id == other)) [
    | inl same ↦ (f c, ground (arith, get_elem?-modify s.contexts id other f), kept c ∙ h)
    | inr apart ↦ (c, ground (arith, get_elem?-modify s.contexts id other f), h)
  ]

  pub modify-IsValid : IsValid s → IsValid (record s { contexts = modify s.contexts id f })
  modify-IsValid v = record {
    registered = λ host other e. modify-Registered host other (v.registered host other e);
    distinct = v.distinct;
    ten = v.ten;
  }

join-IsValid : (s : Server) (id : ℕ) (client : Option ℕ) → IsValid s → IsValid (join s id client)
join-IsValid s id client = modify-IsValid s id (joined client) (host-joined client)

leave-IsValid : (s : Server) (id : ℕ) (client : Option ℕ) → IsValid s → IsValid (leave s id client)
leave-IsValid s id client = modify-IsValid s id (left client) (host-left client)

-- Whoever leaves a session, the server stays valid.
pub teardown_drac_client-IsValid :
    (s : Server) (id client : ℕ) → IsValid s → IsValid (teardown_drac_client s id client).0
unfolding teardown_drac_client
teardown_drac_client-IsValid s id client = leave-IsValid s id (some client)

pub teardown_drac_request-IsValid :
    (s : Server) (id : ℕ) → IsValid s → IsValid (teardown_drac_request s id).0
unfolding teardown_drac_request
teardown_drac_request-IsValid s id = leave-IsValid s id none

pub length-get_elem? :
    {A : Type 0} (xs : List A) (i : ℕ) (x : A) → get_elem? xs i ≡ some x → i < length xs
length-get_elem? [] i x e = absurd (cc)
length-get_elem? (y ∷ xs) zero x e = omega arith
length-get_elem? (y ∷ xs) (suc i) x e = omega (arith, length-get_elem? xs i x e)

-- The server with a new session for a host, before anyone has joined.
abbrev pub opened : Server → ℕ → Text → Credentials → Server
opened s now host given = record {
  dracmap = insert host (length s.contexts) s.dracmap;
  contexts = s.contexts ++ new_context host now ∷ [];
  recent_dracs = (remember host now given s.recent_dracs).1;
  dracstates = insert host (record { state = State.connecting; time = now }) s.dracstates;
}

opened-Registered :
    (s : Server) (now : ℕ) (host : Text) (given : Credentials) (other : Text) (id : ℕ)
    → IsValid s
    → lookup other (opened s now host given).dracmap ≡ some id
    → Registered (opened s now host given) other id
opened-Registered s now host given other id v e = elim (Bool-cases (same_bytes host other)) [
  | inl same ↦ (
    new_context host now,
    ground (
      arith,
      lookup-insert host other (length s.contexts) s.dracmap,
      get_elem?-append_end s.contexts (new_context host now) id,
    ),
    (same_bytes_iff host other).0 same,
  )
  | inr apart ↦
      let (c, found, h) =
        v.registered other id
          (ground (arith, lookup-insert host other (length s.contexts) s.dracmap)) in
      (
        c,
        ground (
          arith,
          get_elem?-append_end s.contexts (new_context host now) id,
          length-get_elem? s.contexts id c found,
        ),
        h,
      )
]

pub opened-IsValid :
    (s : Server) (now : ℕ) (host : Text) (given : Credentials)
    → IsValid s
    → IsValid (opened s now host given)
opened-IsValid s now host given v =
    let recents = remember-Distinct host now given s.recent_dracs v.distinct v.ten in
    record {
      registered = λ other id e. opened-Registered s now host given other id v e;
      distinct = recents.0;
      ten = recents.1;
    }

-- What `setup_drac_client` promises.
abbrev pub Settled : Text → Server × ℕ × List Effect → Type 0
Settled host (s, id, _) = IsValid s × (lookup host s.dracmap ≡ some id)

enter-Settled :
    (s : Server) (now : ℕ) (client : Option ℕ) (host : Text) (given : Credentials) (r : Option ℕ)
    → lookup host s.dracmap ≡ r
    → IsValid s
    → Settled host (enter r s now client host given)
unfolding open_session share_session
enter-Settled s now client host given none e v = (
  join-IsValid (opened s now host given) (length s.contexts) client
      (opened-IsValid s now host given v),
  ground (arith, lookup-insert host host (length s.contexts) s.dracmap, same_bytes_self host),
)
enter-Settled s now client host given (some id) e v = (join-IsValid s id client v, e)

-- Whoever asks for a host, the server stays valid: each host in the map has a session, which is its own,
-- and the recent hosts are distinct and ten at most. The host is then in the map, with the session that
-- was returned.
pub setup_drac_client-IsValid :
    (s : Server) (now : ℕ) (client : Option ℕ) (host : Text) (given : Credentials)
    → IsValid s
    → Settled host (setup_drac_client s now client host given)
unfolding setup_drac_client
setup_drac_client-IsValid s now client host given v =
    enter-Settled s now client host given (lookup host s.dracmap) refl v

abbrev IsStart : Effect → Type 0
IsStart (starts id c) = ⊥
IsStart _ = Unit

-- No handler is started.
abbrev pub StartsNone : List Effect → Type 0
StartsNone = All IsStart

greeting-StartsNone :
    (client : Option ℕ) (id : ℕ) → StartsNone (greeting client ++ (notifies id ∷ []))
greeting-StartsNone none id = (tt, tt)
greeting-StartsNone (some client) id = (tt, (tt, tt))

late_greeting-StartsNone :
    (c : Option DracCtx) (client : Option ℕ) (id : ℕ)
    → StartsNone (late_greeting c client ++ (notifies id ∷ []))
late_greeting-StartsNone none client id = (tt, tt)
late_greeting-StartsNone (some c) client id = elim (Bool-cases c.sent_first_frame) [
  | inl e ↦ rw e (tt, tt)
  | inr e ↦ rw e (greeting-StartsNone client id)
]

-- A second comer to a host, whoever it is and whatever credentials it brings, joins the session that
-- the first one got: no handler is started, and the map, the recent hosts and the states stay.
pub setup_drac_client_shares :
    (s : Server) (now later : ℕ) (a b : Option ℕ) (host : Text) (given given' : Credentials)
    → IsValid s
    → let (s', id, _) = setup_drac_client s now a host given in
      let (s'', id', effects) = setup_drac_client s' later b host given' in
      (id' ≡ id) × (s'' ≡ join s' id b) × StartsNone effects
unfolding setup_drac_client share_session
setup_drac_client_shares s now later a b host given given' v =
    let r : Server × ℕ × List Effect = setup_drac_client s now a host given in
    rw (setup_drac_client-IsValid s now a host given v).1
      (refl, refl, late_greeting-StartsNone (get_elem? r.0.contexts r.1) b r.1)
