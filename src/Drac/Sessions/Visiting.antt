-- ===== src/Drac/Sessions/Visiting.antt =====
-- A request that joins a session and leaves it at once, as the connect page does.
use dracd.Drac.Sessions.{
  greets, DracCtx, Server, Effect, starts, notifies, new_context, join, leave, late_greeting,
  open_session, share_session, setup_drac_client, teardown_drac_request,
}
use dracd.Common.{
  inr, inl, Option-cases, ℕ, ◌≡◌, refl, ap, List, [], ◌∷◌, ◌++◌, Option, none, some, Text, length,
  get_elem?, get_elem?-append_end, lookup, arith, if◌then◌else◌,
}
use dracd.Drac.Recents.{Credentials, remember}
use dracd.Drac.Sessions.Sharing.{IsValid, opened, opened-IsValid, length-get_elem?}
use dracd.Drac.Sessions.Leaving.{leave-join, left-joined-none}

-- setupDracClient for a request, and teardownDracRequest; with all that goes out.
unfoldable pub visit : Server → ℕ → Text → Credentials → Server × List Effect
unfolding setup_drac_client open_session share_session teardown_drac_request remember
visit s now host c =
    let (s', id, joining) = setup_drac_client s now none host c in
    let (s'', leaving) = teardown_drac_request s' id in (s'', joining ++ leaving)

unjoined : (s : Server) (id : ℕ) → leave (join s id none) id none ≡ s
unjoined s id = leave-join s id none (λ c e. left-joined-none c)

late_greeting-none : (c : Option DracCtx) → late_greeting c none ≡ []
late_greeting-none none = refl
late_greeting-none (some c) = ground arith

-- Of a host with a session.
pub visit_known :
    (s : Server) (now : ℕ) (host : Text) (c : Credentials) (id : ℕ)
    → lookup host s.dracmap ≡ some id
    → visit s now host c ≡ (s, notifies id ∷ notifies id ∷ [])
unfolding visit setup_drac_client share_session teardown_drac_request
visit_known s now host c id e =
    rw (e, late_greeting-none (get_elem? s.contexts id))
      (ap (λ (t : Server). (t, notifies id ∷ notifies id ∷ [])) (unjoined s id))

-- A VNC client joins the session of its host, and is greeted if there was no frame yet.
pub setup_drac_client_known :
    (s : Server) (now client : ℕ) (host : Text) (given : Credentials) (id : ℕ) (c : DracCtx)
    → lookup host s.dracmap ≡ some id
    → get_elem? s.contexts id ≡ some c
    → setup_drac_client s now (some client) host given ≡ (
      join s id (some client),
      id,
      (if c.sent_first_frame then [] else greets client ∷ []) ++ (notifies id ∷ []),
    )
unfolding setup_drac_client share_session
setup_drac_client_known s now client host given id c e there = rw (e, there) refl

-- Of a host without one: it is opened with the credentials, and left with nobody in it.
visit_new :
    (s : Server) (now : ℕ) (host : Text) (c : Credentials)
    → lookup host s.dracmap ≡ none
    → visit s now host c ≡ (
      opened s now host c,
      starts (length s.contexts) (remember host now c s.recent_dracs).0
          ∷ notifies (length s.contexts)
          ∷ notifies (length s.contexts)
          ∷ [],
    )
unfolding visit setup_drac_client open_session teardown_drac_request
visit_new s now host c e = rw e (
    ap
      (λ (t : Server). (
        t,
        starts (length s.contexts) (remember host now c s.recent_dracs).0
            ∷ notifies (length s.contexts)
            ∷ notifies (length s.contexts)
            ∷ [],
      ))
      (unjoined (opened s now host c) (length s.contexts)))

-- Every session of the one server is the same in the other.
abbrev pub Keeps : Server → Server → Type 0
Keeps s t =
    (id : ℕ) (c : DracCtx) → get_elem? s.contexts id ≡ some c → get_elem? t.contexts id ≡ some c

opened-Keeps :
    (s : Server) (now : ℕ) (host : Text) (c : Credentials) → Keeps s (opened s now host c)
opened-Keeps s now host c id ctx e = ground (
  arith,
  get_elem?-append_end s.contexts (new_context host now) id,
  length-get_elem? s.contexts id ctx e,
)

-- A visit keeps a server valid and every session as it was.
pub visit-Keeps :
    (s : Server) (now : ℕ) (host : Text) (c : Credentials)
    → IsValid s
    → IsValid (visit s now host c).0 × Keeps s (visit s now host c).0
visit-Keeps s now host c v = elim (Option-cases (lookup host s.dracmap)) [
  | inl missing ↦
      rw (visit_new s now host c missing) (opened-IsValid s now host c v, opened-Keeps s now host c)
  | inr (id, found) ↦ rw (visit_known s now host c id found) (v, λ i ctx e. e)
]
