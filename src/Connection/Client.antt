-- ===== src/Connection/Client.antt =====
-- A client that follows the protocol, from its first byte to its last.
use dracd.Common.{
  ℕ, suc, ◌<◌, ◌≡◌, refl, ap, ◌∙◌, List, [], ◌∷◌, ◌++◌, some, true, false, Text, All, length,
  get_elem?, get_elem?-modify, lookup, arith, if◌then◌else◌,
}
use dracd.Drac.Sessions.{
  DracCtx, Server, Effect, greets, notifies, closes, has_client, joined, join,
}
use dracd.Drac.Sessions.Leaving.{teardown-join}
use dracd.Drac.Sessions.Visiting.{setup_drac_client_known}
use dracd.Vnc.Handshake.Accepts.{
  version_line, version_of, transcript, choice, handshake-version_line,
}
use dracd.Vnc.Messages.{Action, closed}
use dracd.Vnc.Messages.Client.{
  Message, encode_all, asks_all, accept_all, Fits, client_loop-encode_all, length-encode_all,
}
use dracd.Connection.{
  left_loop, new_session, no_credentials, call_all, serve, greeted, handle_vnc_connection,
}

-- What goes out for a client of a session: the connecting image, if there was no frame yet, and a signal for
-- its coming and its going, with the close of its video channel.
abbrev pub visit_effects : DracCtx → (id client : ℕ) → List Effect
visit_effects c id client =
    (if c.sent_first_frame then [] else greets client ∷ [])
    ++ (notifies id ∷ closes client ∷ notifies id ∷ [])

joining_effects :
    (c : DracCtx) (id client : ℕ)
    → ((if c.sent_first_frame then [] else greets client ∷ []) ++ (notifies id ∷ []))
        ++ (closes client ∷ notifies id ∷ [])
      ≡ visit_effects c id client
joining_effects c id client = ground arith

module _ (s : Server) (now client id : ℕ) (host : Text) (c : DracCtx)
    (mapped : lookup host s.dracmap ≡ some id) (there : get_elem? s.contexts id ≡ some c)
    (new : has_client client c.vnc_clients ≡ false) (p : ℕ) (allocated : c.ctx ≡ some p) where
  -- Every call finds the context.
  call_all-join :
      (k : ℕ) (calls : List Action)
      → call_all (λ _. join s id (some client)) id k calls ≡ (calls, true)
  unfolding call_all
  call_all-join k [] = refl
  call_all-join k (a ∷ rest) = ground (
    arith,
    call_all-join (suc k) rest,
    there,
    get_elem?-modify s.contexts id id (joined (some client)),
  )

  serve-encode_all :
      (out : List ℕ) (ms : List Message)
      → All Fits ms
      → serve (λ _ t. t) s now client host out (encode_all ms) ≡ record {
        written = out;
        server = s;
        effects = visit_effects c id client;
        actions = asks_all new_session ms;
        stop_sent = true;
        ending = left_loop (closed (accept_all new_session ms));
      }
  unfolding serve
  serve-encode_all out ms fits =
      let loop =
        client_loop-encode_all (suc (length (encode_all ms))) new_session ms fits
          (omega (arith, length-encode_all ms)) in
      let known = setup_drac_client_known s now client host no_credentials id c mapped there in
      let left = teardown-join s id client c there new in
      let called = call_all-join 0 (asks_all new_session ms) in
      rw (known, loop, called, left.1, joining_effects c id client) refl

  -- A client that is new to the session of a host, whose C context is allocated, and that follows the protocol: it
  -- sends its version line, from
  -- 3.7 on a security type, the shared flag, and then some messages whose fields fit and which press no key
  -- 255. The server has then written the transcript of that version; the calls are those that the messages
  -- ask for; the client was greeted if there was no frame yet, and its video channel closed once; the stop
  -- signal went out; and if nobody else changed the server, it is as it was before the client came.
  pub handle_vnc_connection-encode_all :
      (a b d kind shared : ℕ) (ms : List Message)
      → a < 10
      → b < 10
      → d < 10
      → All Fits ms
      → handle_vnc_connection
          (λ _ t. t)
          s
          now
          client
          host
          (version_line a b d ++ (choice (version_of a b d) kind ++ (shared ∷ encode_all ms)))
        ≡ record {
          written = transcript (version_of a b d) host;
          server = s;
          effects = visit_effects c id client;
          actions = asks_all new_session ms;
          stop_sent = true;
          ending = left_loop (closed (accept_all new_session ms));
        }
  unfolding handle_vnc_connection greeted
  handle_vnc_connection-encode_all a b d kind shared ms ha hb hd fits =
      let shaken = handshake-version_line host a b d kind shared (encode_all ms) ha hb hd in
      ap (greeted (λ _ t. t) s now client host) shaken
      ∙ serve-encode_all (transcript (version_of a b d) host) ms fits
