-- ===== src/Connection/Any.antt =====
-- A connection, whatever comes over it.
use dracd.Common.{
  ℕ, suc, ◌≡◌, ◌≢◌, refl, List, [], ◌∷◌, Option, none, some, Bool, true, false, Text, length,
  get_elem?, arith, ◌⊎◌, inl, inr, Option-cases,
}
use dracd.Drac.Sessions.{Server, setup_drac_client, teardown_drac_client}
use dracd.Drac.Sessions.Handling.{notified}
use dracd.Drac.Sessions.Signals.{notified-append, setup_notified, teardown_notified}
use dracd.Drac.Sessions.Sharing.{IsValid, setup_drac_client-IsValid, teardown_drac_client-IsValid}
use dracd.Vnc.Reader.{Input}
use dracd.Vnc.Handshake.{handshake}
use dracd.Vnc.Messages.{Action, End, out_of_fuel, client_loop}
use dracd.Vnc.Messages.Safety.{client_loop_ends}
use dracd.Connection.{
  Connection, turned_away, left_loop, program_ended, new_session, no_credentials, stops, ctx_in,
  call_all, behind_loop, serve, greeted, handle_vnc_connection,
}

-- What setupDracClient has done for the client, and the session that it is in then.
abbrev pub joined_server : Server → ℕ → ℕ → Text → Server
joined_server s now client host = (setup_drac_client s now (some client) host no_credentials).0

abbrev pub joined_session : Server → ℕ → ℕ → Text → ℕ
joined_session s now client host = (setup_drac_client s now (some client) host no_credentials).1

-- A program that has ended has found no context.
call_all-nil :
    (servers : ℕ → Server) (id k : ℕ) (calls : List Action)
    → (call_all servers id k calls).1 ≡ false
    → (n : ℕ) × (ctx_in (get_elem? (servers n).contexts id) ≡ none)
unfolding call_all
call_all-nil servers id k [] e = absurd (cc)
call_all-nil servers id k (a ∷ rest) e =
    elim (Option-cases (ctx_in (get_elem? (servers k).contexts id))) [
      | inl nil ↦ (k, nil)
      | inr (p, there) ↦ call_all-nil servers id (suc k) rest (ground (arith, there))
    ]

-- The client is turned away with the server as it was; or it has joined, and the program ends where the context of
-- its session is nil, with nothing torn down; or its loop ends with its input or a panic, and it has left.
abbrev pub Settles : (ℕ → Server → Server) → Server → (now client : ℕ) → Text → Connection → Type 0
Settles meanwhile s now client host k =
    ((k.ending ≡ turned_away) × (k.server ≡ s) × (k.effects ≡ []) × (k.actions ≡ []))
    ⊎ (((k.ending ≡ program_ended)
          × (k.stop_sent ≡ false)
          × (notified (joined_session s now client host) k.effects ≡ 1)
          × ((n : ℕ) × (ctx_in (
                  get_elem? (meanwhile n (joined_server s now client host)).contexts
                    (joined_session s now client host))
                ≡ none)))
        ⊎ ((end : End) × (k.ending ≡ left_loop end)
            × (end ≢ out_of_fuel)
            × (k.stop_sent ≡ stops end)
            × (notified (joined_session s now client host) k.effects ≡ 2)))

module _ (meanwhile : (ℕ → Server → Server))
    (keeps : (n : ℕ) (t : Server) → IsValid t → IsValid (meanwhile n t)) (s : Server)
    (now client : ℕ) (host : Text) (v : IsValid s) where
  behind-Settles :
      (alive : Bool) (n : ℕ) (out : List ℕ) (made : List Action) (end : End)
      → end ≢ out_of_fuel
      → (alive ≡ false
          → (n : ℕ) × (ctx_in (
                get_elem?
                  (meanwhile n (joined_server s now client host)).contexts
                  (joined_session s now client host))
              ≡ none))
      → let k : Connection =
          behind_loop alive
            (meanwhile n (joined_server s now client host))
            (joined_session s now client host)
            client
            out
            (setup_drac_client s now (some client) host no_credentials).2
            made
            end in
        IsValid k.server × Settles meanwhile s now client host k
  behind-Settles true n out made end ends nil =
      let id : ℕ = joined_session s now client host in
      let t : Server = meanwhile n (joined_server s now client host) in
      let valid = (setup_drac_client-IsValid s now (some client) host no_credentials v).0 in
      (
        teardown_drac_client-IsValid t id client (keeps n _ valid),
        inr (
            inr (
              end,
              refl,
              ends,
              refl,
              omega (
                arith,
                notified-append id (setup_drac_client s now (some client) host no_credentials).2
                    (teardown_drac_client t id client).1,
                setup_notified s now client host no_credentials,
                teardown_notified t id client,
              ),
            )),
      )
  behind-Settles false n out made end ends nil =
      let valid = (setup_drac_client-IsValid s now (some client) host no_credentials v).0 in
      (
        keeps n _ valid,
        inr (inl (refl, refl, setup_notified s now client host no_credentials, nil refl)),
      )

  greeted-Settles :
      (r : List ℕ × Option Input)
      → IsValid (greeted meanwhile s now client host r).server
        × Settles meanwhile s now client host (greeted meanwhile s now client host r)
  unfolding greeted serve
  greeted-Settles (out, none) = (v, inl (refl, refl, refl, refl))
  greeted-Settles (out, some input) =
      let loop = client_loop (suc (length input)) new_session input in
      let servers : ℕ → Server = λ k. meanwhile k (joined_server s now client host) in
      let id : ℕ = joined_session s now client host in
      behind-Settles (call_all servers id 0 loop.0).1 (length loop.0) out
        (call_all servers id 0 loop.0).0 loop.1
        (client_loop_ends (suc (length input)) new_session input (omega arith))
        (call_all-nil servers id 0 loop.0)

  -- Whatever comes over a connection, and whatever the others do to a server meanwhile, as long as that keeps
  -- it valid: the server is valid afterwards; and the client was turned away and nothing has happened; or it has
  -- joined a session, with one signal to its handler, and the program has ended with the session's C context nil; or
  -- the message loop has ended with its input or a panic, the stop signal went out exactly if it did not panic, and
  -- the handler was signalled twice, for the coming and the going.
  pub handle_vnc_connection-Settles :
      (input : Input)
      → IsValid (handle_vnc_connection meanwhile s now client host input).server
        × Settles meanwhile s now client host
            (handle_vnc_connection meanwhile s now client host input)
  unfolding handle_vnc_connection
  handle_vnc_connection-Settles input = greeted-Settles (handshake host input)
