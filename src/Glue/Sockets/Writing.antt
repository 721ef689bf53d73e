-- ===== src/Glue/Sockets/Writing.antt =====
-- What the C library writes for a context goes to the socket of that context's session.
use dracd.Common.{
  true, ℕ, ◌≡◌, ◌≤◌, ◌^◌, refl, List, [], ◌∷◌, ◌++◌, some, get_elem?, ok, take, arith, leb,
}
use dracd.Frame.{slice}
use dracd.Drac.Sessions.{DracCtx}
use dracd.Glue.{Refs, ClientCtx, get_drac_ctx}
use dracd.Glue.Table.{Alive, Resolves, Alive-Resolves}
use dracd.Glue.Sockets.{Channel, socket_of, session_of, glue_write_data}

pub Resolves-append :
    (r : Refs) (front back : List (ClientCtx × ℕ)) (ctx : ClientCtx) (d : ℕ)
    → Resolves r (front ++ (ctx, d) ∷ back)
    → get_drac_ctx r ctx ≡ some d
Resolves-append r [] back ctx d h = h.0
Resolves-append r ((c, e) ∷ front) back ctx d h = Resolves-append r front back ctx d h.2

pub session_of_lem :
    (r : Refs) (contexts : List DracCtx) (ctx : ClientCtx) (d : ℕ) (session : DracCtx)
    → get_drac_ctx r ctx ≡ some d
    → get_elem? contexts d ≡ some session
    → session_of r contexts ctx ≡ some session
session_of_lem r contexts ctx d session found there = ground arith

-- Of the contexts that were allocated and not freed, each writes what the C library hands over, of at most
-- 2^30 bytes, to its own session's socket, whatever else was allocated and freed before and after it.
pub glue_write_data_lem :
    {r : Refs} (front back : List (ClientCtx × ℕ)) (ctx : ClientCtx) (d : ℕ) (channel : Channel)
    (contexts : List DracCtx) (session : DracCtx) (socket : ℕ) (buffer : List ℕ) (size : ℕ)
    → Alive r (front ++ (ctx, d) ∷ back)
    → get_elem? contexts d ≡ some session
    → socket_of channel session ≡ some socket
    → size ≤ 2 ^ 30
    → glue_write_data channel r contexts ctx (some buffer) size ≡ ok (socket, take size buffer)
unfolding glue_write_data slice
glue_write_data_lem {r} front back ctx d channel contexts session socket buffer size alive there
      open_ small =
    let found = Resolves-append r front back ctx d (Alive-Resolves alive) in
    let fits : leb size (2 ^ 30) ≡ true = ground arith in
    rw (fits, session_of_lem r contexts ctx d session found there, open_) refl
