-- ===== src/Drac/Sessions/Finishing.antt =====
-- The end of a control connection, as dracHandler takes it.
use dracd.Common.{
  ℕ, ◌≡◌, [], none, some, true, false, not, Text, lookup, lookup-delete, same_bytes_self, arith,
  if◌then◌else◌,
}
use dracd.Drac.Sessions.{DracCtx, Server, finish_session}
use dracd.Drac.Sessions.Sharing.{IsValid}
use dracd.Drac.Sessions.Handling.{Shows}
use dracd.Drac.Handler.{Life, Step, finishes, on_finished}

lookup-finish_session :
    (s : Server) (c : DracCtx) (other : Text) (id : ℕ)
    → lookup other (finish_session s c).0.dracmap ≡ some id
    → lookup other s.dracmap ≡ some id
unfolding finish_session
lookup-finish_session s c other id e = ground (arith, lookup-delete c.host other s.dracmap)

pub finish_session-IsValid : (s : Server) (c : DracCtx) → IsValid s → IsValid (finish_session s c).0
unfolding finish_session
finish_session-IsValid s c v = record {
  registered = λ other id e. v.registered other id (lookup-finish_session s c other id e);
  distinct = v.distinct;
  ten = v.ten;
}

-- The session when its control connection has finished: nobody finds it in the map, the server is valid, and
-- either the handler's loop is left or all clients' connections are closed.
pub record Finished (s : Server) (host : Text) (c : DracCtx) (l : Life) : Type 0 where
  pub valid : IsValid (finish_session s c).0
  pub unmapped : lookup c.host (finish_session s c).0.dracmap ≡ none
  pub loop : (on_finished l).running ≡ not (finish_session s c).2
  pub closed : (finish_session s c).1 ≡ (if (on_finished l).running then c.vnc_clients else [])

-- When the control connection of a session finishes, what its handler does on the server, which stays valid,
-- is the step of the session that ends its registration: the host is no longer in the map, and the handler
-- leaves its loop if nobody is in the session, and else closes the connections of all its clients.
pub finish_session-Step :
    (s : Server) (host : Text) (id : ℕ) (l : Life) (h : Shows s host id l)
    → IsValid s
    → l.running ≡ true
    → l.reader_ended ≡ true
    → l.finished ≡ false
    → Step l (on_finished l)
      × Shows (finish_session s h.ctx).0 host id (on_finished l)
      × Finished s host h.ctx l
unfolding finish_session on_finished
finish_session-Step s host id l h v running ended unfinished = (
  finishes l running ended unfinished,
  record {
    ctx = h.ctx;
    there = h.there;
    clients = h.clients;
    others = h.others;
    mapped = λ e. absurd (cc);
  },
  record {
    valid = finish_session-IsValid s h.ctx v;
    unmapped =
        ground (arith, lookup-delete h.ctx.host h.ctx.host s.dracmap, same_bytes_self h.ctx.host);
    loop = rw (h.others, h.clients) (ground arith);
    closed = rw (h.others, h.clients) (ground arith);
  },
)
