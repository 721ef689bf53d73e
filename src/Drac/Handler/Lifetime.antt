-- ===== src/Drac/Handler/Lifetime.antt =====
-- The handler lives as long as its session is used; but a goroutine that leaves can miss its end.
use dracd.Common.{ℕ, suc, ◌+◌, ◌≤◌, ◌<◌, ◌≡◌, true, false, ◌⊎◌, inl, inr, arith}
use dracd.Drac.Handler.{
  Life, is_idle, on_finished, on_signal, on_timeout, Step, client_joins, request_joins,
  client_leaves, request_leaves, frame_comes, wait_ends, Heard, of_client, of_image, of_visitor,
  of_leaver, socket_opens, reader_ends, finishes, signalled, times_out, Reach, here, next,
  opened_by_client, opened_by_request,
}

pub record IsValid (l : Life) : Type 0 where
  pub served : l.registered ≡ true → l.running ≡ true
  pub unfinished : l.registered ≡ true → l.finished ≡ false
  pub gone : l.registered ≡ false → l.finished ≡ true
  pub used : (0 < l.clients) ⊎ (0 < l.others) → l.running ≡ true
  pub ended : l.running ≡ false → l.finished ≡ true
  pub wakes : l.finished ≡ true → l.running ≡ true → is_idle l ≡ true → 0 < l.signals
  pub news : l.new_clients + l.new_others ≤ l.signals
  pub new_inside : l.new_clients ≤ l.clients
  pub inside : l.new_others + l.waiting ≤ l.others
  pub socket : l.socket_closed ≡ true → l.has_socket ≡ true

-- The counts behind a signal.
record Fewer (l : Life) (n a b w : ℕ) : Type 0 where
  clients : a ≤ l.new_clients
  others : b + w ≤ l.new_others + l.waiting
  news : l.signals ≡ suc n → l.new_clients + l.new_others ≤ l.signals → a + b ≤ n

Heard-Fewer : (l : Life) (n a b w : ℕ) → Heard l n a b w → Fewer l n a b w
Heard-Fewer l n a b w (of_client p q r) = ground arith
Heard-Fewer l n a b w (of_image p q r) = ground arith
Heard-Fewer l n a b w (of_visitor p q r) = ground arith
Heard-Fewer l n a b w (of_leaver p q r h) = ground arith

pub Step-IsValid : {l m : Life} → Step l m → IsValid l → IsValid m
unfolding on_finished on_signal on_timeout
Step-IsValid (client_joins l r) v = ground arith
Step-IsValid (request_joins l r) v = ground arith
Step-IsValid (client_leaves l n e i) v = ground arith
Step-IsValid (request_leaves l n e i) v = ground arith
Step-IsValid (frame_comes l) v = ground arith
Step-IsValid (wait_ends l n e f) v = ground arith
Step-IsValid (socket_opens l) v = ground arith
Step-IsValid (reader_ends l) v = ground arith
Step-IsValid (finishes l r e f) v = ground arith
Step-IsValid (signalled l n a b w r e h) v = ground (arith, Heard-Fewer l n a b w h)
Step-IsValid (times_out l r) v = ground arith

pub Reach-IsValid : {l m : Life} → IsValid l → Reach l m → IsValid m
Reach-IsValid v here = v
Reach-IsValid v (next r st) = Step-IsValid st (Reach-IsValid v r)

-- In every state that a session can come to: while it is in the map or anyone is in it, its handler
-- runs; it is out of the map exactly when its control connection has finished; when everyone has left
-- a finished session, a signal is on its way that ends the handler's loop; and the idle timeout closes
-- no socket that is not there.
pub Reach_served : (l : Life) → Reach opened_by_client l ⊎ Reach opened_by_request l → IsValid l
Reach_served l (inl r) = Reach-IsValid (ground arith) r
Reach_served l (inr r) = Reach-IsValid (ground arith) r

-- The handler has ended, and some goroutines are at the send on clientEvent.
record Stranded (n : ℕ) (l : Life) : Type 0 where
  ended : l.running ≡ false
  waiting : n ≤ l.signals

Step-Stranded : {n : ℕ} {l m : Life} → Step l m → Stranded n l → Stranded n m
Step-Stranded (client_joins l r) h = ground arith
Step-Stranded (request_joins l r) h = ground arith
Step-Stranded (client_leaves l n e i) h = ground arith
Step-Stranded (request_leaves l n e i) h = ground arith
Step-Stranded (frame_comes l) h = ground arith
Step-Stranded (wait_ends l n e f) h = ground arith
Step-Stranded (socket_opens l) h = ground arith
Step-Stranded (reader_ends l) h = ground arith
Step-Stranded (finishes l r e f) h = ground arith
Step-Stranded (signalled l n a b w r e i) h = ground arith
Step-Stranded (times_out l r) h = ground arith

Reach-Stranded : {n : ℕ} {l m : Life} → Reach l m → Stranded n l → Stranded n m
Reach-Stranded here h = h
Reach-Stranded (next r st) h = Step-Stranded st (Reach-Stranded r h)

-- Where one request is left in a session whose control reader has ended, and the handler has taken the signal of
-- its coming and it does not wait for the first frame, the request may leave and the
-- handler end before it takes the request's signal: then in all that can follow, that goroutine and
-- those that waited before it wait on.
pub request_leaves_stranded :
    (l : Life)
    → l.running ≡ true
    → l.reader_ended ≡ true
    → l.finished ≡ false
    → l.others ≡ 1
    → l.clients ≡ 0
    → l.new_others ≡ 0
    → l.waiting ≡ 0
    → (m : Life) × Reach l m
      × (m.running ≡ false)
      × ((k : Life) → Reach m k → (k.running ≡ false) × (l.signals + 1 ≤ k.signals))
unfolding on_finished
request_leaves_stranded l r e f o c heard past =
    let left : Life = record l { others = 0; signals = l.signals + 1 } in
    let m : Life = on_finished left in
    let stranded : Stranded (l.signals + 1) m = ground arith in
    (
      m,
      next (next here (request_leaves l 0 o (omega (arith, heard, past)))) (finishes left r e f),
      stranded.ended,
      λ k reach. let h = Reach-Stranded reach stranded in (h.ended, h.waiting),
    )
