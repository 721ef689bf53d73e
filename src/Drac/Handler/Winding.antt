-- ===== src/Drac/Handler/Winding.antt =====
-- How a session whose control connection has finished comes to its end.
use dracd.Drac.Handler.{
  Step, Life, on_signal, without_signal, of_client, of_image, of_leaver, client_leaves,
  request_leaves, wait_ends, signalled,
}
use dracd.Common.{ℕ, zero, suc, ◌+◌, ◌-◌, ◌≡◌, refl, subst, true, false, arith}
use dracd.Drac.Handler.Lifetime.{IsValid, Step-IsValid}

-- The steps of those that come to their message loop or to the end of their wait and leave, and of the handler
-- that takes their signals.
abbrev pub IsDeparture : {l m : Life} → Step l m → Type 0
IsDeparture (client_leaves l n e i) = Unit
IsDeparture (request_leaves l n e i) = Unit
IsDeparture (wait_ends l n e f) = Unit
IsDeparture (signalled l n a b w r e h) = Unit
IsDeparture _ = ⊥

-- A state in which the handler still runs, and which `R` says to be reached: the new clients and requests, those
-- that wait, and all of them.
record Later (R : Life → Type 0) (a b w clients others : ℕ) : Type 0 where
  life : Life
  reach : R life
  valid : IsValid life
  news : life.new_clients ≡ a
  asking : life.new_others ≡ b
  waits : life.waiting ≡ w
  no_clients : life.clients ≡ clients
  no_others : life.others ≡ others
  framed : life.framed ≡ true
  finished : life.finished ≡ true
  running : life.running ≡ true

signals_left :
    (l : Life)
    → IsValid l
    → l.finished ≡ true
    → l.running ≡ true
    → l.clients ≡ 0
    → l.others ≡ 0
    → l.signals ≡ suc (l.signals - 1)
signals_left l v finished running clients others = ground (arith, v.wakes)

-- When everyone has left a session that has finished, the next signal that is taken is the last.
last_signal :
    (l : Life) (n a b w : ℕ)
    → l.finished ≡ true
    → l.clients ≡ 0
    → l.others ≡ 0
    → let m : Life = on_signal (without_signal l n a b w) in
      (m.clients ≡ 0) × (m.others ≡ 0) × (m.running ≡ false)
unfolding on_signal
last_signal l n a b w finished clients others = ground arith

-- What a signal leaves while someone is in the session.
record Unchanged (l m : Life) : Type 0 where
  clients : m.clients ≡ l.clients
  others : m.others ≡ l.others
  framed : m.framed ≡ l.framed
  finished : m.finished ≡ l.finished

heard-Unchanged : (l : Life) (n a b w : ℕ) → Unchanged l (on_signal (without_signal l n a b w))
unfolding on_signal
heard-Unchanged l n a b w = ground arith

goes_on :
    (l : Life) (n a b w k : ℕ)
    → l.clients + l.others ≡ suc k
    → (on_signal (without_signal l n a b w)).running ≡ true
unfolding on_signal
goes_on l n a b w k e = ground arith

counts :
    (l : Life) (n a b w : ℕ)
    → let m : Life = on_signal (without_signal l n a b w) in
      (m.new_clients ≡ a) × (m.new_others ≡ b) × (m.waiting ≡ w)
unfolding on_signal
counts l n a b w = (refl, refl, refl)

-- Whatever is closed under departures comes from such a state to one in which the handler has ended.
module _ (R : Life → Type 0)
    (moves : (l m : Life) (st : Step l m) → IsDeparture st → R l → R m) where
  clients_heard : (a b w c o : ℕ) → Later R a b w c o → Later R 0 b w c o
  clients_heard zero b w c o x = x
  clients_heard (suc a) b w c o x =
      let l : Life = x.life in
      let n : ℕ = l.signals - 1 in
      let taken : l.signals ≡ suc n = omega (arith, x.valid.news, x.news) in
      let one : l.clients + l.others ≡ suc (l.clients + l.others - 1) =
        omega (arith, x.valid.new_inside, x.news) in
      let st = signalled l n a b w x.running taken (of_client x.news x.asking x.waits) in
      let kept = heard-Unchanged l n a b w in
      let shown = counts l n a b w in
      clients_heard a b w c o (record {
        life = on_signal (without_signal l n a b w);
        reach = moves _ _ st tt x.reach;
        valid = Step-IsValid st x.valid;
        news = shown.0;
        asking = shown.1;
        waits = shown.2;
        no_clients = cc (kept.clients, x.no_clients);
        no_others = cc (kept.others, x.no_others);
        framed = cc (kept.framed, x.framed);
        finished = cc (kept.finished, x.finished);
        running = goes_on l n a b w _ one;
      })

  requests_heard : (b w k c o : ℕ) → b + w ≡ k → Later R 0 b w c o → Later R 0 0 k c o
  requests_heard zero w k c o e x = subst (λ n. Later R 0 0 n c o) (omega (arith, e)) x
  requests_heard (suc b) w k c o e x =
      let l : Life = x.life in
      let n : ℕ = l.signals - 1 in
      let taken : l.signals ≡ suc n = omega (arith, x.valid.news, x.asking) in
      let one : l.clients + l.others ≡ suc (l.clients + l.others - 1) =
        omega (arith, x.valid.inside, x.asking) in
      let later : suc l.waiting ≡ suc w = omega (arith, x.waits) in
      let st = signalled l n 0 b (suc w) x.running taken (of_image x.news x.asking later) in
      let kept = heard-Unchanged l n 0 b (suc w) in
      let shown = counts l n 0 b (suc w) in
      requests_heard b (suc w) k c o (omega (arith, e)) (record {
        life = on_signal (without_signal l n 0 b (suc w));
        reach = moves _ _ st tt x.reach;
        valid = Step-IsValid st x.valid;
        news = shown.0;
        asking = shown.1;
        waits = shown.2;
        no_clients = cc (kept.clients, x.no_clients);
        no_others = cc (kept.others, x.no_others);
        framed = cc (kept.framed, x.framed);
        finished = cc (kept.finished, x.finished);
        running = goes_on l n 0 b (suc w) _ one;
      })

  waits_end : (w c o : ℕ) → Later R 0 0 w c o → Later R 0 0 0 c o
  waits_end zero c o x = x
  waits_end (suc w) c o x =
      let st = wait_ends x.life w x.waits x.framed in
      waits_end w c o (record {
        life = record x.life { waiting = w };
        reach = moves _ _ st tt x.reach;
        valid = Step-IsValid st x.valid;
        news = x.news;
        asking = x.asking;
        waits = refl;
        no_clients = x.no_clients;
        no_others = x.no_others;
        framed = x.framed;
        finished = x.finished;
        running = x.running;
      })

  clients_leave : (c o : ℕ) → Later R 0 0 0 c o → Later R 0 0 0 0 o
  clients_leave zero o x = x
  clients_leave (suc c) o x =
      let st = client_leaves x.life c x.no_clients (omega (arith, x.news)) in
      clients_leave c o (record {
        life = record x.life { clients = c; signals = x.life.signals + 1 };
        reach = moves _ _ st tt x.reach;
        valid = Step-IsValid st x.valid;
        news = x.news;
        asking = x.asking;
        waits = x.waits;
        no_clients = refl;
        no_others = x.no_others;
        framed = x.framed;
        finished = x.finished;
        running = x.running;
      })

  requests_leave : (o : ℕ) → Later R 0 0 0 0 o → Later R 0 0 0 0 0
  requests_leave zero x = x
  requests_leave (suc o) x =
      let st = request_leaves x.life o x.no_others (omega (arith, x.asking, x.waits)) in
      requests_leave o (record {
        life = record x.life { others = o; signals = x.life.signals + 1 };
        reach = moves _ _ st tt x.reach;
        valid = Step-IsValid st x.valid;
        news = x.news;
        asking = x.asking;
        waits = x.waits;
        no_clients = x.no_clients;
        no_others = refl;
        framed = x.framed;
        finished = x.finished;
        running = x.running;
      })

  ends :
      Later R 0 0 0 0 0 → (m : Life) × R m × (m.clients ≡ 0) × (m.others ≡ 0) × (m.running ≡ false)
  ends x =
      let l : Life = x.life in
      let n : ℕ = l.signals - 1 in
      let taken = signals_left l x.valid x.finished x.running x.no_clients x.no_others in
      let ended = last_signal l n 0 0 0 x.finished x.no_clients x.no_others in
      let st =
        signalled l n 0 0 0 x.running taken (of_leaver x.news x.asking x.waits (omega arith)) in
      (on_signal (without_signal l n 0 0 0), moves _ _ st tt x.reach, ended.0, ended.1, ended.2)

  pub winds :
      (l : Life)
      → R l
      → IsValid l
      → l.framed ≡ true
      → l.finished ≡ true
      → l.running ≡ true
      → (m : Life) × R m × (m.clients ≡ 0) × (m.others ≡ 0) × (m.running ≡ false)
  winds l reach valid framed finished running =
      let start : Later R l.new_clients l.new_others l.waiting l.clients l.others = record {
        life = l;
        reach = reach;
        valid = valid;
        news = refl;
        asking = refl;
        waits = refl;
        no_clients = refl;
        no_others = refl;
        framed = framed;
        finished = finished;
        running = running;
      } in
      let heard =
        requests_heard l.new_others l.waiting _ l.clients l.others refl
          (clients_heard l.new_clients l.new_others l.waiting l.clients l.others start) in
      let through = waits_end _ l.clients l.others heard in
      ends (requests_leave l.others (clients_leave l.clients l.others through))
