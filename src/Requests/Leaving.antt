-- ===== src/Requests/Leaving.antt =====
-- Requests that leave, once there is a frame.
use dracd.Requests.Closing.{Reach-IsAnnounced}
use dracd.Requests.Counts.{Counted, Step-Counted, Reach-Counted}
use dracd.Common.{
  ◌∙◌, ℕ, zero, suc, ◌+◌, ◌-◌, ◌<◌, inr, ◌≡◌, refl, ap, subst, List, true, Text, arith,
}
use dracd.Drac.Sessions.{DracState}
use dracd.Streaming.{Stream}
use dracd.Requests.{
  Step, Session, Entrant, begun, joins, arrives, passes, answered, departs, Reach, here, next,
}

-- A state of the same session, with as many requests at each place, and with its frames as they were.
record Later (s : Session) (joining arriving waiting let_in visiting : ℕ) : Type 0 where
  session : Session
  reach : Reach s session
  counted : Counted session
  joins_in : session.joining ≡ joining
  arrives_in : session.arriving ≡ arriving
  waits : session.waiting ≡ waiting
  inside : session.let_in ≡ let_in
  visitors : session.visiting ≡ visiting
  same : session.stream ≡ s.stream
  closed : 0 < session.stream.video.session.first_frame_closes

-- While a request is in the session, its handler runs.
runs : (s : Session) → Counted s → 0 < s.life.others → s.life.running ≡ true
runs s h used = h.valid.used (inr used)

module _ (s : Session) where
  -- One step more.
  onward :
      {j a w i v j' a' w' i' v' : ℕ} {t : Session} (l : Later s j a w i v)
      → Step l.session t
      → t.stream ≡ l.session.stream
      → (t.joining ≡ j')
        × (t.arriving ≡ a')
        × (t.waiting ≡ w')
        × (t.let_in ≡ i')
        × (t.visiting ≡ v')
      → Later s j' a' w' i' v'
  onward {t} l st kept (joins_in, arrives_in, waits, inside, visitors) = record {
    session = t;
    reach = next l.reach st;
    counted = Step-Counted st l.counted;
    joins_in = joins_in;
    arrives_in = arrives_in;
    waits = waits;
    inside = inside;
    visitors = visitors;
    same = kept ∙ l.same;
    closed = omega (arith, ap (λ (x : Stream). x.video.session.first_frame_closes) kept, l.closed);
  }

  all_join : (j a w i v k : ℕ) → j + w ≡ k → Later s j a w i v → Later s 0 a k i v
  all_join zero a w i v k e l = subst (λ n. Later s 0 a n i v) (omega (arith, e)) l
  all_join (suc j) a w i v k e l =
      let t : Session = l.session in
      let running = runs t l.counted (omega (arith, l.counted.counted, l.joins_in)) in
      let signal : t.life.signals ≡ suc (t.life.signals - 1) =
        omega (arith, l.counted.valid.news, l.counted.asking, l.joins_in) in
      let asks : t.life.new_others ≡ suc (t.life.new_others - 1) =
        omega (arith, l.counted.asking, l.joins_in) in
      let st =
        joins t j (t.life.signals - 1) (t.life.new_others - 1) l.joins_in running signal asks in
      all_join j a (suc w) i v k (omega (arith, e))
        (onward l st refl (refl, l.arrives_in, ap suc l.waits, l.inside, l.visitors))

  all_arrive : (a w i v k : ℕ) → a + v ≡ k → Later s 0 a w i v → Later s 0 0 w i k
  all_arrive zero w i v k e l = subst (λ n. Later s 0 0 w i n) (omega (arith, e)) l
  all_arrive (suc a) w i v k e l =
      let t : Session = l.session in
      let running = runs t l.counted (omega (arith, l.counted.counted, l.arrives_in)) in
      let signal : t.life.signals ≡ suc (t.life.signals - 1) =
        omega (arith, l.counted.valid.news, l.counted.asking, l.arrives_in) in
      let asks : t.life.new_others ≡ suc (t.life.new_others - 1) =
        omega (arith, l.counted.asking, l.arrives_in) in
      let st =
        arrives t a (t.life.signals - 1) (t.life.new_others - 1) l.arrives_in running signal asks in
      all_arrive a w i (suc v) k (omega (arith, e))
        (onward l st refl (l.joins_in, refl, l.waits, l.inside, ap suc l.visitors))

  all_pass : (w i v k : ℕ) → w + i ≡ k → Later s 0 0 w i v → Later s 0 0 0 k v
  all_pass zero i v k e l = subst (λ n. Later s 0 0 0 n v) (omega (arith, e)) l
  all_pass (suc w) i v k e l =
      let t : Session = l.session in
      let stands : t.life.waiting ≡ suc (t.life.waiting - 1) =
        omega (arith, l.counted.waits, l.waits) in
      let st = passes t w (t.life.waiting - 1) l.waits stands (ground (arith, l.closed)) in
      all_pass w (suc i) v k (omega (arith, e))
        (onward l st refl (l.joins_in, l.arrives_in, refl, ap suc l.inside, l.visitors))

  all_answered : (i v : ℕ) → Later s 0 0 0 i v → Later s 0 0 0 0 v
  all_answered zero v l = l
  all_answered (suc i) v l =
      let t : Session = l.session in
      let one : t.life.others ≡ suc (t.life.others - 1) =
        omega (arith, l.counted.counted, l.inside) in
      let st = answered t i (t.life.others - 1) l.inside one in
      all_answered i v (onward l st refl (l.joins_in, l.arrives_in, l.waits, refl, l.visitors))

  all_depart : (v : ℕ) → Later s 0 0 0 0 v → Later s 0 0 0 0 0
  all_depart zero l = l
  all_depart (suc v) l =
      let t : Session = l.session in
      let one : t.life.others ≡ suc (t.life.others - 1) =
        omega (arith, l.counted.counted, l.visitors) in
      let st = departs t v (t.life.others - 1) l.visitors one in
      all_depart v (onward l st refl (l.joins_in, l.arrives_in, l.waits, l.inside, refl))

all_gone : (s : Session) (l : Later s 0 0 0 0 0) → l.session.life.others ≡ 0
all_gone s l =
    omega (arith, l.counted.counted, l.joins_in, l.arrives_in, l.waits, l.inside, l.visitors)

-- From every state that a session can come to behind its first frame, all requests in it can join, get past
-- their wait and leave, with the frames as they were.
pub frame_lets_go :
    (e : Entrant) (host : Text) (now : ℕ) (states : List (Text × DracState)) (s : Session)
    → Reach (begun e host now states) s
    → s.stream.video.session.sent_first_frame ≡ true
    → (t : Session) × Reach s t
      × (t.joining ≡ 0)
      × (t.waiting ≡ 0)
      × (t.life.others ≡ 0)
      × (t.stream ≡ s.stream)
frame_lets_go e host now states s r sent =
    let start : Later s s.joining s.arriving s.waiting s.let_in s.visiting = record {
      session = s;
      reach = here;
      counted = Reach-Counted e host now states r;
      joins_in = refl;
      arrives_in = refl;
      waits = refl;
      inside = refl;
      visitors = refl;
      same = refl;
      closed = omega (arith, (Reach-IsAnnounced host now states e r).sent sent);
    } in
    let joined =
      all_arrive s s.arriving _ s.let_in s.visiting _ refl
        (all_join s s.joining s.arriving s.waiting s.let_in s.visiting _ refl start) in
    let end = all_depart s _ (all_answered s _ _ (all_pass s _ s.let_in _ _ refl joined)) in
    (end.session, end.reach, end.joins_in, end.waits, all_gone s end, end.same)
