-- ===== src/Contexts/Ending.antt =====
-- How a session goes on to its end.
use dracd.Contexts.Soundness.{begun-Sound, Sound, Reach-Sound}
use dracd.Common.{
  ℕ, zero, suc, ◌+◌, ◌-◌, ◌<◌, ◌≡◌, ◌≢◌, ◌⊎◌, refl, subst, inl, inr, true, false, Bool-cases, arith,
}
use dracd.Drac.Handler
use dracd.Drac.Handler.{
  Life, on_finished, reader_ends, client_leaves, request_leaves, wait_ends, signalled, finishes,
}
use dracd.Drac.Handler.Lifetime
use dracd.Drac.Handler.Lifetime.{Step-IsValid}
use dracd.Drac.Handler.Winding.{IsDeparture, winds}
use dracd.Contexts.{
  Context, unset, allocated, freed, Session, Opener, begun, IsApart, lives, stops_video, ends_alone,
  ends_after_video, frees, Reach, here, next,
}

departs-IsApart : (s : Session) {l m : Life} (st : Handler.Step l m) → IsDeparture st → IsApart s st
departs-IsApart s (client_leaves l n e i) d = tt
departs-IsApart s (request_leaves l n e i) d = tt
departs-IsApart s (signalled l n a b w r e h) d = tt
departs-IsApart s (Handler.client_joins l r) d = absurd d
departs-IsApart s (Handler.request_joins l r) d = absurd d
departs-IsApart s (wait_ends l n e f) d = tt
departs-IsApart s (Handler.frame_comes l) d = absurd d
departs-IsApart s (Handler.socket_opens l) d = absurd d
departs-IsApart s (reader_ends l) d = absurd d
departs-IsApart s (finishes l r e f) d = absurd d
departs-IsApart s (Handler.times_out l r) d = absurd d

-- `t`, with `l` as what its handler sees, comes from `s`.
abbrev pub Left : Session → Session → Life → Type 0
Left s t l = Reach s (record t { life = l })

wind :
    (s t : Session) (l : Life)
    → Left s t l
    → Lifetime.IsValid l
    → l.framed ≡ true
    → l.finished ≡ true
    → l.running ≡ true
    → (m : Life) × Left s t m × (m.running ≡ false)
wind s t l reached v shown fin on =
    let (m, later, none, nobody, over) =
      winds (Left s t)
        (λ (m n : Life) st d reach.
          let u : Session = record t { life = m } in
          next reach (lives u n st (departs-IsApart u st d)))
        l reached v shown fin on in
    (m, later, over)

zero-or-pos : (n : ℕ) → (n ≡ 0) ⊎ (0 < n)
zero-or-pos zero = inl refl
zero-or-pos (suc n) = inr (omega arith)

-- Once ctrlReader has ended behind a first frame, the handler takes its signal, and everyone can leave behind it.
pub handler_ends :
    (s t : Session)
    → Reach s t
    → Lifetime.IsValid t.life
    → t.life.reader_ended ≡ true
    → t.life.framed ≡ true
    → (l : Life) × Left s t l × (l.running ≡ false)
handler_ends s t r valid read framed = elim (Bool-cases t.life.running) [
  | inr over ↦ (t.life, r, over)
  | inl on ↦ elim (Bool-cases t.life.finished) [
    | inl fin ↦ wind s t t.life r valid framed fin on
    | inr unfinished ↦ heard on unfinished
  ]
]
  where
    heard :
        t.life.running ≡ true
        → t.life.finished ≡ false
        → (m : Life) × Left s t m × (m.running ≡ false)
    heard on unfinished =
        let st = finishes t.life on read unfinished in
        let l : Life = on_finished t.life in
        let reached : Left s t l = next r (lives t l st tt) in
        elim (Bool-cases l.running) [
          | inl on' ↦
              wind s t l reached (Step-IsValid st valid) (unfold on_finished in framed)
                (unfold on_finished in refl) on'
          | inr over ↦ (l, reached, over)
        ]

-- The videoReaders come to their ends.
videos_stop :
    (s t : Session) (n : ℕ)
    → Reach s t
    → t.video ≡ n
    → (d : ℕ) × Reach s (record t { video = 0; done = d })
videos_stop s t zero r e = (t.done, subst (λ n. Reach s (record t { video = n })) e r)
videos_stop s t (suc n) r e =
    videos_stop s (record t { video = n; done = suc t.done }) n (next r (stops_video t n e)) refl

abbrev Later : Session → (Session → Type 0) → Type 0
Later s P = (t : Session) × Reach s t × P t

abbrev HasRead : Session → Type 0
HasRead t = (t.life.reader_ended ≡ true) × (t.video ≡ 0) × (t.life.framed ≡ true)

-- ctrlReader waits for a videoReader, if it has started one.
waits :
    (s t : Session) (k : ℕ)
    → Reach s t
    → t.life.reader_ended ≡ false
    → t.video ≡ 0
    → t.started ≡ k
    → t.done ≡ k
    → t.life.framed ≡ true
    → Later s HasRead
waits s t zero r reading none e d f = (_, next r (ends_alone t reading e), (refl, none, f))
waits s t (suc k) r reading none e d f =
    (_, next r (ends_after_video t k reading d), (refl, none, f))

reader_stops : (s : Session) → Sound s → s.life.framed ≡ true → Later s HasRead
reader_stops s h framed =
    let (d, r) = videos_stop s s s.video here refl in
    let t : Session = record s { video = 0; done = d } in
    elim (Bool-cases s.life.reader_ended) [
      | inl over ↦ (t, r, (over, refl, framed))
      | inr reading ↦
          let all : 0 + d ≡ s.started = (Reach-Sound h r).all_started reading in
          waits s t s.started r reading refl refl (omega (arith, all)) framed
    ]

abbrev HasEnded : Session → Type 0
HasEnded t = (t.life.running ≡ false) × (t.video ≡ 0) × (t.ctx ≢ allocated)

-- dracHandler frees the context, if there is one.
frees_last :
    (s t : Session) (c : Context)
    → Reach s t
    → t.life.running ≡ false
    → t.video ≡ 0
    → t.ctx ≡ c
    → Later s HasEnded
frees_last s t unset r over none e = (t, r, (over, none, λ f. cc))
frees_last s t allocated r over none e = (_, next r (frees t over e), (over, none, λ f. cc))
frees_last s t freed r over none e = (t, r, (over, none, λ f. cc))

-- All videoReaders but the one that ctrlReader has waited for stand at their send.
stuck : (t : Session) → Sound t → t.life.running ≡ false → t.video ≡ 0 → t.done ≡ t.started - 1
stuck t h over none = elim (zero-or-pos t.started) [
  | inl z ↦ omega (arith, h.none_left z)
  | inr p ↦ omega (arith, h.one_waited (h.read (h.valid.ended over)) p)
]

-- Whatever has happened to a session that has had its first frame, it can come to its end, where its handler has
-- ended, no videoReader is in its loop, and its C context has been freed or was never allocated; and of the
-- videoReaders that were started, all but one are left at the send on videoFinishedEvent.
pub context_returned :
    (o : Opener) (s : Session)
    → Reach (begun o) s
    → s.life.framed ≡ true
    → (t : Session) × Reach s t
      × (t.life.running ≡ false)
      × (t.video ≡ 0)
      × (t.ctx ≢ allocated)
      × (t.done ≡ t.started - 1)
context_returned o s r framed =
    let h = Reach-Sound (begun-Sound o) r in
    let (t, stopped, (read, none, shown)) = reader_stops s h framed in
    let (l, left, over) = handler_ends s t stopped (Reach-Sound h stopped).valid read shown in
    let (u, last, (ended, gone, freed_last)) =
      frees_last s (record t { life = l }) t.ctx left over none refl in
    (u, last, ended, gone, freed_last, stuck u (Reach-Sound h last) ended gone)
