-- ===== src/Contexts/Early.antt =====
-- A client that is there before its controller.
use dracd.Common.{ℕ, zero, suc, ◌<◌, ◌≡◌, ◌≢◌, refl, ◌⊎◌, inl, inr, Bool-cases, true, arith}
use dracd.Contexts.{
  Context, unset, allocated, freed, fine, through_nil, access, Session, Opener, begun, Step, lives,
  connects, allocates, starts_video, stops_video, ends_alone, ends_after_video, frees, Reach, here,
  next,
}
use dracd.Contexts.Alive.{fine_of_ne}
use dracd.Contexts.Soundness.{Sound, Reach-Sound, begun-Sound}

lt_or_zero : (n : ℕ) → (0 < n) ⊎ (n ≡ 0)
lt_or_zero zero = inr refl
lt_or_zero (suc n) = inl (omega arith)

-- The context does not go back to nil.
Step-set : {s t : Session} → Step s t → s.ctx ≢ unset → t.ctx ≢ unset
Step-set (lives s m st a) h e = h e
Step-set (connects s r u) h e = h e
Step-set (allocates s r w u) h e = cc
Step-set (starts_video s r u) h e = h e
Step-set (stops_video s n v) h e = h e
Step-set (ends_alone s r z) h e = h e
Step-set (ends_after_video s n r d) h e = h e
Step-set (frees s r u) h e = cc

Reach-set : {s t : Session} → Reach s t → s.ctx ≢ unset → t.ctx ≢ unset
Reach-set here h = h
Reach-set (next r st) h = Step-set st (Reach-set r h)

-- The context of a session that a client is in has not been freed.
unfreed : (s : Session) → Sound s → 0 < s.life.clients → s.ctx ≢ freed
unfreed s h there e = cc (h.over e, h.valid.used (inl there))

-- Whatever happens to a session, while a VNC client is in it, the C library reads through its context for each key
-- and mouse message of the client in one of two ways: through nil, which ends the program, and then no videoReader
-- has been started; or as it should, and then the controller has been connected to, and whatever happens from there
-- on, the C library reads as it should for every later message of a client in the session.
pub input_access :
    (o : Opener) (s t : Session)
    → Reach (begun o) s
    → 0 < s.life.clients
    → Reach s t
    → 0 < t.life.clients
    → ((access s.ctx ≡ through_nil) × (s.started ≡ 0))
      ⊎ ((access s.ctx ≡ fine) × (s.life.has_socket ≡ true) × (access t.ctx ≡ fine))
unfolding access
input_access o s t r there later still = go s.ctx refl
  where
    h : Sound s
    h = Reach-Sound (begun-Sound o) r

    go :
        (c : Context)
        → s.ctx ≡ c
        → ((access c ≡ through_nil) × (s.started ≡ 0))
          ⊎ ((access c ≡ fine) × (s.life.has_socket ≡ true) × (access t.ctx ≡ fine))
    go unset e =
        inl (refl, elim (lt_or_zero s.started) [ inl p ↦ absurd (h.shown p e) | inr z ↦ z ])
    go allocated e = inr (
      refl,
      elim (Bool-cases s.life.has_socket) [ inl t ↦ t | inr f ↦ absurd (cc (h.unconnected f, e)) ],
      fine_of_ne t.ctx (Reach-set later (λ u. cc)) (unfreed t (Reach-Sound h later) still),
    )
    go freed e = absurd (unfreed s h there e)
