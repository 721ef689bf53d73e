-- ===== src/Vnc/Pacing/Paced.antt =====
-- A client gets no frame that it has not asked for.
use dracd.Common.{ℕ, suc, ◌+◌, ◌≤◌, ◌≡◌, refl, ap, List, [], ◌∷◌, length, All, arith, ◌⊎◌, inl, inr}
use dracd.Vnc.Messages.{Session, Action, send_key, send_mouse, request_update}
use dracd.Vnc.Messages.Client.{Message, encode_all, length-encode_all, Fits, client_loop-encode_all}
use dracd.Vnc.Messages.Client.Requests.{requests, update_requests, requests-asks_all}
use dracd.Vnc.Writer.Owing.{owed, IsServing, step-owed, requested-owed, stops-owed}
use dracd.Vnc.Pacing.{
  Dialogue, begun, IsInput, Step, sends_input, asks_frame, goes_on, ends, Reach, here, next,
}

-- Of `n` requests each was answered, or is pending, or still to be made; and the writers serve while there
-- are calls to be made.
pub record Paced (n : ℕ) (d : Dialogue) : Type 0 where
  pub account : owed d.writers + requests d.todo ≡ n
  pub serving : IsServing d.writers ⊎ (d.todo ≡ [])

requests-input : (a : Action) (rest : List Action) → IsInput a → requests (a ∷ rest) ≡ requests rest
unfolding requests
requests-input (send_key keycode down) rest i = refl
requests-input (send_mouse x y mask event) rest i = refl
requests-input request_update rest i = absurd i

requests-update : (rest : List Action) → requests (request_update ∷ rest) ≡ suc (requests rest)
unfolding requests
requests-update rest = refl

still :
    (d : Dialogue) (a : Action) (rest : List Action)
    → d.todo ≡ a ∷ rest
    → IsServing d.writers ⊎ (d.todo ≡ [])
    → IsServing d.writers
still d a rest e (inl h) = h
still d a rest e (inr nothing) = absurd (cc)

Step-Paced : {n : ℕ} {d e : Dialogue} → Step d e → Paced n d → Paced n e
Step-Paced (sends_input d a rest e i) h = record {
  account = omega (arith, h.account, ap requests e, requests-input a rest i);
  serving = inl (still d a rest e h.serving);
}
Step-Paced (asks_frame d rest q e m) h =
    let (more, on) = requested-owed d.writers q m in
    record {
      account = omega (arith, h.account, more, ap requests e, requests-update rest);
      serving = inl (on (still d request_update rest e h.serving));
    }
Step-Paced (goes_on d e q o m) h =
    let (same, on) = step-owed d.writers q e o m in
    record {
      account = omega (arith, h.account, same);
      serving = elim h.serving [ inl s ↦ inl (on s) | inr nothing ↦ inr nothing ];
    }
Step-Paced (ends d q e m) h = record {
  account = omega (arith, h.account, stops-owed d.writers q m);
  serving = inr e;
}

pub Reach-Paced : {n : ℕ} {d e : Dialogue} → Reach d e → Paced n d → Paced n e
Reach-Paced here h = h
Reach-Paced (next r st) h = Step-Paced st (Reach-Paced r h)

-- The calls of a client that follows the protocol.
pub begun-Paced :
    (s : Session) (ms : List Message)
    → All Fits ms
    → Paced (update_requests ms) (begun s (encode_all ms))
begun-Paced s ms fits =
    let loop =
      client_loop-encode_all (suc (length (encode_all ms))) s ms fits
        (omega (arith, length-encode_all ms)) in
    record {
      account = omega (arith, ap (λ r. requests r.0) loop, requests-asks_all s ms);
      serving = inl (tt, refl);
    }

-- However the message loop of a client that follows the protocol and its video writers take turns: each of its
-- FramebufferUpdateRequests has been answered with one frame, or is pending, or is still to be read; so that no
-- more frames are sent than were asked for.
pub shown_requested :
    (s : Session) (ms : List Message) (d : Dialogue)
    → All Fits ms
    → Reach (begun s (encode_all ms)) d
    → (length d.writers.shown + d.writers.pending + requests d.todo ≡ update_requests ms)
      × (length d.writers.shown ≤ update_requests ms)
shown_requested s ms d fits r =
    let paced = Reach-Paced r (begun-Paced s ms fits) in
    (paced.account, omega (arith, paced.account))
