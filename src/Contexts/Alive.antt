-- ===== src/Contexts/Alive.antt =====
-- Who uses a session's C context finds it alive.
use dracd.Common.{◌≤◌, ◌<◌, ◌≡◌, ◌≢◌, refl, Bool-cases, inl, inr, true, false, arith}
use dracd.Contexts.{
  Context, unset, allocated, freed, Access, fine, dangling, access, Session, Opener, begun, Reach,
}
use dracd.Contexts.Soundness.{Sound, Reach-Sound, begun-Sound}

video_started : (s : Session) → Sound s → 0 < s.video → 0 < s.started
video_started s h v = elim (Bool-cases s.life.reader_ended) [
  | inl e ↦ ground (arith, h.none_left, h.one_waited e)
  | inr e ↦ omega (arith, h.all_started e)
]

pub freed-read : (s : Session) → Sound s → s.ctx ≡ freed → s.life.reader_ended ≡ true
freed-read s h e = h.read (h.valid.ended (h.over e))

one_video : (s : Session) → Sound s → s.started ≤ 1 → 0 < s.video → s.ctx ≢ freed
one_video s h one v e = omega (arith, h.one_waited (freed-read s h e) (video_started s h v))

pub fine_of_ne : (c : Context) → c ≢ unset → c ≢ freed → access c ≡ fine
unfolding access
fine_of_ne unset u f = absurd (u refl)
fine_of_ne allocated u f = refl
fine_of_ne freed u f = absurd (f refl)

kept-access : (c : Context) → c ≢ freed → access c ≢ dangling
unfolding access
kept-access unset h e = cc
kept-access allocated h e = cc
kept-access freed h e = h refl

-- Who passes the C context to the C library: the message loop of a client, ctrlReader, a videoReader.
pub data User : Type 0 where
  client_loop ctrl_reader video_reader : User

-- They do so while they are in the session. Of the videoReaders there has been no second one.
abbrev pub Uses : User → Session → Type 0
Uses client_loop s = 0 < s.life.clients
Uses ctrl_reader s = s.life.reader_ended ≡ false
Uses video_reader s = (0 < s.video) × (s.started ≤ 1)

-- A client and ctrlReader can be there before the context is.
abbrev pub Finds : User → Access → Type 0
Finds client_loop a = a ≢ dangling
Finds ctrl_reader a = a ≢ dangling
Finds video_reader a = a ≡ fine

-- Whatever happens to a session, nobody in it uses its C context when it is freed: neither a client nor ctrlReader
-- does, and a videoReader, if no second one was started, finds the context at each use.
pub used_context_alive :
    (o : Opener) (s : Session) (u : User) → Reach (begun o) s → Uses u s → Finds u (access s.ctx)
used_context_alive o s client_loop r there =
    let h = Reach-Sound (begun-Sound o) r in
    kept-access s.ctx (λ f. cc (h.over f, h.valid.used (inl there)))
used_context_alive o s ctrl_reader r reads =
    kept-access s.ctx (λ f. cc (freed-read s (Reach-Sound (begun-Sound o) r) f, reads))
used_context_alive o s video_reader r (runs, one) =
    let h = Reach-Sound (begun-Sound o) r in
    fine_of_ne s.ctx (h.shown (video_started s h runs)) (one_video s h one runs)
