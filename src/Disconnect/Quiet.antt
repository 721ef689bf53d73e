-- ===== src/Disconnect/Quiet.antt =====
-- A client that goes while no frame is on its way to it.
use dracd.Common.{arith, ◌≡◌, refl, [], none, some, false}
use dracd.Vnc.Writer.Stopped.{IsStopped, stopped_blocks, step-IsStopped, stops-IsStopped}
use dracd.Disconnect.{
  gone, Link, joined, Step, comes_to, hands_over, goes_on, ends, signals, panics, tears_down,
  takes_nil, Reach, here, next, Crashes, send_on_closed, nil_frame,
}

-- A client that is gone is in no list.
abbrev IsOut : Link → Type 0
IsOut l = l.main ≡ gone → l.listed ≡ false

Step-IsOut : {l m : Link} → Step l m → IsOut l → IsOut m
Step-IsOut (comes_to l f listed) h = h
Step-IsOut (hands_over l front back f q e open_ m) h = h
Step-IsOut (goes_on l e q own m) h = h
Step-IsOut (ends l e) h = λ g. cc
Step-IsOut (signals l q e m) h = λ g. cc
Step-IsOut (panics l e) h = λ g. cc
Step-IsOut (tears_down l e) h = λ g. refl
Step-IsOut (takes_nil l q e m) h = h

Reach-IsOut : {l : Link} → Reach joined l → IsOut l
Reach-IsOut here = λ g. cc
Reach-IsOut (next r st) = Step-IsOut st (Reach-IsOut r)

record Calm (l : Link) : Type 0 where
  stopped : IsStopped l.writers.phase
  out : l.listed ≡ false
  none_waits : l.sending ≡ []

Step-Calm : {l m : Link} → Step l m → Calm l → Calm m
Step-Calm (comes_to l f listed) h = absurd (cc (h.out))
Step-Calm (hands_over l front back f q e open_ m) h =
    absurd (cc (stopped_blocks l.writers (some f) h.stopped))
Step-Calm (goes_on l e q own m) h = ground (arith, step-IsStopped l.writers q e h.stopped m)
Step-Calm (ends l e) h = ground arith
Step-Calm (signals l q e m) h = ground (arith, stops-IsStopped l.writers q m)
Step-Calm (panics l e) h = ground arith
Step-Calm (tears_down l e) h = ground arith
Step-Calm (takes_nil l q e m) h = absurd (cc (stopped_blocks l.writers none h.stopped))

Reach-Calm : {l m : Link} → Calm l → Reach l m → Calm m
Reach-Calm h here = h
Reach-Calm h (next r st) = Step-Calm st (Reach-Calm h r)

Calm-safe : {l : Link} → Calm l → ¬ Crashes l
Calm-safe {l} h (send_on_closed f fs closed e) = cc (h.none_waits)
Calm-safe {l} h (nil_frame x closed e) = cc (stopped_blocks l.writers none h.stopped)

-- A client that has left its message loop, whose writers have taken the stop signal, and to which no frame was
-- on its way when its channel was closed, never makes the program crash.
pub gone_safe :
    (l m : Link)
    → Reach joined l
    → l.main ≡ gone
    → IsStopped l.writers.phase
    → l.sending ≡ []
    → Reach l m
    → ¬ Crashes m
gone_safe l m start out stopped quiet r =
    Calm-safe
      (Reach-Calm (record { stopped = stopped; out = Reach-IsOut start out; none_waits = quiet }) r)
