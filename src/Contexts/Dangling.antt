-- ===== src/Contexts/Dangling.antt =====
-- A session with two videoReaders.
use dracd.Common.{inr, ℕ, suc, ◌<◌, ◌≡◌, refl, true, false, arith}
use dracd.Drac.Handler.{frame_comes, reader_ends}
use dracd.Drac.Handler.Lifetime.{Step-IsValid}
use dracd.Contexts.{
  Context, unset, allocated, freed, dangling, access, Session, Opener, begun, lives, stops_video,
  ends_after_video, frees, Reach, here, next,
}
use dracd.Contexts.Ending.{handler_ends}
use dracd.Contexts.Soundness.{Sound, Reach-Sound, begun-Sound}
use dracd.Contexts.Alive.{freed-read}

-- While ctrlReader reads and a videoReader runs, the context is there.
alive : (s : Session) → Sound s → s.life.reader_ended ≡ false → 0 < s.video → s.ctx ≡ allocated
alive s h reading v = go s.ctx refl
  where
    go : (c : Context) → s.ctx ≡ c → c ≡ allocated
    go unset e = absurd (h.shown (omega (arith, h.all_started reading)) e)
    go allocated e = refl
    go freed e = cc (freed-read s h e)

-- If two videoReaders run while ctrlReader still reads, what follows can free the C context while one of them
-- runs, so that its next use is of freed memory: a first frame has come, the other one ends, ctrlReader waits for
-- that one only, and everyone leaves.
pub second_video_dangles :
    (o : Opener) (s : Session) (n : ℕ)
    → Reach (begun o) s
    → s.life.reader_ended ≡ false
    → s.video ≡ suc (suc n)
    → (t : Session) × Reach s t × (t.video ≡ suc n) × (access t.ctx ≡ dangling)
unfolding access
second_video_dangles o s n r reading two =
    let h = Reach-Sound (begun-Sound o) r in
    let there = alive s h reading (omega (arith, two)) in
    let shown : Session = record s { life = record s.life { framed = true } } in
    let one_done : Session = record shown { video = suc n; done = suc s.done } in
    let t : Session = record one_done {
      life = record shown.life { reader_ended = true };
      done = s.done;
    } in
    let reached : Reach s t =
      next
        (next (next here (lives s _ (frame_comes s.life) (there, inr (omega (arith, two)))))
          (stops_video shown (suc n) two))
        (ends_after_video one_done s.done reading refl) in
    let (l, ended, over) =
      handler_ends s t reached
        (Step-IsValid (reader_ends shown.life) (Step-IsValid (frame_comes s.life) h.valid)) refl
        refl in
    let last : Session = record t { life = l } in
    (record last { ctx = freed }, next ended (frees last over there), refl, refl)
