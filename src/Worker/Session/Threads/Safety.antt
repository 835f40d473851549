-- ===== src/Worker/Session/Threads/Safety.antt =====
-- src/webos_main.c: nothing is released under a running thread.
use sysdvr_webos.Prelude.{ℕ, ◌<◌, ◌≡◌, refl, ap, Bool, true, false, arith}
use sysdvr_webos.Worker.Session.Threads.{
  ThreadState, MainState, starting_video, starting_audio, watching, stopping, joining_video,
  joining_audio, releasing, done, System, Turn, shows, breaks, goes_on, sees_stop, clears, quiet,
  Step, video_turn, audio_turn, starts_video, no_video, starts_audio, no_audio, skips_audio,
  watches, stops, clears_flag, joins_video, joins_audio, releases_all, Reach, begins, later,
}

-- How far the main program is.
abbrev progress : MainState → ℕ
progress starting_video = 0
progress starting_audio = 1
progress watching = 2
progress stopping = 3
progress joining_video = 4
progress joining_audio = 5
progress releasing = 6
progress done = 7

record Inv (s : System) : Type 0 where
  cleared : 3 < progress s.main → s.running ≡ false
  video_joined : 4 < progress s.main → quiet s.video ≡ true
  audio_joined : 5 < progress s.main → quiet s.audio ≡ true

-- A turn does not set the flag again, and a thread that is quiet takes none.
Turn-flag : {r r' : Bool} {t t' : ThreadState} → Turn r t r' t' → r ≡ false → r' ≡ false
Turn-flag shows h = h
Turn-flag breaks h = h
Turn-flag goes_on h = h
Turn-flag sees_stop h = h
Turn-flag clears h = refl

Turn-live : {r r' : Bool} {t t' : ThreadState} → Turn r t r' t' → quiet t ≡ false
Turn-live shows = refl
Turn-live breaks = refl
Turn-live goes_on = refl
Turn-live sees_stop = refl
Turn-live clears = refl

both : {b : Bool} {A : Type 0} → b ≡ true → b ≡ false → A
both t f = absurd (cc)

Step-Inv : {s t : System} → Step s t → Inv s → Inv t
Step-Inv (video_turn s mv) i = record {
  cleared = λ h. Turn-flag mv (i.cleared h);
  video_joined = λ h. both (i.video_joined h) (Turn-live mv);
  audio_joined = i.audio_joined;
}
Step-Inv (audio_turn s mv) i = record {
  cleared = λ h. Turn-flag mv (i.cleared h);
  video_joined = i.video_joined;
  audio_joined = λ h. both (i.audio_joined h) (Turn-live mv);
}
Step-Inv (starts_video s e) i = record {
  cleared = λ h. absurd (omega arith);
  video_joined = λ h. absurd (omega arith);
  audio_joined = λ h. absurd (omega arith);
}
Step-Inv (no_video s e) i = record {
  cleared = λ h. refl;
  video_joined = λ h. absurd (omega arith);
  audio_joined = λ h. absurd (omega arith);
}
Step-Inv (starts_audio s e r) i = record {
  cleared = λ h. absurd (omega arith);
  video_joined = λ h. absurd (omega arith);
  audio_joined = λ h. absurd (omega arith);
}
Step-Inv (no_audio s e r) i = record {
  cleared = λ h. refl;
  video_joined = λ h. absurd (omega arith);
  audio_joined = λ h. absurd (omega arith);
}
Step-Inv (skips_audio s e r) i = record {
  cleared = λ h. r;
  video_joined = λ h. absurd (omega arith);
  audio_joined = λ h. absurd (omega arith);
}
Step-Inv (watches s e r) i = i
Step-Inv (stops s e) i = record {
  cleared = λ h. absurd (omega arith);
  video_joined = λ h. absurd (omega arith);
  audio_joined = λ h. absurd (omega arith);
}
Step-Inv (clears_flag s e) i = record {
  cleared = λ h. refl;
  video_joined = λ h. absurd (omega arith);
  audio_joined = λ h. absurd (omega arith);
}
Step-Inv (joins_video s e q) i = record {
  cleared = λ h. i.cleared (omega (arith, ap progress e));
  video_joined = λ h. q;
  audio_joined = λ h. absurd (omega arith);
}
Step-Inv (joins_audio s e q) i = record {
  cleared = λ h. i.cleared (omega (arith, ap progress e));
  video_joined = λ h. i.video_joined (omega (arith, ap progress e));
  audio_joined = λ h. q;
}
Step-Inv (releases_all s e) i = record {
  cleared = λ h. i.cleared (omega (arith, ap progress e));
  video_joined = λ h. i.video_joined (omega (arith, ap progress e));
  audio_joined = λ h. i.audio_joined (omega (arith, ap progress e));
}

Reach-Inv : {s : System} → Reach s → Inv s
Reach-Inv begins = record {
  cleared = λ h. absurd (omega arith);
  video_joined = λ h. absurd (omega arith);
  audio_joined = λ h. absurd (omega arith);
}
Reach-Inv (later r st) = Step-Inv st (Reach-Inv r)

-- In whatever order the threads and the main program take their turns, when the program releases the
-- buffers, the sockets and the player, neither thread runs, and the flag is clear.
pub released_quiet :
    {s : System}
    → Reach s
    → s.main ≡ releasing
    → (quiet s.video ≡ true) × (quiet s.audio ≡ true) × (s.running ≡ false)
released_quiet r e =
    let i = Reach-Inv r in
    (
      i.video_joined (omega (arith, ap progress e)),
      i.audio_joined (omega (arith, ap progress e)),
      i.cleared (omega (arith, ap progress e)),
    )
