-- ===== src/Worker/Session/Threads/Ending.antt =====
-- src/webos_main.c: a session ends once its flag is clear, and nobody waits for ever.
use sysdvr_webos.Prelude.{
  ℕ, ◌+◌, ◌≤◌, ◌<◌, ◌≡◌, refl, ap, ◌≢◌, ◌⊎◌, inl, inr, Bool, true, false, arith, Bool-cases,
}
use sysdvr_webos.Worker.Session.Threads.{
  busy, testing, leaving, ThreadState, absent, live, ended, MainState, starting_video,
  starting_audio, watching, stopping, joining_video, joining_audio, releasing, done, System, Turn,
  shows, breaks, goes_on, sees_stop, clears, quiet, Step, video_turn, audio_turn, starts_video,
  no_video, starts_audio, no_audio, skips_audio, watches, stops, clears_flag, joins_video,
  joins_audio, releases_all, Steps, here, next,
}

-- The steps that a thread, and the main program, can still take when the flag is clear; the main
-- program could still start the video thread.
abbrev thread_left : ThreadState → ℕ
thread_left absent = 0
thread_left (live busy) = 3
thread_left (live testing) = 2
thread_left (live leaving) = 1
thread_left ended = 0

abbrev main_left : MainState → ℕ
main_left done = 0
main_left releasing = 1
main_left joining_audio = 2
main_left joining_video = 3
main_left stopping = 4
main_left watching = 5
main_left starting_audio = 6
main_left starting_video = 10

abbrev left_over : System → ℕ
left_over s = main_left s.main + thread_left s.video + thread_left s.audio

-- A turn that is taken when the flag is clear.
Turn-falls :
    {r r' : Bool} {t t' : ThreadState}
    → Turn r t r' t'
    → r ≡ false
    → (r' ≡ false) × (thread_left t' < thread_left t)
Turn-falls shows h = (h, omega arith)
Turn-falls breaks h = (h, omega arith)
Turn-falls goes_on h = absurd (cc)
Turn-falls sees_stop h = (h, omega arith)
Turn-falls clears h = (refl, omega arith)

Step-falls :
    {s t : System}
    → Step s t
    → s.running ≡ false
    → (t.running ≡ false) × (left_over t < left_over s)
Step-falls (video_turn s mv) h = let (f, l) = Turn-falls mv h in (f, omega arith)
Step-falls (audio_turn s mv) h = let (f, l) = Turn-falls mv h in (f, omega arith)
Step-falls (starts_video s e) h = (h, omega (arith, ap main_left e, thread_any s.video))
  where
    thread_any : (t : ThreadState) → 0 ≤ thread_left t
    thread_any t = omega arith
Step-falls (no_video s e) h = (refl, omega (arith, ap main_left e))
Step-falls (starts_audio s e r) h = absurd (cc)
Step-falls (no_audio s e r) h = absurd (cc)
Step-falls (skips_audio s e r) h = (h, omega (arith, ap main_left e))
Step-falls (watches s e r) h = absurd (cc)
Step-falls (stops s e) h = (h, omega (arith, ap main_left e))
Step-falls (clears_flag s e) h = (refl, omega (arith, ap main_left e))
Step-falls (joins_video s e q) h = (h, omega (arith, ap main_left e))
Step-falls (joins_audio s e q) h = (h, omega (arith, ap main_left e))
Step-falls (releases_all s e) h = (h, omega (arith, ap main_left e))

Steps-fall :
    {n : ℕ} {s t : System} → Steps n s t → s.running ≡ false → n + left_over t ≤ left_over s
Steps-fall (here s) h = omega arith
Steps-fall (next st rest) h = let (f, l) = Step-falls st h in omega (arith, Steps-fall rest f)

left_over-le : (s : System) → left_over s ≤ 16
left_over-le s = omega (arith, main_le s.main, thread_le s.video, thread_le s.audio)
  where
    main_le : (m : MainState) → main_left m ≤ 10
    main_le done = omega arith
    main_le releasing = omega arith
    main_le joining_audio = omega arith
    main_le joining_video = omega arith
    main_le stopping = omega arith
    main_le watching = omega arith
    main_le starting_audio = omega arith
    main_le starting_video = omega arith

    thread_le : (t : ThreadState) → thread_left t ≤ 3
    thread_le absent = omega arith
    thread_le (live busy) = omega arith
    thread_le (live testing) = omega arith
    thread_le (live leaving) = omega arith
    thread_le ended = omega arith

-- A thread that is alive can take a turn.
Turn-possible :
    (r : Bool) (t : ThreadState)
    → quiet t ≡ false
    → (r' : Bool) × (t' : ThreadState) × Turn r t r' t'
Turn-possible r absent h = absurd (cc)
Turn-possible r (live busy) h = (_, _, Turn.shows)
Turn-possible true (live testing) h = (_, _, Turn.goes_on)
Turn-possible false (live testing) h = (_, _, Turn.sees_stop)
Turn-possible r (live leaving) h = (_, _, Turn.clears)
Turn-possible r ended h = absurd (cc)

-- What can happen next, by where the main program is.
abbrev CanGo : System → Type 0
CanGo s = (t : System) × Step s t

start_audio-CanGo : (s : System) → s.main ≡ starting_audio → CanGo s
start_audio-CanGo s e = elim (Bool-cases s.running) [
  | inl on ↦ (_, starts_audio s e on)
  | inr off ↦ (_, skips_audio s e off)
]

join_video-CanGo : (s : System) → s.main ≡ joining_video → CanGo s
join_video-CanGo s e = elim (Bool-cases (quiet s.video)) [
  | inl over ↦ (_, joins_video s e over)
  | inr alive ↦ let (r, v, mv) = Turn-possible s.running s.video alive in (_, video_turn s mv)
]

join_audio-CanGo : (s : System) → s.main ≡ joining_audio → CanGo s
join_audio-CanGo s e = elim (Bool-cases (quiet s.audio)) [
  | inl over ↦ (_, joins_audio s e over)
  | inr alive ↦ let (r, a, mv) = Turn-possible s.running s.audio alive in (_, audio_turn s mv)
]

can_go : (s : System) (m : MainState) → s.main ≡ m → m ≢ done → CanGo s
can_go s starting_video e h = (_, starts_video s e)
can_go s starting_audio e h = start_audio-CanGo s e
can_go s watching e h = (_, stops s e)
can_go s stopping e h = (_, clears_flag s e)
can_go s joining_video e h = join_video-CanGo s e
can_go s joining_audio e h = join_audio-CanGo s e
can_go s releasing e h = (_, releases_all s e)
can_go s done e h = absurd (h refl)

-- Once the flag is clear, however the threads and the main program are scheduled, at most 16 more steps
-- are taken before nothing can be done any more, and that is when the session is over: as long as it
-- is not, some step is possible.
pub session_ends :
    {n : ℕ} {s t : System}
    → s.running ≡ false
    → Steps n s t
    → (n ≤ 16) × ((t.main ≡ done) ⊎ ((u : System) × Step t u))
session_ends {t} h st = (omega (arith, Steps-fall st h, left_over-le _), over t t.main refl)
  where
    over : (t : System) (m : MainState) → t.main ≡ m → (t.main ≡ done) ⊎ ((u : System) × Step t u)
    over t done e = inl e
    over t starting_video e = inr (can_go t starting_video e (λ d. cc))
    over t starting_audio e = inr (can_go t starting_audio e (λ d. cc))
    over t watching e = inr (can_go t watching e (λ d. cc))
    over t stopping e = inr (can_go t stopping e (λ d. cc))
    over t joining_video e = inr (can_go t joining_video e (λ d. cc))
    over t joining_audio e = inr (can_go t joining_audio e (λ d. cc))
    over t releasing e = inr (can_go t releasing e (λ d. cc))
