-- ===== src/Worker/Session/Threads.antt =====
-- src/webos_main.c: the two threads of a session (`stream_thread`) and `run_stream_session` beside them,
-- which share the flag `running`. A step is one access to the flag, or the work between two accesses;
-- the threads and the main program take turns in any order. A read returns in the end, since the sockets
-- have a timeout and are shut down.
pub mod Safety
pub mod Ending
use sysdvr_webos.Prelude.{
  ℕ, zero, suc, ◌+◌, ◌-◌, ◌*◌, ◌/◌, ◌%◌, ◌^◌, ◌≤◌, ◌<◌, min, ◌≡◌, refl, sym, ap, ap₂, subst, ◌∙◌,
  ◌≢◌, ◌↔◌, ◌⊎◌, inl, inr, Bool, true, false, not, ◌&&◌, ◌||◌, Option, none, some, List, [], ◌∷◌,
  ◌++◌, map, append-nil, append_assoc, arith, ltb, leb, ◌==◌, ◌!=◌, if◌then◌else◌, ltb→lt, lt→ltb,
  ltb_false→le, le→ltb_false, leb→le, le→leb, leb_false→lt, lt→leb_false, ==_iff, Bool-cases,
  Option-cases, length, get_elem?, get_or, set, take, drop, replicate, length-append, length-take,
  length-drop, length-set, length-replicate, take_all, drop_all, take-append, drop-append,
  take-append_le, drop-append_le, take-append-drop, take_exact, drop_exact, drop-drop,
  drop-set_before, take-set_next, take_next, get_or-take,
}

-- Where a thread is: it reads or submits a packet (the one that was primed comes first), is at the test
-- of its loop, or is about to clear the flag.
pub data Place : Type 0 where
  busy testing leaving : Place

pub data ThreadState : Type 0 where
  absent : ThreadState
  live : Place → ThreadState
  ended : ThreadState

-- Where `run_stream_session` is.
pub data MainState : Type 0 where
  starting_video starting_audio watching stopping joining_video joining_audio releasing done :
      MainState

pub record System : Type 0 where
  pub running : Bool
  pub video : ThreadState
  pub audio : ThreadState
  pub main : MainState

abbrev pub start : System
start = record { running = true; video = absent; audio = absent; main = starting_video }

-- A turn of a thread: the flag and the thread before, and the flag and the thread after.
pub data Turn : Bool → ThreadState → Bool → ThreadState → Type 0 where
  -- The packet is shown.
  shows : {r : Bool} → Turn r (live busy) r (live testing)
  -- The stream is closed or broken, or the decoder refuses the packet.
  breaks : {r : Bool} → Turn r (live busy) r (live leaving)
  goes_on : Turn true (live testing) true (live busy)
  sees_stop : Turn false (live testing) false (live leaving)
  clears : {r : Bool} → Turn r (live leaving) false ended

-- A thread that is not started, or that has ended, can be joined at once or need not be.
abbrev pub quiet : ThreadState → Bool
quiet absent = true
quiet (live p) = false
quiet ended = true

pub data Step : System → System → Type 0 where
  video_turn :
      (s : System) {r : Bool} {v : ThreadState}
      → Turn s.running s.video r v
      → Step s (record s { running = r; video = v })
  audio_turn :
      (s : System) {r : Bool} {a : ThreadState}
      → Turn s.running s.audio r a
      → Step s (record s { running = r; audio = a })
  starts_video :
      (s : System)
      → s.main ≡ starting_video
      → Step s (record s { video = live busy; main = starting_audio })
  no_video :
      (s : System)
      → s.main ≡ starting_video
      → Step s (record s { running = false; main = starting_audio })
  starts_audio :
      (s : System)
      → s.main ≡ starting_audio
      → s.running ≡ true
      → Step s (record s { audio = live busy; main = watching })
  no_audio :
      (s : System)
      → s.main ≡ starting_audio
      → s.running ≡ true
      → Step s (record s { running = false; main = watching })
  skips_audio :
      (s : System)
      → s.main ≡ starting_audio
      → s.running ≡ false
      → Step s (record s { main = watching })
  -- A round of the loop without a key.
  watches : (s : System) → s.main ≡ watching → s.running ≡ true → Step s s
  -- The user or the system ends the session, or the flag is clear.
  stops : (s : System) → s.main ≡ watching → Step s (record s { main = stopping })
  clears_flag :
      (s : System) → s.main ≡ stopping → Step s (record s { running = false; main = joining_video })
  joins_video :
      (s : System)
      → s.main ≡ joining_video
      → quiet s.video ≡ true
      → Step s (record s { main = joining_audio })
  joins_audio :
      (s : System)
      → s.main ≡ joining_audio
      → quiet s.audio ≡ true
      → Step s (record s { main = releasing })
  releases_all : (s : System) → s.main ≡ releasing → Step s (record s { main = done })

-- The states that a session can be in.
pub data Reach : System → Type 0 where
  begins : Reach start
  later : {s t : System} → Reach s → Step s t → Reach t

-- A run of `n` steps.
pub data Steps : ℕ → System → System → Type 0 where
  here : (s : System) → Steps 0 s s
  next : {n : ℕ} {s t u : System} → Step s t → Steps n t u → Steps (suc n) s u
