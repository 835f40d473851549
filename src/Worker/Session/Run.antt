-- ===== src/Worker/Session/Run.antt =====
-- src/webos_main.c, `run_stream_session`: the whole session, with what it opens and closes on every
-- path, and what the decoder takes. What the decoder, the network, the allocator, the threads and the
-- remote control do is an argument; the text of the log and the screen are left out. The buffers of the
-- workers are numbered from 20, so that no other memory of the session has their numbers.
pub mod Balance
pub mod Shown
use sysdvr_webos.Prelude.{
  ℕ, zero, suc, ◌+◌, ◌-◌, ◌*◌, ◌/◌, ◌%◌, ◌^◌, ◌≤◌, ◌<◌, min, ◌≡◌, refl, sym, ap, ap₂, subst, ◌∙◌,
  ◌≢◌, ◌↔◌, ◌⊎◌, inl, inr, Bool, true, false, not, ◌&&◌, ◌||◌, Option, none, some, List, [], ◌∷◌,
  ◌++◌, map, append-nil, append_assoc, arith, ltb, leb, ◌==◌, ◌!=◌, if◌then◌else◌, ltb→lt, lt→ltb,
  ltb_false→le, le→ltb_false, leb→le, le→leb, leb_false→lt, lt→leb_false, ==_iff, Bool-cases,
  Option-cases, length, get_elem?, get_or, set, take, drop, replicate, length-append, length-take,
  length-drop, length-set, length-replicate, take_all, drop_all, take-append, drop-append,
  take-append_le, drop-append_le, take-append-drop, take_exact, drop_exact, drop-drop,
  drop-set_before, take-set_next, take_next, get_or-take,
}
use sysdvr_webos.Resources.{socket, thread, memory, Call, acquires, releases}
use sysdvr_webos.Media.Player.{NdlMedia, create, open_internal, destroy}
use sysdvr_webos.Net.Connect.{Candidate, Connected, tcp_connect_timeout}
use sysdvr_webos.Net.{Incoming}
use sysdvr_webos.Protocol.{StreamKind, video, audio, PacketHeader, Conn}
use sysdvr_webos.Selector.{Action, is_backish}
use sysdvr_webos.Sft.Backend.{SessionResult, session_error}
use sysdvr_webos.Worker.{Worker, Fed, Iteration, prime_worker, stream_thread}
use sysdvr_webos.Worker.Session.{audio_batching, Primed, greet, First, primed_pair, session_outcome}

-- One round of the loop beside the threads: the shared flag, the stop flag, whether the shell is alive,
-- and the key.
pub record Tick : Type 0 where
  pub running : Bool
  pub stop : Bool
  pub alive : Bool
  pub action : Action

-- Whether the user asked for the selector.
unfoldable pub watch : List Tick → Bool
unfolding is_backish
watch [] = false
watch (t ∷ ts) =
    let rest = watch ts in
    if not t.running || t.stop
    then false
    else if not t.alive
    then false
    else if is_backish t.action
    then true
    else rest

-- Which of the two buffers of a worker are allocated.
abbrev pub Buffers : Type 0
Buffers = Bool × Bool

-- A thread: what its first packet and its iterations see.
abbrev pub Schedule : Type 0
Schedule = Iteration × List Iteration

-- The answers to creating and loading the player; what the resolver and the kernel answer to connecting,
-- and what the connected sockets carry.
pub record Environment : Type 0 where
  pub allocates_player : Bool
  pub inits_lock : Bool
  pub inits_library : Bool
  pub loads_player : Bool
  pub video_addresses : Option (List Candidate)
  pub video_stream : Conn
  pub audio_addresses : Option (List Candidate)
  pub audio_stream : Conn
  pub video_buffers : Buffers
  pub audio_buffers : Buffers
  pub starts_video : Bool
  pub still_running : Bool
  pub starts_audio : Bool
  pub ticks : List Tick
  pub video_schedule : Schedule
  pub audio_schedule : Schedule

-- The result, the calls, and what the decoder took from each thread.
pub record Run : Type 0 where
  pub result : SessionResult
  pub calls : List Call
  pub video_fed : List Fed
  pub audio_fed : List Fed

-- SESSION_RESULT_ERROR, after these calls.
abbrev pub fail : List Call → Run
fail calls = record { result = session_error; calls = calls; video_fed = []; audio_fed = [] }

-- The connection of a socket that `sysdvr_tcp_connect` gives.
abbrev pub conn_of : Option ℕ → Conn → Option Conn
conn_of none c = none
conn_of (some fd) c = some c

unfoldable pub video_conn : Environment → Option Conn
video_conn e = conn_of (tcp_connect_timeout e.video_addresses).0 e.video_stream

unfoldable pub audio_conn : Environment → Option Conn
audio_conn e = conn_of (tcp_connect_timeout e.audio_addresses).0 e.audio_stream

-- What is open when both sockets are, and the calls that were made for it.
pub record Opened : Type 0 where
  pub player : NdlMedia
  pub video_fd : ℕ
  pub audio_fd : ℕ
  pub before : List Call

abbrev pub close_all : Opened → List Call
close_all o = releases (socket, o.audio_fd) ∷ releases (socket, o.video_fd) ∷ destroy o.player

abbrev pub call_if : Bool → Call → List Call → List Call
call_if true c rest = c ∷ rest
call_if false c rest = rest

-- The two calls of `malloc` in `prime_worker`, and `worker_release`; freeing NULL does nothing.
abbrev pub allocate : ℕ → Buffers → List Call → List Call
allocate n (first, second) rest =
    call_if first (acquires (memory, n)) (call_if second (acquires (memory, n + 1)) rest)

abbrev pub worker_release : ℕ → Buffers → List Call → List Call
worker_release n (first, second) rest =
    call_if first (releases (memory, n)) (call_if second (releases (memory, n + 1)) rest)

abbrev pub both_allocated : Buffers → Bool
both_allocated (first, second) = first && second

abbrev pub prime : Buffers → StreamKind → Incoming → First
prime buffers kind s = if both_allocated buffers then prime_worker kind s else (none, s)

-- The worker when its thread, if it was started, has ended, and what the decoder took.
abbrev pub worked : Bool → Schedule → Primed → Worker × List Fed
worked false (i, is) p = (p.worker, [])
worked true (i, is) p =
    (stream_thread (some (p.first_header, p.first_payload)) i is p.worker p.incoming).0

-- The calls from the start of the threads to the release of the workers.
pub thread_calls : Bool → Bool → List Call
thread_calls video_started audio_started = call_if video_started (acquires (thread, 0)) (
    call_if audio_started (acquires (thread, 1)) (
      call_if video_started (releases (thread, 0)) (
        call_if audio_started (releases (thread, 1))
          (worker_release 20 (true, true) (worker_release 22 (true, true) [])))))

-- Both workers are primed. A thread that is not started has cleared the shared flag, so then the loop
-- beside the threads has no round.
pub stream : Environment → Opened → Primed × Primed → Run
unfolding watch thread_calls
stream e o (p, q) =
    let audio_started = e.starts_video && (e.still_running && e.starts_audio) in
    let back = audio_started && watch e.ticks in
    let v = worked e.starts_video e.video_schedule p in
    let a = worked audio_started e.audio_schedule q in
    record {
      result = session_outcome back v.0 a.0;
      calls =
          o.before
          ++ (allocate 20 (true, true)
                (allocate 22 (true, true) (thread_calls e.starts_video audio_started))
              ++ close_all o);
      video_fed = v.1;
      audio_fed = a.1;
    }

-- Priming; the audio worker is primed only after the video worker.
pub audio_primed : Environment → Opened → PacketHeader × List ℕ → Incoming → First → Run
unfolding stream
audio_primed e o fv v (none, a) = fail (
    o.before
    ++ (allocate 20 (true, true)
          (allocate 22 e.audio_buffers
            (worker_release 20 (true, true) (worker_release 22 e.audio_buffers [])))
        ++ close_all o))
audio_primed e o fv v (some fa, a) = stream e o (primed_pair fv v fa a)

pub video_primed : Environment → Opened → First → Incoming → Run
unfolding audio_primed
video_primed e o (none, v) a = fail (
    o.before ++ (allocate 20 e.video_buffers (worker_release 20 e.video_buffers []) ++ close_all o))
video_primed e o (some fv, v) a = audio_primed e o fv v (prime e.audio_buffers audio a)

pub audio_greeted : Environment → Opened → Incoming → Option Incoming → Run
unfolding video_primed
audio_greeted e o v none = fail (o.before ++ close_all o)
audio_greeted e o v (some a) = video_primed e o (prime e.video_buffers video v) a

pub audio_connected : Environment → NdlMedia → ℕ → List Call → Incoming → Connected → Run
unfolding audio_greeted greet
audio_connected e p fd before v (none, tried) =
    fail (before ++ (tried ++ releases (socket, fd) ∷ destroy p))
audio_connected e p fd before v (some fd', tried) =
    audio_greeted e (record { player = p; video_fd = fd; audio_fd = fd'; before = before ++ tried })
      v (greet (some e.audio_stream) audio audio_batching)

pub video_greeted : Environment → NdlMedia → ℕ → List Call → Option Incoming → Run
unfolding audio_connected
video_greeted e p fd before none = fail (before ++ releases (socket, fd) ∷ destroy p)
video_greeted e p fd before (some v) =
    audio_connected e p fd before v (tcp_connect_timeout e.audio_addresses)

pub video_connected : Environment → NdlMedia → List Call → Connected → Run
unfolding video_greeted greet
video_connected e p before (none, tried) = fail (before ++ (tried ++ destroy p))
video_connected e p before (some fd, tried) =
    video_greeted e p fd (before ++ tried) (greet (some e.video_stream) video 0)

-- `ndl_media_open` gives whether the library has loaded the player.
pub player_opened : Environment → List Call → Bool × (NdlMedia × List Call) → Run
unfolding video_connected
player_opened e before (false, (p, more)) = fail (before ++ (more ++ destroy p))
player_opened e before (true, (p, more)) =
    video_connected e p (before ++ more) (tcp_connect_timeout e.video_addresses)

pub player_created : Environment → Option NdlMedia × List Call → Run
unfolding player_opened
player_created e (none, calls) = fail calls
player_created e (some p, calls) = player_opened e calls (open_internal p e.loads_player)

unfoldable pub run_stream_session : Environment → Run
unfolding player_created
run_stream_session e = player_created e (create e.allocates_player e.inits_lock e.inits_library)
