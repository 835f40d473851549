-- ===== src/Worker/Session/Run/Balance.antt =====
-- src/webos_main.c, `run_stream_session`: what a session opens is closed, and by then no thread runs.
use sysdvr_webos.Prelude.{
  ℕ, ◌≡◌, refl, ◌∙◌, inl, inr, Bool, true, false, ◌&&◌, Option, none, some, List, [], ◌∷◌, ◌++◌,
  arith, Bool-cases,
}
use sysdvr_webos.Resources.{
  socket, lock, memory, library, player, Resource, Call, acquires, releases, IsBalanced, held_after,
  release, any_thread, is_thread, remove, same, same_refl, held_after-append,
}
use sysdvr_webos.Resources.Nesting.{held_after_frame}
use sysdvr_webos.Media.Player.{NdlMedia, no_feeds, create, open_internal, destroy}
use sysdvr_webos.Net.{Incoming}
use sysdvr_webos.Net.Connect.{Connected, tcp_connect_timeout}
use sysdvr_webos.Net.Connect.Laws.{opened, tcp_connect_timeout_lem}
use sysdvr_webos.Protocol.{video, audio, PacketHeader}
use sysdvr_webos.Worker.Session.{audio_batching, Primed, greet, First, primed_pair}
use sysdvr_webos.Worker.Session.Run.{
  Environment, Buffers, Opened, close_all, allocate, worker_release, prime, thread_calls, stream,
  audio_primed, video_primed, audio_greeted, audio_connected, video_greeted, video_connected,
  player_opened, player_created, run_stream_session,
}

-- The calls have left these resources held.
abbrev Holds : List Call → List Resource → Type 0
Holds before held = held_after before [] ≡ some held

-- A balanced run behind what is open, and the calls that close it.
around-IsBalanced :
    (before inside after : List Call) (held : List Resource)
    → Holds before held
    → any_thread held ≡ false
    → IsBalanced inside
    → held_after after held ≡ some []
    → IsBalanced (before ++ (inside ++ after))
around-IsBalanced before inside after held opens quiet balanced closes =
    held_after-append before (inside ++ after) [] held opens
    ∙ (held_after-append inside after held held (held_after_frame inside [] held [] quiet balanced)
        ∙ closes)

-- Connecting adds the socket that it gives, if any.
connect-Holds :
    (before : List Call) (held : List Resource) (c : Connected)
    → Holds before held
    → any_thread held ≡ false
    → Holds c.1 (opened c.0)
    → Holds (before ++ c.1) (opened c.0 ++ held)
connect-Holds before held c opens quiet kept =
    held_after-append before c.1 [] held opens
    ∙ held_after_frame c.1 [] held (opened c.0) quiet kept

release_top :
    (r : Resource) (after : List Call) (held : List Resource)
    → any_thread held ≡ false
    → is_thread r ≡ false
    → held_after (releases r ∷ after) (r ∷ held) ≡ held_after after held
unfolding held_after release any_thread remove
release_top (k, i) after held quiet plain = ground (arith, same_refl (k, i))

abbrev player_held : List Resource
player_held = (player, 0) ∷ (library, 0) ∷ (lock, 0) ∷ (memory, 0) ∷ []

abbrev video_held : ℕ → List Resource
video_held fd = (socket, fd) ∷ player_held

abbrev both_held : Opened → List Resource
both_held o = (socket, o.audio_fd) ∷ video_held o.video_fd

player_quiet : any_thread player_held ≡ false
unfolding any_thread
player_quiet = refl

video_quiet : (fd : ℕ) → any_thread (video_held fd) ≡ false
unfolding any_thread
video_quiet fd = refl

both_quiet : (o : Opened) → any_thread (both_held o) ≡ false
unfolding any_thread
both_quiet o = refl

-- A player that is loaded.
abbrev IsLoaded : NdlMedia → Type 0
IsLoaded p = (p.initialized ≡ true) × (p.loaded ≡ true)

destroy_closes : (p : NdlMedia) → IsLoaded p → held_after (destroy p) player_held ≡ some []
unfolding destroy held_after release any_thread remove same
destroy_closes p (initialized, loaded) = rw (initialized, loaded) refl

video_closes :
    (p : NdlMedia) (fd : ℕ)
    → IsLoaded p
    → held_after (releases (socket, fd) ∷ destroy p) (video_held fd) ≡ some []
video_closes p fd l =
    release_top (socket, fd) (destroy p) player_held player_quiet refl ∙ destroy_closes p l

close_all_lem : (o : Opened) → IsLoaded o.player → held_after (close_all o) (both_held o) ≡ some []
close_all_lem o l =
    release_top (socket, o.audio_fd) (releases (socket, o.video_fd) ∷ destroy o.player)
      (video_held o.video_fd) (video_quiet o.video_fd) refl
    ∙ video_closes o.player o.video_fd l

-- Both sockets and a loaded player are open.
abbrev IsOpen : Opened → Type 0
IsOpen o = IsLoaded o.player × Holds o.before (both_held o)

inside-IsBalanced :
    (o : Opened) (inside : List Call)
    → IsOpen o
    → IsBalanced inside
    → IsBalanced (o.before ++ (inside ++ close_all o))
inside-IsBalanced o inside (l, opens) balanced =
    around-IsBalanced o.before inside (close_all o) (both_held o) opens (both_quiet o) balanced
      (close_all_lem o l)

threads-IsBalanced :
    (v a : Bool)
    → IsBalanced (allocate 20 (true, true) (allocate 22 (true, true) (thread_calls v a)))
unfolding thread_calls held_after release any_thread remove same
threads-IsBalanced true true = refl
threads-IsBalanced true false = refl
threads-IsBalanced false true = refl
threads-IsBalanced false false = refl

audio_buffers-IsBalanced :
    (b : Buffers)
    → IsBalanced (
        allocate 20
          (true, true)
          (allocate 22 b (worker_release 20 (true, true) (worker_release 22 b []))))
unfolding held_after release any_thread remove same
audio_buffers-IsBalanced (true, true) = refl
audio_buffers-IsBalanced (true, false) = refl
audio_buffers-IsBalanced (false, true) = refl
audio_buffers-IsBalanced (false, false) = refl

video_buffers-IsBalanced : (b : Buffers) → IsBalanced (allocate 20 b (worker_release 20 b []))
unfolding held_after release any_thread remove same
video_buffers-IsBalanced (true, true) = refl
video_buffers-IsBalanced (true, false) = refl
video_buffers-IsBalanced (false, true) = refl
video_buffers-IsBalanced (false, false) = refl

nothing-IsBalanced : IsBalanced []
unfolding held_after
nothing-IsBalanced = refl

stream-IsBalanced :
    (e : Environment) (o : Opened) (r : Primed × Primed)
    → IsOpen o
    → IsBalanced (stream e o r).calls
unfolding stream
stream-IsBalanced e o (p, q) h =
    inside-IsBalanced o _ h
      (threads-IsBalanced e.starts_video (e.starts_video && (e.still_running && e.starts_audio)))

audio_primed-IsBalanced :
    (e : Environment) (o : Opened) (fv : PacketHeader × List ℕ) (v : Incoming) (f : First)
    → IsOpen o
    → IsBalanced (audio_primed e o fv v f).calls
unfolding audio_primed
audio_primed-IsBalanced e o fv v (none, a) h =
    inside-IsBalanced o _ h (audio_buffers-IsBalanced e.audio_buffers)
audio_primed-IsBalanced e o fv v (some fa, a) h = stream-IsBalanced e o (primed_pair fv v fa a) h

video_primed-IsBalanced :
    (e : Environment) (o : Opened) (f : First) (a : Incoming)
    → IsOpen o
    → IsBalanced (video_primed e o f a).calls
unfolding video_primed
video_primed-IsBalanced e o (none, v) a h =
    inside-IsBalanced o _ h (video_buffers-IsBalanced e.video_buffers)
video_primed-IsBalanced e o (some fv, v) a h =
    audio_primed-IsBalanced e o fv v (prime e.audio_buffers audio a) h

audio_greeted-IsBalanced :
    (e : Environment) (o : Opened) (v : Incoming) (g : Option Incoming)
    → IsOpen o
    → IsBalanced (audio_greeted e o v g).calls
unfolding audio_greeted
audio_greeted-IsBalanced e o v none h = inside-IsBalanced o [] h nothing-IsBalanced
audio_greeted-IsBalanced e o v (some a) h =
    video_primed-IsBalanced e o (prime e.video_buffers video v) a h

audio_connected-IsBalanced :
    (e : Environment) (p : NdlMedia) (fd : ℕ) (before : List Call) (v : Incoming) (c : Connected)
    → IsLoaded p
    → Holds before (video_held fd)
    → Holds c.1 (opened c.0)
    → IsBalanced (audio_connected e p fd before v c).calls
unfolding audio_connected
audio_connected-IsBalanced e p fd before v (none, tried) l opens kept =
    around-IsBalanced before tried (releases (socket, fd) ∷ destroy p) (video_held fd) opens
      (video_quiet fd) kept (video_closes p fd l)
audio_connected-IsBalanced e p fd before v (some fd', tried) l opens kept =
    audio_greeted-IsBalanced e
      (record { player = p; video_fd = fd; audio_fd = fd'; before = before ++ tried }) v
      (greet (some e.audio_stream) audio audio_batching)
      (l, connect-Holds before (video_held fd) (some fd', tried) opens (video_quiet fd) kept)

video_greeted-IsBalanced :
    (e : Environment) (p : NdlMedia) (fd : ℕ) (before : List Call) (g : Option Incoming)
    → IsLoaded p
    → Holds before (video_held fd)
    → IsBalanced (video_greeted e p fd before g).calls
unfolding video_greeted
video_greeted-IsBalanced e p fd before none l opens =
    around-IsBalanced before [] (releases (socket, fd) ∷ destroy p) (video_held fd) opens
      (video_quiet fd) nothing-IsBalanced (video_closes p fd l)
video_greeted-IsBalanced e p fd before (some v) l opens =
    audio_connected-IsBalanced e p fd before v (tcp_connect_timeout e.audio_addresses) l opens
      (tcp_connect_timeout_lem e.audio_addresses).1

video_connected-IsBalanced :
    (e : Environment) (p : NdlMedia) (before : List Call) (c : Connected)
    → IsLoaded p
    → Holds before player_held
    → Holds c.1 (opened c.0)
    → IsBalanced (video_connected e p before c).calls
unfolding video_connected
video_connected-IsBalanced e p before (none, tried) l opens kept =
    around-IsBalanced before tried (destroy p) player_held opens player_quiet kept
      (destroy_closes p l)
video_connected-IsBalanced e p before (some fd, tried) l opens kept =
    video_greeted-IsBalanced e p fd (before ++ tried) (greet (some e.video_stream) video 0) l
      (connect-Holds before player_held (some fd, tried) opens player_quiet kept)

abbrev loaded_player : NdlMedia
loaded_player = record { initialized = true; loaded = true; video = no_feeds; audio = no_feeds }

player_created-IsBalanced :
    (e : Environment) (allocates inits_lock inits_library : Bool)
    → IsBalanced (player_created e (create allocates inits_lock inits_library)).calls
unfolding player_created player_opened create open_internal destroy held_after release any_thread
    remove same
player_created-IsBalanced e false l i = refl
player_created-IsBalanced e true false i = refl
player_created-IsBalanced e true true false = refl
player_created-IsBalanced e true true true = elim (Bool-cases e.loads_player) [
  | inr refused ↦ rw refused refl
  | inl loads ↦ rw loads (
      video_connected-IsBalanced (record e { loads_player = true }) loaded_player
        (acquires (memory, 0)
          ∷ acquires (lock, 0)
          ∷ acquires (library, 0)
          ∷ acquires (player, 0)
          ∷ [])
        (tcp_connect_timeout e.video_addresses) (refl, refl) refl
        (tcp_connect_timeout_lem e.video_addresses).1)
]

-- However a SysDVR session ends, at whatever step it fails, each socket, buffer, lock, library and
-- thread and the player that it, connecting or src/ndl_media.c has acquired is given back exactly once,
-- and both threads are joined before anything that they use is given back.
pub run_stream_session-IsBalanced : (e : Environment) → IsBalanced (run_stream_session e).calls
unfolding run_stream_session
run_stream_session-IsBalanced e =
    player_created-IsBalanced e e.allocates_player e.inits_lock e.inits_library
