-- ===== src/Sft/Session.antt =====
-- src/frametap_backend.c, `frametap_run_stream_session`: the session beside its thread, with what it
-- opens and closes, what it shows on the screen, and its result. The network, the lock, the thread,
-- the remote control and the clock are arguments.
pub mod Laws
use sysdvr_webos.Prelude.{
  ℕ, zero, suc, ◌+◌, ◌-◌, ◌*◌, ◌/◌, ◌%◌, ◌^◌, ◌≤◌, ◌<◌, min, ◌≡◌, refl, sym, ap, ap₂, subst, ◌∙◌,
  ◌≢◌, ◌↔◌, ◌⊎◌, inl, inr, Bool, true, false, not, ◌&&◌, ◌||◌, Option, none, some, List, [], ◌∷◌,
  ◌++◌, map, append-nil, append_assoc, arith, ltb, leb, ◌==◌, ◌!=◌, if◌then◌else◌, ltb→lt, lt→ltb,
  ltb_false→le, le→ltb_false, leb→le, le→leb, leb_false→lt, lt→leb_false, ==_iff, Bool-cases,
  Option-cases, length, get_elem?, get_or, set, take, drop, replicate, length-append, length-take,
  length-drop, length-set, length-replicate, take_all, drop_all, take-append, drop-append,
  take-append_le, drop-append_le, take-append-drop, take_exact, drop_exact, drop-drop,
  drop-set_before, take-set_next, take_next, get_or-take,
}
use sysdvr_webos.Prelude.Words.{u32}
use sysdvr_webos.Resources.{socket, thread, lock, Call, acquires, releases}
use sysdvr_webos.Net.Connect.{Candidate, Connected, tcp_connect_timeout}
use sysdvr_webos.Selector.{Action, is_backish}
use sysdvr_webos.Sft.Backend.{SessionResult, transport_lost, session_error, session_result}

-- One round of the loop: the stop flag, the flags of the thread, whether the shell is alive, the key,
-- `SDL_GetTicks`, and the text of the status.
pub record Tick : Type 0 where
  pub stop : Bool
  pub finished : Bool
  pub alive : Bool
  pub action : Action
  pub video_started : Bool
  pub connected : Bool
  pub ticks : ℕ
  pub status : List ℕ

-- What the loop draws: nothing over the video, or the text of the status.
pub data Screen : Type 0 where
  clears : Screen
  waits : ℕ → List ℕ → Screen

pub record Watch : Type 0 where
  pub ui_cleared : Bool
  pub last_wait_render : ℕ

abbrev pub start : Watch
start = record { ui_cleared = false; last_wait_render = 0 }

unfoldable pub draw : Tick → Watch → Watch × List Screen
draw t w =
    if not w.ui_cleared && t.video_started
    then (record w { ui_cleared = true }, clears ∷ [])
    else if not w.ui_cleared && t.connected
    then (if leb 500 (u32 (t.ticks + 2 ^ 32 - w.last_wait_render))
        then (record w { last_wait_render = t.ticks }, waits t.ticks t.status ∷ [])
        else (w, []))
    else (w, [])

-- How the loop ends: by the user, by the shell (which sets the stop flag), by a flag, or it goes on.
pub data Ending : Type 0 where
  by_user by_shell by_flag unfinished : Ending

unfoldable pub watch : List Tick → Watch → Ending × List Screen
unfolding is_backish
watch [] w = (unfinished, [])
watch (t ∷ ts) w =
    let (w', screens) = draw t w in
    let (ending, more) = watch ts w' in
    if t.stop || t.finished
    then (by_flag, [])
    else if not t.alive
    then (by_shell, [])
    else if is_backish t.action
    then (by_user, [])
    else (ending, screens ++ more)

abbrev pub is_by_user : Ending → Bool
is_by_user by_user = true
is_by_user by_shell = false
is_by_user by_flag = false
is_by_user unfinished = false

abbrev pub is_by_shell : Ending → Bool
is_by_shell by_shell = true
is_by_shell by_user = false
is_by_shell by_flag = false
is_by_shell unfinished = false

-- What the resolver and the kernel answer to connecting, and the rest of the session;
-- `stop_flag` is the stop flag when the thread has been joined, if the shell has not set it;
-- `worker_failed` is the flag that the thread leaves.
pub record Environment : Type 0 where
  pub addresses : Option (List Candidate)
  pub inits_lock : Bool
  pub starts_thread : Bool
  pub ticks : List Tick
  pub stop_flag : Bool
  pub worker_failed : Bool

pub record Run : Type 0 where
  pub result : SessionResult
  pub calls : List Call
  pub screens : List Screen

abbrev pub joined : Environment → ℕ → List Call → Ending × List Screen → Run
joined e fd tried (ending, screens) = record {
  result = session_result (is_by_user ending) (is_by_shell ending || e.stop_flag) e.worker_failed;
  calls =
      tried
      ++ acquires (lock, 0)
        ∷ acquires (thread, 0)
        ∷ releases (thread, 0)
        ∷ releases (socket, fd)
        ∷ releases (lock, 0)
        ∷ [];
  screens = screens;
}

pub on_connection : Environment → Connected → Run
unfolding watch
on_connection e (none, tried) = record { result = transport_lost; calls = tried; screens = [] }
on_connection e (some fd, tried) =
    if not e.inits_lock
    then record {
      result = session_error;
      calls = tried ++ releases (socket, fd) ∷ [];
      screens = [];
    }
    else if not e.starts_thread
    then record {
      result = session_error;
      calls = tried ++ acquires (lock, 0) ∷ releases (lock, 0) ∷ releases (socket, fd) ∷ [];
      screens = [];
    }
    else joined e fd tried (watch e.ticks start)

unfoldable pub run_stream_session : Environment → Run
unfolding on_connection
run_stream_session e = on_connection e (tcp_connect_timeout e.addresses)
