-- ===== src/Main.antt =====
-- src/webos_main.c, `main`: the loop that chooses a console, runs its session, and reconnects to it.
-- What the loops for a console see, what a session gives, and each read of `g_signal_stop` (which a
-- signal or a closed window sets) are arguments. The registry before the loop is that of `Launch`.
pub mod Laws
pub mod Program
pub mod Start
use sysdvr_webos.Prelude.{
  ℕ, zero, suc, ◌+◌, ◌-◌, ◌*◌, ◌/◌, ◌%◌, ◌^◌, ◌≤◌, ◌<◌, min, ◌≡◌, refl, sym, ap, ap₂, subst, ◌∙◌,
  ◌≢◌, ◌↔◌, ◌⊎◌, inl, inr, Bool, true, false, not, ◌&&◌, ◌||◌, Option, none, some, List, [], ◌∷◌,
  ◌++◌, map, append-nil, append_assoc, arith, ltb, leb, ◌==◌, ◌!=◌, if◌then◌else◌, ltb→lt, lt→ltb,
  ltb_false→le, le→ltb_false, leb→le, le→leb, leb_false→lt, lt→leb_false, ==_iff, Bool-cases,
  Option-cases, length, get_elem?, get_or, set, take, drop, replicate, length-append, length-take,
  length-drop, length-set, length-replicate, take_all, drop_all, take-append, drop-append,
  take-append_le, drop-append_le, take-append-drop, take_exact, drop_exact, drop-drop,
  drop-set_before, take-set_next, take_next, get_or-take,
}
use sysdvr_webos.Device.{StreamSource, Device}
use sysdvr_webos.Session.{SessionDevice, SessionManager, seen, selected_device}
use sysdvr_webos.Selector.{
  Round, Browse, chosen, leaves, browse_for_device, Wait, returned, cancelled,
  wait_for_preferred_console,
}
use sysdvr_webos.Sft.Backend.{SessionResult, remote_end, transport_lost, session_error, user_back}

-- A call of `run_stream_session` or `frametap_run_stream_session`: its result, and the stop flag after
-- it. The backend is that of the console.
pub record Outcome : Type 0 where
  pub result : SessionResult
  pub stop : Bool

abbrev pub Backends : Type 0
Backends = StreamSource → Outcome

-- One round of the inner loop.
pub record Again : Type 0 where
  pub stop : Bool
  pub backends : Backends
  pub waiting : List Round

-- One round of the outer loop.
pub record Visit : Type 0 where
  pub stop : Bool
  pub browsing : List Round
  pub backends : Backends
  pub waiting : List Round
  pub now_ms : ℕ
  pub agains : List Again

-- The sessions that are run: the registry at the choice, the console, and the result.
pub data Event : Type 0 where
  chooses : SessionManager → Device → SessionResult → Event
  reconnects : Device → SessionResult → Event

-- Whether the loop around goes on, the registry, and the sessions that were run. It does not go on when
-- the program leaves, or when the rounds of the environment run out inside.
abbrev pub Left : Type 0
Left = Bool × (SessionManager × List Event)

abbrev pub and_then : Event → Left → Left
and_then e (goes_on, (m, es)) = (goes_on, (m, e ∷ es))

-- What follows a wait: the next round with the console that came back, or the selector.
pub next_target : Wait × SessionManager → (Device → SessionManager → Left) → Left
next_target (returned d, m) next = next d m
next_target (cancelled, m) next = (true, (m, []))
next_target (Wait.unfinished, m) next = (false, (m, []))

abbrev pub is_user_back : SessionResult → Bool
is_user_back user_back = true
is_user_back remote_end = false
is_user_back transport_lost = false
is_user_back session_error = false

abbrev pub is_error : SessionResult → Bool
is_error session_error = true
is_error remote_end = false
is_error transport_lost = false
is_error user_back = false

-- The inner loop, `while (!g_signal_stop)`, with the console to reconnect to.
unfoldable pub reconnect_loop : List Again → Device → SessionManager → Left
unfolding next_target
reconnect_loop [] target m = (false, (m, []))
reconnect_loop (a ∷ rest) target m =
    let o = a.backends target.source in
    let more =
      next_target (wait_for_preferred_console a.waiting m) (λ d m'. reconnect_loop rest d m') in
    if a.stop
    then (true, (m, []))
    else and_then (reconnects target o.result)
        (if o.stop || is_user_back o.result then (true, (m, [])) else more)

-- After a session that ended by itself: the wait, a sighting of the console, and the inner loop.
unfoldable pub await_return : Visit → SessionManager → Left
unfolding next_target
await_return v m =
    next_target (wait_for_preferred_console v.waiting m)
      (λ d m'. reconnect_loop v.agains d (seen m' d v.now_ms))

-- A session with the console that is selected, and what follows it.
unfoldable pub run_selected : Visit → Option SessionDevice → SessionManager → Left
run_selected v none m = (true, (m, []))
run_selected v (some target) m =
    let o = v.backends target.info.source in
    and_then (chooses m target.info o.result) (
      if o.stop
      then (false, (m, []))
      else if is_user_back o.result || is_error o.result
      then (true, (m, []))
      else await_return v m)

unfoldable pub on_browse : Visit → Browse × SessionManager → Left
on_browse v (chosen, m) = run_selected v (selected_device m) m
on_browse v (leaves, m) = (false, (m, []))
on_browse v (Browse.unfinished, m) = (false, (m, []))

unfoldable pub visit : Visit → SessionManager → Left
unfolding on_browse
visit v m = on_browse v (browse_for_device v.browsing m)

-- The outer loop.
unfoldable pub main_loop : List Visit → SessionManager → SessionManager × List Event
main_loop [] m = (m, [])
main_loop (v ∷ vs) m =
    let (goes_on, (m', es)) = visit v m in
    let (m'', more) = main_loop vs m' in
    if v.stop then (m, []) else if goes_on then (m'', es ++ more) else (m', es)
