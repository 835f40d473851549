-- ===== src/Selector.antt =====
-- src/webos_main.c: the loops that look for consoles: the selector, and the wait for the console that
-- was lost. What the scanners, the clock and the remote control say is an argument; a pointer is not
-- NULL but a scanner's, and drawing is left out.
pub mod Laws
pub mod Preference
use sysdvr_webos.Prelude.{
  ℕ, zero, suc, ◌+◌, ◌-◌, ◌*◌, ◌/◌, ◌%◌, ◌^◌, ◌≤◌, ◌<◌, min, ◌≡◌, refl, sym, ap, ap₂, subst, ◌∙◌,
  ◌≢◌, ◌↔◌, ◌⊎◌, inl, inr, Bool, true, false, not, ◌&&◌, ◌||◌, Option, none, some, List, [], ◌∷◌,
  ◌++◌, map, append-nil, append_assoc, arith, ltb, leb, ◌==◌, ◌!=◌, if◌then◌else◌, ltb→lt, lt→ltb,
  ltb_false→le, le→ltb_false, leb→le, le→leb, leb_false→lt, lt→leb_false, ==_iff, Bool-cases,
  Option-cases, length, get_elem?, get_or, set, take, drop, replicate, length-append, length-take,
  length-drop, length-set, length-replicate, take_all, drop_all, take-append, drop-append,
  take-append_le, drop-append_le, take-append-drop, take_exact, drop_exact, drop-drop,
  drop-set_before, take-set_next, take_next, get_or-take,
}
use sysdvr_webos.Prelude.CString.{codes, copy_text}
use sysdvr_webos.Prelude.Int.{pos, negsuc}
use sysdvr_webos.Device.{Device, frametap, host_size, client_version_size, protocol_size}
use sysdvr_webos.Session.{
  SessionDevice, SessionManager, seen, prune, move, remember_selected, matches_preferred,
}
use sysdvr_webos.Sft.Discovery.{SftDevice}

-- `sdl_shell_action`
pub data Action : Type 0 where
  none_pressed up down left right ok back : Action

unfoldable pub is_backish : Action → Bool
is_backish left = true
is_backish back = true
is_backish _ = false

unfoldable pub frametap_device_to_session : SftDevice → Device
frametap_device_to_session d = record {
  source = frametap;
  host = copy_text host_size d.host;
  client_version = copy_text client_version_size (codes "Frame Tap");
  protocol = copy_text protocol_size (codes "SFTR2");
  serial = [];
}

-- What one call of a scanner's poll gives, with the clock of `ui_now_ms` after it.
pub data Polled : Type 0 where
  sees : Device → ℕ → Polled
  nothing failed : Polled

-- The calls of one loop over a scanner; `none` is a scanner that is NULL. At the end of the list
-- nothing is queued.
abbrev pub Scans : Type 0
Scans = Option (List Polled)

pub drain : List Polled → SessionManager → Bool × SessionManager
drain [] m = (true, m)
drain (sees d now ∷ ps) m = drain ps (seen m d now)
drain (nothing ∷ ps) m = (true, m)
drain (failed ∷ ps) m = (false, m)

abbrev pub drain_scanner : Scans → SessionManager → Bool × SessionManager
drain_scanner none m = (true, m)
drain_scanner (some ps) m = drain ps m

pub poll_discovery_once : Scans → Scans → SessionManager → Bool × SessionManager
unfolding drain
poll_discovery_once sysdvr_scans sft_scans m =
    let (ok1, m1) = drain_scanner sysdvr_scans m in
    let (ok2, m2) = drain_scanner sft_scans m1 in (ok1 && ok2, m2)

-- What one round of a loop sees: the stop flag, whether the shell is alive, the key, the scanners, and
-- the clock.
pub record Round : Type 0 where
  pub stop : Bool
  pub alive : Bool
  pub action : Action
  pub sysdvr_scans : Scans
  pub sft_scans : Scans
  pub now_ms : ℕ

-- A choice was made, the user or the system ends the client, or the rounds ran out.
pub data Browse : Type 0 where
  chosen leaves unfinished : Browse

-- The keys of the selector; `goes_on` is the rest of the loop.
pub on_action :
    Action → SessionManager → (SessionManager → Browse × SessionManager) → Browse × SessionManager
on_action up m goes_on = goes_on (move m (negsuc 0))
on_action down m goes_on = goes_on (move m (pos 1))
on_action ok m goes_on = if ltb 0 m.count then (chosen, remember_selected m) else goes_on m
on_action left m goes_on = (leaves, m)
on_action back m goes_on = (leaves, m)
on_action right m goes_on = goes_on m
on_action none_pressed m goes_on = goes_on m

unfoldable pub browse_for_device : List Round → SessionManager → Browse × SessionManager
unfolding on_action poll_discovery_once
browse_for_device [] m = (unfinished, m)
browse_for_device (r ∷ rs) m =
    let m' = prune (poll_discovery_once r.sysdvr_scans r.sft_scans m).1 r.now_ms in
    let next = on_action r.action m' (λ m''. browse_for_device rs m'') in
    if r.stop then (leaves, m) else if not r.alive then (leaves, m) else next

-- A loop over a scanner that stops at the preferred console.
pub seek : List Polled → SessionManager → Option Device × SessionManager
seek [] m = (none, m)
seek (sees d now ∷ ps) m =
    let m' = seen m d now in
    let rest = seek ps m' in if matches_preferred m' d then (some d, m') else rest
seek (nothing ∷ ps) m = (none, m)
seek (failed ∷ ps) m = (none, m)

abbrev pub seek_scanner : Scans → SessionManager → Option Device × SessionManager
seek_scanner none m = (none, m)
seek_scanner (some ps) m = seek ps m

-- The console that came back, or the user or the system gives up, or the rounds ran out.
pub data Wait : Type 0 where
  returned : Device → Wait
  cancelled unfinished : Wait

abbrev pub or_else :
    Option Device × SessionManager
    → (SessionManager → Wait × SessionManager)
    → Wait × SessionManager
or_else (some d, m) goes_on = (returned d, m)
or_else (none, m) goes_on = goes_on m

unfoldable pub wait_for_preferred_console : List Round → SessionManager → Wait × SessionManager
unfolding seek
wait_for_preferred_console [] m = (unfinished, m)
wait_for_preferred_console (r ∷ rs) m =
    let next = or_else (seek_scanner r.sysdvr_scans m) (λ m'.
      or_else (seek_scanner r.sft_scans m')
        (λ m''. wait_for_preferred_console rs (prune m'' r.now_ms))) in
    if r.stop
    then (cancelled, m)
    else if not r.alive
    then (cancelled, m)
    else if is_backish r.action
    then (cancelled, m)
    else next
