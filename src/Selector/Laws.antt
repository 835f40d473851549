-- ===== src/Selector/Laws.antt =====
-- src/webos_main.c: what the selector and the wait give.
use sysdvr_webos.Prelude.{
  ◌<◌, ◌≡◌, sym, ap, ◌∙◌, inl, inr, Bool, true, false, not, Option, none, some, List, [], ◌∷◌, ltb,
  if◌then◌else◌, ltb→lt, Bool-cases,
}
use sysdvr_webos.Prelude.Int.{pos, negsuc}
use sysdvr_webos.Device.{Device}
use sysdvr_webos.Session.{
  SessionDevice, SessionManager, seen, prune, move, remember_selected, selected_device,
  matches_preferred,
}
use sysdvr_webos.Session.Valid.{
  IsValid, seen-IsValid, prune-IsValid, move-IsValid, remember_selected-IsValid,
}
use sysdvr_webos.Session.Select.{remember_selected_lem}
use sysdvr_webos.Selector.{
  Action, none_pressed, up, down, left, right, ok, back, is_backish, Polled, sees, nothing, failed,
  Scans, drain, drain_scanner, poll_discovery_once, Round, Browse, chosen, leaves, on_action,
  browse_for_device, seek, seek_scanner, Wait, returned, cancelled, or_else,
  wait_for_preferred_console,
}

drain-IsValid : (ps : List Polled) (m : SessionManager) → IsValid m → IsValid (drain ps m).1
unfolding drain
drain-IsValid [] m v = v
drain-IsValid (sees d now ∷ ps) m v = drain-IsValid ps (seen m d now) (seen-IsValid m d now v)
drain-IsValid (nothing ∷ ps) m v = v
drain-IsValid (failed ∷ ps) m v = v

drain_scanner-IsValid : (s : Scans) (m : SessionManager) → IsValid m → IsValid (drain_scanner s m).1
drain_scanner-IsValid none m v = v
drain_scanner-IsValid (some ps) m v = drain-IsValid ps m v

poll_discovery_once-IsValid :
    (s t : Scans) (m : SessionManager) → IsValid m → IsValid (poll_discovery_once s t m).1
unfolding poll_discovery_once
poll_discovery_once-IsValid s t m v =
    drain_scanner-IsValid t (drain_scanner s m).1 (drain_scanner-IsValid s m v)

-- What the selector leaves: a valid registry, and after a choice a console that is remembered and
-- selected.
abbrev Browsed : Browse × SessionManager → Type 0
Browsed (b, m) =
    IsValid m
    × (b ≡ chosen
        → (m.have_preferred ≡ true) × ((e : SessionDevice) × (selected_device m ≡ some e)))

chosen-Browsed :
    (m : SessionManager) → IsValid m → 0 < m.count → Browsed (chosen, remember_selected m)
chosen-Browsed m v some_there =
    (remember_selected-IsValid m v, λ e. remember_selected_lem m v some_there)

on_action-Browsed :
    (a : Action) (m : SessionManager) (goes_on : SessionManager → Browse × SessionManager)
    → IsValid m
    → ((m' : SessionManager) → IsValid m' → Browsed (goes_on m'))
    → Browsed (on_action a m goes_on)
unfolding on_action
on_action-Browsed up m goes_on v h = h (move m (negsuc 0)) (move-IsValid m (negsuc 0) v)
on_action-Browsed down m goes_on v h = h (move m (pos 1)) (move-IsValid m (pos 1) v)
on_action-Browsed ok m goes_on v h = elim (Bool-cases (ltb 0 m.count)) [
  | inl many ↦ rw many (chosen-Browsed m v (ltb→lt 0 m.count many))
  | inr empty ↦ rw empty (h m v)
]
on_action-Browsed left m goes_on v h = (v, λ e. absurd cc)
on_action-Browsed back m goes_on v h = (v, λ e. absurd cc)
on_action-Browsed right m goes_on v h = h m v
on_action-Browsed none_pressed m goes_on v h = h m v

-- The tests at the start of a round.
guarded-Browsed :
    (stop alive : Bool) (m : SessionManager) (next : Browse × SessionManager)
    → IsValid m
    → Browsed next
    → Browsed (if stop then (leaves, m) else if not alive then (leaves, m) else next)
guarded-Browsed true alive m next v b = (v, λ e. absurd cc)
guarded-Browsed false true m next v b = b
guarded-Browsed false false m next v b = (v, λ e. absurd cc)

browse_for_device-Browsed :
    (rs : List Round) (m : SessionManager) → IsValid m → Browsed (browse_for_device rs m)
unfolding browse_for_device
browse_for_device-Browsed [] m v = (v, λ e. absurd cc)
browse_for_device-Browsed (r ∷ rs) m v =
    let polled = poll_discovery_once-IsValid r.sysdvr_scans r.sft_scans m v in
    let m' = prune (poll_discovery_once r.sysdvr_scans r.sft_scans m).1 r.now_ms in
    let next =
      on_action-Browsed r.action m' (λ m''. browse_for_device rs m'')
        (prune-IsValid (poll_discovery_once r.sysdvr_scans r.sft_scans m).1 r.now_ms polled)
        (λ m'' v'. browse_for_device-Browsed rs m'' v') in
    guarded-Browsed r.stop r.alive m (on_action r.action m' (λ m''. browse_for_device rs m'')) v
      next

-- What the wait leaves: a valid registry, and a console that it gives is the preferred one.
abbrev pub Waited : Wait × SessionManager → Type 0
Waited (w, m) = IsValid m × ((d : Device) → w ≡ returned d → matches_preferred m d ≡ true)

-- The same of the loop over one scanner.
abbrev pub Sought : Option Device × SessionManager → Type 0
Sought (o, m) = IsValid m × ((d : Device) → o ≡ some d → matches_preferred m d ≡ true)

some_device : (d d' : Device) → some d ≡ some d' → d ≡ d'
some_device d d' e = cc

returned_device : (d d' : Device) → returned d ≡ returned d' → d ≡ d'
returned_device d d' e = cc

seek-Sought : (ps : List Polled) (m : SessionManager) → IsValid m → Sought (seek ps m)
unfolding seek
seek-Sought [] m v = (v, λ d e. absurd cc)
seek-Sought (nothing ∷ ps) m v = (v, λ d e. absurd cc)
seek-Sought (failed ∷ ps) m v = (v, λ d e. absurd cc)
seek-Sought (sees d now ∷ ps) m v = elim (Bool-cases (matches_preferred (seen m d now) d)) [
  | inl here ↦ rw here (
    seen-IsValid m d now v,
    λ d' e. ap (matches_preferred (seen m d now)) (sym (some_device d d' e)) ∙ here,
  )
  | inr other ↦ rw other (seek-Sought ps (seen m d now) (seen-IsValid m d now v))
]

seek_scanner-Sought : (s : Scans) (m : SessionManager) → IsValid m → Sought (seek_scanner s m)
seek_scanner-Sought none m v = (v, λ d e. absurd cc)
seek_scanner-Sought (some ps) m v = seek-Sought ps m v

or_else-Waited :
    (r : Option Device × SessionManager) (goes_on : SessionManager → Wait × SessionManager)
    → Sought r
    → ((m : SessionManager) → IsValid m → Waited (goes_on m))
    → Waited (or_else r goes_on)
or_else-Waited (some d, m) goes_on s h = (s.0, λ d' e. s.1 d' (ap some (returned_device d d' e)))
or_else-Waited (none, m) goes_on s h = h m s.0

guarded-Waited :
    (stop alive backish : Bool) (m : SessionManager) (next : Wait × SessionManager)
    → IsValid m
    → Waited next
    → Waited (
        if stop
        then (cancelled, m)
        else if not alive
        then (cancelled, m)
        else if backish
        then (cancelled, m)
        else next)
guarded-Waited true alive backish m next v w = (v, λ d e. absurd cc)
guarded-Waited false false backish m next v w = (v, λ d e. absurd cc)
guarded-Waited false true true m next v w = (v, λ d e. absurd cc)
guarded-Waited false true false m next v w = w

pub wait_for_preferred_console-Waited :
    (rs : List Round) (m : SessionManager) → IsValid m → Waited (wait_for_preferred_console rs m)
unfolding wait_for_preferred_console
wait_for_preferred_console-Waited [] m v = (v, λ d e. absurd cc)
wait_for_preferred_console-Waited (r ∷ rs) m v =
    guarded-Waited r.stop r.alive (is_backish r.action) m _ v (
      or_else-Waited (seek_scanner r.sysdvr_scans m) _ (seek_scanner-Sought r.sysdvr_scans m v)
        (λ m' v'.
          or_else-Waited (seek_scanner r.sft_scans m') _ (seek_scanner-Sought r.sft_scans m' v')
            (λ m'' v''.
              wait_for_preferred_console-Waited rs (prune m'' r.now_ms)
                (prune-IsValid m'' r.now_ms v''))))

-- When the selector, started on a valid registry, returns with a choice, the registry is valid, a
-- console is selected, and a console is remembered as the one to reconnect to.
pub browse_for_device_lem :
    (rs : List Round) (m : SessionManager)
    → IsValid m
    → (browse_for_device rs m).0 ≡ chosen
    → IsValid (browse_for_device rs m).1
      × ((browse_for_device rs m).1.have_preferred ≡ true)
      × ((e : SessionDevice) × (selected_device (browse_for_device rs m).1 ≡ some e))
browse_for_device_lem rs m v e =
    let (valid, then_chosen) = browse_for_device-Browsed rs m v in
    let (preferred, selected) = then_chosen e in (valid, preferred, selected)

-- When the wait, started on a valid registry, returns with a console, the registry is valid and the
-- console is the preferred one: no other console is connected to.
pub wait_for_preferred_console_lem :
    (rs : List Round) (m : SessionManager) (d : Device)
    → IsValid m
    → (wait_for_preferred_console rs m).0 ≡ returned d
    → IsValid (wait_for_preferred_console rs m).1
      × (matches_preferred (wait_for_preferred_console rs m).1 d ≡ true)
wait_for_preferred_console_lem rs m d v e =
    let (valid, then_returned) = wait_for_preferred_console-Waited rs m v in
    (valid, then_returned d e)
