-- ===== src/Main/Laws.antt =====
-- src/webos_main.c, `main`: which console each session is with.
use sysdvr_webos.Prelude.{
  ◌≡◌, refl, sym, ◌∙◌, inl, inr, Bool, true, false, ◌||◌, Option, none, some, List, [], ◌∷◌, ◌++◌,
  if◌then◌else◌, Bool-cases,
}
use sysdvr_webos.Device.{Device}
use sysdvr_webos.Session.{SessionDevice, SessionManager, seen, selected_device, matches_preferred}
use sysdvr_webos.Session.Valid.{IsValid, seen-IsValid}
use sysdvr_webos.Selector.{
  Browse, chosen, leaves, browse_for_device, Wait, returned, cancelled, wait_for_preferred_console,
}
use sysdvr_webos.Selector.Laws.{Waited, wait_for_preferred_console-Waited, browse_for_device_lem}
use sysdvr_webos.Selector.Preference.{
  preference, matches_preferred_same, seen-preference, wait-preference,
}
use sysdvr_webos.Sft.Backend.{SessionResult, remote_end, transport_lost, session_error, user_back}
use sysdvr_webos.Main.{
  Again, Visit, Event, chooses, reconnects, Left, and_then, next_target, is_user_back, is_error,
  reconnect_loop, await_return, run_selected, on_browse, visit, main_loop,
}

-- Between two sessions: the user has to choose, or the console of a choice may also come back.
pub data Phase : Type 0 where
  selecting : Phase
  lost : SessionManager → Phase

-- After the first session with a chosen console, and after a session with one that came back.
abbrev pub after_choice : SessionManager → SessionResult → Phase
after_choice m remote_end = lost m
after_choice m transport_lost = lost m
after_choice m session_error = selecting
after_choice m user_back = selecting

abbrev pub after_return : SessionManager → SessionResult → Phase
after_return m user_back = selecting
after_return m remote_end = lost m
after_return m transport_lost = lost m
after_return m session_error = lost m

-- The console is the one that is selected in the registry, and one is remembered.
abbrev pub IsChoice : SessionManager → Device → Type 0
IsChoice m d =
    (m.have_preferred ≡ true) × ((e : SessionDevice) × (selected_device m ≡ some e) × (e.info ≡ d))

-- The sessions that the client may run.
abbrev pub Follows : Phase → List Event → Type 0
Follows p [] = Unit {0}
Follows p (chooses m d r ∷ es) = IsChoice m d × Follows (after_choice m r) es
Follows selecting (reconnects d r ∷ es) = ⊥
Follows (lost m) (reconnects d r ∷ es) =
    (matches_preferred m d ≡ true) × Follows (after_return m r) es

Follows-lost : (m : SessionManager) (es : List Event) → Follows selecting es → Follows (lost m) es
Follows-lost m [] h = tt
Follows-lost m (chooses m' d r ∷ es) h = h
Follows-lost m (reconnects d r ∷ es) h = absurd h

Follows-any : (p : Phase) (es : List Event) → Follows selecting es → Follows p es
Follows-any selecting es h = h
Follows-any (lost m) es h = Follows-lost m es h

Follows-append :
    (p : Phase) (es fs : List Event) → Follows p es → Follows selecting fs → Follows p (es ++ fs)
Follows-append p [] fs h k = Follows-any p fs k
Follows-append selecting (chooses m d r ∷ es) fs h k =
    (h.0, Follows-append (after_choice m r) es fs h.1 k)
Follows-append selecting (reconnects d r ∷ es) fs h k = absurd h
Follows-append (lost m') (chooses m d r ∷ es) fs h k =
    (h.0, Follows-append (after_choice m r) es fs h.1 k)
Follows-append (lost m') (reconnects d r ∷ es) fs h k =
    (h.0, Follows-append (after_return m' r) es fs h.1 k)

-- What a part of the loop leaves: sessions that are allowed from a phase, and a valid registry.
abbrev Goes : Phase → Left → Type 0
Goes p (goes_on, (m, es)) = Follows p es × IsValid m

-- The registry has the preference of the choice.
abbrev Remembers : SessionManager → SessionManager → Type 0
Remembers c m = IsValid m × (preference m ≡ preference c)

next_target-Goes :
    (c : SessionManager) (p : Phase) (w : Wait × SessionManager)
    (next : Device → SessionManager → Left)
    → Waited w
    → preference w.1 ≡ preference c
    → ((d : Device) (m : SessionManager)
        → Remembers c m
        → matches_preferred m d ≡ true
        → Goes p (next d m))
    → Goes p (next_target w next)
unfolding next_target
next_target-Goes c p (returned d, m) next w e h = h d m (w.0, e) (w.1 d refl)
next_target-Goes c p (cancelled, m) next w e h = (tt, w.0)
next_target-Goes c p (Wait.unfinished, m) next w e h = (tt, w.0)

after_reconnect-Goes :
    (c : SessionManager) (d : Device) (r : SessionResult) (stop : Bool) (m : SessionManager)
    (more : Left)
    → Remembers c m
    → matches_preferred m d ≡ true
    → Goes (lost c) more
    → Goes
        (lost c)
        (and_then (reconnects d r) (if stop || is_user_back r then (true, (m, [])) else more))
after_reconnect-Goes c d r true m more k met g =
    ((sym (matches_preferred_same m c d k.1) ∙ met, tt), k.0)
after_reconnect-Goes c d user_back false m more k met g =
    ((sym (matches_preferred_same m c d k.1) ∙ met, tt), k.0)
after_reconnect-Goes c d remote_end false m more k met g =
    ((sym (matches_preferred_same m c d k.1) ∙ met, g.0), g.1)
after_reconnect-Goes c d transport_lost false m more k met g =
    ((sym (matches_preferred_same m c d k.1) ∙ met, g.0), g.1)
after_reconnect-Goes c d session_error false m more k met g =
    ((sym (matches_preferred_same m c d k.1) ∙ met, g.0), g.1)

reconnect_loop-Goes :
    (as' : List Again) (c : SessionManager) (d : Device) (m : SessionManager)
    → Remembers c m
    → matches_preferred m d ≡ true
    → Goes (lost c) (reconnect_loop as' d m)
unfolding reconnect_loop
reconnect_loop-Goes [] c d m k met = (tt, k.0)
reconnect_loop-Goes (a ∷ rest) c d m k met =
    let w = wait_for_preferred_console a.waiting m in
    let more =
      next_target-Goes c (lost c) w (λ d' m'. reconnect_loop rest d' m')
        (wait_for_preferred_console-Waited a.waiting m k.0) (wait-preference a.waiting m ∙ k.1)
        (λ d' m' k' met'. reconnect_loop-Goes rest c d' m' k' met') in
    let o = a.backends d.source in
    elim (Bool-cases a.stop) [
      | inl stops ↦ rw stops (tt, k.0)
      | inr runs ↦ rw runs (after_reconnect-Goes c d o.result o.stop m _ k met more)
    ]

await_return-Goes : (v : Visit) (m : SessionManager) → IsValid m → Goes (lost m) (await_return v m)
unfolding await_return
await_return-Goes v m valid =
    next_target-Goes m (lost m) (wait_for_preferred_console v.waiting m) _
      (wait_for_preferred_console-Waited v.waiting m valid) (wait-preference v.waiting m)
      (λ d m' k met.
        let same = seen-preference m' d v.now_ms in
        reconnect_loop-Goes v.agains m d (seen m' d v.now_ms)
          (seen-IsValid m' d v.now_ms k.0, same ∙ k.1)
          (matches_preferred_same (seen m' d v.now_ms) m' d same ∙ met))

after_choice-Goes :
    (m : SessionManager) (d : Device) (r : SessionResult) (stop : Bool) (rest : Left)
    → IsValid m
    → IsChoice m d
    → Goes (lost m) rest
    → Goes selecting (
        and_then (chooses m d r) (
          if stop
          then (false, (m, []))
          else if is_user_back r || is_error r
          then (true, (m, []))
          else rest))
after_choice-Goes m d r true rest v c g = ((c, tt), v)
after_choice-Goes m d user_back false rest v c g = ((c, tt), v)
after_choice-Goes m d session_error false rest v c g = ((c, tt), v)
after_choice-Goes m d remote_end false rest v c g = ((c, g.0), g.1)
after_choice-Goes m d transport_lost false rest v c g = ((c, g.0), g.1)

run_selected-Goes :
    (v : Visit) (o : Option SessionDevice) (m : SessionManager)
    → IsValid m
    → m.have_preferred ≡ true
    → selected_device m ≡ o
    → Goes selecting (run_selected v o m)
unfolding run_selected
run_selected-Goes v none m valid have e = (tt, valid)
run_selected-Goes v (some target) m valid have e =
    let o = v.backends target.info.source in
    after_choice-Goes m target.info o.result o.stop (await_return v m) valid
      (have, (target, e, refl)) (await_return-Goes v m valid)

-- Where the loop goes on after a visit, the registry is valid; the sessions are allowed in any case.
abbrev Visited : Left → Type 0
Visited (goes_on, (m, es)) = Follows selecting es × (goes_on ≡ true → IsValid m)

on_browse-Visited :
    (v : Visit) (r : Browse × SessionManager)
    → (r.0 ≡ chosen
        → IsValid r.1
          × (r.1.have_preferred ≡ true)
          × ((e : SessionDevice) × (selected_device r.1 ≡ some e)))
    → Visited (on_browse v r)
unfolding on_browse
on_browse-Visited v (chosen, m) h =
    let (valid, have, picked) = h refl in
    let g = run_selected-Goes v (selected_device m) m valid have refl in (g.0, λ _. g.1)
on_browse-Visited v (leaves, m) h = (tt, λ e. absurd cc)
on_browse-Visited v (Browse.unfinished, m) h = (tt, λ e. absurd cc)

visit-Visited : (v : Visit) (m : SessionManager) → IsValid m → Visited (visit v m)
unfolding visit
visit-Visited v m valid =
    on_browse-Visited v (browse_for_device v.browsing m) (browse_for_device_lem v.browsing m valid)

abbrev sessions : SessionManager × List Event → List Event
sessions r = r.1

step-Follows :
    (stop goes_on : Bool) (m m' m'' : SessionManager) (es more : List Event)
    → Follows selecting es
    → (goes_on ≡ true → Follows selecting more)
    → Follows selecting
        (sessions (if stop then (m, []) else if goes_on then (m'', es ++ more) else (m', es)))
step-Follows true goes_on m m' m'' es more h k = tt
step-Follows false true m m' m'' es more h k = Follows-append selecting es more h (k refl)
step-Follows false false m m' m'' es more h k = h

-- Whatever the scanners, the user and the sessions do, the program started on a valid registry runs a
-- session only with the console that is selected when the user chooses one, or, after a session that
-- ended by itself, with a console that matches what was remembered at the last choice. After the user
-- has left a session, or a first session has failed, the next one is with a choice.
pub main_loop-Follows :
    (vs : List Visit) (m : SessionManager) → IsValid m → Follows selecting (main_loop vs m).1
unfolding main_loop
main_loop-Follows [] m valid = tt
main_loop-Follows (v ∷ vs) m valid =
    let (ok, next) = visit-Visited v m valid in
    step-Follows v.stop (visit v m).0 m (visit v m).1.0 (main_loop vs (visit v m).1.0).0
      (visit v m).1.1 (main_loop vs (visit v m).1.0).1 ok
      (λ e. main_loop-Follows vs (visit v m).1.0 (next e))
