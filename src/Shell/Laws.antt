-- ===== src/Shell/Laws.antt =====
-- src/sdl_shell.c: which key `sdl_shell_poll` reports, and when it says that the window is closed.
use sysdvr_webos.Prelude.{
  zero, suc, ◌≡◌, refl, sym, ap, ◌∙◌, Bool, true, false, not, ◌||◌, List, [], ◌∷◌, arith,
  if◌then◌else◌,
}
use sysdvr_webos.Selector.{Action, none_pressed, up, down, left, right, ok, back}
use sysdvr_webos.Shell.{
  Scancode, ShellEvent, quit, keydown, other_event, SdlShell, action_from_key, is_none, keep_first,
  on_event, drain_events, poll,
}

-- The keys that go down and are not repeated, in order.
pub pressed : List ShellEvent → List Scancode
pressed [] = []
pressed (quit ∷ es) = pressed es
pressed (keydown zero k ∷ es) = k ∷ pressed es
pressed (keydown (suc n) k ∷ es) = pressed es
pressed (other_event ∷ es) = pressed es

-- The action of the first key that has one.
pub first_action : List Scancode → Action
first_action [] = none_pressed
first_action (k ∷ ks) =
    let rest = first_action ks in if is_none (action_from_key k) then rest else action_from_key k

pub asks_to_quit : List ShellEvent → Bool
asks_to_quit [] = false
asks_to_quit (quit ∷ es) = true
asks_to_quit (keydown n k ∷ es) = asks_to_quit es
asks_to_quit (other_event ∷ es) = asks_to_quit es

abbrev or_first : Action → Action → Action
or_first a b = if is_none a then b else a

or_first-keep_first : (a m r : Action) → or_first (keep_first a m) r ≡ or_first a (or_first m r)
or_first-keep_first none_pressed m r = ground arith
or_first-keep_first up m r = ground arith
or_first-keep_first down m r = ground arith
or_first-keep_first left m r = ground arith
or_first-keep_first right m r = ground arith
or_first-keep_first ok m r = ground arith
or_first-keep_first back m r = ground arith

or_first-none : (a : Action) → or_first a none_pressed ≡ a
or_first-none none_pressed = refl
or_first-none up = refl
or_first-none down = refl
or_first-none left = refl
or_first-none right = refl
or_first-none ok = refl
or_first-none back = refl

drain_events-action :
    (es : List ShellEvent) (s : SdlShell) (a : Action)
    → (drain_events es (s, a)).1 ≡ or_first a (first_action (pressed es))
unfolding drain_events on_event pressed first_action
drain_events-action [] s a = sym (or_first-none a)
drain_events-action (quit ∷ es) s a = drain_events-action es (record s { quit_requested = true }) a
drain_events-action (keydown zero k ∷ es) s a =
    drain_events-action es s (keep_first a (action_from_key k))
    ∙ or_first-keep_first a (action_from_key k) (first_action (pressed es))
drain_events-action (keydown (suc n) k ∷ es) s a = ground (arith, drain_events-action es s a)
drain_events-action (other_event ∷ es) s a = drain_events-action es s a

drain_events-quit :
    (es : List ShellEvent) (s : SdlShell) (a : Action)
    → (drain_events es (s, a)).0 ≡ record s { quit_requested = s.quit_requested || asks_to_quit es }
unfolding drain_events on_event asks_to_quit
drain_events-quit [] s a = ground arith
drain_events-quit (quit ∷ es) s a =
    ground (arith, drain_events-quit es (record s { quit_requested = true }) a)
drain_events-quit (keydown n k ∷ es) s a =
    ground
      (arith, drain_events-quit es s a, drain_events-quit es s (keep_first a (action_from_key k)))
drain_events-quit (other_event ∷ es) s a = drain_events-quit es s a

-- A poll takes all queued events: it reports the action of the first key among them that has one and is
-- not a repetition, and that the window is closed exactly if SDL asks for it now or has asked before.
pub poll_lem :
    (es : List ShellEvent) (s : SdlShell)
    → ((poll es s).1.1 ≡ first_action (pressed es))
      × ((poll es s).0 ≡ not (s.quit_requested || asks_to_quit es))
      × ((poll es s).1.0.quit_requested ≡ (s.quit_requested || asks_to_quit es))
unfolding poll
poll_lem es s =
    let q = drain_events-quit es s none_pressed in
    (
      drain_events-action es s none_pressed,
      ap (λ (x : SdlShell). not x.quit_requested) q,
      ap (λ (x : SdlShell). x.quit_requested) q,
    )
