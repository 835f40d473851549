-- ===== src/Shell.antt =====
-- src/sdl_shell.c: the window, and the keys of the remote control. What SDL answers is an argument.
pub mod Laws
use sysdvr_webos.Prelude.{
  ℕ, zero, suc, ◌+◌, ◌-◌, ◌*◌, ◌/◌, ◌%◌, ◌^◌, ◌≤◌, ◌<◌, min, ◌≡◌, refl, sym, ap, ap₂, subst, ◌∙◌,
  ◌≢◌, ◌↔◌, ◌⊎◌, inl, inr, Bool, true, false, not, ◌&&◌, ◌||◌, Option, none, some, List, [], ◌∷◌,
  ◌++◌, map, append-nil, append_assoc, arith, ltb, leb, ◌==◌, ◌!=◌, if◌then◌else◌, ltb→lt, lt→ltb,
  ltb_false→le, le→ltb_false, leb→le, le→leb, leb_false→lt, lt→leb_false, ==_iff, Bool-cases,
  Option-cases, length, get_elem?, get_or, set, take, drop, replicate, length-append, length-take,
  length-drop, length-set, length-replicate, take_all, drop_all, take-append, drop-append,
  take-append_le, drop-append_le, take-append-drop, take_exact, drop_exact, drop-drop,
  drop-set_before, take-set_next, take_next, get_or-take,
}
use sysdvr_webos.Selector.{Action, none_pressed, up, down, left, right, ok, back}

-- The scancodes that the program knows.
pub data Scancode : Type 0 where
  key_up key_down key_left key_right key_return kp_enter key_select key_space key_escape ac_back
        other_key :
      Scancode

-- What `SDL_PollEvent` gives; a key that goes down, with its repeat count.
pub data ShellEvent : Type 0 where
  quit : ShellEvent
  keydown : ℕ → Scancode → ShellEvent
  other_event : ShellEvent

pub record SdlShell : Type 0 where
  pub has_window : Bool
  pub has_renderer : Bool
  pub width : ℕ
  pub height : ℕ
  pub quit_requested : Bool

unfoldable pub action_from_key : Scancode → Action
action_from_key key_up = up
action_from_key key_down = down
action_from_key key_left = left
action_from_key key_right = right
action_from_key key_return = ok
action_from_key kp_enter = ok
action_from_key key_select = ok
action_from_key key_space = ok
action_from_key key_escape = back
action_from_key ac_back = back
action_from_key other_key = none_pressed

abbrev pub is_none : Action → Bool
is_none none_pressed = true
is_none up = false
is_none down = false
is_none left = false
is_none right = false
is_none ok = false
is_none back = false

-- The first action that is mapped is kept.
abbrev pub keep_first : Action → Action → Action
keep_first action mapped = if not (is_none mapped) && is_none action then mapped else action

pub on_event : ShellEvent → SdlShell × Action → SdlShell × Action
unfolding action_from_key
on_event quit (s, action) = (record s { quit_requested = true }, action)
on_event (keydown repeat scancode) (s, action) =
    if repeat == 0 then (s, keep_first action (action_from_key scancode)) else (s, action)
on_event other_event (s, action) = (s, action)

-- The loop over the queued events.
unfoldable pub drain_events : List ShellEvent → SdlShell × Action → SdlShell × Action
unfolding on_event
drain_events [] r = r
drain_events (e ∷ es) r = drain_events es (on_event e r)

-- `sdl_shell_poll`: whether the window is still wanted, the shell, and the action.
unfoldable pub poll : List ShellEvent → SdlShell → Bool × (SdlShell × Action)
poll es s =
    let (s', action) = drain_events es (s, none_pressed) in (not s'.quit_requested, (s', action))

-- What SDL answers while the window is opened; the mode is that of the display.
pub record Display : Type 0 where
  pub inits_video : Bool
  pub mode : Option (ℕ × ℕ)
  pub creates_window : Bool
  pub creates_renderer : Bool

abbrev closed : SdlShell
closed = record {
  has_window = false;
  has_renderer = false;
  width = 0;
  height = 0;
  quit_requested = false;
}

abbrev open_window : Display → Option (ℕ × ℕ) → Bool × SdlShell
open_window d none = (false, closed)
open_window d (some (w, h)) =
    let sized = record closed { width = w; height = h } in
    if not d.creates_window
    then (false, sized)
    else if not d.creates_renderer
    then (false, record sized { has_window = true })
    else (true, record sized { has_window = true; has_renderer = true })

-- `sdl_shell_open`
unfoldable pub open_shell : Display → Bool × SdlShell
open_shell d = if not d.inits_video then (false, closed) else open_window d d.mode

-- `sdl_shell_close`
unfoldable pub close_shell : SdlShell → SdlShell
close_shell s = record s { has_window = false; has_renderer = false }
