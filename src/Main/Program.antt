-- ===== src/Main/Program.antt =====
-- src/webos_main.c, `main`: the order in which the program opens its parts, runs its sessions and closes
-- its parts, with all that is acquired and given back on the way. The window belongs to SDL, which
-- releases it when it quits; the log is left out.
pub mod Balance
use sysdvr_webos.Prelude.{
  ℕ, zero, suc, ◌+◌, ◌-◌, ◌*◌, ◌/◌, ◌%◌, ◌^◌, ◌≤◌, ◌<◌, min, ◌≡◌, refl, sym, ap, ap₂, subst, ◌∙◌,
  ◌≢◌, ◌↔◌, ◌⊎◌, inl, inr, Bool, true, false, not, ◌&&◌, ◌||◌, Option, none, some, List, [], ◌∷◌,
  ◌++◌, map, append-nil, append_assoc, arith, ltb, leb, ◌==◌, ◌!=◌, if◌then◌else◌, ltb→lt, lt→ltb,
  ltb_false→le, le→ltb_false, leb→le, le→leb, leb_false→lt, lt→leb_false, ==_iff, Bool-cases,
  Option-cases, length, get_elem?, get_or, set, take, drop, replicate, length-append, length-take,
  length-drop, length-set, length-replicate, take_all, drop_all, take-append, drop-append,
  take-append_le, drop-append_le, take-append-drop, take_exact, drop_exact, drop-drop,
  drop-set_before, take-set_next, take_next, get_or-take,
}
use sysdvr_webos.Resources.{library, Call, acquires, releases}
use sysdvr_webos.Shell.{Display, open_shell}
use sysdvr_webos.Ui.{AppUi}
use sysdvr_webos.Ui.Life
use sysdvr_webos.Ui.Life.{app_ui_init, app_ui_destroy}
use sysdvr_webos.Discovery.Scanner.{
  Answers, sysdvr_discovery_open, sft_discovery_open, open_scanners, close_scanners,
}
use sysdvr_webos.Worker.Session.Run
use sysdvr_webos.Sft.Session

-- A session that the loop runs, with all that it sees.
pub data SessionRun : Type 0 where
  with_sysdvr : Run.Environment → SessionRun
  with_frametap : Session.Environment → SessionRun

unfoldable pub session_calls : SessionRun → List Call
session_calls (with_sysdvr e) = (Run.run_stream_session e).calls
session_calls (with_frametap e) = (Session.run_stream_session e).calls

-- The sessions of the loop, one after the other.
unfoldable pub loop_calls : List SessionRun → List Call
loop_calls [] = []
loop_calls (r ∷ rs) = session_calls r ++ loop_calls rs

-- What the program meets at its start, and its sessions.
pub record Startup : Type 0 where
  pub sdl_starts : Bool
  pub display : Display
  pub interface : Life.Environment
  pub sysdvr_answers : Answers
  pub sft_answers : Answers
  pub sessions : List SessionRun

-- The loop between the opening and the closing of the scanners.
unfoldable pub with_scanners : Startup → List Call
with_scanners s =
    let a = sysdvr_discovery_open s.sysdvr_answers in
    let b = sft_discovery_open s.sft_answers in
    open_scanners a b ++ (loop_calls s.sessions ++ close_scanners a b)

-- The exit code, and the calls.
abbrev pub Exit : Type 0
Exit = ℕ × List Call

unfoldable pub with_interface : Startup → Option AppUi × List Call → Exit
unfolding with_scanners
with_interface s (none, calls) = (1, acquires (library, 2) ∷ (calls ++ releases (library, 2) ∷ []))
with_interface s (some ui, calls) = (
  0,
  acquires (library, 2)
      ∷ ((calls ++ (with_scanners s ++ app_ui_destroy ui)) ++ releases (library, 2) ∷ []),
)

unfoldable pub main : Startup → Exit
unfolding with_interface
main s =
    if not s.sdl_starts
    then (1, [])
    else if not (open_shell s.display).0
    then (1, acquires (library, 2) ∷ releases (library, 2) ∷ [])
    else with_interface s (app_ui_init s.interface)
