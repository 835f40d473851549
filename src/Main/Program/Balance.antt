-- ===== src/Main/Program/Balance.antt =====
-- src/webos_main.c, `main`: the program gives back all that it has acquired.
use sysdvr_webos.Prelude.{
  ◌≡◌, refl, inl, inr, true, Option, none, some, List, [], ◌∷◌, ◌++◌, Bool-cases,
}
use sysdvr_webos.Resources.{
  library, Call, acquires, releases, IsBalanced, held_after, release, any_thread, remove, same,
}
use sysdvr_webos.Resources.Nesting.{no_threads, IsBalanced-nest, IsBalanced-append}
use sysdvr_webos.Shell.{open_shell}
use sysdvr_webos.Ui.{AppUi}
use sysdvr_webos.Ui.Life.{app_ui_init, app_ui_destroy}
use sysdvr_webos.Ui.Life.Balance.{life_of, interface_life-IsBalanced, app_ui_init-no_threads}
use sysdvr_webos.Discovery.Scanner.{
  sysdvr_discovery_open, sft_discovery_open, open_scanners, close_scanners,
  sysdvr_discovery_open-Ends, sft_discovery_open-Ends, scanners-Quiet,
}
use sysdvr_webos.Worker.Session.Run.Balance.{run_stream_session-IsBalanced}
use sysdvr_webos.Sft.Session.Laws.{run_stream_session_lem}
use sysdvr_webos.Main.Program.{
  SessionRun, with_sysdvr, with_frametap, session_calls, loop_calls, Startup, with_scanners,
  with_interface, main,
}

session_calls-IsBalanced : (r : SessionRun) → IsBalanced (session_calls r)
unfolding session_calls
session_calls-IsBalanced (with_sysdvr e) = run_stream_session-IsBalanced e
session_calls-IsBalanced (with_frametap e) = (run_stream_session_lem e).0

loop_calls-IsBalanced : (rs : List SessionRun) → IsBalanced (loop_calls rs)
unfolding loop_calls held_after
loop_calls-IsBalanced [] = refl
loop_calls-IsBalanced (r ∷ rs) =
    IsBalanced-append (session_calls r) (loop_calls rs) (session_calls-IsBalanced r)
      (loop_calls-IsBalanced rs)

with_scanners-IsBalanced : (s : Startup) → IsBalanced (with_scanners s)
unfolding with_scanners
with_scanners-IsBalanced s =
    let a = sysdvr_discovery_open s.sysdvr_answers in
    let b = sft_discovery_open s.sft_answers in
    let (around, quiet) =
      scanners-Quiet (sysdvr_discovery_open-Ends s.sysdvr_answers)
        (sft_discovery_open-Ends s.sft_answers) in
    IsBalanced-nest (open_scanners a b) (loop_calls s.sessions) (close_scanners a b) around quiet
      (loop_calls-IsBalanced s.sessions)

-- Between the start of SDL and its end.
in_sdl-IsBalanced :
    (calls : List Call)
    → IsBalanced calls
    → IsBalanced (acquires (library, 2) ∷ (calls ++ releases (library, 2) ∷ []))
in_sdl-IsBalanced calls h =
    IsBalanced-nest (acquires (library, 2) ∷ []) calls (releases (library, 2) ∷ []) alone quiet h
  where
    alone : IsBalanced (acquires (library, 2) ∷ releases (library, 2) ∷ [])
    alone = unfold held_after release any_thread remove same in refl

    quiet : no_threads (acquires (library, 2) ∷ []) ≡ true
    quiet = unfold no_threads in refl

with_interface-IsBalanced :
    (s : Startup) (o : Option AppUi × List Call)
    → IsBalanced (life_of o)
    → no_threads o.1 ≡ true
    → IsBalanced (with_interface s o).1
unfolding with_interface life_of
with_interface-IsBalanced s (none, calls) h quiet = in_sdl-IsBalanced calls h
with_interface-IsBalanced s (some ui, calls) h quiet =
    in_sdl-IsBalanced (calls ++ (with_scanners s ++ app_ui_destroy ui)) (
      IsBalanced-nest calls (with_scanners s) (app_ui_destroy ui) h quiet
        (with_scanners-IsBalanced s))

-- Whatever fails at the start of the program, and whatever sessions of either kind it runs, however they
-- end, the whole program gives back exactly once each of these that it acquires: SDL, SDL_ttf and the
-- fonts; the file, the pixels, the surface and the texture of a picture; the memory and the socket of a
-- scanner; of a SysDVR session the memory, the lock, the library and the loaded player of
-- src/ndl_media.c, the address lists and each socket that connecting tries, the buffers and the threads;
-- of a Frame Tap session the address list and the sockets, the lock and the thread. Nothing but a thread
-- is given back while a thread runs. Not counted are the window and the renderer, which SDL releases, the
-- files of the log and of the default host, what drawing a page makes, and what the Frame Tap thread
-- acquires inside.
pub main-IsBalanced : (s : Startup) → IsBalanced (main s).1
unfolding main held_after release any_thread remove same
main-IsBalanced s = elim (Bool-cases s.sdl_starts) [
  | inr no_sdl ↦ rw no_sdl refl
  | inl starts ↦ elim (Bool-cases (open_shell s.display).0) [
    | inr no_window ↦ rw (starts, no_window) refl
    | inl opens ↦
        rw (starts, opens)
          (with_interface-IsBalanced (record s { sdl_starts = true }) (app_ui_init s.interface)
            (interface_life-IsBalanced s.interface) (app_ui_init-no_threads s.interface))
  ]
]
