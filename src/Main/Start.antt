-- ===== src/Main/Start.antt =====
-- src/webos_main.c, `main`: from the command line to the sessions.
use sysdvr_webos.Prelude.{ℕ, Option, none, some, List}
use sysdvr_webos.Prelude.CString.{codes}
use sysdvr_webos.Launch.Host.{
  Files, parameter, launch_json, load_default_host, host_size, or_default, with_manual,
  start_registry,
}
use sysdvr_webos.Session.{init}
use sysdvr_webos.Session.Valid.{IsValid, init-IsValid, add_manual-IsValid}
use sysdvr_webos.Main.{Visit, main_loop}
use sysdvr_webos.Main.Laws.{Follows, selecting, main_loop-Follows}

with_manual-IsValid : (o : Option (List ℕ)) → IsValid (with_manual o)
with_manual-IsValid none = init-IsValid
with_manual-IsValid (some host) = add_manual-IsValid init host init-IsValid

start_registry-IsValid :
    (args : List (Option (List ℕ))) (files : Files) (link : Option (List ℕ))
    → IsValid (start_registry args files link)
unfolding start_registry
start_registry-IsValid args files link = with_manual-IsValid (
    or_default (parameter (launch_json args) (codes "host") host_size)
      (load_default_host host_size files link))

-- Whatever the command line, the files beside the program and the link to it are, and whatever the
-- scanners, the user and the sessions do, the program runs a session only with the console that is
-- selected when the user chooses one, or, after a session that ended by itself, with a console that
-- matches what was remembered at the last choice. After the user has left a session, or a first
-- session has failed, the next one is with a choice.
pub main_loop-start_registry :
    (args : List (Option (List ℕ))) (files : Files) (link : Option (List ℕ)) (vs : List Visit)
    → Follows selecting (main_loop vs (start_registry args files link)).1
main_loop-start_registry args files link vs =
    main_loop-Follows vs (start_registry args files link) (start_registry-IsValid args files link)
