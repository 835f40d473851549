-- ===== src/Tests/Program.antt =====
-- Runs of the main program of src/webos_main.c, of its sessions, and of connecting.
use sysdvr_webos.Prelude.{
  ◌≤◌, ◌≡◌, refl, ◌⊎◌, Bool, true, false, Option, none, some, List, [], ◌∷◌, ◌++◌, arith,
  if◌then◌else◌,
}
use sysdvr_webos.Prelude.CString.{codes, str_eq}
use sysdvr_webos.Device.{Device, sysdvr}
use sysdvr_webos.Session.Entries.{JustManual}
use sysdvr_webos.Resources.{held_after, IsBalanced}
use sysdvr_webos.Net.Connect.{
  in_progress, writable, timed_out, Attempt, Candidate, tcp_connect_timeout,
}
use sysdvr_webos.Net.Connect.Laws.{opened, AnswersOf, tcp_connect_timeout_lem}
use sysdvr_webos.Selector.{Action, none_pressed, ok, back, sees, nothing, Round}
use sysdvr_webos.Sft.Backend.{SessionResult, transport_lost, user_back}
use sysdvr_webos.Main.{Outcome, Visit, main_loop}
use sysdvr_webos.Main.Laws.{selecting, Follows}
use sysdvr_webos.Main.Start.{main_loop-start_registry}
use sysdvr_webos.Sft.Session.{Tick, Environment, start as nothing_drawn, run_stream_session}
use sysdvr_webos.Sft.Session.Laws.{Leaves, run_stream_session_lem}
use sysdvr_webos.Worker.Session.Threads.{
  testing, live, absent, ended, joining_video, releasing, System, Turn, quiet, Step, no_video,
  skips_audio, stops, clears_flag, joins_video, joins_audio, video_turn, Reach, begins, later,
  Steps, here, next, done,
}
use sysdvr_webos.Worker.Session.Threads.Safety.{released_quiet}
use sysdvr_webos.Worker.Session.Threads.Ending.{session_ends}
use sysdvr_webos.Launch.Host.{Files, launch_json, start_registry}
use sysdvr_webos.Launch.Host.Line.{start_registry-line}

abbrev console : Device
console = record {
  source = sysdvr;
  host = codes "10.0.0.5";
  client_version = codes "6.2";
  protocol = codes "02";
  serial = codes "XAW1";
}

abbrev press : Action → Round
press action = record {
  stop = false;
  alive = true;
  action = action;
  sysdvr_scans = some (sees console 9500 ∷ nothing ∷ []);
  sft_scans = none;
  now_ms = 9600;
}

abbrev gives : SessionResult → Outcome
gives r = record { result = r; stop = false }

-- A choice, a lost connection, the console again, and the user leaves.
abbrev visits : List Visit
visits =
    record {
      stop = false;
      browsing = press ok ∷ [];
      backends = λ s. gives transport_lost;
      waiting = press none_pressed ∷ [];
      now_ms = 9700;
      agains = record { stop = false; backends = λ s. gives user_back; waiting = [] } ∷ [];
    }
    ∷ []

-- The first address times out, the second is reached.
abbrev try_one : Attempt
try_one = record {
  gets_flags = true;
  sets_flags = true;
  connect = in_progress;
  select = timed_out;
  clear = true;
  restores = true;
}

abbrev addresses_of_host : Option (List Candidate)
addresses_of_host = some (
    record { fd = some 7; attempt = try_one }
    ∷ record { fd = none; attempt = try_one }
    ∷ record { fd = some 8; attempt = record try_one { select = writable } }
    ∷ [])

tcp_connect_timeout_lem_example :
    AnswersOf (tcp_connect_timeout addresses_of_host).0 addresses_of_host
    × (held_after (tcp_connect_timeout addresses_of_host).1 []
        ≡ some (opened (tcp_connect_timeout addresses_of_host).0))
tcp_connect_timeout_lem_example = tcp_connect_timeout_lem addresses_of_host

abbrev tick : Action → Bool → Tick
tick action video = record {
  stop = false;
  finished = false;
  alive = true;
  action = action;
  video_started = video;
  connected = true;
  ticks = 900;
  status = codes "Connected";
}

abbrev capture : Environment
capture = record {
  addresses = addresses_of_host;
  inits_lock = true;
  starts_thread = true;
  ticks = tick none_pressed false ∷ tick none_pressed true ∷ tick back true ∷ [];
  stop_flag = false;
  worker_failed = false;
}

run_stream_session_lem_example :
    IsBalanced (run_stream_session capture).calls
    × Leaves nothing_drawn (run_stream_session capture).screens
run_stream_session_lem_example = run_stream_session_lem capture

-- The video thread cannot be started, and everything is released.
abbrev failing :
    Reach (record { running = false; video = absent; audio = absent; main = releasing })
failing =
    later
      (later
        (later
          (later (later (later begins (no_video _ refl)) (skips_audio _ refl refl)) (stops _ refl))
          (clears_flag _ refl))
        (joins_video _ refl refl))
      (joins_audio _ refl refl)

released_quiet_example :
    (quiet absent ≡ true) × (quiet absent ≡ true) × (◌≡◌ {A = Bool} false false)
released_quiet_example = released_quiet failing refl

-- The flag is clear and the video thread is at its test.
abbrev cleared : System
cleared = record { running = false; video = live testing; audio = absent; main = joining_video }

abbrev ending : Steps 2 cleared (record cleared { video = ended })
ending = next (video_turn cleared Turn.sees_stop) (next (video_turn _ Turn.clears) (here _))

session_ends_example :
    (2 ≤ 16) × ((joining_video ≡ done) ⊎ ((u : System) × Step (record cleared { video = ended }) u))
session_ends_example = session_ends {s = cleared} refl ending

abbrev files : Files
files path =
    if str_eq path (codes "/media/app/switch_ip.txt")
    then some (codes "10.0.0.5" ++ 10 ∷ codes "# the console")
    else none

start_registry-line_example :
    JustManual
      (codes "10.0.0.5")
      (start_registry [] files (some (codes "/media/app" ++ 47 ∷ codes "sysdvr")))
unfolding launch_json str_eq
start_registry-line_example =
    start_registry-line [] files (codes "/media/app") (codes "sysdvr") (codes "10.0.0.5")
      (codes "# the console") 10 refl (ground arith) (omega arith) (omega arith) refl (ground arith)
      refl (omega arith) refl refl

main_loop-start_registry_example :
    Follows selecting
      (main_loop visits
        (start_registry [] files (some (codes "/media/app" ++ 47 ∷ codes "sysdvr")))).1
main_loop-start_registry_example =
    main_loop-start_registry [] files (some (codes "/media/app" ++ 47 ∷ codes "sysdvr")) visits
