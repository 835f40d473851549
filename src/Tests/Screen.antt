-- ===== src/Tests/Screen.antt =====
-- Runs of the SysDVR session, the decoder wrapper, the log, the keys and the pages.
use sysdvr_webos.Prelude.{
  ℕ, ◌+◌, ◌≡◌, refl, subst, length, ◌⊎◌, Bool, true, false, not, ◌||◌, Option, none, some, List, [],
  ◌∷◌, ◌++◌, arith, replicate,
}
use sysdvr_webos.Prelude.CString.{codes, str_eq}
use sysdvr_webos.Device.{sysdvr}
use sysdvr_webos.Session.{SessionDevice, SessionManager, sighting, blank, slot}
use sysdvr_webos.Session.Valid.{IsValid}
use sysdvr_webos.Resources.{IsBalanced}
use sysdvr_webos.Selector.{back}
use sysdvr_webos.Prelude.Words.{AreBytes}
use sysdvr_webos.Prelude.Words.Inverse.{all_bytes-AreBytes}
use sysdvr_webos.Net.Transfer.{content}
use sysdvr_webos.Protocol.{Conn}
use sysdvr_webos.Protocol.{read_packet}
use sysdvr_webos.Protocol.Handshake.{handshake}
use sysdvr_webos.Net.{read_exact, write_all}
use sysdvr_webos.Net.Connect.{
  in_progress, writable, Attempt, connect_one_timeout, connect_loop, tcp_connect_timeout,
}
use sysdvr_webos.Media.Player.{create, open_internal}
use sysdvr_webos.Prelude.Words.{any_set, write_le32, read_le32, read_le64}
use sysdvr_webos.Sft.Backend.{session_error, user_back}
use sysdvr_webos.Worker.Session.{session_outcome}
use sysdvr_webos.Worker.{prime_worker, stream_thread, process_one, submit_packet}
use sysdvr_webos.Worker.Session.Run.{Environment, video_conn, audio_conn, run_stream_session}
use sysdvr_webos.Worker.Session.Run.Shown.{Carries, FromBoth, run_stream_session-FromBoth}
use sysdvr_webos.Main.Program.{Startup, with_sysdvr, main}
use sysdvr_webos.Main.Program.Balance.{main-IsBalanced}
use sysdvr_webos.Media.Player.{NdlMedia, Feed, no_feeds, feed_all}
use sysdvr_webos.Media.Player.Laws.{Tells, tally_of, of_kind, feed_all-Tells}
use sysdvr_webos.Log.{Log, Entry, log_all}
use sysdvr_webos.Log.Laws.{captured, ending, log_all_lem}
use sysdvr_webos.Shell.{
  SdlShell, ShellEvent, quit, keydown, other_event, key_space, key_up, other_key, poll,
}
use sysdvr_webos.Shell.Laws.{first_action, pressed, asks_to_quit, poll_lem}
use sysdvr_webos.Ui.Life
use sysdvr_webos.Ui.Pages.{cards, device_secondary, device_text, reconnect_detail, reconnect_text}
use sysdvr_webos.Ui.Pages.Cards.{highlighted, Stacked, cards_lem}
use sysdvr_webos.Ui.Pages.Text.{texts_whole}
use sysdvr_webos.Ui.Font.{
  Node, file, folder, unknown, no_entries, entry, find_first_ttf, find_system_font,
}
use sysdvr_webos.Ui.Font.Laws.{IsFont, find_system_font-ttf}
use sysdvr_webos.Tests.Launch.{sends, at_once}

abbrev answers : Attempt
answers = record {
  gets_flags = true;
  sets_flags = true;
  connect = in_progress;
  select = writable;
  clear = true;
  restores = true;
}

abbrev session : Environment
session = record {
  allocates_player = true;
  inits_lock = true;
  inits_library = true;
  loads_player = true;
  video_addresses = some (record { fd = some 7; attempt = answers } ∷ []);
  video_stream = sends 1;
  audio_addresses =
      some
        (record { fd = none; attempt = answers } ∷ record { fd = some 8; attempt = answers } ∷ []);
  audio_stream = sends 2;
  video_buffers = (true, true);
  audio_buffers = (true, true);
  starts_video = true;
  still_running = true;
  starts_audio = true;
  ticks = record { running = true; stop = false; alive = true; action = back } ∷ [];
  video_schedule = (at_once, []);
  audio_schedule = (at_once, []);
}

carries : (o : Option Conn) (c : Conn) → o ≡ some c → AreBytes (content c.incoming) → Carries o
carries o c given bytes d e =
    let same : c ≡ d = cc in subst (λ x. AreBytes (content x.incoming)) same bytes

video_connects : video_conn session ≡ some (sends 1)
unfolding video_conn tcp_connect_timeout connect_loop connect_one_timeout
video_connects = refl

audio_connects : audio_conn session ≡ some (sends 2)
unfolding audio_conn tcp_connect_timeout connect_loop connect_one_timeout
audio_connects = refl

-- Both streams are shown, and the user leaves.
is_shown :
    ((run_stream_session session).result ≡ user_back)
    × (length (run_stream_session session).video_fed ≡ 1)
    × (length (run_stream_session session).audio_fed ≡ 1)
unfolding run_stream_session handshake read_exact str_eq write_all write_le32 read_le32 prime_worker
    read_packet any_set read_le64 stream_thread process_one submit_packet session_outcome
    tcp_connect_timeout connect_loop connect_one_timeout create open_internal
is_shown = (refl, refl, refl)

run_stream_session-FromBoth_example :
    (((run_stream_session session).result ≡ session_error)
      × ((run_stream_session session).video_fed ≡ [])
      × ((run_stream_session session).audio_fed ≡ []))
    ⊎ FromBoth session (run_stream_session session)
run_stream_session-FromBoth_example =
    run_stream_session-FromBoth session
      (carries (video_conn session) (sends 1) video_connects
        (all_bytes-AreBytes (content (sends 1).incoming) refl))
      (carries (audio_conn session) (sends 2) audio_connects
        (all_bytes-AreBytes (content (sends 2).incoming) refl))

abbrev startup : Startup
startup = record {
  sdl_starts = true;
  display = record {
    inits_video = true;
    mode = some (1920, 1080);
    creates_window = true;
    creates_renderer = true;
  };
  interface = record {
    starts_ttf = true;
    finds_font = true;
    title = true;
    body = true;
    small = true;
    button = true;
    left = Life.picture;
    ok = Life.wrong_size;
    gamepad = Life.picture;
  };
  sysdvr_answers = record { allocates = true; fd = some 5; binds = true; sets_nonblocking = true };
  sft_answers = record { allocates = true; fd = some 6; binds = false; sets_nonblocking = true };
  sessions = with_sysdvr session ∷ with_sysdvr (record session { starts_audio = false }) ∷ [];
}

main-IsBalanced_example : IsBalanced (main startup).1
main-IsBalanced_example = main-IsBalanced startup

abbrev loaded_player : NdlMedia
loaded_player = record { initialized = true; loaded = true; video = no_feeds; audio = no_feeds }

abbrev feed : Bool → ℕ → Feed
feed is_audio wait = record {
  is_audio = is_audio;
  bytes = 1 ∷ 2 ∷ [];
  lock_begin = 100;
  lock_acquired = 100 + wait;
  call_begin = 200000;
  call_end = 201000;
  takes = true;
}

abbrev feeds : List Feed
feeds = feed false 5 ∷ feed true 30000 ∷ feed false 25000 ∷ []

feed_all-Tells_example : Tells (tally_of false (feed_all feeds loaded_player)) (of_kind false feeds)
feed_all-Tells_example = feed_all-Tells false feeds loaded_player refl refl

abbrev capture : Log
capture = record {
  initialized = true;
  persistent = true;
  stopped = false;
  start_us = 1000;
  max_duration_us = 60000000;
  max_bytes = 4096;
  path = codes "/tmp/sysdvr-webos.log";
}

-- The second line finds a file that is too large.
abbrev entries : List Entry
entries =
    (codes "first", record { now_us = 2000; size = 100 })
    ∷ (codes "second", record { now_us = 3000; size = 5000 })
    ∷ (codes "third", record { now_us = 4000; size = 5000 })
    ∷ []

log_all_lem_example :
    (log_all entries capture).1 ≡ captured capture entries ++ ending capture entries
log_all_lem_example = log_all_lem entries capture refl refl refl

abbrev shell : SdlShell
shell = record {
  has_window = true;
  has_renderer = true;
  width = 1920;
  height = 1080;
  quit_requested = false;
}

abbrev queue : List ShellEvent
queue =
    other_event
    ∷ keydown 3 key_up
    ∷ keydown 0 other_key
    ∷ keydown 0 key_space
    ∷ keydown 0 key_up
    ∷ quit
    ∷ []

poll_lem_example :
    ((poll queue shell).1.1 ≡ first_action (pressed queue))
    × ((poll queue shell).0 ≡ not (shell.quit_requested || asks_to_quit queue))
    × ((poll queue shell).1.0.quit_requested ≡ (shell.quit_requested || asks_to_quit queue))
poll_lem_example = poll_lem queue shell

abbrev seen_console : SessionDevice
seen_console =
    sighting
      (record {
        source = sysdvr;
        host = codes "10.0.0.5";
        client_version = codes "6.2";
        protocol = codes "02";
        serial = codes "XAW1";
      })
      9000

-- Six consoles, of which the last is selected: the cards start with the third.
abbrev registry : SessionManager
registry = record {
  devices = replicate 6 seen_console ++ replicate 2 blank;
  count = 6;
  selected = 5;
  preferred_serial = codes "XAW1";
  preferred_host = codes "10.0.0.5";
  preferred_source = sysdvr;
  have_preferred = true;
}

abbrev registry_is_valid : IsValid registry
registry_is_valid = record { slots = refl; bounded = omega arith; in_range = omega arith }

cards_lem_example :
    (highlighted (cards registry) ≡ slot registry.devices 5 ∷ []) × Stacked 205 908 (cards registry)
cards_lem_example = cards_lem registry registry_is_valid (omega arith)

texts_whole_example :
    (device_secondary seen_console ≡ device_text seen_console)
    × (reconnect_detail registry ≡ reconnect_text registry)
texts_whole_example =
    texts_whole seen_console registry
      (record {
        host = omega arith;
        client_version = omega arith;
        protocol = omega arith;
        serial = omega arith;
      })
      (omega arith) (omega arith)

abbrev fonts : Node
fonts = folder (
    entry (codes ".") unknown (
      entry (codes "README") file
        (entry (codes "TTF") (folder (entry (codes "Body.TTF") file no_entries)) no_entries)))

abbrev body_path : List ℕ
body_path = codes "/usr/share/fonts/TTF/Body.TTF"

font_found : find_system_font (λ p. false) fonts ≡ some body_path
unfolding find_system_font find_first_ttf str_eq
font_found = refl

find_system_font-ttf_example : IsFont (λ p. false) fonts body_path
find_system_font-ttf_example = find_system_font-ttf (λ p. false) fonts body_path font_found
