-- ===== src/Lib.antt =====
-- sysdvr-webos: verification of the client that shows the video and audio of a games console on a
-- webOS television.
--
-- The program. Two scanners listen for consoles: src/discovery.c for the SysDVR sysmodule and
-- src/sft_discovery.c for Switch Frame Tap. What they see goes into the registry of
-- src/session_manager.c, from which src/webos_main.c chooses a console and runs a session.
-- A SysDVR session opens two TCP connections, greets the console on each (src/protocol.c over the
-- blocking transfers of src/net.c), and runs one worker per stream (src/webos_main.c) that hands the
-- packets to the hardware decoder. A Frame Tap session has one connection and one thread
-- (src/frametap_backend.c), which reads packets (src/sft_protocol.c), shows video and queues audio
-- (src/sft_audio.c).
--
-- The files.
--   Prelude      tests, lists, words, C strings. Numbers are the native ℕ; a word of w bits keeps its
--                wrap-around as `% 2 ^ w`, and `sub_u64` is the subtraction of `uint64_t`.
--   Resources    what is acquired from the system and given back: the check `IsBalanced` on the calls
--                of a run.
--   Net          src/net.c: sysdvr_read_exact (read_exact) and sysdvr_write_all (write_all). The
--                kernel is a list of events, one for each call of recv or send. Net/Connect is
--                connect_one_timeout, sysdvr_tcp_connect_timeout and the options of a socket.
--   Protocol     src/protocol.c: sysdvr_read_packet (read_packet), sysdvr_parse_error_packet;
--                Protocol/Handshake is sysdvr_handshake (handshake).
--   Device, Session
--                include/sysdvr/discovery.h and src/session_manager.c: session_manager_seen (seen),
--                _add_manual (add_manual), _prune (prune), _move (move), _selected
--                (selected_device), _remember_selected, _matches_preferred. The array of eight slots
--                is a list, with the count beside it.
--   Discovery    src/discovery.c: parse_descriptor and sysdvr_discovery_poll (poll); what inet_ntop
--                gives is an argument. Discovery/Scanner is sysdvr_discovery_open and
--                sft_discovery_open.
--   Selector     src/webos_main.c: poll_discovery_once, browse_for_device and
--                wait_for_preferred_console; a round of a loop has what the scanners, the clock and
--                the remote control say.
--   Main         src/webos_main.c: the loop of main (main_loop), with its inner loop
--                (reconnect_loop). It uses Selector; what a session gives is an argument.
--                Main/Program is the order in which main opens, runs and closes its parts; it
--                uses Worker/Session/Run, Sft/Session, Ui/Life and Discovery/Scanner; the two
--                sessions use Net/Connect, and the SysDVR one Media/Player. Main/Start
--                joins the loop to the registry of Launch/Host.
--   Launch       src/webos_main.c: json_string, which reads the launch parameters; Launch/Host is
--                launch_json, exe_dir, load_default_host and the registry that main starts with.
--   Log          src/log.c: sysdvr_log_init, _printf and _close, with limit_reached.
--   Shell        src/sdl_shell.c: sdl_shell_poll, action_from_key, sdl_shell_open and _close.
--   Ui           src/ui.c: a page is the list of what is drawn. Ui/Pages has the pages, Ui/Font the
--                search for a font and the pictures, Ui/Life app_ui_init and app_ui_destroy with
--                what loading a picture acquires.
--   Media        the answers of the decoder, include/sysdvr/ndl_media.h; Media/Player is
--                src/ndl_media.c.
--   Worker       src/webos_main.c: read_data_packet, prime_worker, submit_packet, diagnose_arrival,
--                process_one, stream_thread of one SysDVR stream; Worker/Session is the set-up of
--                run_stream_session (set_up) and its result (session_outcome), Worker/Session/Run
--                the whole function with every failing path and what the decoder takes, and
--                Worker/Session/Threads a step relation for the two threads and the function beside
--                them.
--   Sft/Protocol src/sft_protocol.c: sft_parse_header, sft_validate_header (validate), the predicates
--                sft_packet_is_* and sft_packet_is_key (is_key); Sft/Protocol/Transport is
--                read_exact_interruptible and sft_read_packet, where each round of the loop has the
--                readings of the clock and what select and recv say.
--   Sft/Audio    src/sft_audio.c; the queue of SDL is the parameter SdlQueue with the laws SdlLaws,
--                which a queue that plays nothing fulfils (Tests/Capture).
--   Sft/Backend  src/frametap_backend.c: submit_video, log_status_packet, and sft_stream_thread, whose
--                branch for video is Sft/Backend/Video and whose loop is Sft/Backend/Stream.
--   Sft/Session  src/frametap_backend.c: frametap_run_stream_session, the session beside its thread.
--   Sft/Discovery
--                src/sft_discovery.c: parse_port, parse_beacon and sft_discovery_poll (poll).
--   Tests        concrete runs, which show that the conditions of the theorems can hold.
--
-- Bounds. The loops over events, rounds and iterations are by recursion on those lists; a result
-- `unfinished` or `pending` says that a list ended before the code did. `Worker.read_loop` has fuel,
-- one more than the number of bytes to come: each packet takes at least the 18 bytes of its header.
--
-- Not modelled: the diagnostics of a socket in src/net.c and the periodic statistics, which are only
-- logged; sdl_shell_preinit and show_error_briefly, which only call other parts; what the Frame Tap
-- thread acquires inside, what drawing a page makes and frees, and the files of the log and of the
-- default host, as resources; when a page is drawn again; the pixels of a circle, the width of a text
-- and the places of the spinner's dots, which need floating-point numbers or SDL. NULL arguments, which
-- every function rejects, and values that are only logged are left out of the definitions. In Main the
-- stop flag is what each read of it says, since a signal may set it at any time.
pub mod Prelude
pub mod Resources
pub mod Net
pub mod Protocol
pub mod Device
pub mod Session
pub mod Media
pub mod Discovery
pub mod Worker
pub mod Selector
pub mod Log
pub mod Shell
pub mod Ui
pub mod Launch
pub mod Main
pub mod Tests
pub mod Sft
