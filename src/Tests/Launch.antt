-- ===== src/Tests/Launch.antt =====
-- Runs of the set-up and of the launch parameters of src/webos_main.c.
use sysdvr_webos.Launch.{json_string}
use sysdvr_webos.Launch.Escape.{object, json_string-object}
use sysdvr_webos.Prelude.{arith, ℕ, ◌≡◌, refl, true, some, [], ◌∷◌, ◌++◌, ◌==◌, if◌then◌else◌}
use sysdvr_webos.Prelude.CString.{codes, str_eq}
use sysdvr_webos.Prelude.Words.{any_set, write_le32, read_le32, read_le64}
use sysdvr_webos.Net.{arrived, read_exact, write_all}
use sysdvr_webos.Protocol.{video, audio, Conn, read_packet}
use sysdvr_webos.Protocol.Handshake.{handshake}
use sysdvr_webos.Media.{feed_ok}
use sysdvr_webos.Worker.{Iteration, prime_worker}
use sysdvr_webos.Worker.Session.{Primed, fresh_worker, set_up}
use sysdvr_webos.Tests.Bridge.{header_of, wire}

-- A console that speaks version 02, accepts, and sends one packet.
abbrev pub sends : ℕ → Conn
sends metadata = record {
  incoming = arrived 83 (codes "ysDVR|02" ++ (0 ∷ 6 ∷ 0 ∷ 0 ∷ 0 ∷ wire metadata)) ∷ [];
  outgoing = [];
  sent = [];
}

abbrev primed_with : ℕ → Primed
primed_with metadata = record {
  worker = fresh_worker (if metadata == 1 then video else audio) 40;
  first_header = header_of metadata;
  first_payload = 7 ∷ 8 ∷ [];
  incoming = [];
}

is_set_up : set_up true (some (sends 1)) (some (sends 2)) ≡ some (primed_with 1, primed_with 2)
unfolding set_up handshake read_exact str_eq write_all write_le32 read_le32 prime_worker read_packet
    any_set read_le64
is_set_up = refl

abbrev pub at_once : Iteration
at_once = record {
  running = true;
  arrival_us = 50;
  rounds = record { running = true; result = feed_ok; clock_us = 51 } ∷ [];
}

json_string-object_example :
    json_string (object (codes "host") (34 ∷ 92 ∷ 65 ∷ []) (codes "}")) (codes "host") 64
    ≡ some (34 ∷ 92 ∷ 65 ∷ [])
json_string-object_example =
    json_string-object (codes "host") (34 ∷ 92 ∷ 65 ∷ []) (codes "}") 64 (omega arith) (omega arith)
