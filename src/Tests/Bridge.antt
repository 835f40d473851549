-- ===== src/Tests/Bridge.antt =====
-- Runs of the SysDVR bridge of src/protocol.c and of the worker of src/webos_main.c.
use sysdvr_webos.Prelude.{
  ℕ, ◌≡◌, refl, ◌≢◌, inl, inr, true, false, none, some, List, [], ◌∷◌, ◌++◌, arith, take, drop,
  replicate,
}
use sysdvr_webos.Prelude.CString.{codes, str_eq}
use sysdvr_webos.Prelude.Words.{any_set, AreBytes, write_le32, read_le32, read_le64}
use sysdvr_webos.Prelude.Words.Inverse.{all_bytes-AreBytes}
use sysdvr_webos.Media.{feed_ok, feed_retry}
use sysdvr_webos.Net.{Incoming, arrived, read_exact, write_all}
use sysdvr_webos.Net.Transfer.{content, closes}
use sysdvr_webos.Protocol.{
  video, PacketHeader, Conn, packet_magic, packet_replay, max_payload, packet, read_packet,
}
use sysdvr_webos.Protocol.Packets.{
  encode_header, encode_packets, Acceptable, Reads, Reads-encode_packets,
}
use sysdvr_webos.Protocol.Packets.Sound.{read_packet_sound}
use sysdvr_webos.Protocol.Handshake.{handshake}
use sysdvr_webos.Protocol.Handshake.Laws.{wire_request, Agreed, handshake-Agreed}
use sysdvr_webos.Protocol.Handshake.Sound.{Met, handshake_sound}
use sysdvr_webos.Worker.{
  Worker, read_data_packet, FeedRound, Iteration, stream_thread, prime_worker,
}
use sysdvr_webos.Worker.Reading.{Wanted, Delivers, read_data_packet_returns, read_data_packet_sound}
use sysdvr_webos.Worker.Thread.{Plays}
use sysdvr_webos.Worker.Play.{stream_thread-Plays}

-- A packet of two bytes: video, or audio.
abbrev pub header_of : ℕ → PacketHeader
header_of metadata = record {
  magic = packet_magic;
  data_size = 2;
  timestamp_us = 40;
  metadata = metadata;
  replay_slot = 0;
}

-- The packet on the wire.
abbrev pub wire : ℕ → List ℕ
wire metadata =
    204 ∷ 204 ∷ 204 ∷ 204 ∷ 2 ∷ 0 ∷ 0 ∷ 0 ∷ 40 ∷ 0 ∷ 0 ∷ 0 ∷ 0 ∷ 0 ∷ 0 ∷ 0 ∷ metadata ∷ 0 ∷ 7 ∷ 8
    ∷ []

-- An audio packet, a video packet, and one more byte.
abbrev two_packets : Incoming
two_packets =
    arrived 204 (drop 1 (wire 2) ++ take 5 (wire 1)) ∷ arrived 0 (drop 6 (wire 1) ++ 9 ∷ []) ∷ []

two_packets-AreBytes : AreBytes (content two_packets)
two_packets-AreBytes = all_bytes-AreBytes (content two_packets) refl

abbrev after_audio : Incoming
after_audio = arrived 204 (drop 1 (take 5 (wire 1))) ∷ arrived 0 (drop 6 (wire 1) ++ 9 ∷ []) ∷ []

abbrev after_video : Incoming
after_video = arrived 9 [] ∷ []

audio_read : read_packet 64 two_packets ≡ (packet (header_of 2) (7 ∷ 8 ∷ []), after_audio)
unfolding read_packet read_exact read_le32 any_set read_le64
audio_read = refl

read_packet_sound_example :
    Acceptable 64 (header_of 2) (7 ∷ 8 ∷ [])
    × (content two_packets ≡ encode_header (header_of 2) ++ (7 ∷ 8 ∷ []) ++ content after_audio)
read_packet_sound_example =
    read_packet_sound 64 two_packets after_audio (header_of 2) (7 ∷ 8 ∷ []) two_packets-AreBytes
      audio_read

video_found :
    read_data_packet video two_packets ≡ some (packet (header_of 1) (7 ∷ 8 ∷ []), after_video)
unfolding read_data_packet read_packet read_exact read_le32 any_set read_le64
video_found = refl

read_data_packet_sound_example :
    Wanted video (header_of 1) (7 ∷ 8 ∷ [])
    × Acceptable max_payload (header_of 1) (7 ∷ 8 ∷ [])
    × Delivers video two_packets (header_of 1) (7 ∷ 8 ∷ []) after_video
read_data_packet_sound_example =
    read_data_packet_sound video two_packets after_video (header_of 1) (7 ∷ 8 ∷ [])
      two_packets-AreBytes video_found

read_data_packet_returns_example : read_data_packet video two_packets ≢ none
read_data_packet_returns_example = read_data_packet_returns video two_packets two_packets-AreBytes

abbrev video_worker : Worker
video_worker = record {
  kind = video;
  timeline_base_us = 10;
  packets = 0;
  bytes = 0;
  last_source_pts_us = 0;
  last_rx_wall_us = 0;
  gap_events = 0;
  max_wall_gap_us = 0;
  max_source_gap_us = 0;
  backpressure_events = 0;
  backpressure_wait_us = 0;
  transport_error = false;
  decoder_error = false;
}

abbrev busy_once : Iteration
busy_once = record {
  running = true;
  arrival_us = 50;
  rounds =
      record { running = true; result = feed_retry; clock_us = 51 }
      ∷ record { running = true; result = feed_ok; clock_us = 53 }
      ∷ [];
}

video_primed : prime_worker video two_packets ≡ (some (header_of 1, 7 ∷ 8 ∷ []), after_video)
unfolding prime_worker read_packet read_exact read_le32 any_set read_le64
video_primed = refl

stream_thread-Plays_example :
    Plays video 10 two_packets
      (stream_thread
        (some (header_of 1, 7 ∷ 8 ∷ []))
        busy_once
        (busy_once ∷ [])
        video_worker
        after_video).0.1
stream_thread-Plays_example =
    stream_thread-Plays two_packets after_video (header_of 1) (7 ∷ 8 ∷ []) busy_once
      (busy_once ∷ []) video_worker two_packets-AreBytes video_primed

abbrev busy_round : FeedRound
busy_round = record { running = true; result = feed_retry; clock_us = 51 }

abbrev busy_rounds : List FeedRound
busy_rounds = replicate 300 busy_round

audio_is_no_replay : any_set 2 packet_replay ≡ false
unfolding any_set
audio_is_no_replay = refl

header_encoded :
    content two_packets ≡ encode_packets ((header_of 2, 7 ∷ 8 ∷ []) ∷ []) ++ content after_audio
unfolding encode_packets
header_encoded = refl

Reads-encode_packets_example :
    (s : Incoming) × Reads 64 two_packets ((header_of 2, 7 ∷ 8 ∷ []) ∷ []) s
    × (content s ≡ content after_audio)
    × (closes s ≡ true)
Reads-encode_packets_example =
    Reads-encode_packets 64 ((header_of 2, 7 ∷ 8 ∷ []) ∷ []) (content after_audio) two_packets
      (
        record {
          magic_ok = refl;
          sized = refl;
          fits = omega arith;
          bounded = omega arith;
          timed = omega arith;
          not_replay = audio_is_no_replay;
        },
        tt,
      )
      header_encoded

-- A console that speaks version 03 and accepts, and a byte of the stream.
abbrev console : Conn
console = record {
  incoming =
      arrived 83 (codes "ysDVR|03" ++ 0 ∷ 6 ∷ 0 ∷ [])
      ∷ arrived 0 (0 ∷ replicate 68 0 ++ 204 ∷ [])
      ∷ [];
  outgoing = [];
  sent = [];
}

request_sent : (write_all (wire_request video b'3' 0) []).count ≡ some 16
unfolding write_all
request_sent = refl

handshake-Agreed_example :
    Agreed console b'3' (wire_request video b'3' 0) (204 ∷ []) (handshake console video 0)
handshake-Agreed_example =
    handshake-Agreed console video 0 b'3' (6 ∷ 0 ∷ 0 ∷ 0 ∷ replicate 68 0) (204 ∷ []) (inl refl)
      (omega arith) (replicate 68 0, refl, inr (refl, refl)) refl request_sent

console_accepts : (handshake console video 0).success ≡ true
unfolding handshake read_exact str_eq write_all write_le32 read_le32
console_accepts = refl

handshake_sound_example :
    (v0 : ℕ) × (v1 : ℕ) × (response : List ℕ) × Met console video 0 v0 v1 response
      (handshake console video 0)
handshake_sound_example = handshake_sound console video 0 console_accepts
