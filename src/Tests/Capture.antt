-- ===== src/Tests/Capture.antt =====
-- Runs of the Frame Tap protocol of src/sft_protocol.c and of the audio of src/sft_audio.c.
use sysdvr_webos.Prelude.{
  ℕ, ◌+◌, ◌≤◌, ◌≡◌, refl, ◌↔◌, inl, inr, true, false, List, [], ◌∷◌, ◌++◌, arith, length, drop,
  replicate,
}
use sysdvr_webos.Prelude.Words.{any_set, read_le32, read_le16}
use sysdvr_webos.Sft.Protocol.{
  Header, parse_header, is_status, is_video, flag_key, validate, validate_status, scan_idr,
}
use sysdvr_webos.Sft.Protocol.Idr.{scan_every, scan_idr-scan_every}
use sysdvr_webos.Sft.Protocol.Validate.{WellFormed, validate_iff}
use sysdvr_webos.Sft.Protocol.Transport.{
  not_ready, try_again, readable, Clock, Rounds, complete, read_rounds, read_exact_interruptible,
  packet, read_packet,
}
use sysdvr_webos.Sft.Protocol.Transport.Laws.{GivenUp, stalled-GivenUp}
use sysdvr_webos.Sft.Protocol.Transport.Accepted.{read_packet_lem}
use sysdvr_webos.Sft.Audio.{SdlQueue, SdlLaws, Opened, open_device}
use sysdvr_webos.Sft.Audio.Latency.{
  IsBounded, Operation, do_reset, do_close, do_offer, perform_all, reachable-IsBounded,
}

-- A video header without the KEY flag, and a status header with 8 bytes.
abbrev pub plain_video : Header
plain_video = record {
  magic_word = 0x52544653;
  version = 2;
  flags = 2;
  raw_flags = 2;
  width = 1280;
  height = 720;
  console_age_us = 5;
  payload_length = 6;
  block_height_log2 = 4;
  sequence = 9;
}

abbrev status_header : Header
status_header = record {
  magic_word = 0x52544653;
  version = 2;
  flags = 0x18;
  raw_flags = 0x98;
  width = 0;
  height = 0;
  console_age_us = 0;
  payload_length = 8;
  block_height_log2 = 0;
  sequence = 0;
}

-- A start code and an IDR unit.
abbrev idr_payload : List ℕ
idr_payload = 0 ∷ 0 ∷ 1 ∷ 0x65 ∷ 4 ∷ 4 ∷ []

validate_iff_example : (validate plain_video ≡ true) ↔ WellFormed plain_video
validate_iff_example = validate_iff plain_video (omega arith)

scan_idr-scan_every_example : scan_idr 2 idr_payload ≡ scan_every (drop 2 idr_payload)
scan_idr-scan_every_example = scan_idr-scan_every 2 idr_payload

plain_is_video : is_video plain_video ≡ true
unfolding is_video any_set
plain_is_video = refl

plain_has_no_key : any_set plain_video.flags flag_key ≡ false
unfolding any_set
plain_has_no_key = refl

abbrev pub tick : ℕ → Clock
tick us = record { running = true; armed_us = us; checked_us = us; after_us = us }

abbrev pieces : Rounds
pieces =
    (tick 10, readable 20)
    ∷ (tick 20, not_ready)
    ∷ (tick 30, readable 200)
    ∷ (tick 40, readable 200)
    ∷ []

abbrev four_bytes : List ℕ
four_bytes = 1 ∷ 2 ∷ 3 ∷ 4 ∷ []

three_read :
    read_exact_interruptible 3 false (1 ∷ 2 ∷ 3 ∷ 4 ∷ []) ((tick 10, readable 1) ∷ pieces)
    ≡ (complete (1 ∷ 2 ∷ 3 ∷ []), (4 ∷ [], drop 1 pieces))
unfolding read_exact_interruptible
three_read = refl

stalled-GivenUp_example :
    GivenUp
      (read_rounds true 0 [] 6
        (1 ∷ 2 ∷ [])
        ((tick 10, readable 0) ∷ (tick 20, not_ready) ∷ (tick 3000010, try_again) ∷ [])).0
stalled-GivenUp_example =
    stalled-GivenUp true 0 [] 5 (1 ∷ 2 ∷ []) (tick 10) (readable 0)
      ((tick 20, not_ready) ∷ (tick 3000010, try_again) ∷ [])
      (inr (inl (omega arith), inr (inl (omega arith)))) (tt, (tt, tt))

-- A status packet with the INPUT flag, and one byte behind it.
abbrev status_wire : List ℕ
status_wire =
    83 ∷ 70 ∷ 84 ∷ 82 ∷ 2 ∷ 0 ∷ 0x98 ∷ 0 ∷ 0 ∷ 0 ∷ 0 ∷ 0 ∷ 0 ∷ 0 ∷ 0 ∷ 0 ∷ 0 ∷ 0 ∷ 0 ∷ 0 ∷ 8 ∷ 0 ∷ 0
    ∷ 0 ∷ 0 ∷ 0 ∷ 0 ∷ 0 ∷ 0 ∷ 0 ∷ 0 ∷ 0 ∷ 1 ∷ 2 ∷ 3 ∷ 4 ∷ 5 ∷ 6 ∷ 7 ∷ 8 ∷ 99 ∷ []

abbrev status_payload : List ℕ
status_payload = 1 ∷ 2 ∷ 3 ∷ 4 ∷ 5 ∷ 6 ∷ 7 ∷ 8 ∷ []

status_read :
    read_packet 100 status_wire pieces
    ≡ (packet status_header (1 ∷ 2 ∷ 3 ∷ 4 ∷ 5 ∷ 6 ∷ 7 ∷ 8 ∷ []), (99 ∷ [], []))
unfolding read_packet read_exact_interruptible validate parse_header read_le32 read_le16 any_set
    is_status validate_status
status_read = refl

read_packet_lem_example :
    (raw : List ℕ) × (status_wire ≡ raw ++ ((1 ∷ 2 ∷ 3 ∷ 4 ∷ 5 ∷ 6 ∷ 7 ∷ 8 ∷ []) ++ (99 ∷ [])))
    × (length raw ≡ 32)
    × (status_header ≡ parse_header raw)
    × (validate status_header ≡ true)
    × (length status_payload ≡ 8)
    × (length status_payload ≤ 100)
read_packet_lem_example =
    read_packet_lem 100 status_wire pieces [] status_header (1 ∷ 2 ∷ 3 ∷ 4 ∷ 5 ∷ 6 ∷ 7 ∷ 8 ∷ [])
      (99 ∷ []) status_read

-- A device that plays nothing: its state is the number of bytes that it holds.
abbrev pub silent_queue : SdlQueue
silent_queue = record {
  Queue = ℕ;
  level = λ q. q;
  queued_size = λ q. (q, q);
  clear_queued = λ q. 0;
  queue_audio = λ bytes q. (true, q + length bytes);
}

never_refuses : true ≡ false → ⊥
never_refuses e = cc

abbrev silent_laws : SdlLaws silent_queue
silent_laws = record {
  reading = λ q. omega arith;
  reading_left = λ q. omega arith;
  cleared = λ q. refl;
  queued = λ bytes q. omega arith;
  not_queued = λ bytes q e. absurd (never_refuses e);
}

abbrev pub good_device : Opened
good_device = record { init_ok = true; device_id = 2; freq = 48000; format = 0x8010; channels = 2 }

abbrev some_audio : List (Operation silent_queue silent_laws)
some_audio =
    do_offer (replicate 20000 0) 1000 ∷ do_offer (replicate 20000 0) 2000 ∷ do_reset ∷ do_close ∷ []

reachable-IsBounded_example :
    IsBounded silent_queue silent_laws
      (perform_all silent_queue silent_laws some_audio ((open_device good_device).1, 0)).0
      (perform_all silent_queue silent_laws some_audio ((open_device good_device).1, 0)).1
reachable-IsBounded_example =
    reachable-IsBounded silent_queue silent_laws good_device 0 some_audio refl
