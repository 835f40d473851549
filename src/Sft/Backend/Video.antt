-- ===== src/Sft/Backend/Video.antt =====
-- src/frametap_backend.c, `sft_stream_thread`: what the thread does with one video packet.
use sysdvr_webos.Prelude.{
  ℕ, ◌+◌, ◌-◌, Bool, true, false, not, ◌&&◌, ◌||◌, List, [], ◌∷◌, ◌++◌, ltb, leb, ◌==◌, ◌!=◌,
  if◌then◌else◌, length,
}
use sysdvr_webos.Prelude.Words.{u32, u64}
use sysdvr_webos.Sft.Audio.{Opened, open_device}
use sysdvr_webos.Sft.Protocol.{Header, is_key}
use sysdvr_webos.Sft.Backend.{sub_u64, FeedRound, Worker, submit_video}

-- What the thread sends or hands to the decoder: a keyframe request, a decoder opened for a size, or
-- a frame that the decoder took, with its presentation time.
pub data Output : Type 0 where
  requested : Output
  opened : ℕ → ℕ → Output
  submitted : Header → List ℕ → ℕ → Output

-- What the outside answers while a packet is handled: the clock, whether NDL can be opened, SDL's
-- answers to the opening of audio, and NDL's to the frame.
pub record Answers : Type 0 where
  pub now : ℕ
  pub ndl_opens : Bool
  pub audio_device : Opened
  pub feeds : List FeedRound

abbrev pub request : ℕ → Worker → Worker × List Output
request now w = (record w { last_key_request = now }, requested ∷ [])

unfoldable pub count_video : Header → ℕ → ℕ → Worker → Worker
count_video h size now w =
    let gap = sub_u64 now w.last_video_wall in
    record w {
      video_packets = u64 (w.video_packets + 1);
      video_bytes = u64 (w.video_bytes + size);
      max_wall_gap_us =
          (if (w.last_video_wall != 0) && ltb w.max_wall_gap_us gap
            then gap
            else w.max_wall_gap_us);
      last_video_wall = now;
      video_age_sum_us = u64 (w.video_age_sum_us + h.console_age_us);
      video_age_max_us =
          (if ltb w.video_age_max_us h.console_age_us
            then h.console_age_us
            else w.video_age_max_us);
    }

unfoldable pub count_key : Bool → Worker → Worker
count_key key w = if key then record w { keyframes = u64 (w.keyframes + 1) } else w

-- A gap in the sequence.
unfoldable pub on_gap : Header → Bool → ℕ → Worker → Worker × List Output
on_gap h key now w =
    let w' = record w {
      sequence_gaps = u64 (w.sequence_gaps + 1);
      source_restarts =
          (if (h.sequence == 0) && key then u64 (w.source_restarts + 1) else w.source_restarts);
      waiting_key = not key;
    } in
    if not key && leb 250000 (sub_u64 now w.last_key_request) then request now w' else (w', [])

unfoldable pub check_sequence : Header → Bool → ℕ → Worker → Worker × List Output
unfolding on_gap
check_sequence h key now w =
    let expected = u32 (w.last_sequence + 1) in
    let (w', outputs) =
      if w.have_sequence && (h.sequence != expected) then on_gap h key now w else (w, []) in
    (record w' { last_sequence = h.sequence; have_sequence = true }, outputs)

unfoldable pub check_resolution : Header → Bool → ℕ → Worker → Worker × List Output
check_resolution h key now w =
    let w' = record w { waiting_key = not key } in
    if (w.decoder_w != 0) && ((h.width != w.decoder_w) || (h.height != w.decoder_h))
    then (if not key && leb 250000 (sub_u64 now w.last_key_request)
        then request now w'
        else (w', []))
    else (w, [])

unfoldable pub skip : ℕ → Worker → Worker × List Output
skip now w =
    let w' = record w { skipped_until_key = u64 (w.skipped_until_key + 1) } in
    if leb 1000000 (sub_u64 now w.last_key_request) then request now w' else (w', [])

-- `false` ends the thread. What the failing steps leave in `player` is destroyed.
unfoldable pub open_decoder : Header → Answers → Worker → Bool × (Worker × List Output)
open_decoder h answers w =
    let ready = record w {
      has_player = true;
      decoder_w = h.width;
      decoder_h = h.height;
      timeline_wall_base = answers.now;
      audio_open_attempted = true;
      audio = (if w.audio_open_attempted then w.audio else (open_device answers.audio_device).1);
    } in
    if w.has_player && not ((h.width != w.decoder_w) || (h.height != w.decoder_h))
    then (true, (w, []))
    else if answers.ndl_opens
    then (true, (ready, opened h.width h.height ∷ []))
    else (false, (record w { has_player = false; failed = true }, []))

unfoldable pub submit : Header → List ℕ → Answers → Worker → Bool × (Worker × List Output)
submit h payload answers w =
    let pts_us =
      if leb w.timeline_wall_base answers.now then answers.now - w.timeline_wall_base else 0 in
    let (taken, w') = submit_video answers.feeds (record w { waiting_key = false }) in
    if taken
    then (true, (record w' { video_started = true }, submitted h payload pts_us ∷ []))
    else (false, (record w' { failed = true }, []))

-- The outputs of a later part follow those of an earlier one.
abbrev pub after : List Output → Bool × (Worker × List Output) → Bool × (Worker × List Output)
after outputs (goes_on, (w, more)) = (goes_on, (w, outputs ++ more))

unfoldable pub show_frame : Header → List ℕ → Answers → Worker → Bool × (Worker × List Output)
unfolding open_decoder submit
show_frame h payload answers w =
    let (goes_on, (w', outputs)) = open_decoder h answers w in
    if goes_on then after outputs (submit h payload answers w') else (false, (w', outputs))

unfoldable pub skip_or_show :
    Header → List ℕ → Bool → Answers → Worker → Bool × (Worker × List Output)
unfolding skip show_frame
skip_or_show h payload key answers w =
    if w.waiting_key && not key then (true, skip answers.now w) else show_frame h payload answers w

-- The branch for a video packet; `false` says that the thread leaves its loop.
unfoldable pub on_video : Header → List ℕ → Answers → Worker → Bool × (Worker × List Output)
unfolding count_video count_key check_sequence check_resolution skip_or_show
on_video h payload answers w =
    let key = is_key h payload in
    let counted = count_key key (count_video h (length payload) answers.now w) in
    let (w', first) = check_sequence h key answers.now counted in
    let (w'', second) = check_resolution h key answers.now w' in
    after (first ++ second) (skip_or_show h payload key answers w'')
