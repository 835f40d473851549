-- ===== src/Sft/Backend.antt =====
-- src/frametap_backend.c and include/sysdvr/ndl_media.h: the state of the Frame Tap stream thread,
-- the submission of a frame to the decoder, the status text and the result of a session. A pointer
-- is not NULL, and what only a log reads is left out.
pub mod Video
pub mod Stream
pub mod Submit
pub mod Chain
pub mod Show
pub mod Play
pub mod Requests
pub mod Waiting
use sysdvr_webos.Prelude.{
  ℕ, zero, suc, ◌+◌, ◌-◌, ◌*◌, ◌/◌, ◌%◌, ◌^◌, ◌≤◌, ◌<◌, min, ◌≡◌, refl, sym, ap, ap₂, subst, ◌∙◌,
  ◌≢◌, ◌↔◌, ◌⊎◌, inl, inr, Bool, true, false, not, ◌&&◌, ◌||◌, Option, none, some, List, [], ◌∷◌,
  ◌++◌, map, append-nil, append_assoc, arith, ltb, leb, ◌==◌, ◌!=◌, if◌then◌else◌, ltb→lt, lt→ltb,
  ltb_false→le, le→ltb_false, leb→le, le→leb, leb_false→lt, lt→leb_false, ==_iff, Bool-cases,
  Option-cases, length, get_elem?, get_or, set, take, drop, replicate, length-append, length-take,
  length-drop, length-set, length-replicate, take_all, drop_all, take-append, drop-append,
  take-append_le, drop-append_le, take-append-drop, take_exact, drop_exact, drop-drop,
  drop-set_before, take-set_next, take_next, get_or-take,
}
use sysdvr_webos.Prelude.CString.{codes, is_empty, text_of}
use sysdvr_webos.Prelude.Words.{u32, u64, read_le32}
use sysdvr_webos.Media.{FeedResult, feed_ok, feed_retry, feed_error}
use sysdvr_webos.Sft.Audio.{Audio, zeroed}

abbrev pub feed_max_retries : ℕ
feed_max_retries = 200

-- `a - b` on `uint64_t`
abbrev pub sub_u64 : ℕ → ℕ → ℕ
sub_u64 a b = u64 (a + (2 ^ 64 - b))

-- One round of `submit_video`: whether the stream runs when the round starts, and what the decoder
-- answers to the frame.
abbrev pub FeedRound : Type 0
FeedRound = Bool × FeedResult

-- The counters of `sft_worker` and the variables of the thread. `has_player` is `player != NULL`.
pub record Worker : Type 0 where
  pub connected : Bool
  pub video_started : Bool
  pub failed : Bool
  pub packets : ℕ
  pub video_packets : ℕ
  pub audio_packets : ℕ
  pub status_packets : ℕ
  pub video_bytes : ℕ
  pub audio_bytes : ℕ
  pub keyframes : ℕ
  pub sequence_gaps : ℕ
  pub source_restarts : ℕ
  pub skipped_until_key : ℕ
  pub video_age_sum_us : ℕ
  pub video_age_max_us : ℕ
  pub ndl_retries : ℕ
  pub ndl_failures : ℕ
  pub max_wall_gap_us : ℕ
  pub status_head : List ℕ
  pub has_player : Bool
  pub audio : Audio
  pub audio_open_attempted : Bool
  pub decoder_w : ℕ
  pub decoder_h : ℕ
  pub waiting_key : Bool
  pub have_sequence : Bool
  pub last_sequence : ℕ
  pub timeline_wall_base : ℕ
  pub last_video_wall : ℕ
  pub last_key_request : ℕ

abbrev pub connected_text : List ℕ
connected_text = codes "Connected. Open a game on the Switch..."

-- The worker as the session starts it, after the thread has asked for its first keyframe.
abbrev pub started : ℕ → Worker
started now = record {
  connected = true;
  video_started = false;
  failed = false;
  packets = 0;
  video_packets = 0;
  audio_packets = 0;
  status_packets = 0;
  video_bytes = 0;
  audio_bytes = 0;
  keyframes = 0;
  sequence_gaps = 0;
  source_restarts = 0;
  skipped_until_key = 0;
  video_age_sum_us = 0;
  video_age_max_us = 0;
  ndl_retries = 0;
  ndl_failures = 0;
  max_wall_gap_us = 0;
  status_head = connected_text;
  has_player = false;
  audio = zeroed;
  audio_open_attempted = false;
  decoder_w = 0;
  decoder_h = 0;
  waiting_key = true;
  have_sequence = false;
  last_sequence = 0;
  timeline_wall_base = 0;
  last_video_wall = 0;
  last_key_request = now;
}

-- How `submit_video` ends: the frame is taken after some retries, it is given up and counted as a
-- failure, the stream was stopped, or the rounds ran out.
pub data Submission : Type 0 where
  taken : ℕ → Submission
  rejected stopped unfinished : Submission

pub submit_rounds : ℕ → List FeedRound → Submission
submit_rounds retries [] = unfinished
submit_rounds retries ((running, feed_ok) ∷ rs) = if running then taken retries else stopped
submit_rounds retries ((running, feed_error) ∷ rs) = if running then rejected else stopped
submit_rounds retries ((running, feed_retry) ∷ rs) =
    let again = submit_rounds (retries + 1) rs in
    if not running then stopped else if leb feed_max_retries retries then rejected else again

-- The counters, and whether the frame was taken.
unfoldable pub after_submission : Submission → Worker → Bool × Worker
after_submission (taken retries) w =
    (true, record w { ndl_retries = u64 (w.ndl_retries + retries) })
after_submission rejected w = (false, record w { ndl_failures = u64 (w.ndl_failures + 1) })
after_submission stopped w = (false, w)
after_submission unfinished w = (false, w)

unfoldable pub submit_video : List FeedRound → Worker → Bool × Worker
unfolding submit_rounds after_submission
submit_video rs w = after_submission (submit_rounds 0 rs) w

-- What `log_status_packet` leaves for the waiting screen.
unfoldable pub log_status_packet : List ℕ → Worker → Worker
log_status_packet payload w =
    let reason = read_le32 (drop 4 payload) in
    let head = text_of (take 64 (drop 8 payload)) in
    if ltb (length payload) 8 then w else record w {
      status_head = (if (reason != 0) && not (is_empty head) then head else connected_text);
    }

-- `session_result`
pub data SessionResult : Type 0 where
  remote_end transport_lost session_error user_back : SessionResult

-- What `frametap_run_stream_session` returns when the thread has ended.
unfoldable pub session_result : Bool → Bool → Bool → SessionResult
session_result back global_stop worker_failed =
    if back
    then user_back
    else if global_stop
    then remote_end
    else if worker_failed
    then transport_lost
    else remote_end
