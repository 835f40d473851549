-- ===== src/Tests/Playback.antt =====
-- Runs of the Frame Tap stream of src/frametap_backend.c.
use sysdvr_webos.Prelude.{
  ℕ, ◌≤◌, ◌<◌, Bool, refl, ◌≡◌, ◌≢◌, ◌↔◌, true, none, List, [], ◌∷◌, arith, replicate,
  length-replicate,
}
use sysdvr_webos.Media.{feed_ok, feed_retry}
use sysdvr_webos.Sft.Protocol.Transport.{readable}
use sysdvr_webos.Sft.Backend.{sub_u64, Worker, FeedRound, started, taken, submit_rounds}
use sysdvr_webos.Sft.Backend.Waiting.{on_video_lem}
use sysdvr_webos.Sft.Protocol.{is_key}
use sysdvr_webos.Sft.Backend.Video.{
  Output, Answers, count_video, count_key, check_sequence, check_resolution, skip_or_show, skip,
  on_video,
}
use sysdvr_webos.Sft.Backend.Submit.{TakesAfter, submit_rounds_iff}
use sysdvr_webos.Sft.Backend.Requests.{Limited, on_video-Limited}
use sysdvr_webos.Sft.Backend.Chain.{Chain}
use sysdvr_webos.Sft.Backend.Stream.{Iteration, stream_thread}
use sysdvr_webos.Sft.Backend.Play.{stream_thread-Chain}
use sysdvr_webos.Tests.Capture.{silent_queue, good_device, plain_video, tick}

abbrev busy_once : List FeedRound
busy_once = (true, feed_retry) ∷ (true, feed_ok) ∷ []

submit_rounds_iff_example :
    (submit_rounds 0 busy_once ≡ taken 1) ↔ ((1 ≤ 200) × TakesAfter 1 busy_once)
submit_rounds_iff_example = submit_rounds_iff busy_once 1

abbrev always_busy : List FeedRound
always_busy = replicate 300 (true, feed_retry)

abbrev answers : Answers
answers = record { now = 2000000; ndl_opens = true; audio_device = good_device; feeds = busy_once }

on_video-Limited_example :
    Limited 2000000 (started 500) (on_video plain_video (1 ∷ 2 ∷ []) answers (started 500)).1
on_video-Limited_example =
    on_video-Limited plain_video (1 ∷ 2 ∷ []) answers (started 500) (omega arith)

abbrev first_video : Bool × (Worker × List Output)
first_video = on_video plain_video (1 ∷ 2 ∷ []) answers (started 500)

goes_on : first_video.0 ≡ true
unfolding on_video is_key count_video count_key check_sequence check_resolution skip_or_show skip
    sysdvr_webos.Sft.Protocol.is_video sysdvr_webos.Prelude.Words.any_set
goes_on = refl

still_waits : first_video.1.0.waiting_key ≡ true
unfolding on_video is_key count_video count_key check_sequence check_resolution skip_or_show skip
    sysdvr_webos.Sft.Protocol.is_video sysdvr_webos.Prelude.Words.any_set
still_waits = refl

on_video_lem_example : sub_u64 2000000 first_video.1.0.last_key_request < 1000000
on_video_lem_example =
    on_video_lem plain_video (1 ∷ 2 ∷ []) answers (started 500) (omega arith) goes_on still_waits

-- A key frame of one byte.
abbrev key_wire : List ℕ
key_wire =
    83 ∷ 70 ∷ 84 ∷ 82 ∷ 2 ∷ 0 ∷ 6 ∷ 0 ∷ 64 ∷ 0 ∷ 0 ∷ 0 ∷ 64 ∷ 0 ∷ 0 ∷ 0 ∷ 0 ∷ 0 ∷ 0 ∷ 0 ∷ 1 ∷ 0 ∷ 0
    ∷ 0 ∷ 0 ∷ 0 ∷ 0 ∷ 0 ∷ 7 ∷ 0 ∷ 0 ∷ 0 ∷ 0x65 ∷ []

abbrev iteration : Iteration
iteration = record {
  running = true;
  rounds = (tick 10, readable 40) ∷ (tick 20, readable 40) ∷ [];
  still_running = true;
  answers = answers;
}

stream_thread-Chain_example :
    Chain none (stream_thread silent_queue 500 key_wire 0 (iteration ∷ iteration ∷ [])).1
stream_thread-Chain_example =
    stream_thread-Chain silent_queue 500 key_wire 0 (iteration ∷ iteration ∷ [])
