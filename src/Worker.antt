-- ===== src/Worker.antt =====
-- src/webos_main.c: the worker of one SysDVR stream: reading its packets, handing them to the
-- decoder, and its thread. A pointer is not NULL, and what only a log reads is left out.
pub mod Reading
pub mod Thread
pub mod Play
pub mod Submit
pub mod Session
use sysdvr_webos.Prelude.{
  ℕ, zero, suc, ◌+◌, ◌-◌, ◌*◌, ◌/◌, ◌%◌, ◌^◌, ◌≤◌, ◌<◌, min, ◌≡◌, refl, sym, ap, ap₂, subst, ◌∙◌,
  ◌≢◌, ◌↔◌, ◌⊎◌, inl, inr, Bool, true, false, not, ◌&&◌, ◌||◌, Option, none, some, List, [], ◌∷◌,
  ◌++◌, map, append-nil, append_assoc, arith, ltb, leb, ◌==◌, ◌!=◌, if◌then◌else◌, ltb→lt, lt→ltb,
  ltb_false→le, le→ltb_false, leb→le, le→leb, leb_false→lt, lt→leb_false, ==_iff, Bool-cases,
  Option-cases, length, get_elem?, get_or, set, take, drop, replicate, length-append, length-take,
  length-drop, length-set, length-replicate, take_all, drop_all, take-append, drop-append,
  take-append_le, drop-append_le, take-append-drop, take_exact, drop_exact, drop-drop,
  drop-set_before, take-set_next, take_next, get_or-take,
}
use sysdvr_webos.Prelude.Words.{any_set, u64}
use sysdvr_webos.Media.{FeedResult, feed_ok, feed_retry, feed_error}
use sysdvr_webos.Net.{Incoming}
use sysdvr_webos.Net.Transfer.{content}
use sysdvr_webos.Protocol.{
  StreamKind, video, audio, other_kind, PacketHeader, PacketRead, packet, closed, malformed,
  packet_video, packet_audio, packet_error, max_payload, read_packet,
}

abbrev pub feed_max_retries : ℕ
feed_max_retries = 250

-- `a - b` on `uint64_t`
abbrev pub sub_u64 : ℕ → ℕ → ℕ
sub_u64 a b = u64 (a + (2 ^ 64 - b))

unfoldable pub expected_packet : StreamKind → PacketHeader → Bool
expected_packet video h = any_set h.metadata packet_video
expected_packet audio h = any_set h.metadata packet_audio
expected_packet other_kind h = any_set h.metadata packet_audio

-- What the loop of `read_data_packet` does with one result; `again` is the rest of the loop. An error
-- packet is logged and is -1.
unfoldable pub sort_packet :
    StreamKind
    → PacketRead × Incoming
    → Option (PacketRead × Incoming)
    → Option (PacketRead × Incoming)
unfolding expected_packet
sort_packet kind (closed, s) again = some (closed, s)
sort_packet kind (malformed, s) again = some (malformed, s)
sort_packet kind (packet h payload, s) again =
    if any_set h.metadata packet_error
    then some (malformed, s)
    else if expected_packet kind h && ltb 0 (length payload)
    then some (packet h payload, s)
    else again

-- `none` says that the fuel ran out.
unfoldable pub read_loop : ℕ → StreamKind → Incoming → Option (PacketRead × Incoming)
unfolding sort_packet
read_loop zero kind s = none
read_loop (suc fuel) kind s =
    let r = read_packet max_payload s in
    let again = read_loop fuel kind r.1 in sort_packet kind r again

-- Each packet takes bytes of the stream, so this fuel is enough.
unfoldable pub read_data_packet : StreamKind → Incoming → Option (PacketRead × Incoming)
unfolding read_loop
read_data_packet kind s = read_loop (suc (length (content s))) kind s

pub record Worker : Type 0 where
  pub kind : StreamKind
  pub timeline_base_us : ℕ
  pub packets : ℕ
  pub bytes : ℕ
  pub last_source_pts_us : ℕ
  pub last_rx_wall_us : ℕ
  pub gap_events : ℕ
  pub max_wall_gap_us : ℕ
  pub max_source_gap_us : ℕ
  pub backpressure_events : ℕ
  pub backpressure_wait_us : ℕ
  pub transport_error : Bool
  pub decoder_error : Bool

-- One round of `submit_packet`: whether the streams run when it starts, what the decoder answers, and
-- the clock when it is read after that.
pub record FeedRound : Type 0 where
  pub running : Bool
  pub result : FeedResult
  pub clock_us : ℕ

-- The packet is taken: at once, or after a wait of some time. Else it is given up, or the streams
-- were stopped, or the rounds ran out.
pub data Submission : Type 0 where
  taken_at_once rejected stopped unfinished : Submission
  taken_after : ℕ → Submission

abbrev pub taken : ℕ → ℕ → ℕ → Submission
taken retries retry_start clock =
    if ltb 0 retries then taken_after (sub_u64 clock retry_start) else taken_at_once

-- `retry_start` is written in the round with `retries == 0`.
unfoldable pub submit_rounds : ℕ → ℕ → List FeedRound → Submission
submit_rounds retries retry_start [] = unfinished
submit_rounds retries retry_start (r ∷ rs) =
    let start = if retries == 0 then r.clock_us else retry_start in
    let again = submit_rounds (retries + 1) start rs in
    if not r.running then stopped else elim r.result [
      | feed_ok ↦ taken retries retry_start r.clock_us
      | feed_error ↦ rejected
      | feed_retry ↦ if leb feed_max_retries retries then rejected else again
    ]

unfoldable pub pts_of : Worker → PacketHeader → ℕ
pts_of w h =
    if leb w.timeline_base_us h.timestamp_us then h.timestamp_us - w.timeline_base_us else 0

unfoldable pub after_submission : Submission → Worker → Bool × Worker
after_submission taken_at_once w = (true, w)
after_submission (taken_after waited) w = (
  true,
  record w {
    backpressure_events = u64 (w.backpressure_events + 1);
    backpressure_wait_us = u64 (w.backpressure_wait_us + waited);
  },
)
after_submission rejected w = (false, w)
after_submission stopped w = (false, w)
after_submission unfinished w = (false, w)

unfoldable pub submit_packet : List FeedRound → Worker → Bool × Worker
unfolding submit_rounds after_submission
submit_packet rounds w = after_submission (submit_rounds 0 0 rounds) w

abbrev pub diag_gap_us : ℕ
diag_gap_us = 250000

unfoldable pub diagnose_arrival : PacketHeader → ℕ → Worker → Worker
diagnose_arrival h now_us w =
    let wall = sub_u64 now_us w.last_rx_wall_us in
    let pts =
      if leb w.last_source_pts_us h.timestamp_us
      then h.timestamp_us - w.last_source_pts_us
      else 0 in
    let measured = record w {
      max_wall_gap_us = (if ltb w.max_wall_gap_us wall then wall else w.max_wall_gap_us);
      max_source_gap_us = (if ltb w.max_source_gap_us pts then pts else w.max_source_gap_us);
      gap_events =
          (if leb diag_gap_us wall || leb diag_gap_us pts
            then u64 (w.gap_events + 1)
            else w.gap_events);
    } in
    let w' = if w.last_rx_wall_us != 0 then measured else w in
    record w' { last_rx_wall_us = now_us; last_source_pts_us = h.timestamp_us }

-- A packet that the decoder took, with its presentation time.
pub record Fed : Type 0 where
  pub header : PacketHeader
  pub payload : List ℕ
  pub pts_us : ℕ

unfoldable pub process_one :
    PacketHeader → List ℕ → ℕ → List FeedRound → Worker → Bool × (Worker × List Fed)
unfolding submit_packet diagnose_arrival pts_of
process_one h payload arrival_us rounds w =
    let seen = diagnose_arrival h arrival_us w in
    let (ok, w') = submit_packet rounds seen in
    if ok
    then (
      true,
      (
        record w' { packets = u64 (w'.packets + 1); bytes = u64 (w'.bytes + length payload) },
        record { header = h; payload = payload; pts_us = pts_of w h } ∷ [],
      ),
    )
    else (false, (w', []))

-- One iteration of the thread: the flag at its start, the clock after the read and what the decoder
-- answers.
pub record Iteration : Type 0 where
  pub running : Bool
  pub arrival_us : ℕ
  pub rounds : List FeedRound

-- A step tells whether the thread goes on.
unfoldable pub on_packet :
    Option (PacketRead × Incoming) → Iteration → Worker → Bool × ((Worker × List Fed) × Incoming)
unfolding process_one
on_packet none i w = (false, ((w, []), []))
on_packet (some (closed, s)) i w = (false, ((w, []), s))
on_packet (some (malformed, s)) i w = (false, ((record w { transport_error = true }, []), s))
on_packet (some (packet h payload, s)) i w =
    let (ok, (w', fed)) = process_one h payload i.arrival_us i.rounds w in
    if ok then (true, ((w', fed), s)) else (false, ((record w' { decoder_error = true }, fed), s))

unfoldable pub thread_loop : List Iteration → Worker → Incoming → (Worker × List Fed) × Incoming
unfolding on_packet
thread_loop [] w s = ((w, []), s)
thread_loop (i ∷ is) w s =
    let (goes_on, ((w', fed), s')) = on_packet (read_data_packet w.kind s) i w in
    let ((w'', more), s'') = thread_loop is w' s' in
    if not i.running
    then ((w, []), s)
    else if goes_on
    then ((w'', fed ++ more), s'')
    else ((w', fed), s')

-- `first` is the packet that `prime_worker` read, if it is pending, with the clock and the decoder's
-- answers to it.
unfoldable pub stream_thread :
    Option (PacketHeader × List ℕ)
    → Iteration
    → List Iteration
    → Worker
    → Incoming
    → (Worker × List Fed) × Incoming
unfolding thread_loop
stream_thread none i is w s = thread_loop is w s
stream_thread (some (h, payload)) i is w s =
    let (ok, (w', fed)) = process_one h payload i.arrival_us i.rounds w in
    let ((w'', more), s') = thread_loop is w' s in
    if ok then ((w'', fed ++ more), s') else ((record w' { decoder_error = true }, fed), s)

unfoldable pub primed : Option (PacketRead × Incoming) → Option (PacketHeader × List ℕ) × Incoming
primed none = (none, [])
primed (some (packet h payload, s)) = (some (h, payload), s)
primed (some (closed, s)) = (none, s)
primed (some (malformed, s)) = (none, s)

-- `prime_worker`, when the buffers are allocated: the first packet.
unfoldable pub prime_worker : StreamKind → Incoming → Option (PacketHeader × List ℕ) × Incoming
unfolding read_data_packet primed
prime_worker kind s = primed (read_data_packet kind s)
