-- ===== src/Worker/Session.antt =====
-- src/webos_main.c, `run_stream_session`: what is set up before the two threads start, and the result
-- when they have ended. Whether the player opens and what the two connections give are arguments.
pub mod Laws
pub mod Run
pub mod Threads
use sysdvr_webos.Prelude.{
  ℕ, zero, suc, ◌+◌, ◌-◌, ◌*◌, ◌/◌, ◌%◌, ◌^◌, ◌≤◌, ◌<◌, min, ◌≡◌, refl, sym, ap, ap₂, subst, ◌∙◌,
  ◌≢◌, ◌↔◌, ◌⊎◌, inl, inr, Bool, true, false, not, ◌&&◌, ◌||◌, Option, none, some, List, [], ◌∷◌,
  ◌++◌, map, append-nil, append_assoc, arith, ltb, leb, ◌==◌, ◌!=◌, if◌then◌else◌, ltb→lt, lt→ltb,
  ltb_false→le, le→ltb_false, leb→le, le→leb, leb_false→lt, lt→leb_false, ==_iff, Bool-cases,
  Option-cases, length, get_elem?, get_or, set, take, drop, replicate, length-append, length-take,
  length-drop, length-set, length-replicate, take_all, drop_all, take-append, drop-append,
  take-append_le, drop-append_le, take-append-drop, take_exact, drop_exact, drop-drop,
  drop-set_before, take-set_next, take_next, get_or-take,
}
use sysdvr_webos.Net.{Incoming}
use sysdvr_webos.Protocol.{StreamKind, video, audio, PacketHeader, Conn}
use sysdvr_webos.Protocol.Handshake.{handshake}
use sysdvr_webos.Sft.Backend.{SessionResult, remote_end, transport_lost, session_error, user_back}
use sysdvr_webos.Worker.{Worker, prime_worker}

abbrev pub audio_batching : ℕ
audio_batching = 1

-- A worker with its first packet, and what is left on its connection.
pub record Primed : Type 0 where
  pub worker : Worker
  pub first_header : PacketHeader
  pub first_payload : List ℕ
  pub incoming : Incoming

-- The connection and its handshake.
pub greet : Option Conn → StreamKind → ℕ → Option Incoming
greet none kind batching = none
greet (some c) kind batching =
    let r = handshake c kind batching in if r.success then some r.conn.incoming else none

abbrev pub fresh_worker : StreamKind → ℕ → Worker
fresh_worker kind base = record {
  kind = kind;
  timeline_base_us = base;
  packets = 0;
  bytes = 0;
  last_source_pts_us = 0;
  last_rx_wall_us = 0;
  gap_events = 0;
  max_wall_gap_us = 0;
  max_source_gap_us = 0;
  backpressure_events = 0;
  backpressure_wait_us = 0;
  transport_error = false;
  decoder_error = false;
}

abbrev pub First : Type 0
First = Option (PacketHeader × List ℕ) × Incoming

abbrev pub earlier : ℕ → ℕ → ℕ
earlier v a = if ltb v a then v else a

-- Both workers are on the timeline that starts at the earlier of the first packets.
abbrev pub primed_pair :
    PacketHeader × List ℕ → Incoming → PacketHeader × List ℕ → Incoming → Primed × Primed
primed_pair (hv, pv) v (ha, pa) a = (
  record {
    worker = fresh_worker video (earlier hv.timestamp_us ha.timestamp_us);
    first_header = hv;
    first_payload = pv;
    incoming = v;
  },
  record {
    worker = fresh_worker audio (earlier hv.timestamp_us ha.timestamp_us);
    first_header = ha;
    first_payload = pa;
    incoming = a;
  },
)

pub both_primed : First → First → Option (Primed × Primed)
both_primed (some fv, v) (some fa, a) = some (primed_pair fv v fa a)
both_primed (none, v) r = none
both_primed (some fv, v) (none, a) = none

pub both_greeted : Option Incoming → Option Incoming → Option (Primed × Primed)
unfolding both_primed
both_greeted (some v) (some a) = both_primed (prime_worker video v) (prime_worker audio a)
both_greeted none a = none
both_greeted (some v) none = none

-- `none` is the early return of SESSION_RESULT_ERROR.
unfoldable pub set_up : Bool → Option Conn → Option Conn → Option (Primed × Primed)
unfolding greet both_greeted
set_up player_opens video_conn audio_conn =
    if player_opens
    then both_greeted (greet video_conn video 0) (greet audio_conn audio audio_batching)
    else none

-- The result when both threads have ended.
unfoldable pub session_outcome : Bool → Worker → Worker → SessionResult
session_outcome back v a =
    if back
    then user_back
    else if v.decoder_error || a.decoder_error
    then session_error
    else if v.transport_error || a.transport_error
    then transport_lost
    else remote_end
