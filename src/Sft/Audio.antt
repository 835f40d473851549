-- ===== src/Sft/Audio.antt =====
-- src/sft_audio.c and include/sft/audio.h: the bounded queue of PCM audio. SDL's queue is a
-- parameter. A pointer is not NULL, and what only a log reads is left out.
pub mod Tail
pub mod Latency
use sysdvr_webos.Prelude.{
  ℕ, zero, suc, ◌+◌, ◌-◌, ◌*◌, ◌/◌, ◌%◌, ◌^◌, ◌≤◌, ◌<◌, min, ◌≡◌, refl, sym, ap, ap₂, subst, ◌∙◌,
  ◌≢◌, ◌↔◌, ◌⊎◌, inl, inr, Bool, true, false, not, ◌&&◌, ◌||◌, Option, none, some, List, [], ◌∷◌,
  ◌++◌, map, append-nil, append_assoc, arith, ltb, leb, ◌==◌, ◌!=◌, if◌then◌else◌, ltb→lt, lt→ltb,
  ltb_false→le, le→ltb_false, leb→le, le→leb, leb_false→lt, lt→leb_false, ==_iff, Bool-cases,
  Option-cases, length, get_elem?, get_or, set, take, drop, replicate, length-append, length-take,
  length-drop, length-set, length-replicate, take_all, drop_all, take-append, drop-append,
  take-append_le, drop-append_le, take-append-drop, take_exact, drop_exact, drop-drop,
  drop-set_before, take-set_next, take_next, get_or-take,
}
use sysdvr_webos.Prelude.Words.{u64}

abbrev pub sample_rate : ℕ
sample_rate = 48000

abbrev pub channel_count : ℕ
channel_count = 2

abbrev pub bytes_per_frame : ℕ
bytes_per_frame = 4

abbrev pub bytes_per_second : ℕ
bytes_per_second = sample_rate * bytes_per_frame

-- AUDIO_S16LSB of SDL
abbrev pub s16lsb : ℕ
s16lsb = 0x8010

abbrev pub packet_keep_ms : ℕ
packet_keep_ms = 80

abbrev pub queue_limit_ms : ℕ
queue_limit_ms = 120

abbrev pub stall_reset_ms : ℕ
stall_reset_ms = 250

abbrev pub bytes_for_ms : ℕ → ℕ
bytes_for_ms ms = bytes_per_second * ms / 1000

-- SDL's queue of one device. A state is what the device holds; each call gives the next state, since
-- the device plays all the time. `level` is what the state holds, which no program can ask for:
-- SDL_GetQueuedAudioSize reads a number, and the level moves on.
pub record SdlQueue : Type 1 where
  pub Queue : Type 0
  pub level : Queue → ℕ
  pub queued_size : Queue → ℕ × Queue
  pub clear_queued : Queue → Queue
  pub queue_audio : List ℕ → Queue → Bool × Queue

-- What SDL documents: a reading is not more than the queue holds, and after it the device only
-- plays; a cleared queue is empty; a call adds the bytes it is given, or none if it fails.
pub record SdlLaws (sdl : SdlQueue) : Type 0 where
  pub reading : (q : sdl.Queue) → (sdl.queued_size q).0 ≤ sdl.level q
  pub reading_left : (q : sdl.Queue) → sdl.level (sdl.queued_size q).1 ≤ (sdl.queued_size q).0
  pub cleared : (q : sdl.Queue) → sdl.level (sdl.clear_queued q) ≡ 0
  pub queued :
      (bytes : List ℕ) (q : sdl.Queue)
      → sdl.level (sdl.queue_audio bytes q).1 ≤ sdl.level q + length bytes
  pub not_queued :
      (bytes : List ℕ) (q : sdl.Queue)
      → (sdl.queue_audio bytes q).0 ≡ false
      → sdl.level (sdl.queue_audio bytes q).1 ≤ sdl.level q

pub record Audio : Type 0 where
  pub device : ℕ
  pub ready : Bool
  pub started : Bool
  pub failed : Bool
  pub packets : ℕ
  pub input_bytes : ℕ
  pub queued_bytes : ℕ
  pub peak_queue_bytes : ℕ
  pub dropped_bytes : ℕ
  pub queue_resets : ℕ
  pub queue_errors : ℕ
  pub last_offer_us : ℕ

abbrev pub zeroed : Audio
zeroed = record {
  device = 0;
  ready = false;
  started = false;
  failed = false;
  packets = 0;
  input_bytes = 0;
  queued_bytes = 0;
  peak_queue_bytes = 0;
  dropped_bytes = 0;
  queue_resets = 0;
  queue_errors = 0;
  last_offer_us = 0;
}

-- What SDL answers: whether the subsystem starts, the device (0 is none) and the format obtained.
pub record Opened : Type 0 where
  pub init_ok : Bool
  pub device_id : ℕ
  pub freq : ℕ
  pub format : ℕ
  pub channels : ℕ

abbrev pub gave_up : Bool × Audio
gave_up = (false, record zeroed { failed = true })

unfoldable pub open_device : Opened → Bool × Audio
open_device got =
    if not got.init_ok
    then gave_up
    else if got.device_id == 0
    then gave_up
    else if (got.freq != sample_rate) || (got.format != s16lsb) || (got.channels != channel_count)
    then gave_up
    else (true, record zeroed { device = got.device_id; ready = true; started = true })

-- The bytes of a packet that are queued: whole frames, and the last of them when there are many.
-- The second part is `drop`, which is added to the dropped bytes.
unfoldable pub trim : List ℕ → List ℕ × ℕ
trim bytes =
    let keep = length bytes - length bytes % bytes_per_frame in
    let max_packet = bytes_for_ms packet_keep_ms in
    let excess = keep - max_packet in
    let dropped = excess - excess % bytes_per_frame in
    if ltb max_packet keep
    then (take (keep - dropped) (drop dropped bytes), dropped)
    else (take keep bytes, 0)

-- Whether the last offer is 250 ms or more ago.
unfoldable pub arrival_stalled : Audio → ℕ → Bool
arrival_stalled a received_us =
    (a.last_offer_us != 0)
    && ltb a.last_offer_us received_us
    && leb (stall_reset_ms * 1000) (received_us - a.last_offer_us)

module _ (sdl : SdlQueue) where
  pub reset : Audio → sdl.Queue → Audio × sdl.Queue
  reset a q =
      let (queued, q') = sdl.queued_size q in
      if not a.ready || (a.device == 0) then (a, q) else (
        record a {
          dropped_bytes =
              (if ltb 0 queued then u64 (a.dropped_bytes + queued) else a.dropped_bytes);
          queued_bytes = 0;
          queue_resets = u64 (a.queue_resets + 1);
        },
        sdl.clear_queued q',
      )

  abbrev pub count_drop : Audio → ℕ → Audio
  count_drop a queued = record a {
    dropped_bytes = u64 (a.dropped_bytes + queued);
    queue_resets = u64 (a.queue_resets + 1);
  }

  -- A long silence of the sender empties the queue.
  pub clear_after_stall : Audio → ℕ → sdl.Queue → Audio × sdl.Queue
  clear_after_stall a received_us q =
      let (queued, q') = sdl.queued_size q in
      if arrival_stalled a received_us
      then (if ltb 0 queued then (count_drop a queued, sdl.clear_queued q') else (a, q'))
      else (a, q)

  -- A packet that would go over the limit empties the queue first.
  pub guard_latency : Audio → ℕ → sdl.Queue → Audio × sdl.Queue
  guard_latency a keep q =
      let (queued, q') = sdl.queued_size q in
      if ltb (bytes_for_ms queue_limit_ms) (queued + keep)
      then (count_drop a queued, sdl.clear_queued q')
      else (a, q')

  pub enqueue : Audio → List ℕ → sdl.Queue → Bool × (Audio × sdl.Queue)
  enqueue a kept q =
      let (ok, q') = sdl.queue_audio kept q in
      let (queued, q'') = sdl.queued_size q' in
      if not ok
      then (false, (record a { queue_errors = u64 (a.queue_errors + 1); failed = true }, q'))
      else (
        true,
        (
          record a {
            queued_bytes = queued;
            peak_queue_bytes =
                (if ltb a.peak_queue_bytes queued then queued else a.peak_queue_bytes);
          },
          q'',
        ),
      )

  pub queue_kept : Audio → List ℕ → ℕ → sdl.Queue → Bool × (Audio × sdl.Queue)
  queue_kept a kept received_us q =
      let (a', q') = clear_after_stall a received_us q in
      let (a'', q'') = guard_latency (record a' { last_offer_us = received_us }) (length kept) q' in
      enqueue a'' kept q''

  pub offer : Audio → List ℕ → ℕ → sdl.Queue → Bool × (Audio × sdl.Queue)
  offer a bytes received_us q =
      let (kept, dropped) = trim bytes in
      let counted = record a {
        packets = u64 (a.packets + 1);
        input_bytes = u64 (a.input_bytes + length bytes);
      } in
      let charged =
        if dropped == 0
        then counted
        else record counted { dropped_bytes = u64 (a.dropped_bytes + dropped) } in
      if not a.ready || a.failed || (a.device == 0) || (length bytes == 0)
      then (false, (a, q))
      else if length bytes - length bytes % bytes_per_frame == 0
      then (true, (counted, q))
      else queue_kept charged kept received_us q

  pub close : Audio → sdl.Queue → Audio × sdl.Queue
  close a q =
      (record a { device = 0; ready = false }, (if a.device != 0 then sdl.clear_queued q else q))
