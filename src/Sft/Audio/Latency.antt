-- ===== src/Sft/Audio/Latency.antt =====
-- src/sft_audio.c: the queue of the device stays within its 120 ms, whatever is offered.
use sysdvr_webos.Prelude.{
  ℕ, ◌+◌, ◌-◌, ◌%◌, ◌≤◌, ◌≡◌, inl, inr, not, ◌||◌, List, [], ◌∷◌, arith, ◌==◌, Bool-cases, length,
}
use sysdvr_webos.Sft.Audio.{
  SdlQueue, SdlLaws, Audio, Opened, open_device, trim, reset, clear_after_stall, guard_latency,
  enqueue, queue_kept, offer, close,
}
use sysdvr_webos.Sft.Audio.Tail.{trim_lem}

module _ (sdl : SdlQueue) (laws : SdlLaws sdl) where
  -- The device holds at most 120 ms (23040 bytes), and so does every level that was recorded.
  pub record IsBounded (a : Audio) (q : sdl.Queue) : Type 0 where
    pub level : sdl.level q ≤ 23040
    pub latest : a.queued_bytes ≤ a.peak_queue_bytes
    pub peak : a.peak_queue_bytes ≤ 23040

  -- The recorded levels of two states agree.
  abbrev SameLevels : Audio → Audio → Type 0
  SameLevels a b = (a.queued_bytes ≡ b.queued_bytes) × (a.peak_queue_bytes ≡ b.peak_queue_bytes)

  reset-IsBounded :
      (a : Audio) (q : sdl.Queue) → IsBounded a q → IsBounded (reset sdl a q).0 (reset sdl a q).1
  unfolding reset
  reset-IsBounded a q b = elim (Bool-cases (not a.ready || (a.device == 0))) [
    | inl closed ↦ rw closed b
    | inr opened ↦ rw opened (record {
      level = omega (arith, laws.cleared (sdl.queued_size q).1);
      latest = omega arith;
      peak = b.peak;
    })
  ]

  clear_after_stall_lem :
      (a : Audio) (received_us : ℕ) (q : sdl.Queue)
      → SameLevels (clear_after_stall sdl a received_us q).0 a
        × (sdl.level (clear_after_stall sdl a received_us q).1 ≤ sdl.level q)
  unfolding clear_after_stall
  clear_after_stall_lem a received_us q =
      ground (arith, laws.reading q, laws.reading_left q, laws.cleared (sdl.queued_size q).1)

  guard_latency_lem :
      (a : Audio) (keep : ℕ) (q : sdl.Queue)
      → keep ≤ 15360
      → SameLevels (guard_latency sdl a keep q).0 a
        × (sdl.level (guard_latency sdl a keep q).1 + keep ≤ 23040)
  unfolding guard_latency
  guard_latency_lem a keep q h =
      ground (arith, laws.reading_left q, laws.cleared (sdl.queued_size q).1)

  enqueue-IsBounded :
      (a : Audio) (kept : List ℕ) (q : sdl.Queue)
      → sdl.level q + length kept ≤ 23040
      → a.queued_bytes ≤ a.peak_queue_bytes
      → a.peak_queue_bytes ≤ 23040
      → IsBounded (enqueue sdl a kept q).1.0 (enqueue sdl a kept q).1.1
  unfolding enqueue
  enqueue-IsBounded a kept q room latest peak = elim (Bool-cases (sdl.queue_audio kept q).0) [
    | inl ok ↦ rw ok (record {
      level = omega (
        arith,
        laws.queued kept q,
        laws.reading (sdl.queue_audio kept q).1,
        laws.reading_left (sdl.queue_audio kept q).1,
      );
      latest = ground arith;
      peak = ground (arith, laws.queued kept q, laws.reading (sdl.queue_audio kept q).1);
    })
    | inr refused ↦
        rw refused
          (record { level = omega (arith, laws.queued kept q); latest = latest; peak = peak })
  ]

  queue_kept-IsBounded :
      (a : Audio) (kept : List ℕ) (received_us : ℕ) (q : sdl.Queue)
      → length kept ≤ 15360
      → IsBounded a q
      → IsBounded
          (queue_kept sdl a kept received_us q).1.0
          (queue_kept sdl a kept received_us q).1.1
  unfolding queue_kept
  queue_kept-IsBounded a kept received_us q short b =
      let first = clear_after_stall_lem a received_us q in
      let marked = record (clear_after_stall sdl a received_us q).0 {
        last_offer_us = received_us;
      } in
      let second =
        guard_latency_lem marked (length kept) (clear_after_stall sdl a received_us q).1 short in
      enqueue-IsBounded
        (guard_latency sdl marked (length kept) (clear_after_stall sdl a received_us q).1).0 kept _
        second.1 (omega (arith, first.0.0, first.0.1, second.0.0, second.0.1, b.latest))
        (omega (arith, first.0.1, second.0.1, b.peak))

  offer-IsBounded :
      (a : Audio) (bytes : List ℕ) (received_us : ℕ) (q : sdl.Queue)
      → IsBounded a q
      → IsBounded (offer sdl a bytes received_us q).1.0 (offer sdl a bytes received_us q).1.1
  unfolding offer
  offer-IsBounded a bytes received_us q b =
      elim (Bool-cases (not a.ready || a.failed || (a.device == 0) || (length bytes == 0))) [
        | inl unfit ↦ rw unfit b
        | inr fit ↦ rw fit (elim (Bool-cases (length bytes - length bytes % 4 == 0)) [
          | inl little ↦ rw little (record { level = b.level; latest = b.latest; peak = b.peak })
          | inr frames ↦ rw frames (
              queue_kept-IsBounded _ (trim bytes).0 received_us q
                (omega (arith, (trim_lem bytes).1))
                (elim (Bool-cases ((trim bytes).1 == 0)) [
                  | inl all ↦ rw all (record { level = b.level; latest = b.latest; peak = b.peak })
                  | inr part ↦
                      rw part (record { level = b.level; latest = b.latest; peak = b.peak })
                ]))
        ])
      ]

  close-IsBounded :
      (a : Audio) (q : sdl.Queue) → IsBounded a q → IsBounded (close sdl a q).0 (close sdl a q).1
  unfolding close
  close-IsBounded a q b = record {
    level = ground (arith, laws.cleared q, b.level);
    latest = b.latest;
    peak = b.peak;
  }

  -- What a caller can do to the audio of one stream after it is opened.
  pub data Operation : Type 0 where
    do_reset do_close : Operation
    do_offer : List ℕ → ℕ → Operation

  unfoldable pub perform : Operation → Audio × sdl.Queue → Audio × sdl.Queue
  unfolding reset offer close
  perform do_reset (a, q) = reset sdl a q
  perform do_close (a, q) = close sdl a q
  perform (do_offer bytes received_us) (a, q) = (offer sdl a bytes received_us q).1

  unfoldable pub perform_all : List Operation → Audio × sdl.Queue → Audio × sdl.Queue
  unfolding perform
  perform_all [] s = s
  perform_all (o ∷ os) s = perform_all os (perform o s)

  perform-IsBounded :
      (o : Operation) (s : Audio × sdl.Queue)
      → IsBounded s.0 s.1
      → IsBounded (perform o s).0 (perform o s).1
  unfolding perform
  perform-IsBounded do_reset (a, q) b = reset-IsBounded a q b
  perform-IsBounded do_close (a, q) b = close-IsBounded a q b
  perform-IsBounded (do_offer bytes received_us) (a, q) b = offer-IsBounded a bytes received_us q b

  perform_all-IsBounded :
      (os : List Operation) (s : Audio × sdl.Queue)
      → IsBounded s.0 s.1
      → IsBounded (perform_all os s).0 (perform_all os s).1
  unfolding perform_all
  perform_all-IsBounded [] s b = b
  perform_all-IsBounded (o ∷ os) s b =
      perform_all-IsBounded os (perform o s) (perform-IsBounded o s b)

  opened_levels :
      (got : Opened)
      → ((open_device got).1.queued_bytes ≡ 0) × ((open_device got).1.peak_queue_bytes ≡ 0)
  unfolding open_device
  opened_levels got = (ground arith, ground arith)

  -- However audio is offered, reset and closed after `sft_audio_open`, with SDL's queue empty at the
  -- start and as documented, the device never holds more than 23040 bytes (120 ms), and neither the
  -- last level nor the peak that was recorded is higher.
  pub reachable-IsBounded :
      (got : Opened) (q : sdl.Queue) (os : List Operation)
      → sdl.level q ≡ 0
      → IsBounded
          (perform_all os ((open_device got).1, q)).0
          (perform_all os ((open_device got).1, q)).1
  reachable-IsBounded got q os empty =
      let (latest, peak) = opened_levels got in
      perform_all-IsBounded os ((open_device got).1, q)
        (record {
          level = omega (arith, empty);
          latest = omega (arith, latest, peak);
          peak = omega (arith, peak);
        })
