-- ===== src/Sft/Backend/Stream.antt =====
-- src/frametap_backend.c, `sft_stream_thread`: the loop over the packets of a connection. SDL's queue
-- is a parameter, and the socket is the bytes that are to come with what each read sees.
use sysdvr_webos.Prelude.{
  ℕ, ◌+◌, Bool, true, false, not, List, [], ◌∷◌, ◌++◌, if◌then◌else◌, length,
}
use sysdvr_webos.Prelude.Words.{u64}
use sysdvr_webos.Sft.Audio.{SdlQueue, offer, close}
use sysdvr_webos.Sft.Protocol.{Header, max_video, is_status, is_audio, is_video}
use sysdvr_webos.Sft.Protocol.Transport.{
  Rounds, PacketRead, packet, closed, malformed, pending, read_packet,
}
use sysdvr_webos.Sft.Backend.{Worker, started, log_status_packet}
use sysdvr_webos.Sft.Backend.Video.{Output, Answers, on_video}

-- What one iteration sees: the flag at its start, the rounds of its read, the flag after the read,
-- and the answers to the packet.
pub record Iteration : Type 0 where
  pub running : Bool
  pub rounds : Rounds
  pub still_running : Bool
  pub answers : Answers

module _ (sdl : SdlQueue) where
  pub record Stream : Type 0 where
    pub worker : Worker
    pub queue : sdl.Queue
    pub bytes : List ℕ

  abbrev pub count_audio : ℕ → Worker → Worker
  count_audio size w = record w {
    audio_packets = u64 (w.audio_packets + 1);
    audio_bytes = u64 (w.audio_bytes + size);
  }

  unfoldable pub on_audio : List ℕ → ℕ → Stream → Stream
  on_audio payload now s =
      let w = count_audio (length payload) s.worker in
      let (_, (audio, queue)) = offer sdl w.audio payload now s.queue in
      if w.audio.ready
      then record s { worker = record w { audio = audio }; queue = queue }
      else record s { worker = w }

  -- The thread goes on or leaves its loop.
  unfoldable pub on_packet : Header → List ℕ → Answers → Stream → Bool × (Stream × List Output)
  on_packet h payload answers s =
      let counted = record s.worker { packets = u64 (s.worker.packets + 1) } in
      let (goes_on, (w, outputs)) = on_video h payload answers counted in
      if is_status h
      then (
        true,
        (
          record s {
            worker =
                log_status_packet payload
                  (record counted { status_packets = u64 (counted.status_packets + 1) });
          },
          [],
        ),
      )
      else if is_audio h
      then (true, (on_audio payload answers.now (record s { worker = counted }), []))
      else if not (is_video h)
      then (true, (record s { worker = counted }, []))
      else (goes_on, (record s { worker = w }, outputs))

  -- A read that is pending leaves the thread in the read; the state is then the last one.
  unfoldable pub on_read :
      PacketRead × (List ℕ × Rounds) → Iteration → Stream → Bool × (Stream × List Output)
  on_read (packet h payload, (bytes, rs)) i s =
      on_packet h payload i.answers (record s { bytes = bytes })
  on_read (closed, (bytes, rs)) i s = (false, (record s { bytes = bytes }, []))
  on_read (malformed, (bytes, rs)) i s = (
    false,
    (
      record s {
        bytes = bytes;
        worker = (if i.still_running then record s.worker { failed = true } else s.worker);
      },
      [],
    ),
  )
  on_read (pending, (bytes, rs)) i s = (false, (record s { bytes = bytes }, []))

  -- The outputs of all iterations, in order.
  unfoldable pub stream_loop : List Iteration → Stream → Stream × List Output
  stream_loop [] s = (s, [])
  stream_loop (i ∷ is) s =
      let (goes_on, (s', outputs)) = on_read (read_packet max_video s.bytes i.rounds) i s in
      let (s'', more) = stream_loop is s' in
      if not i.running then (s, []) else if goes_on then (s'', outputs ++ more) else (s', outputs)

  -- What the thread does when it has left the loop.
  unfoldable pub tear_down : Stream → Stream
  tear_down s =
      let (audio, queue) = close sdl s.worker.audio s.queue in
      if s.worker.audio_open_attempted
      then record s {
        worker = record s.worker { has_player = false; audio = audio };
        queue = queue;
      }
      else record s { worker = record s.worker { has_player = false } }

  -- The whole thread, from the time of its first keyframe request.
  unfoldable pub stream_thread : ℕ → List ℕ → sdl.Queue → List Iteration → Stream × List Output
  stream_thread now bytes queue is =
      let (s, outputs) =
        stream_loop is (record { worker = started now; queue = queue; bytes = bytes }) in
      (tear_down s, outputs)
