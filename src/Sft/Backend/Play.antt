-- ===== src/Sft/Backend/Play.antt =====
-- src/frametap_backend.c: every frame that a whole connection hands to the decoder can be decoded.
use sysdvr_webos.Prelude.{
  ℕ, ◌+◌, ◌<◌, ◌≡◌, refl, ap, ◌∙◌, ◌⊎◌, inl, inr, Bool, true, false, not, none, some, List, [], ◌∷◌,
  ◌++◌, arith, if◌then◌else◌, Bool-cases, length,
}
use sysdvr_webos.Prelude.Words.{u64}
use sysdvr_webos.Sft.Audio.{SdlQueue}
use sysdvr_webos.Sft.Protocol.{
  Header, is_key, is_status, is_audio, is_video, max_video, validate, validate_video,
}
use sysdvr_webos.Sft.Protocol.Transport.{
  PacketRead, packet, closed, malformed, pending, read_packet, Rounds,
}
use sysdvr_webos.Sft.Protocol.Transport.Accepted.{read_packet_lem}
use sysdvr_webos.Sft.Backend.{Worker, started, log_status_packet}
use sysdvr_webos.Sft.Backend.Video.{
  Output, Answers, count_video, count_key, check_sequence, check_resolution, skip_or_show, on_video,
}
use sysdvr_webos.Sft.Backend.Requests.{Asks, check_sequence-Asks, check_resolution-Asks}
use sysdvr_webos.Sft.Backend.Chain.{
  Shown, Decodable, Chain, last_shown, Chain-append, last_shown-append, InStep, counted_InStep,
  check_sequence-Seen, check_sequence-Next, check_resolution-Seen, check_resolution-Decodable,
}
use sysdvr_webos.Sft.Backend.Show.{Good, Quiet, skip_or_show-Good, Good-after}
use sysdvr_webos.Sft.Backend.Stream.{
  Iteration, Stream, on_audio, on_packet, on_read, stream_loop, stream_thread,
}

Asks-Quiet : (now : ℕ) (w : Worker) (r : Worker × List Output) → Asks now w r → Quiet r.1
Asks-Quiet now w (w', os) (inl (none_sent, _)) p = rw none_sent (tt, refl)
Asks-Quiet now w (w', os) (inr (one, _, _)) p = rw one (tt, refl)

Quiet-append : (os more : List Output) → Quiet os → Quiet more → Quiet (os ++ more)
Quiet-append os more quiet quiet' p =
    let (silent, same) = quiet p in
    let (silent', same') = quiet' p in
    (
      Chain-append p os more silent (rw same silent'),
      last_shown-append p os more ∙ ap (λ q. last_shown q more) same ∙ same',
    )

-- What the checks find out about a frame.
checked :
    (p : Shown) (h : Header) (payload : List ℕ) (key : Bool) (now : ℕ) (w : Worker)
    → is_key h payload ≡ key
    → InStep p w
    → let w' = (check_sequence h key now w).0 in
      (((check_resolution h key now w').0.waiting_key ≡ true) × (key ≡ false))
      ⊎ Decodable p h payload
checked none h payload true now w e s = inr e
checked (some p) h payload true now w e s = inr (inl e)
checked p h payload false now w e s =
    elim (check_resolution-Decodable p h payload now (check_sequence h false now w).0
      (check_sequence-Next p h now w s)) [
        | inl waits ↦ inl (waits, refl)
        | inr decodable ↦ inr decodable
      ]

on_video-Good :
    (p : Shown) (h : Header) (payload : List ℕ) (answers : Answers) (w : Worker)
    → 0 < h.width
    → InStep p w
    → Good p (on_video h payload answers w)
unfolding on_video
on_video-Good p h payload answers w wide s =
    let key = is_key h payload in
    let now = answers.now in
    let counted = count_key key (count_video h (length payload) now w) in
    let first = check_sequence h key now counted in
    let second = check_resolution h key now first.0 in
    let quiet =
      Quiet-append first.1 second.1
        (Asks-Quiet now counted first (check_sequence-Asks h key now counted))
        (Asks-Quiet now first.0 second (check_resolution-Asks h key now first.0)) in
    let seen = check_resolution-Seen h key now first.0 (check_sequence-Seen h key now counted) in
    let found =
      checked p h payload key now counted refl (counted_InStep p h key (length payload) now w s) in
    Good-after p (first.1 ++ second.1) (skip_or_show h payload key answers second.0) quiet
      (skip_or_show-Good p h payload key answers second.0 wide seen found)

-- Two workers agree on what is shown.
abbrev Alike : Worker → Worker → Type 0
Alike w w' =
    (w'.waiting_key ≡ w.waiting_key)
    × (w'.have_sequence ≡ w.have_sequence)
    × (w'.last_sequence ≡ w.last_sequence)
    × (w'.decoder_w ≡ w.decoder_w)
    × (w'.decoder_h ≡ w.decoder_h)

Alike-InStep : (p : Shown) (w w' : Worker) → Alike w w' → InStep p w → InStep p w'
Alike-InStep p w w' same (inl waits) = inl (same.0 ∙ waits)
Alike-InStep none w w' same (inr last) = absurd last
Alike-InStep (some p) w w' same (inr last) =
    inr (same.1 ∙ last.0, same.2 ∙ last.1, same.3 ∙ last.2, same.4 ∙ last.3, last.4)

log_status_packet-Alike : (payload : List ℕ) (w : Worker) → Alike w (log_status_packet payload w)
unfolding log_status_packet
log_status_packet-Alike payload w =
    (ground arith, ground arith, ground arith, ground arith, ground arith)

-- A valid header that is neither status nor audio declares a picture.
wide_video :
    (h : Header) → validate h ≡ true → is_status h ≡ false → is_audio h ≡ false → 0 < h.width
unfolding validate validate_video
wide_video h valid status audio = ground arith

module _ (sdl : SdlQueue) where
  on_audio-Alike :
      (payload : List ℕ) (now : ℕ) (s : Stream sdl)
      → Alike s.worker (on_audio sdl payload now s).worker
  unfolding on_audio
  on_audio-Alike payload now s =
      (ground arith, ground arith, ground arith, ground arith, ground arith)

  -- The same of a step of the whole stream.
  abbrev GoodStep : Shown → Bool × (Stream sdl × List Output) → Type 0
  GoodStep p (goes_on, (s, os)) = Chain p os × (goes_on ≡ true → InStep (last_shown p os) s.worker)

  on_packet-Good :
      (p : Shown) (h : Header) (payload : List ℕ) (answers : Answers) (s : Stream sdl)
      → validate h ≡ true
      → InStep p s.worker
      → GoodStep p (on_packet sdl h payload answers s)
  unfolding on_packet
  on_packet-Good p h payload answers s valid step =
      let counted = record s.worker { packets = u64 (s.worker.packets + 1) } in
      let step' = Alike-InStep p s.worker counted (refl, refl, refl, refl, refl) step in
      elim (Bool-cases (is_status h)) [
        | inl status ↦
            let noted = record counted { status_packets = u64 (counted.status_packets + 1) } in
            rw status (
              tt,
              λ e.
                  Alike-InStep p noted (log_status_packet payload noted)
                    (log_status_packet-Alike payload noted)
                    (Alike-InStep p s.worker noted (refl, refl, refl, refl, refl) step),
            )
        | inr no_status ↦ elim (Bool-cases (is_audio h)) [
          | inl audio ↦
              let s' = record s { worker = counted } in
              rw (no_status, audio)
                (
                  tt,
                  λ e.
                      Alike-InStep p counted (on_audio sdl payload answers.now s').worker
                        (on_audio-Alike payload answers.now s') step',
                )
          | inr no_audio ↦ elim (Bool-cases (is_video h)) [
            | inl video ↦
                rw (no_status, no_audio, video)
                  (on_video-Good p h payload answers counted (wide_video h valid no_status no_audio)
                    step')
            | inr other ↦ rw (no_status, no_audio, other) (tt, λ e. step')
          ]
        ]
      ]

  on_read-Good :
      (p : Shown) (r : PacketRead × (List ℕ × Rounds)) (i : Iteration) (s : Stream sdl)
      → ((h : Header) (payload : List ℕ) → r.0 ≡ packet h payload → validate h ≡ true)
      → InStep p s.worker
      → GoodStep p (on_read sdl r i s)
  unfolding on_read
  on_read-Good p (packet h payload, (bytes, rs)) i s valid step =
      on_packet-Good p h payload i.answers (record s { bytes = bytes }) (valid h payload refl) step
  on_read-Good p (closed, (bytes, rs)) i s valid step = (tt, λ e. absurd cc)
  on_read-Good p (malformed, (bytes, rs)) i s valid step = (tt, λ e. absurd cc)
  on_read-Good p (pending, (bytes, rs)) i s valid step = (tt, λ e. absurd cc)

  read_valid :
      (bytes : List ℕ) (rounds : Rounds) (h : Header) (payload : List ℕ)
      → (read_packet max_video bytes rounds).0 ≡ packet h payload
      → validate h ≡ true
  read_valid bytes rounds h payload e =
      let r = read_packet max_video bytes rounds in
      (read_packet_lem max_video bytes rounds r.1.1 h payload r.1.0 (λ i. (e i, r.1))).4

  abbrev round :
      Bool
      → Stream sdl
      → Bool × (Stream sdl × List Output)
      → Stream sdl × List Output
      → Stream sdl × List Output
  round running s r more =
      if not running then (s, []) else if r.0 then (more.0, r.1.1 ++ more.1) else (r.1.0, r.1.1)

  -- One round of the loop, whose step and remaining rounds are known.
  round-Chain :
      (p : Shown) (running : Bool) (s : Stream sdl) (r : Bool × (Stream sdl × List Output))
      (more : Stream sdl × List Output)
      → GoodStep p r
      → (r.0 ≡ true → Chain (last_shown p r.1.1) more.1)
      → Chain p (round running s r more).1
  round-Chain p false s r more good rest = tt
  round-Chain p true s (true, (s', os)) more good rest = Chain-append p os more.1 good.0 (rest refl)
  round-Chain p true s (false, (s', os)) more good rest = good.0

  stream_loop-Chain :
      (p : Shown) (is : List Iteration) (s : Stream sdl)
      → InStep p s.worker
      → Chain p (stream_loop sdl is s).1
  unfolding stream_loop
  stream_loop-Chain p [] s step = tt
  stream_loop-Chain p (i ∷ is) s step =
      let r = on_read sdl (read_packet max_video s.bytes i.rounds) i s in
      let good =
        on_read-Good p (read_packet max_video s.bytes i.rounds) i s (read_valid s.bytes i.rounds)
          step in
      round-Chain p i.running s r (stream_loop sdl is r.1.0) good
        (λ on. stream_loop-Chain (last_shown p r.1.1) is r.1.0 (good.1 on))

  -- Whatever arrives on a connection, in whatever pieces, and whatever the decoder answers, the first
  -- frame that the decoder takes is a key frame, and each later one is a key frame or has the next
  -- sequence number (modulo 2 ^ 32) and the same size as the frame taken before it.
  pub stream_thread-Chain :
      (now : ℕ) (bytes : List ℕ) (queue : sdl.Queue) (is : List Iteration)
      → Chain none (stream_thread sdl now bytes queue is).1
  unfolding stream_thread
  stream_thread-Chain now bytes queue is =
      stream_loop-Chain none is (record { worker = started now; queue = queue; bytes = bytes })
        (inl refl)
