-- ===== src/Worker/Thread.antt =====
-- src/webos_main.c, `submit_packet` and `stream_thread`: what the decoder is handed.
use sysdvr_webos.Prelude.{
  ℕ, ◌-◌, ◌≡◌, refl, subst, ◌∙◌, ◌⊎◌, inl, inr, Bool, true, false, Option, none, some, List, [],
  ◌∷◌, ◌++◌, arith, if◌then◌else◌, Bool-cases,
}
use sysdvr_webos.Prelude.Words.{AreBytes}
use sysdvr_webos.Prelude.Words.Inverse.{AreBytes-back}
use sysdvr_webos.Net.{Incoming}
use sysdvr_webos.Net.Transfer.{content}
use sysdvr_webos.Protocol.{StreamKind, PacketHeader, PacketRead, packet, closed, malformed}
use sysdvr_webos.Protocol.Packets.{encode_header, encode_packets}
use sysdvr_webos.Worker.{
  Worker, FeedRound, Submission, taken_at_once, taken_after, rejected, stopped, unfinished,
  submit_rounds, after_submission, submit_packet, diagnose_arrival, pts_of, Fed, process_one,
  Iteration, on_packet,
}
use sysdvr_webos.Worker.Reading.{Wanted, Delivers}

-- The packets that the decoder took are, one after another, the wanted packets of the stream, with
-- their times relative to `base`.
pub data Plays (kind : StreamKind) (base : ℕ) : Incoming → List Fed → Type 0 where
  played : {s : Incoming} → Plays kind base s []
  play :
      {s t : Incoming} {f : Fed} {fs : List Fed}
      → Wanted kind f.header f.payload
      → Delivers kind s f.header f.payload t
      → f.pts_us ≡ f.header.timestamp_us - base
      → Plays kind base t fs
      → Plays kind base s (f ∷ fs)

-- The parts of a worker that never change.
abbrev pub Keeps : Worker → Worker → Type 0
Keeps w w' = (w'.kind ≡ w.kind) × (w'.timeline_base_us ≡ w.timeline_base_us)

after_submission-Keeps : (r : Submission) (w : Worker) → Keeps w (after_submission r w).1
unfolding after_submission
after_submission-Keeps taken_at_once w = (refl, refl)
after_submission-Keeps (taken_after waited) w = (refl, refl)
after_submission-Keeps rejected w = (refl, refl)
after_submission-Keeps stopped w = (refl, refl)
after_submission-Keeps unfinished w = (refl, refl)

diagnose_arrival-Keeps :
    (h : PacketHeader) (now : ℕ) (w : Worker) → Keeps w (diagnose_arrival h now w)
unfolding diagnose_arrival
diagnose_arrival-Keeps h now w = (ground arith, ground arith)

pub process_one-Keeps :
    (h : PacketHeader) (payload : List ℕ) (now : ℕ) (rounds : List FeedRound) (w : Worker)
    → Keeps w (process_one h payload now rounds w).1.0
unfolding process_one submit_packet
process_one-Keeps h payload now rounds w =
    let d = diagnose_arrival-Keeps h now w in
    let a = after_submission-Keeps (submit_rounds 0 0 rounds) (diagnose_arrival h now w) in
    elim (Bool-cases (after_submission (submit_rounds 0 0 rounds) (diagnose_arrival h now w)).0) [
      | inl ok ↦ rw ok (a.0 ∙ d.0, a.1 ∙ d.1)
      | inr bad ↦ rw bad (a.0 ∙ d.0, a.1 ∙ d.1)
    ]

-- What the decoder took of one packet.
pub process_one_fed :
    (h : PacketHeader) (payload : List ℕ) (now : ℕ) (rounds : List FeedRound) (w : Worker)
    → (((process_one h payload now rounds w).0 ≡ false)
        × ((process_one h payload now rounds w).1.1 ≡ []))
      ⊎ (((process_one h payload now rounds w).0 ≡ true)
          × ((process_one h payload now rounds w).1.1
              ≡ record { header = h; payload = payload; pts_us = pts_of w h } ∷ []))
unfolding process_one submit_packet
process_one_fed h payload now rounds w =
    elim (Bool-cases (after_submission (submit_rounds 0 0 rounds) (diagnose_arrival h now w)).0) [
      | inl ok ↦ rw ok (inr (refl, refl))
      | inr bad ↦ rw bad (inl (refl, refl))
    ]

pub pts_of_lem : (w : Worker) (h : PacketHeader) → pts_of w h ≡ h.timestamp_us - w.timeline_base_us
unfolding pts_of
pts_of_lem w h = ground arith

-- What one step of the thread does, with the read that it starts from.
abbrev pub StepPlays : StreamKind → ℕ → Incoming → Bool × ((Worker × List Fed) × Incoming) → Type 0
StepPlays kind base s (goes_on, ((w', fed), t)) =
    ((more : List Fed)
      → (goes_on ≡ true → Plays kind base t more)
      → Plays kind base s (if goes_on then fed ++ more else fed))
    × (goes_on ≡ true
        → (w'.kind ≡ kind)
          × (w'.timeline_base_us ≡ base)
          × (AreBytes (content s) → AreBytes (content t)))

pub Delivers-AreBytes :
    (kind : StreamKind) (s t : Incoming) (h : PacketHeader) (payload : List ℕ)
    → Delivers kind s h payload t
    → AreBytes (content s)
    → AreBytes (content t)
Delivers-AreBytes kind s t h payload (skipped, _, front) bytes =
    AreBytes-back (encode_header h ++ payload) (content t) (
      AreBytes-back (encode_packets skipped) (encode_header h ++ payload ++ content t)
        (subst AreBytes front bytes))

pub on_packet-StepPlays :
    (r : Option (PacketRead × Incoming)) (i : Iteration) (w : Worker) (s : Incoming)
    → ((h : PacketHeader) (payload : List ℕ) (t : Incoming)
        → r ≡ some (packet h payload, t)
        → Wanted w.kind h payload × Delivers w.kind s h payload t)
    → StepPlays w.kind w.timeline_base_us s (on_packet r i w)
unfolding on_packet
on_packet-StepPlays none i w s given = (λ more m. played, λ e. absurd cc)
on_packet-StepPlays (some (closed, t)) i w s given = (λ more m. played, λ e. absurd cc)
on_packet-StepPlays (some (malformed, t)) i w s given = (λ more m. played, λ e. absurd cc)
on_packet-StepPlays (some (packet h payload, t)) i w s given =
    let (wanted, delivered) = given h payload t refl in
    let kept = process_one-Keeps h payload i.arrival_us i.rounds w in
    elim (process_one_fed h payload i.arrival_us i.rounds w) [
      | inl (bad, fed) ↦ rw (bad, fed) (λ more m. played, λ e. absurd cc)
      | inr (ok, fed) ↦
          rw (ok, fed)
            (
              λ more m. play wanted delivered (pts_of_lem w h) (m refl),
              λ e. (kept.0, kept.1, Delivers-AreBytes w.kind s t h payload delivered),
            )
    ]
