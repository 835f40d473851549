-- ===== src/Worker/Play.antt =====
-- src/webos_main.c, `prime_worker` and `stream_thread`: a whole stream.
use sysdvr_webos.Prelude.{
  ℕ, ◌-◌, ◌≡◌, refl, ap, subst, ◌∙◌, inl, inr, Bool, true, false, not, Option, none, some, List, [],
  ◌∷◌, ◌++◌, if◌then◌else◌,
}
use sysdvr_webos.Prelude.Words.{AreBytes}
use sysdvr_webos.Net.{Incoming}
use sysdvr_webos.Net.Transfer.{content}
use sysdvr_webos.Protocol.{StreamKind, PacketHeader, PacketRead, packet, closed, malformed}
use sysdvr_webos.Worker.{
  read_data_packet, Worker, Fed, process_one, Iteration, on_packet, thread_loop, stream_thread,
  primed, prime_worker,
}
use sysdvr_webos.Worker.Reading.{Wanted, Delivers, read_data_packet_sound}
use sysdvr_webos.Worker.Thread.{
  Plays, played, play, StepPlays, Delivers-AreBytes, on_packet-StepPlays, process_one-Keeps,
  process_one_fed, pts_of_lem,
}

-- The worker, what the decoder took, and the stream that is left.
abbrev Result : Type 0
Result = (Worker × List Fed) × Incoming

abbrev round : Bool → Result → Bool × Result → Result → Result
round running stop r rest =
    if not running then stop else if r.0 then ((rest.0.0, r.1.0.1 ++ rest.0.1), rest.1) else r.1

round-Plays :
    (kind : StreamKind) (base : ℕ) (s : Incoming) (running : Bool) (w : Worker) (r : Bool × Result)
    (rest : Result)
    → StepPlays kind base s r
    → (r.0 ≡ true → Plays kind base r.1.1 rest.0.1)
    → Plays kind base s (round running ((w, []), s) r rest).0.1
round-Plays kind base s false w r rest step more = played
round-Plays kind base s true w (true, ((w', fed), t)) rest step more = step.0 rest.0.1 more
round-Plays kind base s true w (false, ((w', fed), t)) rest step more = step.0 [] (λ e. absurd cc)

thread_loop-Plays :
    (is : List Iteration) (w : Worker) (kind : StreamKind) (base : ℕ) (s : Incoming)
    → w.kind ≡ kind
    → w.timeline_base_us ≡ base
    → AreBytes (content s)
    → Plays kind base s (thread_loop is w s).0.1
unfolding thread_loop
thread_loop-Plays [] w kind base s k b bytes = played
thread_loop-Plays (i ∷ is) w kind base s k b bytes =
    let r = on_packet (read_data_packet w.kind s) i w in
    let given : (h : PacketHeader) (payload : List ℕ) (t : Incoming)
        → read_data_packet w.kind s ≡ some (packet h payload, t)
        → Wanted w.kind h payload × Delivers w.kind s h payload t =
      λ h payload t e.
        let (wanted, _, delivered) = read_data_packet_sound w.kind s t h payload bytes e in
        (wanted, delivered) in
    let step = on_packet-StepPlays (read_data_packet w.kind s) i w s given in
    let step' : StepPlays kind base s r =
      subst (λ x. StepPlays x base s r) k (subst (λ x. StepPlays w.kind x s r) b step) in
    round-Plays kind base s i.running w r (thread_loop is r.1.0.0 r.1.1) step' (λ on.
      let (k', b', bytes') = step'.1 on in
      thread_loop-Plays is r.1.0.0 kind base r.1.1 k' b' (bytes' bytes))

-- The thread after its first packet.
after_first :
    (kind : StreamKind) (base : ℕ) (s t : Incoming) (h : PacketHeader) (payload : List ℕ)
    (i : Iteration) (is : List Iteration) (w : Worker)
    → w.kind ≡ kind
    → w.timeline_base_us ≡ base
    → AreBytes (content t)
    → Wanted kind h payload
    → Delivers kind s h payload t
    → Plays kind base s (stream_thread (some (h, payload)) i is w t).0.1
unfolding stream_thread
after_first kind base s t h payload i is w k b bytes wanted delivered =
    let p = process_one h payload i.arrival_us i.rounds w in
    let kept = process_one-Keeps h payload i.arrival_us i.rounds w in
    let rest = thread_loop-Plays is p.1.0 kind base t (kept.0 ∙ k) (kept.1 ∙ b) bytes in
    elim (process_one_fed h payload i.arrival_us i.rounds w) [
      | inl (bad, fed) ↦ rw (bad, fed) played
      | inr (ok, fed) ↦
          rw (ok, fed)
            (play wanted delivered (pts_of_lem w h ∙ ap (λ x. h.timestamp_us - x) b) rest)
    ]

primed_inv :
    (r : Option (PacketRead × Incoming)) (t : Incoming) (h : PacketHeader) (payload : List ℕ)
    → primed r ≡ (some (h, payload), t)
    → r ≡ some (packet h payload, t)
unfolding primed
primed_inv none t h payload e = absurd cc
primed_inv (some (packet h0 p0, s)) t h payload e = cc
primed_inv (some (closed, s)) t h payload e = absurd cc
primed_inv (some (malformed, s)) t h payload e = absurd cc

prime_worker_inv :
    (kind : StreamKind) (s t : Incoming) (h : PacketHeader) (payload : List ℕ)
    → prime_worker kind s ≡ (some (h, payload), t)
    → read_data_packet kind s ≡ some (packet h payload, t)
unfolding prime_worker
prime_worker_inv kind s t h payload e = primed_inv (read_data_packet kind s) t h payload e

-- The decoder takes the packets of a worker's kind just as they stand on the stream, a stream of
-- bytes: from the one that `prime_worker` has read, in order, none left out, none twice, each with its
-- time less that of the timeline (0 if it is earlier), until the thread ends.
pub stream_thread-Plays :
    (s t : Incoming) (h : PacketHeader) (payload : List ℕ) (i : Iteration) (is : List Iteration)
    (w : Worker)
    → AreBytes (content s)
    → prime_worker w.kind s ≡ (some (h, payload), t)
    → Plays w.kind w.timeline_base_us s (stream_thread (some (h, payload)) i is w t).0.1
stream_thread-Plays s t h payload i is w bytes e =
    let (wanted, _, delivered) =
      read_data_packet_sound w.kind s t h payload bytes (prime_worker_inv w.kind s t h payload e) in
    after_first w.kind w.timeline_base_us s t h payload i is w refl refl
      (Delivers-AreBytes w.kind s t h payload delivered bytes) wanted delivered
