-- ===== src/Worker/Session/Laws.antt =====
-- src/webos_main.c, `run_stream_session`: what the two streams of a session show.
use sysdvr_webos.Prelude.{
  ℕ, min, ◌≡◌, refl, sym, ap, subst, true, Option, none, some, List, ◌++◌, arith,
}
use sysdvr_webos.Prelude.Words.{AreBytes}
use sysdvr_webos.Prelude.Words.Inverse.{AreBytes-back}
use sysdvr_webos.Net.{Incoming}
use sysdvr_webos.Net.Transfer.{content}
use sysdvr_webos.Protocol.{StreamKind, video, audio, Conn}
use sysdvr_webos.Protocol.Handshake.{handshake}
use sysdvr_webos.Protocol.Handshake.Laws.{hello}
use sysdvr_webos.Protocol.Handshake.Sound.{handshake_sound}
use sysdvr_webos.Worker.{prime_worker, Fed, Iteration, stream_thread}
use sysdvr_webos.Worker.Thread.{Plays}
use sysdvr_webos.Worker.Play.{stream_thread-Plays}
use sysdvr_webos.Worker.Session.{
  Primed, greet, fresh_worker, First, earlier, primed_pair, both_primed, both_greeted, set_up,
}

-- The handshake of a connection has succeeded, and the decoder takes the packets that follow it, of
-- the kind and in order, with their times from `base`.
abbrev pub Shows : Conn → StreamKind → ℕ → ℕ → List Fed → Type 0
Shows c kind batching base fed =
    ((handshake c kind batching).success ≡ true)
    × Plays kind base (handshake c kind batching).conn.incoming fed

-- What the decoder takes from the thread of a worker.
abbrev pub fed_by : Primed → Iteration → List Iteration → List Fed
fed_by p i is =
    (stream_thread (some (p.first_header, p.first_payload)) i is p.worker p.incoming).0.1

pub greet_inv :
    (o : Option Conn) (kind : StreamKind) (batching : ℕ) (s : Incoming)
    → greet o kind batching ≡ some s
    → (c : Conn) × (o ≡ some c)
      × ((handshake c kind batching).success ≡ true)
      × ((handshake c kind batching).conn.incoming ≡ s)
unfolding greet
greet_inv none kind batching s e = absurd cc
greet_inv (some c) kind batching s e = (c, refl, ground arith, ground arith)

pub both_greeted_inv :
    (o o' : Option Incoming) (p q : Primed)
    → both_greeted o o' ≡ some (p, q)
    → (v : Incoming) × (a : Incoming) × (o ≡ some v)
      × (o' ≡ some a)
      × (both_primed (prime_worker video v) (prime_worker audio a) ≡ some (p, q))
unfolding both_greeted
both_greeted_inv (some v) (some a) p q e = (v, a, refl, refl, e)
both_greeted_inv none a p q e = absurd cc
both_greeted_inv (some v) none p q e = absurd cc

-- The base of the timeline.
abbrev pub base_of : Primed → Primed → ℕ
base_of p q = min p.first_header.timestamp_us q.first_header.timestamp_us

earlier-min : (v a : ℕ) → earlier v a ≡ min v a
earlier-min v a = ground arith

-- What the two primed workers are, by the reads they come from.
abbrev From : First → First → Primed × Primed → Type 0
From f g (p, q) =
    (f ≡ (some (p.first_header, p.first_payload), p.incoming))
    × (g ≡ (some (q.first_header, q.first_payload), q.incoming))
    × (p.worker ≡ fresh_worker video (base_of p q))
    × (q.worker ≡ fresh_worker audio (base_of p q))

some_pair : (x y : Primed × Primed) → some x ≡ some y → x ≡ y
some_pair x y e = cc

both_primed-From : (f g : First) (r : Primed × Primed) → both_primed f g ≡ some r → From f g r
unfolding both_primed
both_primed-From (some fv, v) (some fa, a) r e =
    let base = earlier-min fv.0.timestamp_us fa.0.timestamp_us in
    subst (From (some fv, v) (some fa, a)) (some_pair (primed_pair fv v fa a) r e)
      (refl, refl, ap (fresh_worker video) base, ap (fresh_worker audio) base)
both_primed-From (none, v) g r e = absurd cc
both_primed-From (some fv, v) (none, a) r e = absurd cc

after_handshake :
    (c : Conn) (kind : StreamKind) (batching : ℕ)
    → (handshake c kind batching).success ≡ true
    → AreBytes (content c.incoming)
    → AreBytes (content (handshake c kind batching).conn.incoming)
after_handshake c kind batching ok bytes =
    let (v0, v1, response, met) = handshake_sound c kind batching ok in
    AreBytes-back response (content (handshake c kind batching).conn.incoming) (
      AreBytes-back (hello v0 v1) (response ++ content (handshake c kind batching).conn.incoming)
        (subst AreBytes met.greeted bytes))

-- A worker that was primed on what a handshake left.
primed-Shows :
    (c : Conn) (kind : StreamKind) (batching base : ℕ) (s : Incoming) (p : Primed) (i : Iteration)
    (is : List Iteration)
    → (handshake c kind batching).success ≡ true
    → (handshake c kind batching).conn.incoming ≡ s
    → AreBytes (content c.incoming)
    → prime_worker kind s ≡ (some (p.first_header, p.first_payload), p.incoming)
    → p.worker ≡ fresh_worker kind base
    → Shows c kind batching base (fed_by p i is)
primed-Shows c kind batching base s p i is ok left bytes primed w =
    let bytes' =
      subst (λ x. AreBytes (content x)) left (after_handshake c kind batching ok bytes) in
    let plays =
      stream_thread-Plays s p.incoming p.first_header p.first_payload i is (fresh_worker kind base)
        bytes' primed in
    let of_worker =
      subst
        (λ x.
          Plays kind base s
            (stream_thread (some (p.first_header, p.first_payload)) i is x p.incoming).0.1)
        (sym w) plays in
    (ok, subst (λ x. Plays kind base x (fed_by p i is)) (sym left) of_worker)

same_conn : (c d : Conn) → some c ≡ some d → c ≡ d
same_conn c d e = cc

-- When a session is set up on two connections that carry bytes, the video connection was greeted
-- without batching and the audio connection with batching 1, and each thread shows what follows its
-- handshake: the packets of its kind, in order, both on one timeline, which starts at the earlier of
-- the two first packets.
pub set_up-Shows :
    (vc ac : Conn) (p q : Primed) (i j : Iteration) (is js : List Iteration)
    → AreBytes (content vc.incoming)
    → AreBytes (content ac.incoming)
    → set_up true (some vc) (some ac) ≡ some (p, q)
    → Shows vc video 0 (base_of p q) (fed_by p i is)
      × Shows ac audio 1 (base_of p q) (fed_by q j js)
unfolding set_up
set_up-Shows vc ac p q i j is js vb ab e =
    let (v, a, gv, ga, both) =
      both_greeted_inv (greet (some vc) video 0) (greet (some ac) audio 1) p q e in
    let (c, same, ok, left) = greet_inv (some vc) video 0 v gv in
    let (d, same', ok', left') = greet_inv (some ac) audio 1 a ga in
    let (fv, fa, wv, wa) =
      both_primed-From (prime_worker video v) (prime_worker audio a) (p, q) both in
    let here = same_conn vc c same in
    let here' = same_conn ac d same' in
    (
      subst (λ x. Shows x video 0 (base_of p q) (fed_by p i is)) (sym here)
          (primed-Shows c video 0 (base_of p q) v p i is ok left
            (subst (λ x. AreBytes (content x.incoming)) here vb) fv wv),
      subst (λ x. Shows x audio 1 (base_of p q) (fed_by q j js)) (sym here')
          (primed-Shows d audio 1 (base_of p q) a q j js ok' left'
            (subst (λ x. AreBytes (content x.incoming)) here' ab) fa wa),
    )
