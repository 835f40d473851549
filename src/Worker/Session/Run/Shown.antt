-- ===== src/Worker/Session/Run/Shown.antt =====
-- src/webos_main.c, `run_stream_session`: what the decoder takes in a whole session.
use sysdvr_webos.Prelude.{
  ℕ, ◌≡◌, refl, sym, ap, subst, ◌⊎◌, inl, inr, Bool, true, false, ◌&&◌, Option, none, some, List,
  [], ◌++◌,
}
use sysdvr_webos.Prelude.Words.{AreBytes}
use sysdvr_webos.Resources.{Call}
use sysdvr_webos.Media.Player.{NdlMedia, create, open_internal}
use sysdvr_webos.Net.Connect.{Connected, tcp_connect_timeout}
use sysdvr_webos.Net.{Incoming}
use sysdvr_webos.Net.Transfer.{content}
use sysdvr_webos.Protocol.{StreamKind, video, audio, PacketHeader, Conn}
use sysdvr_webos.Sft.Backend.{session_error}
use sysdvr_webos.Worker.{prime_worker}
use sysdvr_webos.Worker.Thread.{played}
use sysdvr_webos.Worker.Session.{
  audio_batching, Primed, greet, First, primed_pair, both_primed, both_greeted, set_up,
}
use sysdvr_webos.Worker.Session.Laws.{
  Shows, base_of, fed_by, greet_inv, both_greeted_inv, set_up-Shows,
}
use sysdvr_webos.Worker.Session.Run.{
  Opened, conn_of, video_conn, audio_conn, player_opened, player_created, Environment, Buffers,
  Schedule, Run, prime, worked, stream, audio_primed, video_primed, audio_greeted, audio_connected,
  video_greeted, video_connected, run_stream_session,
}

-- Whether the audio thread is started.
abbrev starts_both : Environment → Bool
starts_both e = e.starts_video && (e.still_running && e.starts_audio)

-- An error before the threads, with nothing shown, or the run of two workers that are set up.
abbrev Streams : Environment → Run → Type 0
Streams e r =
    ((r.result ≡ session_error) × (r.video_fed ≡ []) × (r.audio_fed ≡ []))
    ⊎ ((p : Primed) × (q : Primed) × (set_up true (video_conn e) (audio_conn e) ≡ some (p, q))
        × (r.video_fed ≡ (worked e.starts_video e.video_schedule p).1)
        × (r.audio_fed ≡ (worked (starts_both e) e.audio_schedule q).1))

prime_inv :
    (b : Buffers) (kind : StreamKind) (s t : Incoming) (f : PacketHeader × List ℕ)
    → prime b kind s ≡ (some f, t)
    → prime_worker kind s ≡ (some f, t)
prime_inv (true, true) kind s t f e = e
prime_inv (true, false) kind s t f e = absurd cc
prime_inv (false, b) kind s t f e = absurd cc

-- The two greetings and the two first packets are what `set_up` makes of the connections.
set_up_lem :
    (o o' : Option Conn) (v a s t : Incoming) (fv fa : PacketHeader × List ℕ)
    → greet o video 0 ≡ some v
    → greet o' audio audio_batching ≡ some a
    → prime_worker video v ≡ (some fv, s)
    → prime_worker audio a ≡ (some fa, t)
    → set_up true o o' ≡ some (primed_pair fv s fa t)
unfolding set_up both_greeted both_primed
set_up_lem o o' v a s t fv fa gv ga pv pa = rw (gv, ga, pv, pa) refl

audio_primed-Streams :
    (e : Environment) (o : Opened) (v a s : Incoming) (fv : PacketHeader × List ℕ) (f : First)
    → greet (video_conn e) video 0 ≡ some v
    → greet (audio_conn e) audio audio_batching ≡ some a
    → prime_worker video v ≡ (some fv, s)
    → prime e.audio_buffers audio a ≡ f
    → Streams e (audio_primed e o fv s f)
unfolding audio_primed stream
audio_primed-Streams e o v a s fv (none, t) gv ga pv pa = inl (refl, refl, refl)
audio_primed-Streams e o v a s fv (some fa, t) gv ga pv pa =
    let (p, q) = primed_pair fv s fa t in
    inr (
      p,
      q,
      set_up_lem (video_conn e) (audio_conn e) v a s t fv fa gv ga pv
          (prime_inv e.audio_buffers audio a t fa pa),
      refl,
      refl,
    )

video_primed-Streams :
    (e : Environment) (o : Opened) (v a : Incoming) (f : First)
    → greet (video_conn e) video 0 ≡ some v
    → greet (audio_conn e) audio audio_batching ≡ some a
    → prime e.video_buffers video v ≡ f
    → Streams e (video_primed e o f a)
unfolding video_primed
video_primed-Streams e o v a (none, s) gv ga pv = inl (refl, refl, refl)
video_primed-Streams e o v a (some fv, s) gv ga pv =
    audio_primed-Streams e o v a s fv (prime e.audio_buffers audio a) gv ga
      (prime_inv e.video_buffers video v s fv pv) refl

audio_greeted-Streams :
    (e : Environment) (o : Opened) (v : Incoming) (g : Option Incoming)
    → greet (video_conn e) video 0 ≡ some v
    → greet (audio_conn e) audio audio_batching ≡ g
    → Streams e (audio_greeted e o v g)
unfolding audio_greeted
audio_greeted-Streams e o v none gv ga = inl (refl, refl, refl)
audio_greeted-Streams e o v (some a) gv ga =
    video_primed-Streams e o v a (prime e.video_buffers video v) gv ga refl

audio_connected-Streams :
    (e : Environment) (p : NdlMedia) (fd : ℕ) (before : List Call) (v : Incoming) (c : Connected)
    → greet (video_conn e) video 0 ≡ some v
    → audio_conn e ≡ conn_of c.0 e.audio_stream
    → Streams e (audio_connected e p fd before v c)
unfolding audio_connected
audio_connected-Streams e p fd before v (none, tried) gv same = inl (refl, refl, refl)
audio_connected-Streams e p fd before v (some fd', tried) gv same =
    audio_greeted-Streams e _ v (greet (some e.audio_stream) audio audio_batching) gv
      (ap (λ o. greet o audio audio_batching) same)

video_greeted-Streams :
    (e : Environment) (p : NdlMedia) (fd : ℕ) (before : List Call) (g : Option Incoming)
    → greet (video_conn e) video 0 ≡ g
    → Streams e (video_greeted e p fd before g)
unfolding video_greeted audio_conn
video_greeted-Streams e p fd before none gv = inl (refl, refl, refl)
video_greeted-Streams e p fd before (some v) gv =
    audio_connected-Streams e p fd before v (tcp_connect_timeout e.audio_addresses) gv refl

video_connected-Streams :
    (e : Environment) (p : NdlMedia) (before : List Call) (c : Connected)
    → video_conn e ≡ conn_of c.0 e.video_stream
    → Streams e (video_connected e p before c)
unfolding video_connected
video_connected-Streams e p before (none, tried) same = inl (refl, refl, refl)
video_connected-Streams e p before (some fd, tried) same =
    video_greeted-Streams e p fd (before ++ tried) (greet (some e.video_stream) video 0)
      (ap (λ o. greet o video 0) same)

player_opened-Streams :
    (e : Environment) (before : List Call) (r : Bool × (NdlMedia × List Call))
    → Streams e (player_opened e before r)
unfolding player_opened video_conn
player_opened-Streams e before (false, (p, more)) = inl (refl, refl, refl)
player_opened-Streams e before (true, (p, more)) =
    video_connected-Streams e p (before ++ more) (tcp_connect_timeout e.video_addresses) refl

player_created-Streams :
    (e : Environment) (r : Option NdlMedia × List Call) → Streams e (player_created e r)
unfolding player_created
player_created-Streams e (none, calls) = inl (refl, refl, refl)
player_created-Streams e (some p, calls) =
    player_opened-Streams e calls (open_internal p e.loads_player)

run_stream_session-Streams : (e : Environment) → Streams e (run_stream_session e)
unfolding run_stream_session
run_stream_session-Streams e =
    player_created-Streams e (create e.allocates_player e.inits_lock e.inits_library)

-- What the decoder took, when the two connections are these and both workers are set up on them.
abbrev pub FromBoth : Environment → Run → Type 0
FromBoth e r =
    (vc : Conn) × (ac : Conn) × (p : Primed) × (q : Primed) × ((video_conn e) ≡ some vc)
    × ((audio_conn e) ≡ some ac)
    × (set_up true (some vc) (some ac) ≡ some (p, q))
    × Shows vc video 0 (base_of p q) r.video_fed
    × Shows ac audio 1 (base_of p q) r.audio_fed

worked-Shows :
    (c : Conn) (kind : StreamKind) (batching base : ℕ) (started : Bool) (s : Schedule) (p : Primed)
    → Shows c kind batching base (fed_by p s.0 s.1)
    → Shows c kind batching base (worked started s p).1
worked-Shows c kind batching base false (i, is) p (ok, plays) = (ok, played)
worked-Shows c kind batching base true (i, is) p shows = shows

-- The bytes of a connection, if there is one, are bytes.
abbrev pub Carries : Option Conn → Type 0
Carries o = (c : Conn) → o ≡ some c → AreBytes (content c.incoming)

-- The two connections of a session that is set up.
conns_of :
    (o o' : Option Conn) (r : Primed × Primed)
    → set_up true o o' ≡ some r
    → (vc : Conn) × (ac : Conn) × (o ≡ some vc) × (o' ≡ some ac)
unfolding set_up
conns_of o o' (p, q) e =
    let (v, a, gv, ga, _) = both_greeted_inv (greet o video 0) (greet o' audio 1) p q e in
    let (vc, same, _, _) = greet_inv o video 0 v gv in
    let (ac, same', _, _) = greet_inv o' audio 1 a ga in (vc, ac, same, same')

stream-FromBoth :
    (e : Environment) (r : Run) (p q : Primed)
    → Carries (video_conn e)
    → Carries (audio_conn e)
    → set_up true (video_conn e) (audio_conn e) ≡ some (p, q)
    → r.video_fed ≡ (worked e.starts_video e.video_schedule p).1
    → r.audio_fed ≡ (worked (starts_both e) e.audio_schedule q).1
    → FromBoth e r
stream-FromBoth e r p q vb ab ready from_video from_audio =
    let (vc, ac, same, same') = conns_of (video_conn e) (audio_conn e) (p, q) ready in
    let ready' : set_up true (some vc) (some ac) ≡ some (p, q) =
      subst (λ o. set_up true o (some ac) ≡ some (p, q)) same
        (subst (λ o. set_up true (video_conn e) o ≡ some (p, q)) same' ready) in
    let (i, is) = e.video_schedule in
    let (j, js) = e.audio_schedule in
    let (v, a) = set_up-Shows vc ac p q i j is js (vb vc same) (ab ac same') ready' in
    (
      vc,
      ac,
      p,
      q,
      same,
      same',
      ready',
      subst (Shows vc video 0 (base_of p q)) (sym from_video)
          (worked-Shows vc video 0 (base_of p q) e.starts_video e.video_schedule p v),
      subst (Shows ac audio 1 (base_of p q)) (sym from_audio)
          (worked-Shows ac audio 1 (base_of p q) (starts_both e) e.audio_schedule q a),
    )

-- A SysDVR session whose connections carry bytes either ends with an error before the decoder has
-- taken anything, or it has two connections, on both the handshake has succeeded (without batching for
-- video, with batching 1 for audio), both first packets are read, and whatever the network, the clocks,
-- the decoder and the user do from then on, the decoder takes from each connection the packets of its
-- kind that follow the handshake, in order, none left out and none twice up to where it ends, with
-- times from one base: the earlier of the times of the two first packets.
pub run_stream_session-FromBoth :
    (e : Environment)
    → Carries (video_conn e)
    → Carries (audio_conn e)
    → (((run_stream_session e).result ≡ session_error)
        × ((run_stream_session e).video_fed ≡ [])
        × ((run_stream_session e).audio_fed ≡ []))
      ⊎ FromBoth e (run_stream_session e)
run_stream_session-FromBoth e vb ab = elim (run_stream_session-Streams e) [
  | inl failed ↦ inl failed
  | inr (p, q, ready, from_video, from_audio) ↦
      inr (stream-FromBoth e (run_stream_session e) p q vb ab ready from_video from_audio)
]
