-- ===== src/Protocol/Handshake/Laws.antt =====
-- src/protocol.c, `sysdvr_handshake`, against a console that speaks the protocol.
use sysdvr_webos.Prelude.{
  ℕ, ◌≤◌, ◌≡◌, refl, sym, ap, ◌∙◌, ◌⊎◌, inl, inr, true, some, List, [], ◌∷◌, ◌++◌, arith,
  le→ltb_false, length, subst, replicate,
}
use sysdvr_webos.Prelude.CString.{codes, str_eq}
use sysdvr_webos.Prelude.Words.{le32, write_le32, read_le32, read_le32-le32}
use sysdvr_webos.Net.{Incoming, Written, write_all}
use sysdvr_webos.Net.Transfer.{content, read_exact_prefix}
use sysdvr_webos.Net.Sending.{Sends, write_all-Sends}
use sysdvr_webos.Protocol.{
  StreamKind, video, audio, other_kind, Conn, max_audio_batching, hello_size,
  handshake_request_size, handshake_ok,
}
use sysdvr_webos.Protocol.Handshake.{
  protocol_supported, HandshakeResult, stream_meta, request, response_size, check_response,
  await_response, send_request, answer_hello, handshake,
}

-- The greeting of a console that speaks version `v0 v1`.
abbrev pub hello : ℕ → ℕ → List ℕ
hello v0 v1 = codes "SysDVR|" ++ v0 ∷ v1 ∷ 0 ∷ []

-- The 16 bytes of a request for version `0 v1`: the magic number, the version, the kind of the stream,
-- what is asked of it (for video, to put the parameter sets into the stream), and the batching.
abbrev pub wire_request : StreamKind → ℕ → ℕ → List ℕ
wire_request video v1 batching =
    0xAA ∷ 0xAA ∷ 0xAA ∷ 0xAA ∷ b'0' ∷ v1 ∷ 1 ∷ 2 ∷ batching ∷ replicate 7 0
wire_request audio v1 batching =
    0xAA ∷ 0xAA ∷ 0xAA ∷ 0xAA ∷ b'0' ∷ v1 ∷ 2 ∷ 0 ∷ batching ∷ replicate 7 0
wire_request other_kind v1 batching = []

-- The response that accepts: the number 6, and in version 03 another 68 bytes.
abbrev pub IsAccepting : ℕ → List ℕ → Type 0
IsAccepting v1 response =
    (padding : List ℕ) × (response ≡ 6 ∷ 0 ∷ 0 ∷ 0 ∷ padding)
    × (((v1 ≡ b'2') × (length padding ≡ 0)) ⊎ ((v1 ≡ b'3') × (length padding ≡ 68)))

-- The handshake ended well: these bytes have gone out, and `rest` is still to be read.
pub record Agreed (c : Conn) (v1 : ℕ) (asked rest : List ℕ) (r : HandshakeResult) : Type 0 where
  pub succeeded : r.success ≡ true
  pub agreed : r.version ≡ some (b'0', v1)
  pub requested : r.conn.sent ≡ c.sent ++ asked
  pub unread : content r.conn.incoming ≡ rest

abbrev accepted : ℕ → ℕ → Conn → HandshakeResult
accepted v0 v1 c = record { success = true; version = some (v0, v1); conn = c }

check_response_ok :
    (v0 v1 : ℕ) (c : Conn) (response : List ℕ)
    → length response ≡ response_size v1
    → read_le32 response ≡ handshake_ok
    → check_response v0 v1 c (some response) ≡ accepted v0 v1 c
unfolding check_response
check_response_ok v0 v1 c response l e = ground arith

await_response_ok :
    (v0 v1 : ℕ) (c : Conn) (padding rest : List ℕ)
    → response_size v1 ≡ length (le32 handshake_ok ++ padding)
    → content c.incoming ≡ (le32 handshake_ok ++ padding) ++ rest
    → (s : Incoming) × (await_response v0 v1 c ≡ accepted v0 v1 (record c { incoming = s }))
      × (content s ≡ rest)
unfolding await_response
await_response_ok v0 v1 c padding rest size e =
    let response = le32 handshake_ok ++ padding in
    let (s, took, left, ends) =
      read_exact_prefix (response_size v1) response rest c.incoming size e in
    (
      s,
      rw took (
          check_response_ok v0 v1 (record c { incoming = s }) response (sym size)
            (read_le32-le32 handshake_ok padding (omega arith))),
      left,
    )

send_request_ok :
    (v0 v1 : ℕ) (m : ℕ × ℕ) (batching : ℕ) (c : Conn)
    → (write_all (request v0 v1 m batching) c.outgoing).count ≡ some handshake_request_size
    → send_request v0 v1 m batching c
      ≡ await_response v0 v1 (record c {
        outgoing = (write_all (request v0 v1 m batching) c.outgoing).later;
        sent = c.sent ++ (write_all (request v0 v1 m batching) c.outgoing).bytes;
      })
unfolding send_request
send_request_ok v0 v1 m batching c e = rw e

-- What went out when the count came back.
pub sent_request :
    (v0 v1 : ℕ) (m : ℕ × ℕ) (batching : ℕ) (c : Conn)
    → (write_all (request v0 v1 m batching) c.outgoing).count ≡ some handshake_request_size
    → (write_all (request v0 v1 m batching) c.outgoing).bytes ≡ request v0 v1 m batching
sent_request v0 v1 m batching c e =
    from_Sends (write_all (request v0 v1 m batching) c.outgoing)
      (write_all-Sends (request v0 v1 m batching) c.outgoing) e
  where
    from_Sends :
        (w : Written)
        → Sends 0 (request v0 v1 m batching) w
        → w.count ≡ some handshake_request_size
        → w.bytes ≡ request v0 v1 m batching
    from_Sends w (inl (count, bytes)) e = bytes
    from_Sends w (inr (count, left)) e = cc

answer_hello_ok :
    (kind : StreamKind) (batching v1 : ℕ) (m : ℕ × ℕ) (c : Conn)
    → stream_meta kind ≡ some m
    → (v1 ≡ b'2') ⊎ (v1 ≡ b'3')
    → answer_hello kind batching c (some (hello b'0' v1)) ≡ send_request b'0' v1 m batching c
unfolding answer_hello protocol_supported str_eq
answer_hello_ok kind batching v1 m c e (inl two) = rw (e, two)
answer_hello_ok kind batching v1 m c e (inr three) = rw (e, three)

meta-Agreed :
    (c : Conn) (kind : StreamKind) (batching v1 : ℕ) (m : ℕ × ℕ) (padding rest : List ℕ)
    → stream_meta kind ≡ some m
    → batching ≤ max_audio_batching
    → (v1 ≡ b'2') ⊎ (v1 ≡ b'3')
    → response_size v1 ≡ length (le32 handshake_ok ++ padding)
    → content c.incoming ≡ hello b'0' v1 ++ ((le32 handshake_ok ++ padding) ++ rest)
    → (write_all (request b'0' v1 m batching) c.outgoing).count ≡ some handshake_request_size
    → Agreed c v1 (request b'0' v1 m batching) rest (handshake c kind batching)
unfolding handshake
meta-Agreed c kind batching v1 m padding rest ek eb ev size e w =
    let (s1, greeted, left, _) =
      read_exact_prefix hello_size (hello b'0' v1) ((le32 handshake_ok ++ padding) ++ rest)
        c.incoming refl e in
    let c1 : Conn = record c { incoming = s1 } in
    let out = write_all (request b'0' v1 m batching) c.outgoing in
    let c2 : Conn = record c1 { outgoing = out.later; sent = c.sent ++ out.bytes } in
    let (s2, answered, left') = await_response_ok b'0' v1 c2 padding rest size left in
    let run =
      answer_hello_ok kind batching v1 m c1 ek ev
      ∙ send_request_ok b'0' v1 m batching c1 w
      ∙ answered in
    rw (le→ltb_false max_audio_batching batching eb, greeted, run)
      (record {
        succeeded = refl;
        agreed = refl;
        requested = ap (◌++◌ c.sent) (sent_request b'0' v1 m batching c w);
        unread = left';
      })

size_of :
    (v1 : ℕ) (padding : List ℕ)
    → ((v1 ≡ b'2') × (length padding ≡ 0)) ⊎ ((v1 ≡ b'3') × (length padding ≡ 68))
    → ((v1 ≡ b'2') ⊎ (v1 ≡ b'3')) × (response_size v1 ≡ length (le32 handshake_ok ++ padding))
size_of v1 padding (inl (two, l)) = (inl two, rw two (omega (arith, l)))
size_of v1 padding (inr (three, l)) = (inr three, rw three (omega (arith, l)))

request-wire_request :
    (kind : StreamKind) (batching v1 : ℕ)
    → (kind ≡ video) ⊎ (kind ≡ audio)
    → (m : ℕ × ℕ) × (stream_meta kind ≡ some m)
      × (request b'0' v1 m batching ≡ wire_request kind v1 batching)
unfolding write_le32
request-wire_request video batching v1 h = ((1, 2), refl, refl)
request-wire_request audio batching v1 h = ((2, 0), refl, refl)
request-wire_request other_kind batching v1 (inl e) = absurd cc
request-wire_request other_kind batching v1 (inr e) = absurd cc

-- With a console that speaks version 02 or 03 and accepts the request, for video or audio with a
-- batching of at most 5, and when the sending of the request returns 16, `sysdvr_handshake` succeeds with
-- that version, has sent exactly the 16 bytes of `wire_request`, and has taken from the socket the
-- 10 bytes of the greeting and the response of that version (4 or 72 bytes), and nothing behind them.
pub handshake-Agreed :
    (c : Conn) (kind : StreamKind) (batching v1 : ℕ) (response rest : List ℕ)
    → (kind ≡ video) ⊎ (kind ≡ audio)
    → batching ≤ 5
    → IsAccepting v1 response
    → content c.incoming ≡ codes "SysDVR|0" ++ v1 ∷ 0 ∷ response ++ rest
    → (write_all (wire_request kind v1 batching) c.outgoing).count ≡ some 16
    → Agreed c v1 (wire_request kind v1 batching) rest (handshake c kind batching)
handshake-Agreed c kind batching v1 response rest ek eb (padding, same, how) e w =
    let (ev, size) = size_of v1 padding how in
    let (m, meta, bytes) = request-wire_request kind batching v1 ek in
    let e' : content c.incoming ≡ hello b'0' v1 ++ ((le32 handshake_ok ++ padding) ++ rest) =
      e ∙ ap (λ x. codes "SysDVR|0" ++ v1 ∷ 0 ∷ x ++ rest) same in
    let w' : (write_all (request b'0' v1 m batching) c.outgoing).count ≡ some 16 =
      ap (λ x. (write_all x c.outgoing).count) bytes ∙ w in
    subst (λ x. Agreed c v1 x rest (handshake c kind batching)) bytes
      (meta-Agreed c kind batching v1 m padding rest meta eb ev size e' w')
