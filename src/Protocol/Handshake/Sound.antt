-- ===== src/Protocol/Handshake/Sound.antt =====
-- src/protocol.c, `sysdvr_handshake`: what a success says of the console and of what was sent.
use sysdvr_webos.Prelude.{
  ℕ, ◌≤◌, ◌≡◌, refl, sym, ap, ap₂, ◌∙◌, inl, inr, true, Option, none, some, List, [], ◌∷◌, ◌++◌,
  arith, ltb, ltb_false→le, Bool-cases, length, take, drop, length-drop, take-append-drop,
}
use mathlib.Core.Bool.{false≢true}
use sysdvr_webos.Prelude.CString.{codes, str_eq, str_eq→eq}
use sysdvr_webos.Prelude.Words.{at, read_le32}
use sysdvr_webos.Prelude.Words.Inverse.{at-drop}
use sysdvr_webos.Net.{read_exact, write_all}
use sysdvr_webos.Net.Transfer.{content, read_exact_took}
use sysdvr_webos.Protocol.{
  StreamKind, video, audio, other_kind, Conn, max_audio_batching, hello_size,
  handshake_request_size, handshake_ok,
}
use sysdvr_webos.Protocol.Handshake.{
  protocol_supported, HandshakeResult, stream_meta, request, response_size, check_response,
  await_response, sent_whole, send_request, answer_hello, handshake,
}
use sysdvr_webos.Protocol.Handshake.Laws.{hello, sent_request}

three_bytes : (p : List ℕ) → length p ≡ 3 → at p 0 ∷ at p 1 ∷ at p 2 ∷ [] ≡ p
three_bytes [] e = absurd (omega arith)
three_bytes (a ∷ []) e = absurd (omega arith)
three_bytes (a ∷ b ∷ []) e = absurd (omega arith)
three_bytes (a ∷ b ∷ c ∷ []) e = refl
three_bytes (a ∷ b ∷ c ∷ d ∷ p) e = absurd (omega arith)

-- Ten bytes that pass the test of the greeting are one.
hello_form :
    (raw : List ℕ)
    → length raw ≡ 10
    → str_eq (take 7 raw) (codes "SysDVR|") ≡ true
    → at raw 9 ≡ 0
    → raw ≡ hello (at raw 7) (at raw 8)
hello_form raw l front last =
    let tail = three_bytes (drop 7 raw) (omega (arith, length-drop 7 raw)) in
    sym (take-append-drop 7 raw)
    ∙ ap₂ ◌++◌ (str_eq→eq (take 7 raw) (codes "SysDVR|") front)
        (sym tail ∙ (λ i. at-drop 7 0 raw i ∷ at-drop 7 1 raw i ∷ (at-drop 7 2 raw ∙ last) i ∷ []))

check_response_inv :
    (v0 v1 : ℕ) (c : Conn) (o : Option (List ℕ))
    → (check_response v0 v1 c o).success ≡ true
    → (response : List ℕ) × (o ≡ some response)
      × (length response ≡ response_size v1)
      × (read_le32 response ≡ handshake_ok)
      × (check_response v0 v1 c o ≡ record { success = true; version = some (v0, v1); conn = c })
unfolding check_response
check_response_inv v0 v1 c none e = absurd (cc)
check_response_inv v0 v1 c (some response) e =
    (response, refl, ground arith, ground arith, ground arith)

sent_whole_inv : (o : Option ℕ) (n : ℕ) → sent_whole o n ≡ true → o ≡ some n
sent_whole_inv none n e = cc
sent_whole_inv (some k) n e = ap some (ground arith)

send_request_inv :
    (v0 v1 : ℕ) (m : ℕ × ℕ) (batching : ℕ) (c : Conn)
    → (send_request v0 v1 m batching c).success ≡ true
    → let w = write_all (request v0 v1 m batching) c.outgoing in
      (w.count ≡ some handshake_request_size)
      × (send_request v0 v1 m batching c
          ≡ await_response v0 v1 (record c { outgoing = w.later; sent = c.sent ++ w.bytes }))
unfolding send_request
send_request_inv v0 v1 m batching c e =
    let w = write_all (request v0 v1 m batching) c.outgoing in
    elim (Bool-cases (sent_whole w.count handshake_request_size)) [
      | inl whole ↦ (sent_whole_inv w.count handshake_request_size whole, rw whole)
      | inr part ↦ absurd (false≢true (rw part at e))
    ]

-- The tests that a greeting passes before the request is sent.
record Greeted (kind : StreamKind) (batching : ℕ) (c : Conn) (raw : List ℕ) (m : ℕ × ℕ)
    : Type 0 where
  long : length raw ≡ 10
  front : str_eq (take 7 raw) (codes "SysDVR|") ≡ true
  last : at raw 9 ≡ 0
  supported : protocol_supported (at raw 7) (at raw 8) ≡ true
  named : stream_meta kind ≡ some m
  goes_on :
      answer_hello kind batching c (some raw) ≡ send_request (at raw 7) (at raw 8) m batching c

answer_hello_inv :
    (kind : StreamKind) (batching : ℕ) (c : Conn) (raw : List ℕ)
    → (answer_hello kind batching c (some raw)).success ≡ true
    → (m : ℕ × ℕ) × Greeted kind batching c raw m
unfolding answer_hello
answer_hello_inv video batching c raw e = ((0x01, 0x02), ground arith)
answer_hello_inv audio batching c raw e = ((0x02, 0x00), ground arith)
answer_hello_inv other_kind batching c raw e = absurd (ground arith)

-- What a successful call `r` on `c` says: the console greeted with `v0 v1` and answered `response`.
pub record Met (c : Conn) (kind : StreamKind) (batching v0 v1 : ℕ) (response : List ℕ)
    (r : HandshakeResult) : Type 0 where
  pub batching_ok : batching ≤ max_audio_batching
  pub supported : protocol_supported v0 v1 ≡ true
  pub greeted : content c.incoming ≡ hello v0 v1 ++ (response ++ content r.conn.incoming)
  pub answered : length response ≡ response_size v1
  pub granted : read_le32 response ≡ handshake_ok
  pub agreed : r.version ≡ some (v0, v1)
  pub requested :
      (m : ℕ × ℕ) × (stream_meta kind ≡ some m) × (r.conn.sent ≡ c.sent ++ request v0 v1 m batching)

handshake_guard :
    (c : Conn) (kind : StreamKind) (batching : ℕ)
    → (handshake c kind batching).success ≡ true
    → (batching ≤ max_audio_batching)
      × (handshake c kind batching
          ≡ answer_hello kind batching
              (record c { incoming = (read_exact hello_size c.incoming).1 })
              (read_exact hello_size c.incoming).0)
unfolding handshake
handshake_guard c kind batching e = elim (Bool-cases (ltb max_audio_batching batching)) [
  | inl over ↦ absurd (false≢true (rw over at e))
  | inr within ↦ (ltb_false→le max_audio_batching batching within, rw within)
]

answer_hello_none :
    (kind : StreamKind) (batching : ℕ) (c : Conn) (o : Option (List ℕ))
    → (answer_hello kind batching c o).success ≡ true
    → (raw : List ℕ) × (o ≡ some raw)
unfolding answer_hello
answer_hello_none kind batching c none e = absurd (false≢true e)
answer_hello_none kind batching c (some raw) e = (raw, refl)

await_response_inv :
    (v0 v1 : ℕ) (c : Conn)
    → (await_response v0 v1 c).success ≡ true
    → (response : List ℕ) × (length response ≡ response_size v1)
      × (read_le32 response ≡ handshake_ok)
      × (content c.incoming ≡ response ++ content (await_response v0 v1 c).conn.incoming)
      × ((await_response v0 v1 c).version ≡ some (v0, v1))
      × ((await_response v0 v1 c).conn.sent ≡ c.sent)
unfolding await_response
await_response_inv v0 v1 c e =
    let r = read_exact (response_size v1) c.incoming in
    let (response, got, long, granted, form) =
      check_response_inv v0 v1 (record c { incoming = r.1 }) r.0 e in
    (
      response,
      long,
      granted,
      (read_exact_took (response_size v1) c.incoming response got).0
          ∙ ap (λ h. response ++ content h.conn.incoming) (sym form),
      ap (λ h. h.version) form,
      ap (λ h. h.conn.sent) form,
    )

-- If `sysdvr_handshake` succeeds, the console spoke a supported version and accepted, exactly its
-- greeting and its response were taken from the socket, and exactly the request has been sent.
pub handshake_sound :
    (c : Conn) (kind : StreamKind) (batching : ℕ)
    → (handshake c kind batching).success ≡ true
    → (v0 : ℕ) × (v1 : ℕ) × (response : List ℕ) × Met c kind batching v0 v1 response
        (handshake c kind batching)
handshake_sound c kind batching e =
    let r = read_exact hello_size c.incoming in
    let c1 : Conn = record c { incoming = r.1 } in
    let (small, first) = handshake_guard c kind batching e in
    let e1 = sym (ap (λ h. h.success) first) ∙ e in
    let (raw, got) = answer_hello_none kind batching c1 r.0 e1 in
    let second = first ∙ ap (answer_hello kind batching c1) got in
    let e2 = sym (ap (λ h. h.success) second) ∙ e in
    let (m, g) = answer_hello_inv kind batching c1 raw e2 in
    let v0 = at raw 7 in
    let v1 = at raw 8 in
    let third = second ∙ g.goes_on in
    let e3 = sym (ap (λ h. h.success) third) ∙ e in
    let (whole, fourth) = send_request_inv v0 v1 m batching c1 e3 in
    let all = third ∙ fourth in
    let w = write_all (request v0 v1 m batching) c.outgoing in
    let c2 : Conn = record c1 { outgoing = w.later; sent = c.sent ++ w.bytes } in
    let e4 = sym (ap (λ h. h.success) all) ∙ e in
    let (response, long, granted, took, version, sent) = await_response_inv v0 v1 c2 e4 in
    (
      v0,
      v1,
      response,
      record {
        batching_ok = small;
        supported = g.supported;
        greeted =
            (read_exact_took hello_size c.incoming raw got).0
            ∙ ap₂ ◌++◌ (hello_form raw g.long g.front g.last)
                (took ∙ ap (λ h. response ++ content h.conn.incoming) (sym all));
        answered = long;
        granted = granted;
        agreed = ap (λ h. h.version) all ∙ version;
        requested = (
          m,
          g.named,
          ap (λ h. h.conn.sent) all
              ∙ sent
              ∙ ap (◌++◌ c.sent) (sent_request v0 v1 m batching c whole),
        );
      },
    )
