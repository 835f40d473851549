-- ===== src/Protocol/Packets/Sound.antt =====
-- src/protocol.c, `sysdvr_read_packet`: what it accepts is a packet of the wire format.
use sysdvr_webos.Prelude.{
  ℕ, ◌^◌, ◌≤◌, ◌<◌, ◌≡◌, refl, sym, ap, ap₂, subst, ◌∙◌, inl, inr, false, Option, none, some, List,
  [], ◌∷◌, ◌++◌, append_assoc, arith, ltb, ltb_false→le, Bool-cases, length, take, drop,
  length-drop, take-append-drop, drop-drop,
}
use sysdvr_webos.Prelude.Words.{AreBytes, any_set}
use sysdvr_webos.Prelude.Words.Inverse.{
  AreBytes-drop, AreBytes-front, le32-read_le32, le64-read_le64, at-drop, two_bytes,
}
use sysdvr_webos.Net.{Incoming, read_exact}
use sysdvr_webos.Net.Transfer.{content, read_exact_took}
use sysdvr_webos.Protocol.{
  PacketHeader, PacketRead, packet, packet_magic, max_payload, packet_replay, parse_header,
  read_packet, read_payload, check_header, after_header, take_payload,
}
use sysdvr_webos.Protocol.Packets.{encode_header, Acceptable}

parts_of_header :
    (p : List ℕ) → take 4 p ++ (take 4 (drop 4 p) ++ (take 8 (drop 8 p) ++ drop 16 p)) ≡ p
parts_of_header p =
    let third : take 8 (drop 8 p) ++ drop 16 p ≡ drop 8 p =
      ap (◌++◌ (take 8 (drop 8 p))) (sym (drop-drop 8 8 p)) ∙ take-append-drop 8 (drop 8 p) in
    let second : take 4 (drop 4 p) ++ drop 8 p ≡ drop 4 p =
      ap (◌++◌ (take 4 (drop 4 p))) (sym (drop-drop 4 4 p)) ∙ take-append-drop 4 (drop 4 p) in
    rw (third, second) (take-append-drop 4 p)

encode_header-parse_header :
    (raw : List ℕ) → length raw ≡ 18 → AreBytes raw → encode_header (parse_header raw) ≡ raw
unfolding encode_header parse_header
encode_header-parse_header raw l b =
    let magic = (le32-read_le32 raw b (omega arith)).0 in
    let size =
      (le32-read_le32 (drop 4 raw) (AreBytes-drop 4 raw b) (omega (arith, length-drop 4 raw))).0 in
    let time =
      (le64-read_le64 (drop 8 raw) (AreBytes-drop 8 raw b) (omega (arith, length-drop 8 raw))).0 in
    let last =
      ap₂ (λ x y. x ∷ y ∷ []) (sym (at-drop 16 0 raw)) (sym (at-drop 16 1 raw))
      ∙ two_bytes (drop 16 raw) (omega (arith, length-drop 16 raw)) in
    (λ i. magic i ++ (size i ++ (time i ++ last i))) ∙ parts_of_header raw

parse_header_timed :
    (raw : List ℕ) → length raw ≡ 18 → AreBytes raw → (parse_header raw).timestamp_us < 2 ^ 64
unfolding parse_header
parse_header_timed raw l b =
    (le64-read_le64 (drop 8 raw) (AreBytes-drop 8 raw b) (omega (arith, length-drop 8 raw))).1

take_payload_inv :
    (h h' : PacketHeader) (payload : List ℕ) (r : Option (List ℕ) × Incoming) (s' : Incoming)
    → take_payload h r ≡ (packet h' payload, s')
    → (r ≡ (some payload, s')) × (h ≡ h') × (length payload ≡ h.data_size)
unfolding take_payload
take_payload_inv h h' payload (none, s) s' e = absurd (cc)
take_payload_inv h h' payload (some bytes, s) s' e = ground arith

nothing_read :
    (h h' : PacketHeader) (payload : List ℕ) (s s' : Incoming)
    → ◌≡◌ {A = PacketRead × Incoming} (packet h [], s) (packet h' payload, s')
    → (h ≡ h') × ([] ≡ payload) × (s ≡ s')
nothing_read h h' payload s s' e = (cc, cc, cc)

read_payload_inv :
    (h h' : PacketHeader) (payload : List ℕ) (s s' : Incoming)
    → read_payload h s ≡ (packet h' payload, s')
    → (content s ≡ payload ++ content s') × (h ≡ h') × (length payload ≡ h.data_size)
unfolding read_payload
read_payload_inv h h' payload s s' e = elim (Bool-cases (ltb 0 h.data_size)) [
  | inl some_bytes ↦
      let (took, same, sized) =
        take_payload_inv h h' payload (read_exact h.data_size s) s' (rw some_bytes at e) in
      (
        (read_exact_took h.data_size s payload (ap (λ r. r.0) took)).0
            ∙ ap (λ r. payload ++ content r.1) took,
        same,
        sized,
      )
  | inr no_bytes ↦
      let e' = rw no_bytes at e in
      let (same, none_read, left) = nothing_read h h' payload s s' e' in
      (
        ap content left ∙ ap (λ p. p ++ content s') none_read,
        same,
        omega (arith, ap length none_read, ltb_false→le 0 h.data_size no_bytes),
      )
]

check_header_inv :
    (capacity : ℕ) (h h' : PacketHeader) (payload : List ℕ) (s s' : Incoming)
    → check_header capacity h s ≡ (packet h' payload, s')
    → (read_payload h s ≡ (packet h' payload, s'))
      × (h.magic ≡ packet_magic)
      × (h.data_size ≤ capacity)
      × (h.data_size ≤ max_payload)
      × (any_set h.metadata packet_replay ≡ false)
unfolding check_header
check_header_inv capacity h h' payload s s' e = ground arith

after_header_inv :
    (capacity : ℕ) (r : Option (List ℕ) × Incoming) (h : PacketHeader) (payload : List ℕ)
    (s' : Incoming)
    → after_header capacity r ≡ (packet h payload, s')
    → (raw : List ℕ) × (r.0 ≡ some raw)
      × (length raw ≡ 18)
      × (check_header capacity (parse_header raw) r.1 ≡ (packet h payload, s'))
unfolding after_header
after_header_inv capacity (none, s) h payload s' e = absurd (cc)
after_header_inv capacity (some raw, s) h payload s' e = (raw, refl, ground arith, ground arith)

-- What `sysdvr_read_packet` accepts stood at the front of the stream as a header in the wire format
-- and its payload, was acceptable, and is all that was taken.
pub read_packet_sound :
    (capacity : ℕ) (s s' : Incoming) (h : PacketHeader) (payload : List ℕ)
    → AreBytes (content s)
    → read_packet capacity s ≡ (packet h payload, s')
    → Acceptable capacity h payload × (content s ≡ encode_header h ++ payload ++ content s')
unfolding read_packet
read_packet_sound capacity s s' h payload bytes e =
    let (raw, got, long, checked) = after_header_inv capacity (read_exact 18 s) h payload s' e in
    let s1 = (read_exact 18 s).1 in
    let front = (read_exact_took 18 s raw got).0 in
    let raw_bytes = AreBytes-front raw (content s1) (rw front at bytes) in
    let (read, magic, fits, bounded, replay) =
      check_header_inv capacity (parse_header raw) h payload s1 s' checked in
    let (took, same, sized) = read_payload_inv (parse_header raw) h payload s1 s' read in
    let encoded = ap encode_header (sym same) ∙ encode_header-parse_header raw long raw_bytes in
    (
      subst (λ g. Acceptable capacity g payload) same
          (record {
            magic_ok = magic;
            sized = sym sized;
            fits = fits;
            bounded = bounded;
            timed = parse_header_timed raw long raw_bytes;
            not_replay = replay;
          }),
      front
          ∙ ap (◌++◌ raw) took
          ∙ ap (λ x. x ++ (payload ++ content s')) (sym encoded)
          ∙ sym (append_assoc (encode_header h) payload (content s')),
    )
