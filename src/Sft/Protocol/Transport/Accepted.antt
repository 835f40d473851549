-- ===== src/Sft/Protocol/Transport/Accepted.antt =====
-- src/sft_protocol.c, `sft_read_packet`: what it accepts.
use sysdvr_webos.Prelude.{ℕ, ◌≤◌, ◌≡◌, refl, sym, ap, ◌∙◌, true, false, List, ◌++◌, arith, length}
use sysdvr_webos.Sft.Protocol.{Header, parse_header, validate}
use sysdvr_webos.Sft.Protocol.Transport.{
  Rounds, complete, ended, failed, unfinished, Transfer, read_exact_interruptible, packet,
  whole_payload, after_header, got_header, read_packet,
}
use sysdvr_webos.Sft.Protocol.Transport.Laws.{read_exact_interruptible_lem}

whole_payload_inv :
    (h h' : Header) (payload left : List ℕ) (t : Transfer) (rs' : Rounds)
    → whole_payload h t ≡ (packet h' payload, (left, rs'))
    → (t ≡ (complete payload, (left, rs'))) × (h ≡ h') × (length payload ≡ h.payload_length)
unfolding whole_payload
whole_payload_inv h h' payload left (complete x, s) rs' e = ground arith
whole_payload_inv h h' payload left (ended, s) rs' e = absurd cc
whole_payload_inv h h' payload left (failed, s) rs' e = absurd cc
whole_payload_inv h h' payload left (unfinished, s) rs' e = absurd cc

after_header_inv :
    (capacity : ℕ) (h h' : Header) (bytes payload left : List ℕ) (rs rs' : Rounds)
    → after_header capacity h (bytes, rs) ≡ (packet h' payload, (left, rs'))
    → (validate h ≡ true)
      × (h.payload_length ≤ capacity)
      × (whole_payload h (read_exact_interruptible h.payload_length false bytes rs)
          ≡ (packet h' payload, (left, rs')))
unfolding after_header
after_header_inv capacity h h' bytes payload left rs rs' e = ground arith

got_header_inv :
    (capacity : ℕ) (h : Header) (t : Transfer) (payload left : List ℕ) (rs' : Rounds)
    → got_header capacity t ≡ (packet h payload, (left, rs'))
    → (raw : List ℕ) × (bytes : List ℕ) × (rs : Rounds) × (t ≡ (complete raw, (bytes, rs)))
      × (after_header capacity (parse_header raw) (bytes, rs) ≡ (packet h payload, (left, rs')))
unfolding got_header
got_header_inv capacity h (complete raw, (bytes, rs)) payload left rs' e = (raw, bytes, rs, refl, e)
got_header_inv capacity h (ended, s) payload left rs' e = absurd cc
got_header_inv capacity h (failed, s) payload left rs' e = absurd cc
got_header_inv capacity h (unfinished, s) payload left rs' e = absurd cc

-- What `sft_read_packet` accepts stands next on the stream: 32 bytes whose header is valid, and the
-- payload of the size it declares, which fits the buffer. Nothing after it is consumed.
pub read_packet_lem :
    (capacity : ℕ) (bytes : List ℕ) (rs rs' : Rounds) (h : Header) (payload left : List ℕ)
    → read_packet capacity bytes rs ≡ (packet h payload, (left, rs'))
    → (raw : List ℕ) × (bytes ≡ raw ++ (payload ++ left))
      × (length raw ≡ 32)
      × (h ≡ parse_header raw)
      × (validate h ≡ true)
      × (length payload ≡ h.payload_length)
      × (length payload ≤ capacity)
unfolding read_packet
read_packet_lem capacity bytes rs rs' h payload left e =
    let (raw, bytes', rs'', took, e') = got_header_inv capacity h _ payload left rs' e in
    let (valid, fits, e'') =
      after_header_inv capacity (parse_header raw) h bytes' payload left rs'' rs' e' in
    let (took', same, sized) = whole_payload_inv (parse_header raw) h payload left _ rs' e'' in
    let (cut, size) = read_exact_interruptible_lem 32 true bytes rs raw bytes' rs'' took in
    let (cut', _) =
      read_exact_interruptible_lem (parse_header raw).payload_length false bytes' rs'' payload left
        rs' took' in
    (
      raw,
      cut ∙ ap (◌++◌ raw) cut',
      size,
      sym same,
      ap validate (sym same) ∙ valid,
      sized ∙ ap (λ x. x.payload_length) same,
      omega (arith, fits, sized),
    )
