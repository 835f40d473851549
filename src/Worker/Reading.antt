-- ===== src/Worker/Reading.antt =====
-- src/webos_main.c, `read_data_packet`: which packet it gives, and that its loop ends.
use sysdvr_webos.Prelude.{
  ℕ, zero, suc, ◌<◌, ◌≡◌, refl, sym, ap, subst, ◌∙◌, ◌≢◌, ◌⊎◌, inl, inr, true, false, ◌&&◌, Option,
  none, some, List, [], ◌∷◌, ◌++◌, append_assoc, arith, ltb, ltb→lt, Bool-cases, length,
  length-append,
}
use sysdvr_webos.Prelude.Words.{any_set, AreBytes}
use sysdvr_webos.Prelude.Words.Inverse.{AreBytes-back}
use sysdvr_webos.Net.{Incoming}
use sysdvr_webos.Net.Transfer.{content}
use sysdvr_webos.Protocol.{
  StreamKind, PacketHeader, PacketRead, packet, closed, malformed, packet_error, max_payload,
  read_packet,
}
use sysdvr_webos.Protocol.Packets.{encode_header, length-encode_header, encode_packets, Acceptable}
use sysdvr_webos.Protocol.Packets.Sound.{read_packet_sound}
use sysdvr_webos.Worker.{expected_packet, sort_packet, read_loop, read_data_packet}

-- A packet for the worker, and one that it passes over.
abbrev pub Wanted : StreamKind → PacketHeader → List ℕ → Type 0
Wanted kind h payload =
    (any_set h.metadata packet_error ≡ false)
    × (expected_packet kind h ≡ true)
    × (0 < length payload)

abbrev pub AllIgnored : StreamKind → List (PacketHeader × List ℕ) → Type 0
AllIgnored kind [] = Unit {0}
AllIgnored kind ((h, payload) ∷ ps) =
    (any_set h.metadata packet_error ≡ false)
    × ((expected_packet kind h && ltb 0 (length payload)) ≡ false)
    × AllIgnored kind ps

sort_packet_inv :
    (kind : StreamKind) (r : PacketRead × Incoming) (again : Option (PacketRead × Incoming))
    (h : PacketHeader) (payload : List ℕ) (s' : Incoming)
    → sort_packet kind r again ≡ some (packet h payload, s')
    → ((r ≡ (packet h payload, s')) × Wanted kind h payload)
      ⊎ ((h0 : PacketHeader) × (p0 : List ℕ) × (s0 : Incoming) × (r ≡ (packet h0 p0, s0))
          × AllIgnored kind ((h0, p0) ∷ [])
          × (again ≡ some (packet h payload, s')))
unfolding sort_packet
sort_packet_inv kind (closed, s) again h payload s' e = absurd cc
sort_packet_inv kind (malformed, s) again h payload s' e = absurd cc
sort_packet_inv kind (packet h0 p0, s) again h payload s' e =
    elim (Bool-cases (any_set h0.metadata packet_error)) [
      | inl error ↦ absurd (wrong (rw error at e))
      | inr fine ↦ elim (Bool-cases (expected_packet kind h0 && ltb 0 (length p0))) [
        | inl wanted ↦ inl (given (rw (fine, wanted) at e) fine wanted)
        | inr ignored ↦ inr (h0, p0, s, refl, (fine, ignored, tt), rw (fine, ignored) at e)
      ]
    ]
  where
    wrong :
        ◌≡◌ {A = Option (PacketRead × Incoming)} (some (malformed, s)) (some (packet h payload, s'))
        → ⊥
    wrong x = cc

    given :
        ◌≡◌ {A = Option (PacketRead × Incoming)}
          (some (packet h0 p0, s))
          (some (packet h payload, s'))
        → any_set h0.metadata packet_error ≡ false
        → (expected_packet kind h0 && ltb 0 (length p0)) ≡ true
        → (◌≡◌ {A = PacketRead × Incoming} (packet h0 p0, s) (packet h payload, s'))
          × Wanted kind h payload
    given x fine wanted =
        let same : h0 ≡ h = cc in
        let bytes : p0 ≡ payload = cc in
        let kind_ok : expected_packet kind h0 ≡ true = ground arith in
        let some_bytes : ltb 0 (length p0) ≡ true = ground arith in
        (
          (cc),
          (
            ap (λ g. any_set g.metadata packet_error) (sym same) ∙ fine,
            ap (expected_packet kind) (sym same) ∙ kind_ok,
            omega (arith, ap length bytes, ltb→lt 0 (length p0) some_bytes),
          ),
        )

-- The stream holds packets to pass over, and then the packet that is given.
abbrev pub Delivers : StreamKind → Incoming → PacketHeader → List ℕ → Incoming → Type 0
Delivers kind s h payload s' =
    (skipped : List (PacketHeader × List ℕ)) × AllIgnored kind skipped
    × (content s ≡ encode_packets skipped ++ (encode_header h ++ payload ++ content s'))

read_loop_sound :
    (fuel : ℕ) (kind : StreamKind) (s s' : Incoming) (h : PacketHeader) (payload : List ℕ)
    → AreBytes (content s)
    → read_loop fuel kind s ≡ some (packet h payload, s')
    → Wanted kind h payload × Acceptable max_payload h payload × Delivers kind s h payload s'
unfolding read_loop encode_packets
read_loop_sound zero kind s s' h payload bytes e = absurd cc
read_loop_sound (suc fuel) kind s s' h payload bytes e =
    elim (sort_packet_inv kind (read_packet max_payload s)
      (read_loop fuel kind (read_packet max_payload s).1) h payload s' e) [
        | inl (got, wanted) ↦
            let (ok, front) = read_packet_sound max_payload s s' h payload bytes got in
            (wanted, ok, ([], tt, front))
        | inr (h0, p0, s0, got, ignored, again) ↦
            let (ok, front) = read_packet_sound max_payload s s0 h0 p0 bytes got in
            let again' = ap (λ r. read_loop fuel kind r.1) (sym got) ∙ again in
            let (wanted, fits, (skipped, all_ignored, rest)) =
              read_loop_sound fuel kind s0 s' h payload
                (AreBytes-back (encode_header h0 ++ p0) (content s0) (subst AreBytes front bytes))
                again' in
            (
              wanted,
              fits,
              (
                (h0, p0) ∷ skipped,
                (ignored.0, ignored.1, all_ignored),
                front
                    ∙ ap (◌++◌ (encode_header h0 ++ p0)) rest
                    ∙ sym (
                        append_assoc (encode_header h0 ++ p0) (encode_packets skipped)
                          (encode_header h ++ payload ++ content s')),
              ),
            )
      ]

sort_packet-none :
    (kind : StreamKind) (r : PacketRead × Incoming) (again : Option (PacketRead × Incoming))
    → sort_packet kind r again ≡ none
    → (h0 : PacketHeader) × (p0 : List ℕ) × (r ≡ (packet h0 p0, r.1)) × (again ≡ none)
unfolding sort_packet
sort_packet-none kind (closed, s) again e = absurd cc
sort_packet-none kind (malformed, s) again e = absurd cc
sort_packet-none kind (packet h0 p0, s) again e = (h0, p0, refl, ground arith)

read_loop_enough :
    (fuel : ℕ) (kind : StreamKind) (s : Incoming)
    → AreBytes (content s)
    → length (content s) < fuel
    → read_loop fuel kind s ≢ none
unfolding read_loop
read_loop_enough zero kind s bytes h e = absurd (omega arith)
read_loop_enough (suc fuel) kind s bytes h e =
    let r = read_packet max_payload s in
    let (h0, p0, got, again) = sort_packet-none kind r (read_loop fuel kind r.1) e in
    let (_, front) = read_packet_sound max_payload s r.1 h0 p0 bytes got in
    let shorter : length (content r.1) < fuel = omega (
      arith,
      h,
      ap length front,
      length-append (encode_header h0 ++ p0) (content r.1),
      length-append (encode_header h0) p0,
      length-encode_header h0,
    ) in
    read_loop_enough fuel kind r.1
      (AreBytes-back (encode_header h0 ++ p0) (content r.1) (subst AreBytes front bytes)) shorter
      again

-- `read_data_packet` always returns: on a stream of bytes the loop ends, whatever the bytes.
pub read_data_packet_returns :
    (kind : StreamKind) (s : Incoming) → AreBytes (content s) → read_data_packet kind s ≢ none
unfolding read_data_packet
read_data_packet_returns kind s bytes e =
    read_loop_enough (suc (length (content s))) kind s bytes (omega arith) e

-- A packet that `read_data_packet` gives is of the worker's kind, not empty, not an error packet and
-- within the size limit; on the stream, a stream of bytes, stood packets to be passed over (of
-- another kind or empty, and no error packet), then this packet, and nothing more was taken.
pub read_data_packet_sound :
    (kind : StreamKind) (s s' : Incoming) (h : PacketHeader) (payload : List ℕ)
    → AreBytes (content s)
    → read_data_packet kind s ≡ some (packet h payload, s')
    → Wanted kind h payload × Acceptable max_payload h payload × Delivers kind s h payload s'
unfolding read_data_packet
read_data_packet_sound kind s s' h payload bytes e =
    read_loop_sound (suc (length (content s))) kind s s' h payload bytes e
