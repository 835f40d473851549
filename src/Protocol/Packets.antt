-- ===== src/Protocol/Packets.antt =====
-- src/protocol.c, `sysdvr_read_packet`, against the wire format of a packet.
pub mod Sound
use sysdvr_webos.Prelude.{
  ℕ, zero, suc, ◌+◌, ◌-◌, ◌*◌, ◌/◌, ◌%◌, ◌^◌, ◌≤◌, ◌<◌, min, ◌≡◌, refl, sym, ap, ap₂, subst, ◌∙◌,
  ◌≢◌, ◌↔◌, ◌⊎◌, inl, inr, Bool, true, false, not, ◌&&◌, ◌||◌, Option, none, some, List, [], ◌∷◌,
  ◌++◌, map, append-nil, append_assoc, arith, ltb, leb, ◌==◌, ◌!=◌, if◌then◌else◌, ltb→lt, lt→ltb,
  ltb_false→le, le→ltb_false, leb→le, le→leb, leb_false→lt, lt→leb_false, ==_iff, Bool-cases,
  Option-cases, length, get_elem?, get_or, set, take, drop, replicate, length-append, length-take,
  length-drop, length-set, length-replicate, take_all, drop_all, take-append, drop-append,
  take-append_le, drop-append_le, take-append-drop, take_exact, drop_exact,
}
use sysdvr_webos.Prelude.Words.{
  AreBytes, le32, le64, any_set, read_le32, read_le64, read_le32-le32, read_le64-le64,
}
use sysdvr_webos.Net.{Incoming, read_exact}
use sysdvr_webos.Net.Transfer.{
  content, closes, Leaves, read_exact_prefix, read_exact_took, read_exact_empty,
}
use sysdvr_webos.Protocol.{
  PacketHeader, PacketRead, packet, closed, malformed, packet_magic, max_payload, packet_replay,
  parse_header, read_packet, read_payload, check_header, after_header, take_payload,
}

-- The 18 bytes of a header.
pub encode_header : PacketHeader → List ℕ
encode_header h =
    le32 h.magic ++ le32 h.data_size ++ le64 h.timestamp_us ++ h.metadata ∷ h.replay_slot ∷ []

pub length-encode_header : (h : PacketHeader) → length (encode_header h) ≡ 18
unfolding encode_header
length-encode_header h = refl

-- A packet that the client accepts into a buffer of `capacity` bytes.
pub record Acceptable (capacity : ℕ) (h : PacketHeader) (payload : List ℕ) : Type 0 where
  pub magic_ok : h.magic ≡ packet_magic
  pub sized : h.data_size ≡ length payload
  pub fits : h.data_size ≤ capacity
  pub bounded : h.data_size ≤ max_payload
  pub timed : h.timestamp_us < 2 ^ 64
  pub not_replay : any_set h.metadata packet_replay ≡ false

parse_header-encode_header :
    (h : PacketHeader) (rest : List ℕ)
    → h.magic < 2 ^ 32
    → h.data_size < 2 ^ 32
    → h.timestamp_us < 2 ^ 64
    → parse_header (encode_header h ++ rest) ≡ h
unfolding parse_header encode_header
parse_header-encode_header h rest hm hs ht =
    let tail = h.metadata ∷ h.replay_slot ∷ rest in
    λ i. record {
      magic = read_le32-le32 h.magic (le32 h.data_size ++ le64 h.timestamp_us ++ tail) hm i;
      data_size = read_le32-le32 h.data_size (le64 h.timestamp_us ++ tail) hs i;
      timestamp_us = read_le64-le64 h.timestamp_us tail ht i;
      metadata = h.metadata;
      replay_slot = h.replay_slot;
    }

-- A call that gives `result` and leaves `rest` to be read, with the end of the stream as it was.
abbrev pub Yields : Incoming → List ℕ → PacketRead → PacketRead × Incoming → Type 0
Yields s rest result r =
    (s' : Incoming) × (r ≡ (result, s')) × (content s' ≡ rest) × (closes s' ≡ closes s)

take_payload-Yields :
    (h : PacketHeader) (payload rest : List ℕ) (s : Incoming)
    → h.data_size ≡ length payload
    → content s ≡ payload ++ rest
    → Yields s rest (packet h payload) (take_payload h (read_exact h.data_size s))
unfolding take_payload
take_payload-Yields h payload rest s e c =
    let (s', took, left, ends) = read_exact_prefix h.data_size payload rest s e c in
    (s', rw (took, (==_iff (length payload) h.data_size).1 (sym e)), left, ends)

read_payload-Yields :
    (h : PacketHeader) (payload rest : List ℕ) (s : Incoming)
    → h.data_size ≡ length payload
    → content s ≡ payload ++ rest
    → Yields s rest (packet h payload) (read_payload h s)
unfolding read_payload
read_payload-Yields h [] rest s e c = (s, rw (le→ltb_false 0 h.data_size (omega arith)), c, refl)
read_payload-Yields h (b ∷ bs) rest s e c =
    rw (lt→ltb 0 h.data_size (omega arith)) (take_payload-Yields h (b ∷ bs) rest s e c)

check_header_ok :
    (capacity : ℕ) (h : PacketHeader) (payload : List ℕ) (s : Incoming)
    → Acceptable capacity h payload
    → check_header capacity h s ≡ read_payload h s
unfolding check_header
check_header_ok capacity h payload s a = rw a.not_replay (ground arith)

after_header_ok :
    (capacity : ℕ) (h : PacketHeader) (payload : List ℕ) (s : Incoming)
    → Acceptable capacity h payload
    → after_header capacity (some (encode_header h), s) ≡ read_payload h s
unfolding after_header encode_header
after_header_ok capacity h payload s a =
    ap (λ h'. check_header capacity h' s) (parse_header_whole h a)
    ∙ check_header_ok capacity h payload s a
  where
    parse_header_whole :
        (h : PacketHeader) → Acceptable capacity h payload → parse_header (encode_header h) ≡ h
    parse_header_whole h a = parse_header-encode_header h [] (omega arith) (omega arith) a.timed

-- A packet at the front of the stream is read, with its payload, and what follows it is left.
pub read_packet-encode :
    (capacity : ℕ) (h : PacketHeader) (payload rest : List ℕ) (s : Incoming)
    → Acceptable capacity h payload
    → content s ≡ encode_header h ++ payload ++ rest
    → Yields s rest (packet h payload) (read_packet capacity s)
unfolding read_packet encode_header
read_packet-encode capacity h payload rest s a e =
    let (s1, took, left, ends) =
      read_exact_prefix 18 (encode_header h) (payload ++ rest) s refl
        (e ∙ append_assoc (encode_header h) payload rest) in
    let (s2, got, left', ends') = read_payload-Yields h payload rest s1 a.sized left in
    (s2, rw (took, after_header_ok capacity h payload s1 a) got, left', ends' ∙ ends)

-- What a run of packets looks like on the wire.
unfoldable pub encode_packets : List (PacketHeader × List ℕ) → List ℕ
unfolding encode_header
encode_packets [] = []
encode_packets ((h, payload) ∷ ps) = encode_header h ++ payload ++ encode_packets ps

-- Calls of `sysdvr_read_packet`, one after another, that each give a packet.
pub data Reads (capacity : ℕ) : Incoming → List (PacketHeader × List ℕ) → Incoming → Type 0 where
  done : {s : Incoming} → Reads capacity s [] s
  next :
      {s t u : Incoming} {h : PacketHeader} {payload : List ℕ} {ps : List (PacketHeader × List ℕ)}
      → read_packet capacity s ≡ (packet h payload, t)
      → Reads capacity t ps u
      → Reads capacity s ((h, payload) ∷ ps) u

abbrev pub AllAcceptable : ℕ → List (PacketHeader × List ℕ) → Type 0
AllAcceptable capacity [] = Unit {0}
AllAcceptable capacity ((h, payload) ∷ ps) =
    Acceptable capacity h payload × AllAcceptable capacity ps

-- A stream of acceptable packets is read packet by packet, each whole and in order, however the
-- kernel cuts it, and the bytes after them are left.
pub Reads-encode_packets :
    (capacity : ℕ) (ps : List (PacketHeader × List ℕ)) (rest : List ℕ) (s : Incoming)
    → AllAcceptable capacity ps
    → content s ≡ encode_packets ps ++ rest
    → (s' : Incoming) × Reads capacity s ps s' × (content s' ≡ rest) × (closes s' ≡ closes s)
unfolding encode_packets
Reads-encode_packets capacity [] rest s a e = (s, done, e, refl)
Reads-encode_packets capacity ((h, payload) ∷ ps) rest s a e =
    let (t, got, left, ends) =
      read_packet-encode capacity h payload (encode_packets ps ++ rest) s a.0 (e ∙ regroup) in
    let (u, more, left', ends') = Reads-encode_packets capacity ps rest t a.1 left in
    (u, next got more, left', ends' ∙ ends)
  where
    regroup :
        (encode_header h ++ payload ++ encode_packets ps) ++ rest
        ≡ encode_header h ++ payload ++ (encode_packets ps ++ rest)
    regroup = append_assoc (encode_header h ++ payload) (encode_packets ps) rest

-- With no byte left, the end of the stream is reported as such, and a failure as an error.
pub read_packet_end :
    (capacity : ℕ) (s : Incoming)
    → content s ≡ []
    → (read_packet capacity s).0 ≡ (if closes s then closed else malformed)
unfolding read_packet after_header
read_packet_end capacity s e = elim (Bool-cases (closes s)) [
  | inl ends ↦ rw (read_exact_empty 18 s (omega arith) e, ends)
  | inr fails ↦ rw (read_exact_empty 18 s (omega arith) e, fails)
]
