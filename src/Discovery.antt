-- ===== src/Discovery.antt =====
-- src/discovery.c: the SysDVR announcements on UDP 19999. A pointer is not NULL. `inet_ntop` and the
-- socket are outside: their results are arguments. A datagram is its bytes.
pub mod Scanner
pub mod Descriptor
use sysdvr_webos.Prelude.{
  ℕ, zero, suc, ◌+◌, ◌-◌, ◌*◌, ◌/◌, ◌%◌, ◌^◌, ◌≤◌, ◌<◌, min, ◌≡◌, refl, sym, ap, ap₂, subst, ◌∙◌,
  ◌≢◌, ◌↔◌, ◌⊎◌, inl, inr, Bool, true, false, not, ◌&&◌, ◌||◌, Option, none, some, List, [], ◌∷◌,
  ◌++◌, map, append-nil, append_assoc, arith, ltb, leb, ◌==◌, ◌!=◌, if◌then◌else◌, ltb→lt, lt→ltb,
  ltb_false→le, le→ltb_false, leb→le, le→leb, leb_false→lt, lt→leb_false, ==_iff, Bool-cases,
  Option-cases, length, get_elem?, get_or, set, take, drop, replicate, length-append, length-take,
  length-drop, length-set, length-replicate, take_all, drop_all, take-append, drop-append,
  take-append_le, drop-append_le, take-append-drop, take_exact, drop_exact, drop-drop,
  drop-set_before, take-set_next, take_next, get_or-take,
}
use sysdvr_webos.Prelude.CString.{codes, str_eq, copy_text, text_of}
use sysdvr_webos.Device.{
  Device, sysdvr, host_size, client_version_size, protocol_size, serial_size, zeroed,
}

abbrev pub buffer_size : ℕ
buffer_size = 512

unfoldable pub supported_protocol : List ℕ → Bool
supported_protocol p = str_eq p (codes "02") || str_eq p (codes "03")

-- '|'
abbrev pub separator : ℕ
separator = 124

-- `strchr(field, '|')`: the text before the first separator, and the text after it if there is one.
unfoldable pub split_field : List ℕ → List ℕ × Option (List ℕ)
split_field [] = ([], none)
split_field (c ∷ cs) =
    let (field, rest) = split_field cs in
    if c == separator then ([], some cs) else (c ∷ field, rest)

-- The cursor is NULL (`none`) or points at a text.
unfoldable pub take_field : Option (List ℕ) → Option (List ℕ) × Option (List ℕ)
unfolding split_field
take_field none = (none, none)
take_field (some []) = (none, some [])
take_field (some (c ∷ cs)) = let (field, rest) = split_field (c ∷ cs) in (some field, rest)

-- Magic, version and protocol, and the cursor to the serial, which is the rest of the text.
abbrev pub Fields : Type 0
Fields = (Option (List ℕ) × Option (List ℕ)) × (Option (List ℕ) × Option (List ℕ))

unfoldable pub fields : List ℕ → Fields
unfolding take_field
fields text =
    let (magic, after_magic) = take_field (some text) in
    let (client_version, after_version) = take_field after_magic in
    let (protocol, serial) = take_field after_version in
    ((magic, client_version), (protocol, serial))

-- NULL leaves the array as `memset` left it.
abbrev pub serial_text : Option (List ℕ) → List ℕ
serial_text none = []
serial_text (some serial) = serial

abbrev pub fill : List ℕ → List ℕ → Option (List ℕ) → Option (List ℕ) → Option Device
fill client_version protocol serial none = none
fill client_version protocol serial (some address) = some (record {
  source = sysdvr;
  host = address;
  client_version = copy_text client_version_size client_version;
  protocol = copy_text protocol_size protocol;
  serial = copy_text serial_size (serial_text serial);
})

unfoldable pub accept : Fields → Option (List ℕ) → Option Device
unfolding supported_protocol
accept ((some magic, some client_version), (some protocol, serial)) host =
    if not (str_eq magic (codes "SysDVR")) || not (supported_protocol protocol)
    then none
    else fill client_version protocol serial host
accept ((none, v), (p, serial)) host = none
accept ((some magic, none), (p, serial)) host = none
accept ((some magic, some v), (none, serial)) host = none

-- `host` is what `inet_ntop` makes of the sender's address.
unfoldable pub parse_descriptor : List ℕ → Option (List ℕ) → Option Device
unfolding fields accept
parse_descriptor bytes host =
    if length bytes == 0
    then none
    else accept (fields (text_of (take (buffer_size - 1) bytes))) host

-- What `select` and `recvfrom` say of one poll.
pub data Arrival : Type 0 where
  timed_out select_eintr select_failed recv_retry recv_failed : Arrival
  datagram : List ℕ → Option (List ℕ) → Arrival

-- `nothing` is the result 0, and `poll_failed` is -1.
pub data Poll : Type 0 where
  found : Device → Poll
  nothing poll_failed : Poll

abbrev pub found_device : Option Device → Poll
found_device none = nothing
found_device (some d) = found d

unfoldable pub poll : Arrival → Poll
unfolding parse_descriptor
poll timed_out = nothing
poll select_eintr = nothing
poll select_failed = poll_failed
poll recv_retry = nothing
poll recv_failed = poll_failed
poll (datagram bytes host) = found_device (parse_descriptor (take buffer_size bytes) host)
