-- ===== src/Sft/Discovery.antt =====
-- src/sft_discovery.c and include/sft/discovery.h: the Frame Tap beacons on UDP 9951. A pointer is not
-- NULL. `inet_ntop` and the socket are outside: their results are arguments.
pub mod Port
pub mod Beacon
use sysdvr_webos.Prelude.{
  ℕ, zero, suc, ◌+◌, ◌-◌, ◌*◌, ◌/◌, ◌%◌, ◌^◌, ◌≤◌, ◌<◌, min, ◌≡◌, refl, sym, ap, ap₂, subst, ◌∙◌,
  ◌≢◌, ◌↔◌, ◌⊎◌, inl, inr, Bool, true, false, not, ◌&&◌, ◌||◌, Option, none, some, List, [], ◌∷◌,
  ◌++◌, map, append-nil, append_assoc, arith, ltb, leb, ◌==◌, ◌!=◌, if◌then◌else◌, ltb→lt, lt→ltb,
  ltb_false→le, le→ltb_false, leb→le, le→leb, leb_false→lt, lt→leb_false, ==_iff, Bool-cases,
  Option-cases, length, get_elem?, get_or, set, take, drop, replicate, length-append, length-take,
  length-drop, length-set, length-replicate, take_all, drop_all, take-append, drop-append,
  take-append_le, drop-append_le, take-append-drop, take_exact, drop_exact, drop-drop,
  drop-set_before, take-set_next, take_next, get_or-take,
}
use sysdvr_webos.Prelude.CString.{codes, str_eq, is_empty, copy_text, text_of}

abbrev pub message_size : ℕ
message_size = 256

abbrev pub label_size : ℕ
label_size = 96

pub record SftDevice : Type 0 where
  pub host : List ℕ
  pub port : ℕ
  pub label : List ℕ

-- `isspace` of the C locale
abbrev pub is_space : ℕ → Bool
is_space c = (c == 32) || (leb 9 c && leb c 13)

unfoldable pub skip_spaces : List ℕ → List ℕ
skip_spaces [] = []
skip_spaces (c ∷ cs) = let rest = skip_spaces cs in if is_space c then rest else c ∷ cs

abbrev pub is_digit : ℕ → Bool
is_digit c = leb 48 c && leb c 57

-- The decimal digits at the front: their value, added to what stands before them, how many there are,
-- and the text behind them.
pub read_digits : ℕ → List ℕ → ℕ × (ℕ × List ℕ)
read_digits value [] = (value, (0, []))
read_digits value (c ∷ cs) =
    let (value', (count, rest)) = read_digits (value * 10 + (c - 48)) cs in
    if is_digit c then (value', (count + 1, rest)) else (value, (0, c ∷ cs))

-- A number that is too large for `long` is cut by `strtol` to one that is still above 65535.
pub accept_number : ℕ × (ℕ × List ℕ) → Option ℕ
accept_number (value, (count, rest)) =
    if count == 0
    then none
    else if not (is_empty rest)
    then none
    else if (value == 0) || ltb 65535 value
    then none
    else some value

-- A negative number is refused whatever its digits.
pub after_spaces : List ℕ → Option ℕ
unfolding read_digits accept_number
after_spaces [] = none
after_spaces (c ∷ cs) =
    if c == 45
    then none
    else if c == 43
    then accept_number (read_digits 0 cs)
    else accept_number (read_digits 0 (c ∷ cs))

-- `none` is the result 0.
pub parse_port : List ℕ → Option ℕ
unfolding skip_spaces after_spaces
parse_port text = after_spaces (skip_spaces text)

-- " \t\r\n"
abbrev pub is_delimiter : ℕ → Bool
is_delimiter c = (c == 32) || (c == 9) || (c == 13) || (c == 10)

pub skip_delimiters : List ℕ → List ℕ
skip_delimiters [] = []
skip_delimiters (c ∷ cs) = let rest = skip_delimiters cs in if is_delimiter c then rest else c ∷ cs

-- The token at the front, and the text behind the delimiter that ends it.
pub split_token : List ℕ → List ℕ × List ℕ
split_token [] = ([], [])
split_token (c ∷ cs) =
    let (token, rest) = split_token cs in if is_delimiter c then ([], cs) else (c ∷ token, rest)

abbrev pub token_of : List ℕ → Option (List ℕ) × List ℕ
token_of [] = (none, [])
token_of (c ∷ cs) = let (token, rest) = split_token (c ∷ cs) in (some token, rest)

-- `strtok_r`: the next token, if there is one, and what is saved.
pub strtok : List ℕ → Option (List ℕ) × List ℕ
unfolding skip_delimiters split_token
strtok text = token_of (skip_delimiters text)

-- The loop `while (*save == ' ' || *save == '\t')`.
pub skip_blanks : List ℕ → List ℕ
skip_blanks [] = []
skip_blanks (c ∷ cs) = let rest = skip_blanks cs in if (c == 32) || (c == 9) then rest else c ∷ cs

-- The loop that removes carriage returns and line feeds at the end.
pub strip_line_end : List ℕ → List ℕ
strip_line_end [] = []
strip_line_end (c ∷ cs) =
    let rest = strip_line_end cs in
    if is_empty rest && ((c == 13) || (c == 10)) then [] else c ∷ rest

abbrev pub default_label : List ℕ
default_label = codes "Switch Frame Tap"

abbrev pub or_default : List ℕ → List ℕ
or_default label = if is_empty label then default_label else label

pub label_of : List ℕ → List ℕ
unfolding skip_blanks strip_line_end
label_of saved = or_default (strip_line_end (copy_text label_size (or_default (skip_blanks saved))))

pub fill : Option ℕ → Option (List ℕ) → List ℕ → Option SftDevice
fill none host label = none
fill (some port) none label = none
fill (some port) (some address) label = some (record { host = address; port = port; label = label })

-- What the three tokens and the text behind them make.
pub accept :
    Option (List ℕ)
    → Option (List ℕ)
    → Option (List ℕ)
    → List ℕ
    → Option (List ℕ)
    → Option SftDevice
unfolding fill label_of parse_port
accept (some magic) (some announced_ip) (some port_text) saved host =
    if not (str_eq magic (codes "SFTAP1"))
    then none
    else fill (parse_port port_text) host (label_of saved)
accept none ip port_text saved host = none
accept (some magic) none port_text saved host = none
accept (some magic) (some ip) none saved host = none

-- `host` is what `inet_ntop` makes of the sender's address; `none` is the result 0.
unfoldable pub parse_beacon : List ℕ → Option (List ℕ) → Option SftDevice
unfolding strtok accept
parse_beacon message host =
    let (magic, first) = strtok (copy_text message_size message) in
    let (announced_ip, second) = strtok first in
    let (port_text, saved) = strtok second in accept magic announced_ip port_text saved host

-- What `select` and `recvfrom` say of one poll.
pub data Arrival : Type 0 where
  timed_out select_eintr select_failed recv_retry recv_failed : Arrival
  datagram : List ℕ → Option (List ℕ) → Arrival

-- `nothing` is the result 0, and `poll_failed` is -1.
pub data Poll : Type 0 where
  found : SftDevice → Poll
  nothing poll_failed : Poll

abbrev pub found_device : Option SftDevice → Poll
found_device none = nothing
found_device (some d) = found d

unfoldable pub poll : Arrival → Poll
unfolding parse_beacon
poll timed_out = nothing
poll select_eintr = nothing
poll select_failed = poll_failed
poll recv_retry = nothing
poll recv_failed = poll_failed
poll (datagram bytes host) =
    found_device (parse_beacon (text_of (take (message_size - 1) bytes)) host)
