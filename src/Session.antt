-- ===== src/Session.antt =====
-- src/session_manager.c and include/sysdvr/session_manager.h: the registry of consoles that have
-- been seen, the selection in it, and the console to reconnect to. `devices` is the array of eight
-- slots, of which the first `count` are in use; a pointer argument is not NULL.
pub mod Entries
pub mod Prune
pub mod Select
pub mod Valid
use sysdvr_webos.Prelude.{
  ℕ, zero, suc, ◌+◌, ◌-◌, ◌*◌, ◌/◌, ◌%◌, ◌^◌, ◌≤◌, ◌<◌, min, ◌≡◌, refl, sym, ap, ap₂, subst, ◌∙◌,
  ◌≢◌, ◌↔◌, ◌⊎◌, inl, inr, Bool, true, false, not, ◌&&◌, ◌||◌, Option, none, some, List, [], ◌∷◌,
  ◌++◌, map, append-nil, append_assoc, arith, ltb, leb, ◌==◌, ◌!=◌, if◌then◌else◌, ltb→lt, lt→ltb,
  ltb_false→le, le→ltb_false, leb→le, le→leb, leb_false→lt, lt→leb_false, ==_iff, Bool-cases,
  Option-cases, length, get_elem?, get_or, set, take, drop, replicate, length-append, length-take,
  length-drop, length-set, length-replicate, take_all, drop_all, take-append, drop-append,
  take-append_le, drop-append_le, take-append-drop, take_exact, drop_exact, drop-drop,
}
use sysdvr_webos.Prelude.Int.{ℤ, pos, negsuc, ◌+ℤ◌, ltb_ℤ}
use sysdvr_webos.Prelude.CString.{codes, str_eq, is_empty, copy_text}
use sysdvr_webos.Device.{
  StreamSource, sysdvr, Device, zeroed, source_eq, host_size, client_version_size, protocol_size,
  serial_size,
}

abbrev pub max_devices : ℕ
max_devices = 8

abbrev pub device_stale_ms : ℕ
device_stale_ms = 7000

abbrev pub uint64_max : ℕ
uint64_max = 2 ^ 64 - 1

pub record SessionDevice : Type 0 where
  pub info : Device
  pub last_seen_ms : ℕ
  pub manual : Bool

pub record SessionManager : Type 0 where
  pub devices : List SessionDevice
  pub count : ℕ
  pub selected : ℕ
  pub preferred_serial : List ℕ
  pub preferred_host : List ℕ
  pub preferred_source : StreamSource
  pub have_preferred : Bool

abbrev pub blank : SessionDevice
blank = record { info = zeroed; last_seen_ms = 0; manual = false }

-- `m->devices[i]`
abbrev pub slot : List SessionDevice → ℕ → SessionDevice
slot devices i = get_or devices i blank

unfoldable pub same_device : SessionDevice → Device → Bool
same_device entry device =
    if not (source_eq entry.info.source device.source)
    then false
    else if not (is_empty entry.info.serial) && not (is_empty device.serial)
    then str_eq entry.info.serial device.serial
    else str_eq entry.info.host device.host

pub init : SessionManager
init = record {
  devices = replicate max_devices blank;
  count = 0;
  selected = 0;
  preferred_serial = [];
  preferred_host = [];
  preferred_source = sysdvr;
  have_preferred = false;
}

-- The loop `for (i = …; i < m->count; ++i)` that stops at the first entry for the device; `n` rounds
-- are left.
unfoldable pub find_same : List SessionDevice → Device → ℕ → ℕ → Option ℕ
find_same devices device i zero = none
find_same devices device i (suc n) =
    let rest = find_same devices device (i + 1) n in
    if same_device (slot devices i) device then some i else rest

abbrev pub sighting : Device → ℕ → SessionDevice
sighting device now_ms = record { info = device; last_seen_ms = now_ms; manual = false }

-- What follows the loop of `session_manager_seen`, and the body of its match.
unfoldable pub store_sighting : SessionManager → Device → ℕ → Option ℕ → SessionManager
store_sighting m device now_ms (some i) = record m {
  devices = set m.devices i (sighting device now_ms);
}
store_sighting m device now_ms none =
    if leb max_devices m.count
    then m
    else record m { devices = set m.devices m.count (sighting device now_ms); count = m.count + 1 }

unfoldable pub seen : SessionManager → Device → ℕ → SessionManager
unfolding find_same store_sighting
seen m device now_ms = store_sighting m device now_ms (find_same m.devices device 0 m.count)

abbrev pub manual_entry : List ℕ → SessionDevice
manual_entry host = record {
  info = record {
    source = sysdvr;
    host = copy_text host_size host;
    client_version = copy_text client_version_size (codes "manual");
    protocol = copy_text protocol_size (codes "--");
    serial = [];
  };
  last_seen_ms = uint64_max;
  manual = true;
}

pub add_manual : SessionManager → List ℕ → SessionManager
add_manual m host =
    if is_empty host || leb max_devices m.count
    then m
    else record m { devices = set m.devices m.count (manual_entry host); count = m.count + 1 }

unfoldable pub keep : ℕ → SessionDevice → Bool
keep now_ms entry =
    entry.manual
    || (ltb now_ms entry.last_seen_ms || leb (now_ms - entry.last_seen_ms) device_stale_ms)

-- The loop that moves the entries to keep to the front; `n` rounds are left. It gives the array and
-- `write_index`.
unfoldable pub compact : ℕ → List SessionDevice → ℕ → ℕ → ℕ → List SessionDevice × ℕ
compact now_ms devices write_index i zero = (devices, write_index)
compact now_ms devices write_index i (suc n) =
    let kept = keep now_ms (slot devices i) in
    compact now_ms
      (if kept && (write_index != i) then set devices write_index (slot devices i) else devices)
      (if kept then write_index + 1 else write_index) (i + 1) n

-- The end of `session_manager_prune`, where some entry is left: the index is that of the entry
-- for the device that was selected.
unfoldable pub reselect : SessionManager → Option ℕ → SessionManager
reselect m (some i) = record m { selected = i }
reselect m none = if leb m.count m.selected then record m { selected = m.count - 1 } else m

-- The registry after the loop of `session_manager_prune`.
unfoldable pub compacted : SessionManager → ℕ → SessionManager
compacted m now_ms =
    let r = compact now_ms m.devices 0 0 m.count in record m { devices = r.0; count = r.1 }

abbrev pub has_selection : SessionManager → Bool
has_selection m = ltb 0 m.count && ltb m.selected m.count

abbrev pub selected_info : SessionManager → Device
selected_info m = if has_selection m then (slot m.devices m.selected).info else zeroed

unfoldable pub prune : SessionManager → ℕ → SessionManager
prune m now_ms =
    let m' = compacted m now_ms in
    if m'.count == 0
    then record m' { selected = 0 }
    else reselect m'
        (if has_selection m then find_same m'.devices (selected_info m) 0 m'.count else none)

-- `int selected = (int)m->selected + delta`; the sum is far from the bounds of `int`.
abbrev pub wrap_selection : ℤ → ℕ → ℕ
wrap_selection (negsuc k) count = count - 1
wrap_selection (pos k) count = if leb count k then 0 else k

abbrev pub is_zero : ℤ → Bool
is_zero (pos k) = k == 0
is_zero (negsuc k) = false

unfoldable pub move : SessionManager → ℤ → SessionManager
unfolding ◌+ℤ◌
move m delta =
    if (m.count == 0) || is_zero delta
    then m
    else record m { selected = wrap_selection (pos m.selected +ℤ delta) m.count }

unfoldable pub selected_device : SessionManager → Option SessionDevice
selected_device m =
    if (m.count == 0) || leb m.count m.selected then none else some (slot m.devices m.selected)

unfoldable pub remember_selected : SessionManager → SessionManager
remember_selected m = elim (selected_device m) [
  | none ↦ m
  | some entry ↦ record m {
    preferred_host = copy_text host_size entry.info.host;
    preferred_serial = copy_text serial_size entry.info.serial;
    preferred_source = entry.info.source;
    have_preferred = true;
  }
]

unfoldable pub matches_preferred : SessionManager → Device → Bool
matches_preferred m device =
    if not m.have_preferred
    then false
    else if not (source_eq m.preferred_source device.source)
    then false
    else if not (is_empty m.preferred_serial) && not (is_empty device.serial)
    then str_eq m.preferred_serial device.serial
    else str_eq m.preferred_host device.host
