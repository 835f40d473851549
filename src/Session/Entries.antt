-- ===== src/Session/Entries.antt =====
-- src/session_manager.c against a list: the loops over the array of slots are functions of the
-- list of its used entries.
use sysdvr_webos.Prelude.{
  ℕ, zero, suc, ◌+◌, ◌-◌, ◌^◌, ◌≤◌, ◌<◌, ◌≡◌, refl, sym, ap, ◌∙◌, Bool, true, false, Option, none,
  some, List, [], ◌∷◌, arith, ltb, if◌then◌else◌, length, set, take, drop,
}
use sysdvr_webos.Device.{sysdvr, Device}
use sysdvr_webos.Prelude.CString.{codes, is_empty}
use sysdvr_webos.Session.{
  SessionDevice, SessionManager, max_devices, slot, same_device, find_same, sighting,
  store_sighting, seen, init, add_manual,
}

-- The used entries, first to last.
abbrev pub entries : SessionManager → List SessionDevice
entries m = take m.count m.devices

-- The index of the first entry for a device.
unfoldable pub find_in : Device → List SessionDevice → Option ℕ
find_in d [] = none
find_in d (x ∷ xs) =
    let rest = find_in d xs in
    if same_device x d then some 0 else elim rest [ none ↦ none | some j ↦ some (suc j) ]

abbrev pub shift : ℕ → Option ℕ → Option ℕ
shift i none = none
shift i (some j) = some (i + j)

pub take-drop-cons :
    (xs : List SessionDevice) (i n : ℕ)
    → i < length xs
    → take (suc n) (drop i xs) ≡ slot xs i ∷ take n (drop (i + 1) xs)
take-drop-cons [] i n h = absurd (omega arith)
take-drop-cons (x ∷ xs) zero n h = refl
take-drop-cons (x ∷ xs) (suc i) n h =
    let step : suc (i + 1) ≡ suc i + 1 = omega arith in
    take-drop-cons xs i n (omega arith) ∙ ap (λ k. slot xs i ∷ take n (drop k (x ∷ xs))) step

-- The loop over the slots finds the index in the list of entries.
pub find_same-find_in :
    (devices : List SessionDevice) (d : Device) (i n : ℕ)
    → i + n ≤ length devices
    → find_same devices d i n ≡ shift i (find_in d (take n (drop i devices)))
unfolding find_same find_in
find_same-find_in devices d i zero h = refl
find_same-find_in devices d i (suc n) h =
    rw (take-drop-cons devices i n (omega arith))
      (ground (arith, find_same-find_in devices d (i + 1) n (omega arith)))

pub find_in-lt :
    (d : Device) (xs : List SessionDevice) (j : ℕ)
    → find_in d xs ≡ some j
    → (j < length xs) × (same_device (slot xs j) d ≡ true)
unfolding find_in
find_in-lt d [] j e = absurd (cc)
find_in-lt d (x ∷ xs) zero e = ground arith
find_in-lt d (x ∷ xs) (suc j) e = ground (arith, find_in-lt d xs j)

-- The list after a sighting: the first entry for the device is replaced, or one is added if there
-- is room.
pub sighted : Device → SessionDevice → Bool → List SessionDevice → List SessionDevice
sighted d e room [] = if room then e ∷ [] else []
sighted d e room (x ∷ xs) = if same_device x d then e ∷ xs else x ∷ sighted d e room xs

sighted_found :
    (d : Device) (e : SessionDevice) (room : Bool) (xs : List SessionDevice) (n j : ℕ)
    → find_in d (take n xs) ≡ some j
    → take n (set xs j e) ≡ sighted d e room (take n xs)
unfolding find_in sighted
sighted_found d e room xs zero j h = absurd (cc)
sighted_found d e room [] (suc n) j h = absurd (cc)
sighted_found d e room (x ∷ xs) (suc n) zero h = ground arith
sighted_found d e room (x ∷ xs) (suc n) (suc j) h = ground (arith, sighted_found d e room xs n j)

sighted_added :
    (d : Device) (e : SessionDevice) (xs : List SessionDevice) (n : ℕ)
    → find_in d (take n xs) ≡ none
    → n < length xs
    → take (n + 1) (set xs n e) ≡ sighted d e true (take n xs)
unfolding find_in sighted
sighted_added d e [] n h l = absurd (omega arith)
sighted_added d e (x ∷ xs) zero h l = refl
sighted_added d e (x ∷ xs) (suc n) h l =
    let step : suc (n + 1) ≡ suc n + 1 = omega arith in
    ap (λ k. take k (x ∷ set xs n e)) (sym step) ∙ ground (arith, sighted_added d e xs n)

sighted_full :
    (d : Device) (e : SessionDevice) (xs : List SessionDevice)
    → find_in d xs ≡ none
    → sighted d e false xs ≡ xs
unfolding find_in sighted
sighted_full d e [] h = refl
sighted_full d e (x ∷ xs) h = ground (arith, sighted_full d e xs)

pub find_same_from_0 :
    (d : Device) (n : ℕ) (devices : List SessionDevice)
    → n ≤ length devices
    → find_same devices d 0 n ≡ find_in d (take n devices)
find_same_from_0 d n devices h =
    find_same-find_in devices d 0 n (omega arith) ∙ shift_zero (find_in d (take n devices))
  where
    shift_zero : (o : Option ℕ) → shift 0 o ≡ o
    shift_zero none = refl
    shift_zero (some j) = ap some (omega arith)

entries-store_sighting :
    (m : SessionManager) (d : Device) (now_ms : ℕ) (o : Option ℕ)
    → find_in d (entries m) ≡ o
    → length m.devices ≡ max_devices
    → m.count ≤ max_devices
    → entries (store_sighting m d now_ms o)
      ≡ sighted d (sighting d now_ms) (ltb m.count max_devices) (entries m)
unfolding store_sighting
entries-store_sighting m d now_ms (some j) known l c =
    sighted_found d (sighting d now_ms) (ltb m.count max_devices) m.devices m.count j known
entries-store_sighting m d now_ms none unknown l c = ground (
  arith,
  sighted_added d (sighting d now_ms) m.devices m.count,
  sighted_full d (sighting d now_ms) (entries m),
)

-- `session_manager_seen` replaces the first entry for the device, or adds one while fewer than
-- eight are in use, and changes no other; the array has its eight slots and at most eight in use.
pub entries-seen :
    (m : SessionManager) (d : Device) (now_ms : ℕ)
    → length m.devices ≡ max_devices
    → m.count ≤ max_devices
    → entries (seen m d now_ms)
      ≡ sighted d (sighting d now_ms) (ltb m.count max_devices) (entries m)
unfolding seen
entries-seen m d now_ms l c =
    ap (λ o. entries (store_sighting m d now_ms o))
      (find_same_from_0 d m.count m.devices (omega arith))
    ∙ entries-store_sighting m d now_ms (find_in d (entries m)) refl l c

-- The registry has one console, entered by hand: its name is the first 63 bytes of `host`, it never
-- grows stale, it is the one that is selected, and none is remembered.
pub record JustManual (host : List ℕ) (m : SessionManager) : Type 0 where
  pub alone :
      entries m
      ≡ record {
        info = record {
          source = sysdvr;
          host = take 63 host;
          client_version = codes "manual";
          protocol = codes "--";
          serial = [];
        };
        last_seen_ms = 2 ^ 64 - 1;
        manual = true;
      }
        ∷ []
  pub first_selected : m.selected ≡ 0
  pub none_remembered : m.have_preferred ≡ false

pub add_manual-init :
    (host : List ℕ) → is_empty host ≡ false → JustManual host (add_manual init host)
unfolding add_manual init
add_manual-init [] h = absurd cc
add_manual-init (c ∷ host) h = record {
  alone = refl;
  first_selected = refl;
  none_remembered = refl;
}
