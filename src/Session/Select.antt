-- ===== src/Session/Select.antt =====
-- src/session_manager.c: the selection across a prune, the navigation keys, and the console that
-- the client reconnects to.
use sysdvr_webos.Prelude.{
  ◌||◌, leb, false, ℕ, zero, suc, ◌<◌, ◌≡◌, refl, sym, ap, ◌∙◌, inl, inr, true, some, List, [], ◌∷◌,
  arith, ◌==◌, Bool-cases, length, length-take, get_or-take,
}
use sysdvr_webos.Prelude.CString.{copy_text, str_eq_refl, copy_text_fits}
use sysdvr_webos.Device.{StreamSource, sysdvr, frametap, Device, source_eq, host_size, serial_size}
use sysdvr_webos.Session.{
  SessionDevice, SessionManager, blank, slot, same_device, find_same, keep, compacted,
  has_selection, reselect, prune, wrap_selection, move, selected_device, remember_selected,
  matches_preferred,
}
use sysdvr_webos.Prelude.Int.{pos, negsuc, ◌+ℤ◌}
use sysdvr_webos.Session.Entries.{entries, find_in, find_in-lt, find_same_from_0}
use sysdvr_webos.Session.Prune.{fresh, entries-compacted}
use sysdvr_webos.Session.Valid.{IsValid}

source_eq_refl : (s : StreamSource) → source_eq s s ≡ true
source_eq_refl sysdvr = refl
source_eq_refl frametap = refl

-- An entry is an entry for its own device.
pub same_device_refl : (e : SessionDevice) → same_device e e.info ≡ true
unfolding same_device
same_device_refl e =
    ground (arith, source_eq_refl e.info.source, str_eq_refl e.info.serial, str_eq_refl e.info.host)

find_in-hit :
    (d : Device) (xs : List SessionDevice) (i : ℕ)
    → i < length xs
    → same_device (slot xs i) d ≡ true
    → (j : ℕ) × (find_in d xs ≡ some j)
unfolding find_in
find_in-hit d [] i h s = absurd (omega arith)
find_in-hit d (x ∷ xs) zero h s = (0, rw s)
find_in-hit d (x ∷ xs) (suc i) h s = elim (Bool-cases (same_device x d)) [
  | inl here ↦ (0, rw here)
  | inr later ↦ let (j, e) = find_in-hit d xs i (omega arith) s in (suc j, rw (later, e))
]

fresh-hit :
    (now_ms : ℕ) (xs : List SessionDevice) (i : ℕ)
    → i < length xs
    → keep now_ms (slot xs i) ≡ true
    → (k : ℕ) × (k < length (fresh now_ms xs)) × (slot (fresh now_ms xs) k ≡ slot xs i)
unfolding fresh
fresh-hit now_ms [] i h s = absurd (omega arith)
fresh-hit now_ms (x ∷ xs) zero h s = rw s (0, omega arith, refl)
fresh-hit now_ms (x ∷ xs) (suc i) h s =
    let (k, inside, same) = fresh-hit now_ms xs i (omega arith) s in
    elim (Bool-cases (keep now_ms x)) [
      | inl kept ↦ rw kept (suc k, omega arith, same)
      | inr stale ↦ rw stale (k, inside, same)
    ]

-- What `session_manager_selected` gives is the slot that `selected` names, among those in use.
selected_device_inv :
    (m : SessionManager) (e : SessionDevice)
    → selected_device m ≡ some e
    → (m.selected < m.count) × (slot m.devices m.selected ≡ e) × (has_selection m ≡ true)
unfolding selected_device
selected_device_inv m e h = (ground arith, ground arith, ground arith)

selected_device_at :
    (m : SessionManager) (j : ℕ)
    → j < m.count
    → selected_device (record m { selected = j }) ≡ some (slot m.devices j)
unfolding selected_device
selected_device_at m j h = ground arith

prune_at :
    (m : SessionManager) (now_ms j : ℕ)
    → has_selection m ≡ true
    → find_same
        (compacted m now_ms).devices
        (slot m.devices m.selected).info
        0
        (compacted m now_ms).count
      ≡ some j
    → j < (compacted m now_ms).count
    → prune m now_ms ≡ record (compacted m now_ms) { selected = j }
unfolding prune reselect
prune_at m now_ms j had found inside = rw (had, found) (ground arith)

find_compacted :
    (m : SessionManager) (now_ms : ℕ)
    → IsValid m
    → m.selected < m.count
    → keep now_ms (slot m.devices m.selected) ≡ true
    → let m' = compacted m now_ms in
      let d = (slot m.devices m.selected).info in
      (j : ℕ) × (find_same m'.devices d 0 m'.count ≡ some j)
      × (j < m'.count)
      × (same_device (slot m'.devices j) d ≡ true)
find_compacted m now_ms v inside kept =
    let m' = compacted m now_ms in
    let d = (slot m.devices m.selected).info in
    let (same_entries, same_length, fewer) = entries-compacted m now_ms (omega (arith, v)) in
    let here = get_or-take m.devices m.count m.selected blank inside in
    let long = length-take m.count m.devices in
    let (k, k_in, k_same) =
      fresh-hit now_ms (entries m) m.selected (omega (arith, long, v))
        (ap (keep now_ms) here ∙ kept) in
    let at_k = ap (λ xs. slot xs k) same_entries ∙ k_same ∙ here in
    let k_in' : k < length (entries m') = omega (arith, k_in, ap length same_entries) in
    let (j, found) =
      find_in-hit d (entries m') k k_in'
        (ap (λ e. same_device e d) at_k ∙ same_device_refl (slot m.devices m.selected)) in
    let (j_in, j_same) = find_in-lt d (entries m') j found in
    let j_in' : j < m'.count = omega (arith, j_in, length-take m'.count m'.devices) in
    (
      j,
      find_same_from_0 d m'.count m'.devices (omega (arith, same_length, fewer, v)) ∙ found,
      j_in',
      ap (λ e. same_device e d) (sym (get_or-take m'.devices m'.count j blank j_in')) ∙ j_same,
    )

-- In a valid registry the device that is selected stays selected while its entry is not stale,
-- whatever entries before it go.
pub prune-selected :
    (m : SessionManager) (now_ms : ℕ) (e : SessionDevice)
    → IsValid m
    → selected_device m ≡ some e
    → keep now_ms e ≡ true
    → (e' : SessionDevice) × (selected_device (prune m now_ms) ≡ some e')
      × (same_device e' e.info ≡ true)
prune-selected m now_ms e v h kept =
    let (inside, here, had) = selected_device_inv m e h in
    let (j, found, j_in, j_same) =
      find_compacted m now_ms v inside (ap (keep now_ms) here ∙ kept) in
    let m' = compacted m now_ms in
    (
      slot m'.devices j,
      ap selected_device (prune_at m now_ms j had found j_in) ∙ selected_device_at m' j j_in,
      ap (λ x. same_device (slot m'.devices j) x.info) (sym here) ∙ j_same,
    )

selection_back :
    (s count : ℕ)
    → s < count
    → (wrap_selection (pos (wrap_selection (pos s +ℤ negsuc 0) count) +ℤ pos 1) count ≡ s)
      × (wrap_selection (pos (wrap_selection (pos s +ℤ pos 1) count) +ℤ negsuc 0) count ≡ s)
unfolding ◌+ℤ◌
selection_back s count h = (ground arith, ground arith)

-- In a valid registry DOWN after UP, and UP after DOWN, come back to the entry, round the ends of the list too.
pub move_back :
    (m : SessionManager)
    → IsValid m
    → (move (move m (negsuc 0)) (pos 1) ≡ m) × (move (move m (pos 1)) (negsuc 0) ≡ m)
unfolding move
move_back m v = elim (Bool-cases (m.count == 0)) [
  | inl none_there ↦ rw none_there (rw none_there, rw none_there)
  | inr some_there ↦
      let inside : m.selected < m.count = ground arith in
      let (up, down) = selection_back m.selected m.count inside in
      rw some_there (
        rw some_there (ap (λ k. record m { selected = k }) up),
        rw some_there (ap (λ k. record m { selected = k }) down),
      )
]

remembered :
    (m : SessionManager) (e : SessionDevice)
    → selected_device m ≡ some e
    → remember_selected m ≡ record m {
      preferred_host = copy_text host_size e.info.host;
      preferred_serial = copy_text serial_size e.info.serial;
      preferred_source = e.info.source;
      have_preferred = true;
    }
unfolding remember_selected
remembered m e h = rw (h, remember_selected)

-- A device is the preferred one exactly when it is the one that was selected when the client
-- remembered it; the texts of the entry fit their arrays.
pub matches_preferred-remember_selected :
    (m : SessionManager) (e : SessionDevice) (d : Device)
    → selected_device m ≡ some e
    → length e.info.host < host_size
    → length e.info.serial < serial_size
    → matches_preferred (remember_selected m) d ≡ same_device e d
unfolding matches_preferred same_device
matches_preferred-remember_selected m e d h hh hs =
    ap (λ r. matches_preferred r d) (remembered m e h)
    ∙ rw (
      copy_text_fits host_size e.info.host (omega arith),
      copy_text_fits serial_size e.info.serial (omega arith),
    )

selects :
    (m : SessionManager)
    → IsValid m
    → 0 < m.count
    → selected_device m ≡ some (slot m.devices m.selected)
unfolding selected_device
selects m v some_used =
    let used : ((m.count == 0) || leb m.count m.selected) ≡ false = ground arith in rw used refl

-- The selection depends on the entries and the index alone.
same_selection :
    (m m' : SessionManager)
    → remember_selected m ≡ m'
    → m'.devices ≡ m.devices
    → m'.count ≡ m.count
    → m'.selected ≡ m.selected
    → selected_device (remember_selected m) ≡ selected_device m
unfolding selected_device
same_selection m m' e d c s = ap selected_device e ∙ rw (d, c, s) refl

-- With an entry in use some console is selected, and remembering it makes it the preferred one.
pub remember_selected_lem :
    (m : SessionManager)
    → IsValid m
    → 0 < m.count
    → ((remember_selected m).have_preferred ≡ true)
      × ((e : SessionDevice) × (selected_device (remember_selected m) ≡ some e))
remember_selected_lem m v some_used =
    let e = slot m.devices m.selected in
    let chosen = selects m v some_used in
    let kept = remembered m e chosen in
    (ap (λ r. r.have_preferred) kept, (e, same_selection m _ kept refl refl refl ∙ chosen))
