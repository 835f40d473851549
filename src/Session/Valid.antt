-- ===== src/Session/Valid.antt =====
-- src/session_manager.c: the array has its eight slots, no more are in use, and the selection is one
-- of those in use (or 0 if there is none). Every operation keeps this.
use sysdvr_webos.Prelude.{
  ℕ, ◌-◌, ◌≤◌, ◌<◌, ◌≡◌, refl, sym, ◌∙◌, inl, inr, Bool, true, false, Option, none, some, List, [],
  ◌∷◌, arith, ◌==◌, if◌then◌else◌, Bool-cases, length, length-take, length-set, length-replicate,
}
use sysdvr_webos.Device.{Device}
use sysdvr_webos.Session.{
  SessionManager, max_devices, blank, init, find_same, sighting, store_sighting, seen, manual_entry,
  add_manual, compacted, has_selection, selected_info, reselect, prune, wrap_selection, move,
  remember_selected,
}
use sysdvr_webos.Prelude.Int.{ℤ, pos, negsuc, ◌+ℤ◌}
use sysdvr_webos.Session.Entries.{entries, find_in-lt, find_same_from_0}
use sysdvr_webos.Session.Prune.{entries-compacted, prune-compacted}

pub record IsValid (m : SessionManager) : Type 0 where
  pub slots : length m.devices ≡ max_devices
  pub bounded : m.count ≤ max_devices
  pub in_range : m.selected ≤ m.count - 1

pub init-IsValid : IsValid init
unfolding init
init-IsValid = record {
  slots = length-replicate 8 blank;
  bounded = omega arith;
  in_range = omega arith;
}

store_sighting-IsValid :
    (m : SessionManager) (d : Device) (now_ms : ℕ) (o : Option ℕ)
    → IsValid m
    → IsValid (store_sighting m d now_ms o)
unfolding store_sighting
store_sighting-IsValid m d now_ms (some i) v =
    ground (arith, length-set m.devices i (sighting d now_ms))
store_sighting-IsValid m d now_ms none v =
    ground (arith, length-set m.devices m.count (sighting d now_ms))

pub seen-IsValid :
    (m : SessionManager) (d : Device) (now_ms : ℕ) → IsValid m → IsValid (seen m d now_ms)
unfolding seen
seen-IsValid m d now_ms v = store_sighting-IsValid m d now_ms (find_same m.devices d 0 m.count) v

pub add_manual-IsValid :
    (m : SessionManager) (host : List ℕ) → IsValid m → IsValid (add_manual m host)
unfolding add_manual
add_manual-IsValid m host v = ground (arith, length-set m.devices m.count (manual_entry host))

wrap_selection-le : (z : ℤ) (count : ℕ) → wrap_selection z count ≤ count - 1
wrap_selection-le (pos k) count = ground arith
wrap_selection-le (negsuc k) count = omega arith

pub move-IsValid : (m : SessionManager) (delta : ℤ) → IsValid m → IsValid (move m delta)
unfolding move
move-IsValid m delta v = ground (arith, wrap_selection-le (pos m.selected +ℤ delta) m.count)

pub remember_selected-IsValid : (m : SessionManager) → IsValid m → IsValid (remember_selected m)
unfolding remember_selected
remember_selected-IsValid m v = ground arith

reselect-in_range :
    (m : SessionManager) (o : Option ℕ)
    → 0 < m.count
    → ((i : ℕ) → o ≡ some i → i < m.count)
    → (reselect m o).selected ≤ m.count - 1
unfolding reselect
reselect-in_range m (some i) h bound = omega (arith, bound i refl)
reselect-in_range m none h bound = ground arith

-- The selection after a prune is one of the entries that are left.
prune-in_range :
    (m : SessionManager) (now_ms : ℕ)
    → (compacted m now_ms).count ≤ length (compacted m now_ms).devices
    → (prune m now_ms).selected ≤ (compacted m now_ms).count - 1
unfolding prune
prune-in_range m now_ms inside =
    let m' = compacted m now_ms in
    let o = if has_selection m then find_same m'.devices (selected_info m) 0 m'.count else none in
    elim (Bool-cases (m'.count == 0)) [
      | inl empty ↦ rw empty (omega arith)
      | inr some_left ↦
          rw some_left (reselect-in_range m' o (ground arith) (found (has_selection m)))
    ]
  where
    found :
        (had : Bool) (i : ℕ)
        → (if had
            then find_same
                (compacted m now_ms).devices
                (selected_info m)
                0
                (compacted m now_ms).count
            else none)
          ≡ some i
        → i < (compacted m now_ms).count
    found false i e = absurd (cc)
    found true i e =
        let bound =
          (find_in-lt (selected_info m) (entries (compacted m now_ms)) i (
            sym (
              find_same_from_0 (selected_info m) (compacted m now_ms).count
                (compacted m now_ms).devices inside)
            ∙ e)).0 in
        omega (arith, bound, length-take (compacted m now_ms).count (compacted m now_ms).devices)

pub prune-IsValid : (m : SessionManager) (now_ms : ℕ) → IsValid m → IsValid (prune m now_ms)
prune-IsValid m now_ms v =
    let (_, same, fewer) = entries-compacted m now_ms (omega arith) in
    let in_range = prune-in_range m now_ms (omega (arith, same, fewer)) in
    rw (prune-compacted m now_ms)
      (record { slots = same ∙ v.slots; bounded = omega (arith, fewer); in_range = in_range })

-- What the program does with a registry.
pub data Operation : Type 0 where
  sees : Device → ℕ → Operation
  adds_manual : List ℕ → Operation
  prunes : ℕ → Operation
  moves : ℤ → Operation
  remembers : Operation

pub perform : SessionManager → Operation → SessionManager
perform m (sees d now_ms) = seen m d now_ms
perform m (adds_manual host) = add_manual m host
perform m (prunes now_ms) = prune m now_ms
perform m (moves delta) = move m delta
perform m remembers = remember_selected m

pub perform_all : SessionManager → List Operation → SessionManager
perform_all m [] = m
perform_all m (op ∷ ops) = perform_all (perform m op) ops

perform-IsValid : (m : SessionManager) (op : Operation) → IsValid m → IsValid (perform m op)
unfolding perform
perform-IsValid m (sees d now_ms) v = seen-IsValid m d now_ms v
perform-IsValid m (adds_manual host) v = add_manual-IsValid m host v
perform-IsValid m (prunes now_ms) v = prune-IsValid m now_ms v
perform-IsValid m (moves delta) v = move-IsValid m delta v
perform-IsValid m remembers v = remember_selected-IsValid m v

perform_all-IsValid :
    (m : SessionManager) (ops : List Operation) → IsValid m → IsValid (perform_all m ops)
unfolding perform_all
perform_all-IsValid m [] v = v
perform_all-IsValid m (op ∷ ops) v = perform_all-IsValid (perform m op) ops (perform-IsValid m op v)

-- After any operations on a fresh registry no more than the eight slots are in use, and the
-- selection is one of the entries in use, or 0 if there is none.
pub reachable-IsValid : (ops : List Operation) → IsValid (perform_all init ops)
reachable-IsValid ops = perform_all-IsValid init ops init-IsValid
