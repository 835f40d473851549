-- ===== src/Selector/Preference.antt =====
-- src/webos_main.c: looking for the preferred console leaves the preference as it was.
use sysdvr_webos.Prelude.{
  ℕ, ◌≡◌, refl, sym, ap, ◌∙◌, inl, inr, Bool, true, false, not, ◌&&◌, Option, none, some, List, [],
  ◌∷◌, arith, ◌==◌, if◌then◌else◌, Bool-cases,
}
use sysdvr_webos.Device.{StreamSource, Device, source_eq}
use sysdvr_webos.Prelude.CString.{str_eq, is_empty}
use sysdvr_webos.Session.{
  SessionManager, find_same, store_sighting, seen, compacted, has_selection, selected_info,
  reselect, prune, matches_preferred,
}
use sysdvr_webos.Selector.{
  Polled, sees, nothing, failed, Scans, Round, seek, seek_scanner, Wait, cancelled, or_else,
  is_backish, wait_for_preferred_console,
}

abbrev pub Preference : Type 0
Preference = Bool × (List ℕ × (List ℕ × StreamSource))

abbrev pub preference : SessionManager → Preference
preference m = (m.have_preferred, (m.preferred_host, (m.preferred_serial, m.preferred_source)))

abbrev meets : Preference → Device → Bool
meets (have, (host, (serial, source))) d =
    if not have
    then false
    else if not (source_eq source d.source)
    then false
    else if not (is_empty serial) && not (is_empty d.serial)
    then str_eq serial d.serial
    else str_eq host d.host

meets_lem : (m : SessionManager) (d : Device) → matches_preferred m d ≡ meets (preference m) d
unfolding matches_preferred
meets_lem m d = refl

pub matches_preferred_same :
    (m m' : SessionManager) (d : Device)
    → preference m ≡ preference m'
    → matches_preferred m d ≡ matches_preferred m' d
matches_preferred_same m m' d e = meets_lem m d ∙ (ap (λ p. meets p d) e ∙ sym (meets_lem m' d))

store_sighting-preference :
    (m : SessionManager) (d : Device) (now : ℕ) (o : Option ℕ)
    → preference (store_sighting m d now o) ≡ preference m
unfolding store_sighting
store_sighting-preference m d now (some i) = refl
store_sighting-preference m d now none = ground arith

pub seen-preference :
    (m : SessionManager) (d : Device) (now : ℕ) → preference (seen m d now) ≡ preference m
unfolding seen
seen-preference m d now = store_sighting-preference m d now (find_same m.devices d 0 m.count)

reselect-preference : (m : SessionManager) (o : Option ℕ) → preference (reselect m o) ≡ preference m
unfolding reselect
reselect-preference m (some i) = refl
reselect-preference m none = ground arith

compacted-preference : (m : SessionManager) (now : ℕ) → preference (compacted m now) ≡ preference m
unfolding compacted
compacted-preference m now = refl

prune-preference : (m : SessionManager) (now : ℕ) → preference (prune m now) ≡ preference m
unfolding prune
prune-preference m now =
    let m' = compacted m now in
    let o = if has_selection m then find_same m'.devices (selected_info m) 0 m'.count else none in
    elim (Bool-cases (m'.count == 0)) [
      | inl empty ↦ rw empty (compacted-preference m now)
      | inr more ↦ rw more (reselect-preference m' o ∙ compacted-preference m now)
    ]

seek-preference : (ps : List Polled) (m : SessionManager) → preference (seek ps m).1 ≡ preference m
unfolding seek
seek-preference [] m = refl
seek-preference (nothing ∷ ps) m = refl
seek-preference (failed ∷ ps) m = refl
seek-preference (sees d now ∷ ps) m = elim (Bool-cases (matches_preferred (seen m d now) d)) [
  | inl here ↦ rw here (seen-preference m d now)
  | inr other ↦ rw other (seek-preference ps (seen m d now) ∙ seen-preference m d now)
]

seek_scanner-preference :
    (s : Scans) (m : SessionManager) → preference (seek_scanner s m).1 ≡ preference m
seek_scanner-preference none m = refl
seek_scanner-preference (some ps) m = seek-preference ps m

or_else-preference :
    (r : Option Device × SessionManager) (next : SessionManager → Wait × SessionManager)
    (p : Preference)
    → preference r.1 ≡ p
    → ((m : SessionManager) → preference m ≡ p → preference (next m).1 ≡ p)
    → preference (or_else r next).1 ≡ p
or_else-preference (some d, m) next p e h = e
or_else-preference (none, m) next p e h = h m e

guarded-preference :
    (stop alive backish : Bool) (m : SessionManager) (next : Wait × SessionManager) (p : Preference)
    → preference m ≡ p
    → preference next.1 ≡ p
    → preference
        (if stop
          then (cancelled, m)
          else if not alive
          then (cancelled, m)
          else if backish
          then (cancelled, m)
          else next).1
      ≡ p
guarded-preference true alive backish m next p e h = e
guarded-preference false false backish m next p e h = e
guarded-preference false true true m next p e h = e
guarded-preference false true false m next p e h = h

pub wait-preference :
    (rs : List Round) (m : SessionManager)
    → preference (wait_for_preferred_console rs m).1 ≡ preference m
unfolding wait_for_preferred_console
wait-preference [] m = refl
wait-preference (r ∷ rs) m =
    guarded-preference r.stop r.alive (is_backish r.action) m _ (preference m) refl (
      or_else-preference (seek_scanner r.sysdvr_scans m) _ (preference m)
        (seek_scanner-preference r.sysdvr_scans m)
        (λ m' e.
          or_else-preference (seek_scanner r.sft_scans m') _ (preference m)
            (seek_scanner-preference r.sft_scans m' ∙ e)
            (λ m'' e'.
              wait-preference rs (prune m'' r.now_ms) ∙ (prune-preference m'' r.now_ms ∙ e'))))
