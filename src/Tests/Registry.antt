-- ===== src/Tests/Registry.antt =====
-- Runs of the registry of src/session_manager.c.
use sysdvr_webos.Selector.{
  chosen, returned, Action, none_pressed, ok, back, sees, nothing, Round, browse_for_device,
  wait_for_preferred_console,
}
use sysdvr_webos.Prelude.{none, some}
use sysdvr_webos.Prelude.{◌≡◌, refl, true, false, some, [], ◌∷◌, arith, replicate}
use sysdvr_webos.Prelude.Int.{negsuc}
use sysdvr_webos.Prelude.CString.{codes}
use sysdvr_webos.Device.{Device, sysdvr, frametap}
use sysdvr_webos.Session.{
  SessionDevice, SessionManager, blank, same_device, init, sighting, seen, keep, prune, move,
  selected_device, remember_selected, matches_preferred,
}
use sysdvr_webos.Session.Entries.{entries, sighted, entries-seen}
use sysdvr_webos.Session.Prune.{fresh, entries-prune}
use sysdvr_webos.Session.Valid.{IsValid, sees, prunes, moves, perform_all, reachable-IsValid}
use sysdvr_webos.Session.Select.{prune-selected, matches_preferred-remember_selected}

abbrev old_console : Device
old_console = record {
  source = sysdvr;
  host = codes "10.0.0.5";
  client_version = codes "6.2";
  protocol = codes "02";
  serial = codes "XAW1";
}

abbrev new_console : Device
new_console = record {
  source = frametap;
  host = codes "10.0.0.6";
  client_version = codes "Frame Tap";
  protocol = codes "SFT";
  serial = [];
}

abbrev selected_entry : SessionDevice
selected_entry = sighting new_console 9000

-- Two consoles, of which the second is selected and the first has not been seen for long.
abbrev registry : SessionManager
registry = record {
  devices = sighting old_console 1000 ∷ selected_entry ∷ replicate 6 blank;
  count = 2;
  selected = 1;
  preferred_serial = [];
  preferred_host = [];
  preferred_source = sysdvr;
  have_preferred = false;
}

abbrev registry_is_valid : IsValid registry
registry_is_valid = record { slots = refl; bounded = omega arith; in_range = omega arith }

reachable-IsValid_example :
    IsValid (perform_all init (sees old_console 5 ∷ moves (negsuc 0) ∷ prunes 9000 ∷ []))
reachable-IsValid_example =
    reachable-IsValid (sees old_console 5 ∷ moves (negsuc 0) ∷ prunes 9000 ∷ [])

entries-seen_example :
    entries (seen registry old_console 9500)
    ≡ sighted old_console (sighting old_console 9500) true (entries registry)
entries-seen_example = entries-seen registry old_console 9500 refl (omega arith)

entries-prune_example : entries (prune registry 9500) ≡ fresh 9500 (entries registry)
entries-prune_example = entries-prune registry 9500 (omega arith)

is_selected : selected_device registry ≡ some selected_entry
unfolding selected_device
is_selected = refl

is_kept : keep 9500 selected_entry ≡ true
unfolding keep
is_kept = refl

prune-selected_example :
    (e : SessionDevice) × (selected_device (prune registry 9500) ≡ some e)
    × (same_device e new_console ≡ true)
prune-selected_example =
    prune-selected registry 9500 selected_entry registry_is_valid is_selected is_kept

matches_preferred-remember_selected_example :
    matches_preferred (remember_selected registry) old_console
    ≡ same_device selected_entry old_console
matches_preferred-remember_selected_example =
    matches_preferred-remember_selected registry selected_entry old_console is_selected
      (omega arith) (omega arith)

abbrev press : Action → Round
press action = record {
  stop = false;
  alive = true;
  action = action;
  sysdvr_scans = some (sees old_console 9500 ∷ nothing ∷ []);
  sft_scans = none;
  now_ms = 9600;
}

is_chosen : (browse_for_device (press ok ∷ []) registry).0 ≡ chosen
unfolding browse_for_device prune sysdvr_webos.Session.compacted sysdvr_webos.Session.compact keep
    seen sysdvr_webos.Session.find_same sysdvr_webos.Session.store_sighting same_device
    sysdvr_webos.Session.reselect sysdvr_webos.Prelude.CString.str_eq move remember_selected
is_chosen = refl

-- The old console is the one to reconnect to.
abbrev lost : SessionManager
lost = record registry {
  preferred_serial = codes "XAW1";
  preferred_host = codes "10.0.0.5";
  have_preferred = true;
}

abbrev lost_is_valid : IsValid lost
lost_is_valid = record { slots = refl; bounded = omega arith; in_range = omega arith }

is_returned : (wait_for_preferred_console (press none_pressed ∷ []) lost).0 ≡ returned old_console
unfolding wait_for_preferred_console sysdvr_webos.Selector.is_backish matches_preferred seen
    same_device sysdvr_webos.Prelude.CString.str_eq
is_returned = refl
