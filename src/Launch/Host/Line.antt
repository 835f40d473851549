-- ===== src/Launch/Host/Line.antt =====
-- src/webos_main.c, `load_default_host`: the host of the file beside the program.
use sysdvr_webos.Prelude.{
  ℕ, zero, suc, ◌≤◌, ◌<◌, ◌≡◌, refl, sym, subst, ap, ◌∙◌, ◌≢◌, true, false, Option, none, some,
  List, [], ◌∷◌, ◌++◌, arith, ◌==◌, length,
}
use sysdvr_webos.Prelude.CString.{codes, copy_text_fits, is_empty, str_eq}
use sysdvr_webos.Session.Entries.{JustManual, add_manual-init}
use sysdvr_webos.Launch.Host.{
  path_max, Files, launch_json, before_slash, exe_dir, is_break, line_of, fgets, until_break,
  accept_host, read_host, host_file, load_default_host, parameter, host_size, with_manual,
  start_registry,
}

-- A name without a slash, and a host without a byte that ends it.
abbrev pub HasNoSlash : List ℕ → Type 0
HasNoSlash [] = Unit {0}
HasNoSlash (c ∷ cs) = (c ≢ b'/') × HasNoSlash cs

abbrev pub IsHost : List ℕ → Type 0
IsHost [] = Unit {0}
IsHost (c ∷ cs) = (is_break c ≡ false) × (c ≢ 0) × IsHost cs

before_slash-none : (name : List ℕ) → HasNoSlash name → before_slash name ≡ none
unfolding before_slash
before_slash-none [] h = refl
before_slash-none (c ∷ cs) h =
    let other : (c == b'/') ≡ false = ground (arith, h.0) in
    rw (before_slash-none cs h.1) (rw other refl)

before_slash-append :
    (dir name : List ℕ) → HasNoSlash name → before_slash (dir ++ b'/' ∷ name) ≡ some dir
unfolding before_slash
before_slash-append [] name h = rw (before_slash-none name h) refl
before_slash-append (c ∷ dir) name h = rw (before_slash-append dir name h) refl

line_of-host :
    (room : ℕ) (host rest : List ℕ) (t : ℕ)
    → IsHost host
    → is_break t ≡ true
    → length host ≤ room
    → until_break (line_of room (host ++ t ∷ rest)) ≡ host
unfolding line_of until_break
line_of-host zero [] rest t h e k = refl
line_of-host (suc room) [] rest t h e k = ground arith
line_of-host zero (c ∷ cs) rest t h e k = absurd (omega arith)
line_of-host (suc room) (c ∷ cs) rest t h e k =
    let (plain, some_byte, more) = h in
    let no_newline : (c == 10) ≡ false = ground arith in
    let no_nul : (c == 0) ≡ false = ground arith in
    rw (no_newline, plain, no_nul)
      (ap (λ xs. c ∷ xs) (line_of-host room cs rest t more e (omega arith)))

not_empty : (host rest : List ℕ) (t : ℕ) → is_empty (host ++ t ∷ rest) ≡ false
not_empty [] rest t = refl
not_empty (c ∷ cs) rest t = refl

read_host-line :
    (host rest : List ℕ) (t : ℕ)
    → IsHost host
    → is_break t ≡ true
    → length host < host_size
    → is_empty host ≡ false
    → str_eq host (codes "CHANGE_ME") ≡ false
    → read_host host_size (some (host ++ t ∷ rest)) ≡ some host
unfolding fgets
read_host-line host rest t h e k n p =
    rw (not_empty host rest t)
      (ap accept_host (line_of-host 255 host rest t h e (omega arith)) ∙ rw (n, p) refl)

some_link : (dir name : List ℕ) → is_empty (dir ++ b'/' ∷ name) ≡ false
some_link [] name = refl
some_link (c ∷ dir) name = refl

exe_dir-append :
    (dir name : List ℕ)
    → HasNoSlash name
    → length (dir ++ b'/' ∷ name) < path_max
    → exe_dir path_max (some (dir ++ b'/' ∷ name)) ≡ some dir
unfolding exe_dir
exe_dir-append dir name h k =
    rw (copy_text_fits path_max (dir ++ b'/' ∷ name) (omega arith), some_link dir name)
      (before_slash-append dir name h)

-- If the program was started without a host among its parameters, and the first line of the file
-- switch_ip.txt in the program's directory is a host (then a blank or a line end, and anything behind
-- it), then the registry starts with just that console, as a manual entry that is selected; its name
-- there is the first 63 bytes of the host. The paths and the host fit their arrays of 4096 and 256
-- bytes, and the host is not empty and not the placeholder CHANGE_ME.
pub start_registry-line :
    (args : List (Option (List ℕ))) (files : Files) (dir name host rest : List ℕ) (t : ℕ)
    → parameter (launch_json args) (codes "host") host_size ≡ none
    → HasNoSlash name
    → length (dir ++ b'/' ∷ name) < path_max
    → length (dir ++ codes "/switch_ip.txt") < path_max
    → files (dir ++ codes "/switch_ip.txt") ≡ some (host ++ t ∷ rest)
    → IsHost host
    → is_break t ≡ true
    → length host < host_size
    → is_empty host ≡ false
    → str_eq host (codes "CHANGE_ME") ≡ false
    → JustManual host (start_registry args files (some (dir ++ b'/' ∷ name)))
unfolding start_registry load_default_host
start_registry-line args files dir name host rest t none_given no_slash k l there h e m n p =
    let path : host_file dir ≡ dir ++ codes "/switch_ip.txt" =
      copy_text_fits path_max (dir ++ codes "/switch_ip.txt") (omega arith) in
    let read = read_host-line host rest t h e m n p in
    rw (none_given, exe_dir-append dir name no_slash k, path, there)
      (subst (λ o. JustManual host (with_manual o)) (sym read) (add_manual-init host n))
