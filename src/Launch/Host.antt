-- ===== src/Launch/Host.antt =====
-- src/webos_main.c: `launch_json`, `exe_dir`, `load_default_host`, and what `main` makes of them: the
-- path of the log and the registry that the selector starts with. The file system is a function from a
-- path to the content of a readable file.
pub mod Line
use sysdvr_webos.Prelude.{
  ℕ, zero, suc, ◌+◌, ◌-◌, ◌*◌, ◌/◌, ◌%◌, ◌^◌, ◌≤◌, ◌<◌, min, ◌≡◌, refl, sym, ap, ap₂, subst, ◌∙◌,
  ◌≢◌, ◌↔◌, ◌⊎◌, inl, inr, Bool, true, false, not, ◌&&◌, ◌||◌, Option, none, some, List, [], ◌∷◌,
  ◌++◌, map, append-nil, append_assoc, arith, ltb, leb, ◌==◌, ◌!=◌, if◌then◌else◌, ltb→lt, lt→ltb,
  ltb_false→le, le→ltb_false, leb→le, le→leb, leb_false→lt, lt→leb_false, ==_iff, Bool-cases,
  Option-cases, length, get_elem?, get_or, set, take, drop, replicate, length-append, length-take,
  length-drop, length-set, length-replicate, take_all, drop_all, take-append, drop-append,
  take-append_le, drop-append_le, take-append-drop, take_exact, drop_exact, drop-drop,
  drop-set_before, take-set_next, take_next, get_or-take,
}
use sysdvr_webos.Prelude.CString.{codes, copy_text, is_empty, str_eq}
use sysdvr_webos.Session.{SessionManager, init, add_manual}
use sysdvr_webos.Launch.{json_string}

abbrev pub path_max : ℕ
path_max = 4096

abbrev pub Files : Type 0
Files = List ℕ → Option (List ℕ)

abbrev starts_object : List ℕ → Bool
starts_object [] = false
starts_object (c ∷ cs) = c == b'{'

-- The arguments behind the program's name; `none` is a pointer that is NULL.
unfoldable pub launch_json : List (Option (List ℕ)) → Option (List ℕ)
launch_json [] = none
launch_json (none ∷ args) = launch_json args
launch_json (some arg ∷ args) =
    let rest = launch_json args in if starts_object arg then some arg else rest

abbrev pub at_slash : ℕ → Option (List ℕ) → Option (List ℕ)
at_slash c (some dir) = some (c ∷ dir)
at_slash c none = if c == b'/' then some [] else none

-- The text before the last slash.
unfoldable pub before_slash : List ℕ → Option (List ℕ)
before_slash [] = none
before_slash (c ∷ cs) = at_slash c (before_slash cs)

-- What `readlink` gives is cut to `out_size - 1` bytes.
abbrev pub dir_of_link : ℕ → Option (List ℕ) → Option (List ℕ)
dir_of_link out_size none = none
dir_of_link out_size (some link) =
    let path = copy_text out_size link in if is_empty path then none else before_slash path

unfoldable pub exe_dir : ℕ → Option (List ℕ) → Option (List ℕ)
unfolding before_slash
exe_dir out_size link = dir_of_link out_size link

abbrev pub is_break : ℕ → Bool
is_break c = (c == 13) || (c == 10) || (c == 9) || (c == 32)

-- A line with its newline, of at most `room` bytes.
unfoldable pub line_of : ℕ → List ℕ → List ℕ
line_of zero content = []
line_of (suc room) [] = []
line_of (suc room) (c ∷ cs) = let rest = line_of room cs in if c == 10 then c ∷ [] else c ∷ rest

-- `fgets`; `none` is the end of the file.
unfoldable pub fgets : ℕ → List ℕ → Option (List ℕ)
unfolding line_of
fgets size content = if is_empty content then none else some (line_of (size - 1) content)

-- `out[strcspn(out, "\r\n\t ")] = '\0'`
unfoldable pub until_break : List ℕ → List ℕ
until_break [] = []
until_break (c ∷ cs) = let rest = until_break cs in if is_break c || (c == 0) then [] else c ∷ rest

abbrev pub accept_host : List ℕ → Option (List ℕ)
accept_host host =
    if is_empty host then none else if str_eq host (codes "CHANGE_ME") then none else some host

abbrev pub cut_line : Option (List ℕ) → Option (List ℕ)
cut_line none = none
cut_line (some line) = accept_host (until_break line)

abbrev pub read_host : ℕ → Option (List ℕ) → Option (List ℕ)
read_host out_size none = none
read_host out_size (some content) = cut_line (fgets out_size content)

abbrev pub host_file : List ℕ → List ℕ
host_file dir = copy_text path_max (dir ++ codes "/switch_ip.txt")

abbrev pub host_beside : ℕ → Files → Option (List ℕ) → Option (List ℕ)
host_beside out_size files none = none
host_beside out_size files (some dir) = read_host out_size (files (host_file dir))

unfoldable pub load_default_host : ℕ → Files → Option (List ℕ) → Option (List ℕ)
unfolding exe_dir fgets until_break
load_default_host out_size files link = host_beside out_size files (exe_dir path_max link)

abbrev pub parameter : Option (List ℕ) → List ℕ → ℕ → Option (List ℕ)
parameter none key out_size = none
parameter (some json) key out_size = json_string json key out_size

abbrev log_beside : Option (List ℕ) → List ℕ
log_beside none = codes "/tmp/sysdvr-webos.log"
log_beside (some dir) = copy_text path_max (dir ++ codes "/sysdvr-webos.log")

abbrev or_beside : Option (List ℕ) → Option (List ℕ) → List ℕ
or_beside (some path) dir = path
or_beside none dir = log_beside dir

-- The path of the log in `main`.
unfoldable pub log_path : Option (List ℕ) → Option (List ℕ) → List ℕ
unfolding exe_dir
log_path json link = or_beside (parameter json (codes "log") path_max) (exe_dir path_max link)

abbrev pub host_size : ℕ
host_size = 256

abbrev pub or_default : Option (List ℕ) → Option (List ℕ) → Option (List ℕ)
or_default (some host) default = some host
or_default none default = default

abbrev pub with_manual : Option (List ℕ) → SessionManager
with_manual none = init
with_manual (some host) = add_manual init host

-- The registry before the loop of `main`.
unfoldable pub start_registry : List (Option (List ℕ)) → Files → Option (List ℕ) → SessionManager
unfolding launch_json load_default_host
start_registry args files link = with_manual (
    or_default (parameter (launch_json args) (codes "host") host_size)
      (load_default_host host_size files link))
