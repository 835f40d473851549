-- ===== src/Log.antt =====
-- src/log.c: the capture of the log, which stops at a time and a size. The clock, the size of the file
-- and the opening of files are arguments; a line is its text without the time stamp.
pub mod Laws
use sysdvr_webos.Prelude.{
  ℕ, zero, suc, ◌+◌, ◌-◌, ◌*◌, ◌/◌, ◌%◌, ◌^◌, ◌≤◌, ◌<◌, min, ◌≡◌, refl, sym, ap, ap₂, subst, ◌∙◌,
  ◌≢◌, ◌↔◌, ◌⊎◌, inl, inr, Bool, true, false, not, ◌&&◌, ◌||◌, Option, none, some, List, [], ◌∷◌,
  ◌++◌, map, append-nil, append_assoc, arith, ltb, leb, ◌==◌, ◌!=◌, if◌then◌else◌, ltb→lt, lt→ltb,
  ltb_false→le, le→ltb_false, leb→le, le→leb, leb_false→lt, lt→leb_false, ==_iff, Bool-cases,
  Option-cases, length, get_elem?, get_or, set, take, drop, replicate, length-append, length-take,
  length-drop, length-set, length-replicate, take_all, drop_all, take-append, drop-append,
  take-append_le, drop-append_le, take-append-drop, take_exact, drop_exact, drop-drop,
  drop-set_before, take-set_next, take_next, get_or-take,
}
use sysdvr_webos.Prelude.CString.{codes, copy_text, is_empty}
use sysdvr_webos.Prelude.Words.{u64}

-- The static variables.
pub record Log : Type 0 where
  pub initialized : Bool
  pub persistent : Bool
  pub stopped : Bool
  pub start_us : ℕ
  pub max_duration_us : ℕ
  pub max_bytes : ℕ
  pub path : List ℕ

-- What goes to `stderr`: a line, or the last notice before `stderr` is sent to /dev/null.
pub data Written : Type 0 where
  line : List ℕ → Written
  notice : List ℕ → Written

-- What a call of the log sees: `monotonic_us` and `current_log_size`.
pub record Sight : Type 0 where
  pub now_us : ℕ
  pub size : ℕ

unfoldable pub disable_persistent_logging : List ℕ → Log → Log × List Written
disable_persistent_logging reason g =
    if not g.persistent || g.stopped
    then (g, [])
    else (record g { stopped = true }, notice reason ∷ [])

abbrev pub time_reason : List ℕ
time_reason = codes "time limit reached"

abbrev pub size_reason : List ℕ
size_reason = codes "file size limit reached"

abbrev pub time_over : Log → ℕ → Bool
time_over g now =
    (g.max_duration_us != 0) && (leb g.start_us now && leb g.max_duration_us (now - g.start_us))

abbrev pub size_over : Log → ℕ → Bool
size_over g size = (g.max_bytes != 0) && leb g.max_bytes size

unfoldable pub limit_reached : Log → Sight → Bool × (Log × List Written)
unfolding disable_persistent_logging
limit_reached g s =
    if not g.persistent || g.stopped
    then (g.stopped, (g, []))
    else if time_over g s.now_us
    then (true, disable_persistent_logging time_reason g)
    else if size_over g s.size
    then (true, disable_persistent_logging size_reason g)
    else (false, (g, []))

-- `sysdvr_log_printf`; `none` is a format that is NULL.
unfoldable pub log_printf : Option (List ℕ) → Sight → Log → Log × List Written
unfolding limit_reached
log_printf none s g = (g, [])
log_printf (some text) s g =
    let (reached, (g', written)) = limit_reached g s in
    if g.stopped
    then (g, [])
    else if not g.initialized
    then (g, line text ∷ [])
    else if reached
    then (g', written)
    else (g', written ++ line text ∷ [])

abbrev is_named : Option (List ℕ) → Bool
is_named none = false
is_named (some p) = not (is_empty p)

abbrev path_text : Option (List ℕ) → List ℕ
path_text none = []
path_text (some p) = copy_text 768 p

-- `sysdvr_log_init`: the path (`none` is NULL), the limits, whether the file opens, the clock at the
-- start, and what the first line sees. The result is `g_persistent`.
unfoldable pub log_init : Option (List ℕ) → ℕ → ℕ → Bool → ℕ → Sight → Bool × (Log × List Written)
unfolding log_printf
log_init path max_minutes max_bytes opens now s =
    let fresh : Log = record {
      initialized = true;
      persistent = is_named path && opens;
      stopped = false;
      start_us = now;
      max_duration_us = u64 (max_minutes * 60 * 1000000);
      max_bytes = max_bytes;
      path = path_text path;
    } in
    (is_named path && opens, log_printf (some (codes "[log] capture started")) s fresh)

unfoldable pub log_close : Sight → Log → Log × List Written
unfolding log_printf
log_close s g =
    let (g', written) =
      if g.stopped
      then (g, [])
      else log_printf (some (codes "[log] capture closed normally")) s g in
    if not g.initialized
    then (g, [])
    else (record g' { initialized = false; persistent = false }, written)

-- The calls of `sysdvr_log_printf` of a run.
abbrev pub Entry : Type 0
Entry = List ℕ × Sight

unfoldable pub log_all : List Entry → Log → Log × List Written
log_all [] g = (g, [])
log_all ((text, s) ∷ es) g =
    let (g', written) = log_printf (some text) s g in
    let (g'', more) = log_all es g' in (g'', written ++ more)
