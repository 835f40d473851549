-- ===== src/Media/Player.antt =====
-- src/ndl_media.c: the wrapper of the decoder library: its life, and the feeding of a frame under the
-- lock, with the statistics. The answers of the library, the allocator and the clock are arguments; a
-- pointer is not NULL.
pub mod Laws
pub mod Life
use sysdvr_webos.Prelude.{
  ℕ, zero, suc, ◌+◌, ◌-◌, ◌*◌, ◌/◌, ◌%◌, ◌^◌, ◌≤◌, ◌<◌, min, ◌≡◌, refl, sym, ap, ap₂, subst, ◌∙◌,
  ◌≢◌, ◌↔◌, ◌⊎◌, inl, inr, Bool, true, false, not, ◌&&◌, ◌||◌, Option, none, some, List, [], ◌∷◌,
  ◌++◌, map, append-nil, append_assoc, arith, ltb, leb, ◌==◌, ◌!=◌, if◌then◌else◌, ltb→lt, lt→ltb,
  ltb_false→le, le→ltb_false, leb→le, le→leb, leb_false→lt, lt→leb_false, ==_iff, Bool-cases,
  Option-cases, length, get_elem?, get_or, set, take, drop, replicate, length-append, length-take,
  length-drop, length-set, length-replicate, take_all, drop_all, take-append, drop-append,
  take-append_le, drop-append_le, take-append-drop, take_exact, drop_exact, drop-drop,
  drop-set_before, take-set_next, take_next, get_or-take,
}
use sysdvr_webos.Prelude.Words.{u64}
use sysdvr_webos.Resources.{lock, memory, library, player, Call, acquires, releases}
use sysdvr_webos.Media.{FeedResult, feed_ok, feed_retry, feed_error}
use sysdvr_webos.Sft.Backend.{sub_u64}

-- The statistics of one kind of stream.
pub record Tally : Type 0 where
  pub lock_wait_total_us : ℕ
  pub call_total_us : ℕ
  pub lock_wait_max_us : ℕ
  pub call_max_us : ℕ
  pub feed_count : ℕ
  pub slow_lock_count : ℕ
  pub slow_call_count : ℕ

abbrev pub no_feeds : Tally
no_feeds = record {
  lock_wait_total_us = 0;
  call_total_us = 0;
  lock_wait_max_us = 0;
  call_max_us = 0;
  feed_count = 0;
  slow_lock_count = 0;
  slow_call_count = 0;
}

pub record NdlMedia : Type 0 where
  pub initialized : Bool
  pub loaded : Bool
  pub video : Tally
  pub audio : Tally

-- After `calloc`.
abbrev blank : NdlMedia
blank = record { initialized = false; loaded = false; video = no_feeds; audio = no_feeds }

-- `ndl_media_create`: whether the memory, the lock and the library are there.
unfoldable pub create : Bool → Bool → Bool → Option NdlMedia × List Call
create allocates inits_lock inits_library =
    if not allocates
    then (none, [])
    else if not inits_lock
    then (none, acquires (memory, 0) ∷ releases (memory, 0) ∷ [])
    else if not inits_library
    then (
      none,
      acquires (memory, 0) ∷ acquires (lock, 0) ∷ releases (lock, 0) ∷ releases (memory, 0) ∷ [],
    )
    else (
      some (record blank { initialized = true }),
      acquires (memory, 0) ∷ acquires (lock, 0) ∷ acquires (library, 0) ∷ [],
    )

-- `ndl_media_open_internal`; a video area that cannot be set is only logged.
unfoldable pub open_internal : NdlMedia → Bool → Bool × (NdlMedia × List Call)
open_internal p loads =
    if not p.initialized
    then (false, (p, []))
    else if not loads
    then (false, (p, []))
    else (true, (record p { loaded = true }, acquires (player, 0) ∷ []))

-- A call of `ndl_media_feed_video` or `ndl_media_feed_audio`: the data, the readings of the clock before
-- and after the lock and before and after the call, and whether the library takes the frame.
pub record Feed : Type 0 where
  pub is_audio : Bool
  pub bytes : List ℕ
  pub lock_begin : ℕ
  pub lock_acquired : ℕ
  pub call_begin : ℕ
  pub call_end : ℕ
  pub takes : Bool

abbrev pub lock_wait : Feed → ℕ
lock_wait f = sub_u64 f.lock_acquired f.lock_begin

abbrev pub call_us : Feed → ℕ
call_us f = sub_u64 f.call_end f.call_begin

abbrev pub slow_us : ℕ
slow_us = 20000

abbrev pub raise_max : ℕ → ℕ → ℕ
raise_max old new = if ltb old new then new else old

abbrev pub count_slow : ℕ → ℕ → ℕ
count_slow us n = if leb slow_us us then u64 (n + 1) else n

unfoldable pub add_feed : Tally → ℕ → ℕ → Tally
add_feed t wait call = record {
  feed_count = u64 (t.feed_count + 1);
  lock_wait_total_us = u64 (t.lock_wait_total_us + wait);
  call_total_us = u64 (t.call_total_us + call);
  lock_wait_max_us = raise_max t.lock_wait_max_us wait;
  call_max_us = raise_max t.call_max_us call;
  slow_lock_count = count_slow wait t.slow_lock_count;
  slow_call_count = count_slow call t.slow_call_count;
}

abbrev pub is_empty_data : List ℕ → Bool
is_empty_data [] = true
is_empty_data (b ∷ bs) = false

unfoldable pub feed_locked : NdlMedia → Feed → FeedResult × NdlMedia
feed_locked p f = if not p.loaded || is_empty_data f.bytes then (feed_error, p) else (
  if f.takes then feed_ok else feed_retry,
  if f.is_audio
      then record p { audio = add_feed p.audio (lock_wait f) (call_us f) }
      else record p { video = add_feed p.video (lock_wait f) (call_us f) },
)

unfoldable pub feed_all : List Feed → NdlMedia → NdlMedia
feed_all [] p = p
feed_all (f ∷ fs) p = feed_all fs (feed_locked p f).1

abbrev unload : Bool → List Call → List Call
unload true rest = releases (player, 0) ∷ rest
unload false rest = rest

abbrev quit : Bool → List Call → List Call
quit true rest = releases (library, 0) ∷ rest
quit false rest = rest

-- `ndl_media_destroy`; the averages are only logged.
unfoldable pub destroy : NdlMedia → List Call
destroy p = unload p.loaded (quit p.initialized (releases (lock, 0) ∷ releases (memory, 0) ∷ []))
