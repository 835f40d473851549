-- ===== src/Media/Player/Laws.antt =====
-- src/ndl_media.c: what the statistics of the decoder say.
use sysdvr_webos.Prelude.{
  ℕ, suc, ◌+◌, ◌^◌, ◌<◌, ◌≡◌, refl, sym, ap, subst, ◌∙◌, inl, inr, Bool, true, false, List, [], ◌∷◌,
  map, arith, leb, if◌then◌else◌, Bool-cases, length,
}
use sysdvr_webos.Prelude.Words.{u64}
use sysdvr_webos.Media.Player.{
  Tally, no_feeds, NdlMedia, Feed, lock_wait, call_us, slow_us, raise_max, count_slow, add_feed,
  is_empty_data, feed_locked, feed_all,
}

-- A list of durations in the order of time: their sum, the longest, and how many are slow.
pub sum : List ℕ → ℕ
sum [] = 0
sum (x ∷ xs) = x + sum xs

pub longest : List ℕ → ℕ
longest [] = 0
longest (x ∷ xs) = raise_max x (longest xs)

pub slow : List ℕ → ℕ
slow [] = 0
slow (x ∷ xs) = if leb slow_us x then suc (slow xs) else slow xs

-- The feeds of one kind that reach the library.
pub of_kind : Bool → List Feed → List Feed
of_kind is_audio [] = []
of_kind is_audio (f ∷ fs) =
    let rest = of_kind is_audio fs in
    if is_empty_data f.bytes
    then rest
    else if f.is_audio
    then (if is_audio then f ∷ rest else rest)
    else if is_audio
    then rest
    else f ∷ rest

abbrev pub tally_of : Bool → NdlMedia → Tally
tally_of true p = p.audio
tally_of false p = p.video

-- The statistics are those of a list of feeds; counters and sums wrap at 2 ^ 64.
pub record Tells (t : Tally) (fs : List Feed) : Type 0 where
  pub count : t.feed_count ≡ u64 (length fs)
  pub waits : t.lock_wait_total_us ≡ u64 (sum (map lock_wait fs))
  pub calls : t.call_total_us ≡ u64 (sum (map call_us fs))
  pub longest_wait : t.lock_wait_max_us ≡ longest (map lock_wait fs)
  pub longest_call : t.call_max_us ≡ longest (map call_us fs)
  pub slow_waits : t.slow_lock_count ≡ u64 (slow (map lock_wait fs))
  pub slow_calls : t.slow_call_count ≡ u64 (slow (map call_us fs))

add_all : List Feed → Tally → Tally
add_all [] t = t
add_all (f ∷ fs) t = add_all fs (add_feed t (lock_wait f) (call_us f))

feed_all-add_all :
    (is_audio : Bool) (fs : List Feed) (p : NdlMedia)
    → p.loaded ≡ true
    → tally_of is_audio (feed_all fs p) ≡ add_all (of_kind is_audio fs) (tally_of is_audio p)
unfolding feed_all feed_locked of_kind add_all
feed_all-add_all is_audio [] p h = refl
feed_all-add_all true (f ∷ fs) p h = ground (arith, feed_all-add_all true fs (feed_locked p f).1)
feed_all-add_all false (f ∷ fs) p h = ground (arith, feed_all-add_all false fs (feed_locked p f).1)

-- The statistics so far, and those of more feeds.
record Adds (t t' : Tally) (fs : List Feed) : Type 0 where
  count : t'.feed_count ≡ u64 (t.feed_count + length fs)
  waits : t'.lock_wait_total_us ≡ u64 (t.lock_wait_total_us + sum (map lock_wait fs))
  calls : t'.call_total_us ≡ u64 (t.call_total_us + sum (map call_us fs))
  longest_wait : t'.lock_wait_max_us ≡ raise_max t.lock_wait_max_us (longest (map lock_wait fs))
  longest_call : t'.call_max_us ≡ raise_max t.call_max_us (longest (map call_us fs))
  slow_waits : t'.slow_lock_count ≡ u64 (t.slow_lock_count + slow (map lock_wait fs))
  slow_calls : t'.slow_call_count ≡ u64 (t.slow_call_count + slow (map call_us fs))

-- The counters are words.
record IsWord (t : Tally) : Type 0 where
  count : t.feed_count < 2 ^ 64
  waits : t.lock_wait_total_us < 2 ^ 64
  calls : t.call_total_us < 2 ^ 64
  slow_waits : t.slow_lock_count < 2 ^ 64
  slow_calls : t.slow_call_count < 2 ^ 64

add_feed-IsWord : (t : Tally) (w c : ℕ) → IsWord t → IsWord (add_feed t w c)
unfolding add_feed
add_feed-IsWord t w c h = record {
  count = omega arith;
  waits = omega arith;
  calls = omega arith;
  slow_waits = ground arith;
  slow_calls = ground arith;
}

count_slow_step : (x n : ℕ) (xs : List ℕ) → u64 (count_slow x n + slow xs) ≡ u64 (n + slow (x ∷ xs))
unfolding slow
count_slow_step x n xs = elim (Bool-cases (leb slow_us x)) [
  | inl is_slow ↦ rw is_slow (omega arith)
  | inr fast ↦ rw fast refl
]

raise_step : (x m l : ℕ) → raise_max (raise_max m x) l ≡ raise_max m (raise_max x l)
raise_step x m l = ground arith

-- One feed more at the front.
Adds-front :
    (f : Feed) (t t' : Tally) (fs : List Feed)
    → Adds (add_feed t (lock_wait f) (call_us f)) t' fs
    → Adds t t' (f ∷ fs)
unfolding add_feed sum longest
Adds-front f t t' fs a =
    let w = lock_wait f in
    let c = call_us f in
    record {
      count = omega (arith, a.count);
      waits = omega (arith, a.waits);
      calls = omega (arith, a.calls);
      longest_wait = a.longest_wait ∙ raise_step w t.lock_wait_max_us (longest (map lock_wait fs));
      longest_call = a.longest_call ∙ raise_step c t.call_max_us (longest (map call_us fs));
      slow_waits = a.slow_waits ∙ count_slow_step w t.slow_lock_count (map lock_wait fs);
      slow_calls = a.slow_calls ∙ count_slow_step c t.slow_call_count (map call_us fs);
    }

add_all-Adds : (fs : List Feed) (t : Tally) → IsWord t → Adds t (add_all fs t) fs
unfolding add_all sum longest slow
add_all-Adds [] t h = record {
  count = omega arith;
  waits = omega arith;
  calls = omega arith;
  longest_wait = ground arith;
  longest_call = ground arith;
  slow_waits = omega arith;
  slow_calls = omega arith;
}
add_all-Adds (f ∷ fs) t h = Adds-front f t (add_all fs (add_feed t (lock_wait f) (call_us f))) fs (
    add_all-Adds fs (add_feed t (lock_wait f) (call_us f))
      (add_feed-IsWord t (lock_wait f) (call_us f) h))

raise_zero : (x : ℕ) → raise_max 0 x ≡ x
raise_zero x = ground arith

from_zero : (t : Tally) (fs : List Feed) → Adds no_feeds t fs → Tells t fs
from_zero t fs a = record {
  count = omega (arith, a.count);
  waits = omega (arith, a.waits);
  calls = omega (arith, a.calls);
  longest_wait = a.longest_wait ∙ raise_zero (longest (map lock_wait fs));
  longest_call = a.longest_call ∙ raise_zero (longest (map call_us fs));
  slow_waits = omega (arith, a.slow_waits);
  slow_calls = omega (arith, a.slow_calls);
}

no_feeds-IsWord : IsWord no_feeds
no_feeds-IsWord = record {
  count = omega arith;
  waits = omega arith;
  calls = omega arith;
  slow_waits = omega arith;
  slow_calls = omega arith;
}

-- After any feeds of a loaded player that starts with no statistics, the statistics of video and those
-- of audio each tell of the feeds of that kind with data, and of no other: how many, the sum and the
-- longest of the waits for the lock and of the calls, and how many of them took 20 ms or more.
pub feed_all-Tells :
    (is_audio : Bool) (fs : List Feed) (p : NdlMedia)
    → p.loaded ≡ true
    → tally_of is_audio p ≡ no_feeds
    → Tells (tally_of is_audio (feed_all fs p)) (of_kind is_audio fs)
feed_all-Tells is_audio fs p loaded fresh =
    let e = feed_all-add_all is_audio fs p loaded ∙ ap (add_all (of_kind is_audio fs)) fresh in
    subst (λ t. Tells t (of_kind is_audio fs)) (sym e)
      (from_zero (add_all (of_kind is_audio fs) no_feeds) (of_kind is_audio fs)
        (add_all-Adds (of_kind is_audio fs) no_feeds no_feeds-IsWord))
