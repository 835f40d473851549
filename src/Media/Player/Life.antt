-- ===== src/Media/Player/Life.antt =====
-- src/ndl_media.c: a player gives back what it has acquired.
use sysdvr_webos.Prelude.{
  ◌≡◌, refl, ◌∙◌, Bool, true, false, Option, none, some, List, [], ◌∷◌, ◌++◌, arith,
}
use sysdvr_webos.Resources.{Call, IsBalanced, held_after, release, any_thread, remove, same}
use sysdvr_webos.Media.Player.{
  NdlMedia, Feed, create, open_internal, feed_locked, feed_all, destroy,
}

-- The calls of a player that is created, opened, fed and destroyed; one that is not created is not
-- destroyed.
pub life_of : Option NdlMedia × List Call → Bool → List Feed → List Call
life_of (none, calls) loads fs = calls
life_of (some p, calls) loads fs =
    let opened = open_internal p loads in calls ++ (opened.1.1 ++ destroy (feed_all fs opened.1.0))

destroy-feed_locked : (p : NdlMedia) (f : Feed) → destroy (feed_locked p f).1 ≡ destroy p
unfolding destroy feed_locked
destroy-feed_locked p f = ground arith

destroy-feed_all : (fs : List Feed) (p : NdlMedia) → destroy (feed_all fs p) ≡ destroy p
unfolding feed_all
destroy-feed_all [] p = refl
destroy-feed_all (f ∷ fs) p = destroy-feed_all fs (feed_locked p f).1 ∙ destroy-feed_locked p f

-- Wherever creating or loading fails, and whatever is fed in between, the memory, the lock, the library
-- and the loaded player are each given back exactly once.
pub player_life-IsBalanced :
    (allocates inits_lock inits_library loads : Bool) (fs : List Feed)
    → IsBalanced (life_of (create allocates inits_lock inits_library) loads fs)
unfolding life_of create open_internal destroy held_after release any_thread remove same
player_life-IsBalanced false l i loads fs = refl
player_life-IsBalanced true false i loads fs = refl
player_life-IsBalanced true true false loads fs = refl
player_life-IsBalanced true true true true fs = rw (destroy-feed_all fs _) refl
player_life-IsBalanced true true true false fs = rw (destroy-feed_all fs _) refl
