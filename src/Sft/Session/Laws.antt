-- ===== src/Sft/Session/Laws.antt =====
-- src/frametap_backend.c, `frametap_run_stream_session`: what is held at the end, the screen and the
-- result.
use sysdvr_webos.Prelude.{
  ◌+◌, ◌-◌, ◌^◌, ◌≤◌, ◌≡◌, refl, sym, subst, inl, inr, true, false, ◌&&◌, ◌||◌, List, [], ◌∷◌, ◌++◌,
  arith, leb, Bool-cases, ℕ, some, none, ◌∙◌,
}
use sysdvr_webos.Prelude.Words.{u32}
use sysdvr_webos.Resources.{
  Call, acquires, releases, socket, lock, thread, IsBalanced, held_after, release, any_thread,
  remove, same, same_refl, held_after-append, held_after-acquire_release,
}
use sysdvr_webos.Net.Connect.{Connected, tcp_connect_timeout}
use sysdvr_webos.Net.Connect.Laws.{opened, tcp_connect_timeout_lem}
use sysdvr_webos.Selector.{is_backish}
use sysdvr_webos.Sft.Session.{
  Tick, Screen, clears, waits, Watch, start, draw, watch, Environment, on_connection,
  run_stream_session,
}

-- Once the screen is cleared nothing is drawn; before, two texts are at least half a second apart.
abbrev pub Leaves : Watch → List Screen → Type 0
Leaves w [] = Unit {0}
Leaves w (clears ∷ ss) = (w.ui_cleared ≡ false) × (ss ≡ [])
Leaves w (waits now text ∷ ss) =
    (w.ui_cleared ≡ false)
    × (500 ≤ u32 (now + 2 ^ 32 - w.last_wait_render))
    × Leaves (record w { last_wait_render = now }) ss

-- A round of the loop draws nothing more, or what `draw` says and then the rest.
watch_cases :
    (P : List Screen → Type 0) (t : Tick) (ts : List Tick) (w : Watch)
    → P []
    → P ((draw t w).1 ++ (watch ts (draw t w).0).1)
    → P (watch (t ∷ ts) w).1
unfolding watch draw
watch_cases P t ts w done more = elim (Bool-cases (t.stop || t.finished)) [
  | inl over ↦ rw over done
  | inr on ↦ elim (Bool-cases t.alive) [
    | inr dead ↦ rw (on, dead) done
    | inl alive ↦ elim (Bool-cases (is_backish t.action)) [
      | inl back ↦ rw (on, alive, back) done
      | inr other ↦ rw (on, alive, other) more
    ]
  ]
]

draw_cleared : (t : Tick) (w : Watch) → w.ui_cleared ≡ true → draw t w ≡ (w, [])
unfolding draw
draw_cleared t w h = ground arith

cleared_silent : (ts : List Tick) (w : Watch) → w.ui_cleared ≡ true → (watch ts w).1 ≡ []
unfolding watch
cleared_silent [] w h = refl
cleared_silent (t ∷ ts) w h =
    watch_cases (λ ss. ss ≡ []) t ts w refl
      (subst (λ (d : Watch × List Screen). d.1 ++ (watch ts d.0).1 ≡ []) (sym (draw_cleared t w h))
        (cleared_silent ts w h))

-- What `draw` did, and what follows it.
draw-Leaves :
    (t : Tick) (w : Watch) (more : Watch → List Screen)
    → ((w' : Watch) → Leaves w' (more w'))
    → ((w' : Watch) → w'.ui_cleared ≡ true → more w' ≡ [])
    → Leaves w ((draw t w).1 ++ more (draw t w).0)
unfolding draw
draw-Leaves t w more ok silent = elim (Bool-cases w.ui_cleared) [
  | inl cleared ↦
      subst (λ (d : Watch × List Screen). Leaves w (d.1 ++ more d.0))
        (sym (draw_cleared t w cleared)) (ok w)
  | inr shown ↦ elim (Bool-cases t.video_started) [
    | inl video ↦
        subst (λ (d : Watch × List Screen). Leaves w (d.1 ++ more d.0)) (sym (to_video shown video))
          (shown, silent (record w { ui_cleared = true }) refl)
    | inr none_yet ↦
        elim (Bool-cases (t.connected && leb 500 (u32 (t.ticks + 2 ^ 32 - w.last_wait_render)))) [
          | inl due ↦
              subst (λ (d : Watch × List Screen). Leaves w (d.1 ++ more d.0))
                (sym (to_text shown none_yet due))
                (shown, ground arith, ok (record w { last_wait_render = t.ticks }))
          | inr early ↦
              subst (λ (d : Watch × List Screen). Leaves w (d.1 ++ more d.0))
                (sym (to_none shown none_yet early)) (ok w)
        ]
  ]
]
  where
    to_video :
        w.ui_cleared ≡ false
        → t.video_started ≡ true
        → draw t w ≡ (record w { ui_cleared = true }, clears ∷ [])
    to_video a b = ground arith

    to_text :
        w.ui_cleared ≡ false
        → t.video_started ≡ false
        → (t.connected && leb 500 (u32 (t.ticks + 2 ^ 32 - w.last_wait_render))) ≡ true
        → draw t w ≡ (record w { last_wait_render = t.ticks }, waits t.ticks t.status ∷ [])
    to_text a b c = ground arith

    to_none :
        w.ui_cleared ≡ false
        → t.video_started ≡ false
        → (t.connected && leb 500 (u32 (t.ticks + 2 ^ 32 - w.last_wait_render))) ≡ false
        → draw t w ≡ (w, [])
    to_none a b c = ground arith

watch-Leaves : (ts : List Tick) (w : Watch) → Leaves w (watch ts w).1
unfolding watch
watch-Leaves [] w = tt
watch-Leaves (t ∷ ts) w =
    watch_cases (Leaves w) t ts w tt
      (draw-Leaves t w (λ w'. (watch ts w').1) (λ w'. watch-Leaves ts w') (cleared_silent ts))

-- What follows a connection gives back the socket and the lock, the thread first.
close_socket : (fd : ℕ) → held_after (releases (socket, fd) ∷ []) ((socket, fd) ∷ []) ≡ some []
unfolding held_after release any_thread remove
close_socket fd = ground (arith, same_refl (socket, fd))

no_thread_closes :
    (fd : ℕ)
    → held_after
        (acquires (lock, 0) ∷ releases (lock, 0) ∷ releases (socket, fd) ∷ [])
        ((socket, fd) ∷ [])
      ≡ some []
no_thread_closes fd =
    held_after-acquire_release (lock, 0) (releases (socket, fd) ∷ []) ((socket, fd) ∷ [])
      (unfold any_thread in refl) refl
    ∙ close_socket fd

joined_closes :
    (fd : ℕ)
    → held_after
        (acquires (lock, 0)
          ∷ acquires (thread, 0)
          ∷ releases (thread, 0)
          ∷ releases (socket, fd)
          ∷ releases (lock, 0)
          ∷ [])
        ((socket, fd) ∷ [])
      ≡ some []
unfolding held_after release any_thread remove same
joined_closes fd = ground arith

on_connection_lem :
    (e : Environment) (c : Connected)
    → held_after c.1 [] ≡ some (opened c.0)
    → IsBalanced (on_connection e c).calls × Leaves start (on_connection e c).screens
unfolding on_connection
on_connection_lem e (none, tried) kept = (kept, tt)
on_connection_lem e (some fd, tried) kept = elim (Bool-cases e.inits_lock) [
  | inr no_lock ↦ rw no_lock (behind _ (close_socket fd), tt)
  | inl inits ↦ elim (Bool-cases e.starts_thread) [
    | inr no_thread ↦ rw (inits, no_thread) (behind _ (no_thread_closes fd), tt)
    | inl starts ↦ rw (inits, starts) (behind _ (joined_closes fd), watch-Leaves e.ticks start)
  ]
]
  where
    behind :
        (after : List Call)
        → held_after after ((socket, fd) ∷ []) ≡ some []
        → IsBalanced (tried ++ after)
    behind after closes = held_after-append tried after [] ((socket, fd) ∷ []) kept ∙ closes

-- However a Frame Tap session ends, every socket of the connecting, the lock and the thread that it has
-- acquired are given back exactly once, the thread before the socket and the lock of the session; the
-- waiting texts come at most every 500 ms, and once the screen has been cleared for the video nothing is
-- drawn over it.
pub run_stream_session_lem :
    (e : Environment)
    → IsBalanced (run_stream_session e).calls × Leaves start (run_stream_session e).screens
unfolding run_stream_session
run_stream_session_lem e =
    on_connection_lem e (tcp_connect_timeout e.addresses) (tcp_connect_timeout_lem e.addresses).1
