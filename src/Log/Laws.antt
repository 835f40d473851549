-- ===== src/Log/Laws.antt =====
-- src/log.c: which lines are captured.
use sysdvr_webos.Prelude.{
  ℕ, ◌+◌, ◌≡◌, refl, sym, ap, subst, inl, inr, Bool, true, false, ◌&&◌, ◌||◌, some, List, [], ◌∷◌,
  ◌++◌, arith, ltb, ◌==◌, if◌then◌else◌, Bool-cases,
}
use sysdvr_webos.Log.{
  Log, Written, line, notice, Sight, time_reason, size_reason, log_printf, Entry, log_all,
}

-- The clock is before the end of the capture, and the file is smaller than the size; a limit of 0 is
-- none.
pub in_time : Log → Sight → Bool
in_time g s = (g.max_duration_us == 0) || ltb s.now_us (g.start_us + g.max_duration_us)

pub in_size : Log → Sight → Bool
in_size g s = (g.max_bytes == 0) || ltb s.size g.max_bytes

abbrev pub within : Log → Sight → Bool
within g s = in_time g s && in_size g s

abbrev pub reason : Log → Sight → List ℕ
reason g s = if in_time g s then size_reason else time_reason

-- The texts up to the first call beyond a limit.
pub captured : Log → List Entry → List Written
captured g [] = []
captured g ((text, s) ∷ es) =
    let rest = captured g es in if within g s then line text ∷ rest else []

-- The notice at that call, if there is one.
pub ending : Log → List Entry → List Written
ending g [] = []
ending g ((text, s) ∷ es) =
    let rest = ending g es in if within g s then rest else notice (reason g s) ∷ []

stopped_silent : (es : List Entry) (g : Log) → g.stopped ≡ true → (log_all es g).1 ≡ []
unfolding log_all log_printf
stopped_silent [] g h = refl
stopped_silent ((text, s) ∷ es) g h = ground (arith, stopped_silent es g h)

-- One call of a capture that runs.
printf_within :
    (text : List ℕ) (s : Sight) (g : Log)
    → g.initialized ≡ true
    → g.persistent ≡ true
    → g.stopped ≡ false
    → within g s ≡ true
    → log_printf (some text) s g ≡ (g, line text ∷ [])
unfolding log_printf in_time in_size
printf_within text s g i p r w = ground arith

printf_beyond :
    (text : List ℕ) (s : Sight) (g : Log)
    → g.initialized ≡ true
    → g.persistent ≡ true
    → g.stopped ≡ false
    → within g s ≡ false
    → log_printf (some text) s g ≡ (record g { stopped = true }, notice (reason g s) ∷ [])
unfolding log_printf in_time in_size
printf_beyond text s g i p r w = ground arith

-- A capture that runs takes every line up to the first call beyond a limit, then one notice with the
-- reason, and nothing after it.
pub log_all_lem :
    (es : List Entry) (g : Log)
    → g.initialized ≡ true
    → g.persistent ≡ true
    → g.stopped ≡ false
    → (log_all es g).1 ≡ captured g es ++ ending g es
unfolding log_all captured ending
log_all_lem [] g i p r = refl
log_all_lem ((text, s) ∷ es) g i p r = elim (Bool-cases (within g s)) [
  | inl ok ↦ rw ok (
      subst
        (λ (o : Log × List Written).
          o.1 ++ (log_all es o.0).1 ≡ line text ∷ (captured g es ++ ending g es))
        (sym (printf_within text s g i p r ok))
        (ap (λ ws. line text ∷ ws) (log_all_lem es g i p r)))
  | inr over ↦ rw over (
      subst (λ (o : Log × List Written). o.1 ++ (log_all es o.0).1 ≡ notice (reason g s) ∷ [])
        (sym (printf_beyond text s g i p r over))
        (ap (λ ws. notice (reason g s) ∷ ws)
          (stopped_silent es (record g { stopped = true }) refl)))
]
