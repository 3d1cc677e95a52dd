-- ===== src/Layer1/Reports.antt =====
-- The throttle of the live drop report.
use e3controller.Common.{
  ℕ, ◌+◌, ◌<◌, ◌≤◌, ◌≡◌, false, not, ◌&&◌, List, [], ◌∷◌, ◌==◌, ltb, if_cases, arith,
}
use e3controller.Layer1.State.{
  Drop, E3SmLayer1, Env, note_drop, maybe_log_drops, log_drops_at, too_soon, total_drops,
}

unfoldable pub note_drops : Env → E3SmLayer1 → List Drop → E3SmLayer1
note_drops env l [] = l
note_drops env l (d ∷ ds) = note_drops env (note_drop env l d) ds

-- Times, the latest first, a second apart at least.
abbrev pub Spaced : List ℕ → Type 0
Spaced [] = Unit
Spaced (t ∷ []) = Unit
Spaced (t ∷ u ∷ ts) = (u + 1_000_000_000 ≤ t) × Spaced (u ∷ ts)

-- The latest report is no later than the time the object remembers.
abbrev pub Remembered : List ℕ → ℕ → Type 0
Remembered [] last = Unit
Remembered (t ∷ ts) last = (0 < t) × (t ≤ last)

abbrev pub Throttled : E3SmLayer1 → Type 0
Throttled l = Spaced l.reports × Remembered l.reports l.drops_last_report

Spaced-next :
    (ts : List ℕ) (last now : ℕ)
    → Spaced ts
    → Remembered ts last
    → (not (last == 0) && ltb now (last + 1_000_000_000)) ≡ false
    → Spaced (now ∷ ts)
Spaced-next [] last now s r h = tt
Spaced-next (t ∷ ts) last now s (p, q) h = (ground arith, s)

Remembered-later :
    (ts : List ℕ) (last now : ℕ)
    → Remembered ts last
    → (not (last == 0) && ltb now (last + 1_000_000_000)) ≡ false
    → Remembered ts now
Remembered-later [] last now r h = tt
Remembered-later (t ∷ ts) last now (p, q) h = (p, ground arith)

log_drops_at-Throttled :
    (env : Env) (l : E3SmLayer1) (now : ℕ)
    → 0 < now
    → Throttled l
    → Throttled (log_drops_at env l now)
unfolding log_drops_at
log_drops_at-Throttled env l now h (s, r) =
    if_cases Throttled (too_soon l now) (λ t. (s, r))
      (λ t.
        if_cases Throttled (total_drops l == l.drops_last_total)
          (λ e. (s, Remembered-later l.reports l.drops_last_report now r t))
          (λ e. (Spaced-next l.reports l.drops_last_report now s r t, (h, omega arith))))

note_drop-Throttled :
    (env : Env) (l : E3SmLayer1) (d : Drop)
    → ((n : ℕ) → 0 < env.clock n)
    → Throttled l
    → Throttled (note_drop env l d)
unfolding note_drop maybe_log_drops
note_drop-Throttled env l d h (s, r) =
    log_drops_at-Throttled env _ (env.clock l.clock_reads) (h l.clock_reads) (s, r)

-- However many drops are noted, and however often the counters move, the lines printed about them
-- are at least one second apart, where the steady clock never reads its epoch.
pub note_drops-Throttled :
    (env : Env) (ds : List Drop) (l : E3SmLayer1)
    → ((n : ℕ) → 0 < env.clock n)
    → Throttled l
    → Throttled (note_drops env l ds)
unfolding note_drops
note_drops-Throttled env [] l h v = v
note_drops-Throttled env (d ∷ ds) l h v =
    note_drops-Throttled env ds (note_drop env l d) h (note_drop-Throttled env l d h v)
