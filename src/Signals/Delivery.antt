-- ===== src/Signals/Delivery.antt =====
-- Which signals `process_check_signals` delivers, and which it leaves pending.
use night_os.Base.{
  ℕ, ◌+◌, ◌≡◌, ◌<◌, ◌≤◌, ◌⊎◌, Bool, true, false, ◌||◌, ◌&&◌, not, List, [], ◌∷◌, leb, ◌==◌,
  if◌then◌else◌,
}
use night_os.Signals.{Process, Effect, leaves}
use night_os.Signals.Round.{pends, blocks, IsReady}

-- the process was ended, or entered a handler
abbrev pub has_left : List Effect → Bool
has_left [] = false
has_left (e ∷ es) = leaves (e ∷ []) || has_left es

-- Of the signals from `i` up to and with some `last`, those that are not blocked are no longer
-- pending, and all others are as before. `last` is before `i + rounds`, and if it is not the last one
-- there, then it was pending and not blocked and control left the loop at it.
abbrev pub Cleared : ℕ → ℕ → Process → ℕ → Process × List Effect → Type 0
Cleared rounds i p n (p', es) =
    (last : ℕ) × (last < i + rounds)
    × ((last + 1 ≡ i + rounds) ⊎ ((i ≤ last) × IsReady p last × (has_left es ≡ true)))
    × (pends p' n ≡ (if (leb i n && leb n last) && not (blocks p n == 1) then 0 else pends p n))
