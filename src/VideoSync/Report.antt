-- ===== src/VideoSync/Report.antt =====
-- frontend/src/hooks/useVideoSync.ts: what the client reports of its player.
use mathlib.Core.List.{Memᴰ}
use syncwatch.Shared.{
  round_thousandth, ℕ, ◌-◌, ◌≤◌, ◌≡◌, refl, ◌⊎◌, inl, inr, ◌&&◌, List, [], ◌∷◌, arith, leb, All,
  Bool-cases,
}
use syncwatch.VideoSync.{buffer_health_ms}

-- The time lies in the range.
abbrev pub Within : ℕ → ℕ × ℕ → Type 0
Within t (start, end) = (start ≤ t) × (t ≤ end)

-- The reported buffer is 0 where no buffered range holds the position, and otherwise the rounded
-- milliseconds from the position to the end of such a range.
pub buffer_health_lem :
    (t : ℕ) (ranges : List (ℕ × ℕ))
    → (All (λ r. ¬ Within t r) ranges × (buffer_health_ms t ranges ≡ 0))
      ⊎ ((r : ℕ × ℕ) × Memᴰ r ranges
          × Within t r
          × (buffer_health_ms t ranges ≡ round_thousandth (r.1 - t)))
unfolding buffer_health_ms
buffer_health_lem t [] = inl (tt, refl)
buffer_health_lem t ((start, end) ∷ ranges) = elim (Bool-cases (leb start t && leb t end)) [
  | inl here ↦ inr ((start, end), Memᴰ.head refl, (ground arith, ground arith), rw here)
  | inr past ↦ elim (buffer_health_lem t ranges) [
    | inl (out, e) ↦ inl (((λ w. ground arith), out), rw past e)
    | inr (r, m, w, e) ↦ inr (r, Memᴰ.tail m, w, rw past e)
  ]
]
