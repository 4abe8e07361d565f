-- ===== src/Migration/Rates.antt =====
-- The rates that the gate of `migrate` of manager/scan_orchestrator.py lets through.
use pq_migration_gateway.Prelude.{◌≡◌, refl, true, false, ◌⊎◌, inl, inr, arith}
use pq_migration_gateway.Prelude.Int.{pos, leb_ℤ}
use pq_migration_gateway.Migration.Assess.{Float, nan, infinite, finite}
use pq_migration_gateway.Migration.Promote.{rate_refused}

-- The order of rates; a NaN is in no order.
abbrev pub AtMost : Float → Float → Type 0
AtMost nan b = ⊥
AtMost a nan = ⊥
AtMost (infinite false) b = Unit
AtMost (infinite true) (infinite up) = up ≡ true
AtMost (infinite true) (finite b) = ⊥
AtMost (finite a) (infinite up) = up ≡ true
AtMost (finite a) (finite b) = leb_ℤ a b ≡ true

-- A rate that is at least 0 and at most the maximum, unless one of the two is a NaN.
abbrev pub IsWithin : Float → Float → Type 0
IsWithin rate maximum =
    (rate ≡ nan) ⊎ AtMost (finite (pos 0)) rate × ((maximum ≡ nan) ⊎ AtMost rate maximum)

pub rate_refused-IsWithin :
    (rate maximum : Float) → rate_refused rate maximum ≡ false → IsWithin rate maximum
unfolding rate_refused
rate_refused-IsWithin nan maximum e = inl refl
rate_refused-IsWithin (infinite false) maximum e = cc
rate_refused-IsWithin (infinite true) nan e = inr (refl, inl refl)
rate_refused-IsWithin (infinite true) (infinite false) e = cc
rate_refused-IsWithin (infinite true) (infinite true) e = inr (refl, inr refl)
rate_refused-IsWithin (infinite true) (finite b) e = cc
rate_refused-IsWithin (finite a) nan e = inr (ground (arith, e), inl refl)
rate_refused-IsWithin (finite a) (infinite false) e = absurd (ground (arith, e))
rate_refused-IsWithin (finite a) (infinite true) e = inr (ground (arith, e), inr refl)
rate_refused-IsWithin (finite a) (finite b) e = inr (ground (arith, e), inr (ground (arith, e)))
