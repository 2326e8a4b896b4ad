-- ===== src/Score/Bands.antt =====
-- The value, band, actions and review flag of drishti/m6_score/engine.py: the override, the thresholds
-- and the escalation.
use c_s_cool_stuff.Prelude.{◌≤◌, ◌<◌, ℤ, pos, negsuc, Bool, ◌&&◌, ◌≡◌, arith, if◌then◌else◌}
use c_s_cool_stuff.Score.Inputs.{SeverityBand}
use c_s_cool_stuff.Score.{band_of, actions, is_low}
use c_s_cool_stuff.Score.Engine.{score, value, band}
unfoldable use c_s_cool_stuff.Score.Engine.{score, value, band}
unfoldable use c_s_cool_stuff.Score.{band_of, actions}

-- The value stands in the range of the band: 85 and above, 65 to 84, 40 to 64, below 40.
abbrev pub InBand : SeverityBand → ℤ → Type 0
InBand SeverityBand.critical (pos n) = 85 ≤ n
InBand SeverityBand.high (pos n) = (65 ≤ n) × (n < 85)
InBand SeverityBand.medium (pos n) = (40 ≤ n) × (n < 65)
InBand SeverityBand.low (pos n) = n < 40
InBand SeverityBand.low (negsuc n) = Unit
InBand _ (negsuc n) = ⊥

InBand-unique : (b c : SeverityBand) (v : ℤ) → InBand b v → InBand c v → b ≡ c
InBand-unique b c v h i = grind arith

-- A band that the escalation may raise.
abbrev raised : Bool → ℤ → SeverityBand
raised escalated v = if escalated && is_low (band_of v) then SeverityBand.medium else band_of v
