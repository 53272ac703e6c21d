-- ===== src/Engine/Signal/Reasons.antt =====
-- backend/engines/signal_engine.py: the reasons of a decision, text by text.
use Prim.Native.String.{◌++◌}
use mathlib.Core.List.{◌++◌ as append_list}
use theta_plus.Base.{
  Bool, true, false, not, Option, none, some, String, List, [], ◌∷◌, map, if◌then◌else◌, select,
}
use theta_plus.Base.Int.{ℤ}
use theta_plus.Base.Float.{Format}
use theta_plus.Clock.{Timestamp}
use theta_plus.Config.{AppConfig}
use theta_plus.Engine.Models.{Side, ce, pe, side_text, same_side, decision_text, setup, RuleResult}
use theta_plus.Engine.Score.{explain_side}
use theta_plus.Engine.Signal.Filters.{TimeFilter, before_start, after_end}

-- The scores of both sides.
pub record Scores : Type 0 where
  pub ce_rules : List RuleResult
  pub pe_rules : List RuleResult
  pub ce_score : ℤ
  pub pe_score : ℤ
  pub ce_max : ℤ
  pub pe_max : ℤ

abbrev pub opposite : Option Side → Side → Bool
opposite none side = false
opposite (some current) side = not (same_side current side)

-- The second reason in branch 5.
unfoldable pub suppressed : Bool → Bool → Option Side → List String
suppressed true true current = "both CE and PE currently qualify; suppressed by cooldown" ∷ []
suppressed false false current = []
suppressed ce_ok pe_ok current =
    let side = if ce_ok then ce else pe in
    (if opposite current side
      then "opposite-side "
        ++ side_text side
        ++ " qualification suppressed by cooldown (opposite-side signals require explicit invalidation first)"
      else "qualifying "
        ++ side_text side
        ++ " setup suppressed; repeated identical signals do not spam")
    ∷ []

unfoldable pub time_reason : {F : Type 0} → AppConfig F → TimeFilter → String
time_reason config before_start =
    "TIME_FILTER_BEFORE_START: before signal start " ++ config.signal_start_time.text
    ++ " — data collection may continue, signals do not"
time_reason config after_end =
    "TIME_FILTER_AFTER_END: after signal end " ++ config.signal_end_time.text ++ " — no new signals"

unfoldable pub already_active : Side → String
already_active side =
    "SIGNAL_ALREADY_ACTIVE: "
    ++ side_text side
    ++ " setup already active as a research signal; repeated identical setups are suppressed"

current_text : Option Side → String
current_text none = "None"
current_text (some side) = side_text side

unfoldable pub opposite_pending : Side → Option Side → String
unfolding current_text
opposite_pending side current =
    "OPPOSITE_SIDE_PENDING: "
    ++ side_text side
    ++ " qualifies but a "
    ++ current_text current
    ++ " signal is still pending; it must be invalidated first"

module _ {F : Type 0} (fm : Format F) where
  -- `_iso`
  iso : Option Timestamp → String
  iso none = "n/a"
  iso (some t) = fm.isoformat t

  -- The first reason in branch 5.
  unfoldable pub cooldown_reason : Option Timestamp → Option Timestamp → String
  unfolding iso
  cooldown_reason emitted until =
      "SIGNAL_COOLDOWN: setup emitted at " ++ iso emitted ++ ", cooldown until " ++ iso until

module _ {F : Type 0} ⦃fm : Format F⦄ where
  -- The lines for both sides, in the branches 6 and 8.
  unfoldable pub explain_both : AppConfig F → Scores → List String
  explain_both config s =
      append_list (explain_side fm ce s.ce_rules s.ce_score s.ce_max config.minimum_score)
        (explain_side fm pe s.pe_rules s.pe_score s.pe_max config.minimum_score)

  unfoldable pub setup_reasons : AppConfig F → Side → List RuleResult → ℤ → ℤ → List String
  setup_reasons config side rules score max_score =
      (decision_text (setup side)
        ++ ": score "
        ++ fm.int score
        ++ "/"
        ++ fm.int max_score
        ++ " >= minimum "
        ++ fm.int config.minimum_score
        ++ " (score measures configured rule confirmation, NOT probability)")
      ∷ append_list
          (map (λ (r : RuleResult). "passed " ++ r.rule_id ++ ": " ++ r.reason)
            (select (λ r. r.passed) rules))
          (map
            (λ (r : RuleResult).
              "unavailable " ++ r.rule_id ++ ": " ++ r.reason
              ++ " (no points; no score normalization)")
            (select (λ r. not r.available) rules))
