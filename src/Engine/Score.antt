-- ===== src/Engine/Score.antt =====
-- backend/engines/score_engine.py.
use Prim.Native.String.{◌++◌}
use theta_plus.Base.{not, ◌&&◌, String, List, [], ◌∷◌, select}
use mathlib.Core.List.{◌++◌ as append_list}
use theta_plus.Base.Int.{ℤ, pos, ◌+ℤ◌}
use theta_plus.Base.Float.{Format}
use theta_plus.Engine.Models.{Side, side_text, RuleResult}

pub awarded : List RuleResult → ℤ
awarded [] = pos 0
awarded (r ∷ rs) = r.score_awarded +ℤ awarded rs

pub max_total : List RuleResult → ℤ
max_total [] = pos 0
max_total (r ∷ rs) = r.max_score +ℤ max_total rs

-- The points that were awarded, and the full sum of the weights.
unfoldable pub score_rules : List RuleResult → ℤ × ℤ
unfolding awarded max_total
score_rules rules = (awarded rules, max_total rules)

-- `"; ".join(show(r) for r in rules)`
join_rules : (RuleResult → String) → List RuleResult → String
join_rules show [] = ""
join_rules show (r ∷ []) = show r
join_rules show (r ∷ s ∷ rs) = show r ++ "; " ++ join_rules show (s ∷ rs)

-- `if rules: lines.append(f"{side} {word}: " + ...)`
unfoldable pub explain_group : Side → String → (RuleResult → String) → List RuleResult → List String
unfolding join_rules
explain_group side word show [] = []
explain_group side word show (r ∷ rs) =
    (side_text side ++ " " ++ word ++ ": " ++ join_rules show (r ∷ rs)) ∷ []

module _ {F : Type 0} (fm : Format F) where
  unfoldable pub explain_side : Side → List RuleResult → ℤ → ℤ → ℤ → List String
  explain_side side rules score max_score minimum_score =
      let points = λ (r : RuleResult).
        r.rule_id ++ " (" ++ fm.int r.score_awarded ++ "/" ++ fm.int r.max_score ++ ")" in
      let why = λ (r : RuleResult). r.rule_id ++ " — " ++ r.reason in
      (side_text side
        ++ " "
        ++ fm.int score
        ++ "/"
        ++ fm.int max_score
        ++ " vs minimum "
        ++ fm.int minimum_score)
      ∷ append_list
          (explain_group side "passed" points (select (λ r. r.available && r.passed) rules))
          (append_list
            (explain_group side "failed" why (select (λ r. r.available && not r.passed) rules))
            (explain_group side "unavailable" why (select (λ r. not r.available) rules)))
