-- ===== src/Engine/Signal/Expiry.antt =====
-- The end of the session (backend/engines/signal_engine.py and signal_memory.py): `apply` looks for
-- the bare code among the reasons, and `evaluate` writes the code with an explanation behind it.
use Prim.Native.Char.{Char, code}
use Prim.Native.String.{count, ◌++◌}
use text.Mathlib.TextLemmas.{length-append, cons-append}
use theta_plus.Base.{
  ℕ, ◌<◌, ◌≡◌, refl, ap, Bool, true, false, Option, none, some, String, List, [], ◌∷◌, map, arith,
  All, All-append, str_eq, str_eq_iff, elem, Bool-cases, inl, inr, ◌==◌,
}
use theta_plus.Base.Float.{Float, Format}
use theta_plus.Base.Raises.{ok}
use theta_plus.Clock.{Timestamp}
use theta_plus.Config.{AppConfig}
use theta_plus.Base.Int.{ℤ, leb_ℤ}
use theta_plus.Engine.Models.{Side, ce, pe, RuleResult, SignalDecision, waiting}
use theta_plus.Engine.Score.{explain_group, explain_side}
use theta_plus.Engine.Signal.Filters.{TimeFilter, before_start, after_end}
use theta_plus.Engine.Models.{side_text}
use theta_plus.Engine.Health.{health_reasons}
use theta_plus.Market.{MarketFeatures}
use theta_plus.Engine.Memory.{SignalMemory}
use theta_plus.Engine.Signal.Evaluate.{Verdict, decide, confirm, evaluate, score_sides}
use theta_plus.Engine.Signal.Reasons.{
  already_active, opposite_pending, cooldown_reason, time_reason, suppressed, opposite_pending,
  explain_both, Scores,
}

abbrev pub after_end_code : String
after_end_code = "TIME_FILTER_AFTER_END"

abbrev IsOther : String → Type 0
IsOther s = str_eq after_end_code s ≡ false

-- A text of another length is another text.
longer-IsOther : (s : String) → 21 < count s → IsOther s
longer-IsOther s h = elim (Bool-cases (str_eq after_end_code s)) [
  | inl same ↦ absurd (omega (arith, ap count ((str_eq_iff after_end_code s).0 same)))
  | inr other ↦ other
]

abbrev first : String → ℕ
first String.[] = 0
first (String.◌∷◌ c s) = code c

-- A text of another first character is another text.
head-IsOther : (c : Char) (p s : String) → (code c == 84) ≡ false → IsOther ((String.◌∷◌ c p) ++ s)
head-IsOther c p s h = elim (Bool-cases (str_eq after_end_code ((String.◌∷◌ c p) ++ s))) [
  | inl same ↦
      ground (arith, ap first ((str_eq_iff after_end_code _).0 same), ap first (cons-append c p s))
  | inr other ↦ other
]

-- The codes of the health gate, each with its ending.
map-IsOther :
    (codes : List String)
    → All IsOther (map (λ (c : String). c ++ ": data health gate failed") codes)
map-IsOther [] = tt
map-IsOther (c ∷ cs) =
    (longer-IsOther _ (omega (arith, length-append c ": data health gate failed")), map-IsOther cs)

explain_group-IsOther :
    (side : Side) (word : String) (show : RuleResult → String) (rules : List RuleResult)
    → All IsOther (explain_group side word show rules)
unfolding explain_group
explain_group-IsOther side word show [] = tt
explain_group-IsOther ce word show (r ∷ rs) = (head-IsOther "C" "E" _ refl, tt)
explain_group-IsOther pe word show (r ∷ rs) = (head-IsOther "P" "E" _ refl, tt)

side_line-IsOther : (side : Side) (s : String) → IsOther (side_text side ++ s)
side_line-IsOther ce s = head-IsOther "C" "E" s refl
side_line-IsOther pe s = head-IsOther "P" "E" s refl

suppressed-IsOther :
    (ce_ok pe_ok : Bool) (current : Option Side) → All IsOther (suppressed ce_ok pe_ok current)
unfolding suppressed
suppressed-IsOther true true current = (refl, tt)
suppressed-IsOther false false current = tt
suppressed-IsOther true false none = (refl, tt)
suppressed-IsOther true false (some ce) = (refl, tt)
suppressed-IsOther true false (some pe) = (refl, tt)
suppressed-IsOther false true none = (refl, tt)
suppressed-IsOther false true (some ce) = (refl, tt)
suppressed-IsOther false true (some pe) = (refl, tt)

module _ {F : Type 0} (fm : Format F) where
  explain_side-IsOther :
      (side : Side) (rules : List RuleResult) (score max minimum : ℤ)
      → All IsOther (explain_side fm side rules score max minimum)
  unfolding explain_side
  explain_side-IsOther side rules score max minimum = (
    side_line-IsOther side _,
    All-append IsOther _ _ (explain_group-IsOther side _ _ _) (
        All-append IsOther _ _ (explain_group-IsOther side _ _ _)
          (explain_group-IsOther side _ _ _)),
  )

  cooldown_reason-IsOther :
      (emitted until : Option Timestamp) → IsOther (cooldown_reason fm emitted until)
  unfolding cooldown_reason
  cooldown_reason-IsOther emitted until =
      head-IsOther "S" "IGNAL_COOLDOWN: setup emitted at " _ refl

module _ {F : Type 0} (config : AppConfig F) where
  -- Here the length decides: the text begins with the code.
  time_reason-IsOther : (filter : TimeFilter) → IsOther (time_reason config filter)
  unfolding time_reason
  time_reason-IsOther before_start = longer-IsOther _ (
      omega (
        arith,
        length-append "TIME_FILTER_BEFORE_START: before signal start "
            (config.signal_start_time.text ++ " — data collection may continue, signals do not"),
      ))
  time_reason-IsOther after_end = longer-IsOther _ (
      omega (
        arith,
        length-append "TIME_FILTER_AFTER_END: after signal end "
            (config.signal_end_time.text ++ " — no new signals"),
      ))

explain_both-IsOther :
    {F : Type 0} ⦃fm : Format F⦄ (config : AppConfig F) (s : Scores)
    → All IsOther (explain_both config s)
unfolding explain_both
explain_both-IsOther ⦃fm⦄ config s =
    All-append IsOther _ _ (explain_side-IsOther fm ce _ _ _ _) (explain_side-IsOther fm pe _ _ _ _)

All-elem : (reasons : List String) → All IsOther reasons → elem after_end_code reasons ≡ false
All-elem [] h = refl
All-elem (r ∷ rs) h = ground (arith, All-elem rs h.1)

already_active-IsOther : (side : Side) → IsOther (already_active side)
unfolding already_active
already_active-IsOther side = head-IsOther "S" "IGNAL_ALREADY_ACTIVE: " _ refl

opposite_pending-IsOther :
    (side : Side) (current : Option Side) → IsOther (opposite_pending side current)
unfolding opposite_pending
opposite_pending-IsOther side current = head-IsOther "O" "PPOSITE_SIDE_PENDING: " _ refl

module _ {F : Type 0} ⦃fl : Float F⦄ ⦃fm : Format F⦄ (config : AppConfig F)
    (state : SignalMemory F) where
  abbrev Quiet : Verdict → Type 0
  Quiet v = v.decision ≡ waiting → elem after_end_code v.reasons ≡ false

  confirm-Quiet :
      (side : Side) (rules : List RuleResult) (score max : ℤ)
      → Quiet (confirm config state side rules score max)
  unfolding confirm
  confirm-Quiet side rules score max w =
      ground (arith, already_active-IsOther side, opposite_pending-IsOther side state.current_side)

  insufficient-IsOther : IsOther (
      "confirmation insufficient: no side reached the minimum score "
      ++ fm.int config.minimum_score)
  insufficient-IsOther =
      head-IsOther "c" "onfirmation insufficient: no side reached the minimum score " _ refl

  decide-Quiet : (now : Timestamp) (s : Scores) → Quiet (decide config state now s)
  unfolding decide
  decide-Quiet now s w =
      let ce_ok = leb_ℤ config.minimum_score s.ce_score in
      let pe_ok = leb_ℤ config.minimum_score s.pe_score in
      ground (
        arith,
        cooldown_reason-IsOther fm state.signal_timestamp state.cooldown_until,
        All-elem _ (suppressed-IsOther ce_ok pe_ok state.current_side),
        All-elem _ (explain_both-IsOther config s),
        confirm-Quiet ce s.ce_rules s.ce_score s.ce_max,
        confirm-Quiet pe s.pe_rules s.pe_score s.pe_max,
        insufficient-IsOther,
      )

  -- No reason of a waiting decision is the bare code that `apply` looks for.
  pub evaluate-quiet :
      (f : MarketFeatures F) (now : Timestamp) (d : SignalDecision F)
      → evaluate f config state now ≡ ok d
      → d.decision ≡ waiting
      → elem after_end_code d.reasons ≡ false
  unfolding evaluate
  evaluate-quiet f now d e w = ground (
    arith,
    All-elem _ (map-IsOther (health_reasons f)),
    time_reason-IsOther config before_start,
    time_reason-IsOther config after_end,
    decide-Quiet now (score_sides f config),
  )
