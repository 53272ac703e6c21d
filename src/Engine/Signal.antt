-- ===== src/Engine/Signal.antt =====
-- backend/engines/signal_engine.py: the time filter, the invalidation and the evaluation. The pure
-- evaluator returns the decision, `evaluate_and_apply` also moves the memory.
pub mod Setup
pub mod Expiry
mod Filters
mod Reasons
mod Evaluate
unfoldable pub use Filters.{time_filter_reason, invalidation_reason}
pub use Filters.{TimeFilter, before_start, after_end}
pub use Reasons.{Scores, opposite}
unfoldable pub use Evaluate.{evaluate, evaluate_and_apply, verdict, decide, confirm, score_sides}
pub use Evaluate.{Verdict, in_cooldown, is_pending, on_side}
