-- ===== src/Engine/Rules.antt =====
-- backend/engines/rule_engine.py: six rules for each side, each with its explanation. `Parts` holds
-- what the sides share, `Ce` and `Pe` one side each.
pub mod Parts
pub mod Points
mod Ce
mod Pe
unfoldable pub use Parts.{result}
pub use Parts.{quotes_ok, at_least}
unfoldable pub use Ce.{evaluate_ce_rules}
unfoldable pub use Pe.{evaluate_pe_rules}
