-- ===== src/Paper/Engine.antt =====
-- backend/paper/paper_engine.py: the methods of `PaperTradingEngine`, on the book that it keeps. The
-- id that `uuid4` gives a new position is an argument.
use theta_plus.Base.{
  not, Option, none, some, String, List, [], ◌∷◌, ◌++◌, if◌then◌else◌, or_else, find_first, select,
  length, leb, str_eq, elem,
}
use theta_plus.Base.Int.{ℤ, pos}
use theta_plus.Base.Float.{Float}
use theta_plus.Clock.{Timestamp}
use theta_plus.Config.{AppConfig}
use theta_plus.Market.{OptionQuote, OptionChainRow, MarketSnapshot, MarketFeatures}
use theta_plus.Engine.Models.{Side, ce, pe, is_setup, side_of, SignalDecision}
use theta_plus.Replay.Observation.{OptionObservation, row_at, leg}
use theta_plus.Paper.Models.{opened, no_data, PaperPosition, is_open, is_closed}

-- ORIGIN_LABELS.get(origin, origin)
unfoldable pub origin_label : String → String
origin_label origin =
    if str_eq origin "LIVE"
    then "LIVE • SIMULATED DATA"
    else (if str_eq origin "REPLAY-SYNTHETIC" then "REPLAY • SYNTHETIC DATA" else origin)

pub record PaperBook (F : Type 0) : Type 0 where
  pub data_origin : String
  pub positions : List (PaperPosition F)
  pub signal_ids : List String

module _ {F : Type 0} where
  -- The book of a new engine.
  unfoldable pub new_book : String → PaperBook F
  new_book origin = record { data_origin = origin; positions = []; signal_ids = [] }

  abbrev pub open_positions : PaperBook F → List (PaperPosition F)
  open_positions book = select is_open book.positions

  abbrev pub trades : PaperBook F → List (PaperPosition F)
  trades book = select (λ p. is_closed p.state) book.positions

  -- `next(iter(self.open_positions()), None)`
  abbrev pub current : PaperBook F → Option (PaperPosition F)
  current book = find_first is_open book.positions

  abbrev pub replace_all :
      PaperPosition F → PaperPosition F → List (PaperPosition F) → List (PaperPosition F)
  replace_all old new [] = []
  replace_all old new (p ∷ ps) =
      (if str_eq p.paper_position_id old.paper_position_id then new else p) ∷ replace_all old new ps

  -- `self._signal_ids.add(signal_id)` and `self.positions.append(position)`
  unfoldable pub admit : PaperPosition F → PaperBook F → PaperBook F
  admit position book = record book {
    positions = book.positions ++ (position ∷ []);
    signal_ids = position.signal_id ∷ book.signal_ids;
  }

  unfoldable pub replace : PaperPosition F → PaperPosition F → PaperBook F → PaperBook F
  replace old new book = record book { positions = replace_all old new book.positions }

module _ {F : Type 0} ⦃fl : Float F⦄ where
  abbrev observed : Side → Timestamp → Option (OptionChainRow F) → Option (OptionObservation F)
  observed side at none = none
  observed side at (some row) =
      if fl.le (leg side row).ltp fl.nought
      then none
      else some (record { timestamp = at; ltp = (leg side row).ltp; high = none; low = none })

  unfoldable pub observation_for :
      Option (MarketSnapshot F) → ℤ → Side → Timestamp → Option (OptionObservation F)
  observation_for none strike side at = none
  observation_for (some snapshot) strike side at =
      observed side at (row_at strike snapshot.chain.rows)

  -- `quote is not None and quote.ltp and quote.ltp > 0`
  abbrev usable : Option (OptionQuote F) → Option F
  usable none = none
  usable (some quote) =
      if fl.eq quote.ltp fl.nought
      then none
      else (if fl.lt fl.nought quote.ltp then some quote.ltp else none)

  -- The LTP at which a side is entered, where the features have one.
  abbrev pub entry_ltp : Option (MarketFeatures F) → Side → Option F
  entry_ltp none side = none
  entry_ltp (some f) ce = usable f.atm.atm_ce
  entry_ltp (some f) pe = usable f.atm.atm_pe

  abbrev strike_for : Option (MarketFeatures F) → SignalDecision F → ℤ
  strike_for none decision = decision.atm
  strike_for (some f) decision = f.atm.atm_strike

  module _ (config : AppConfig F) where
    -- The position that a setup gives: open at its entry, or without data.
    unfoldable pub new_position :
        PaperBook F
        → SignalDecision F
        → Option (MarketFeatures F)
        → String
        → Timestamp
        → String
        → Option F
        → PaperPosition F
    new_position book decision features signal_id at uuid none = record {
      paper_position_id = uuid;
      signal_id = signal_id;
      timestamp = at;
      underlying = decision.symbol;
      option_type = side_of decision.decision;
      strike = strike_for features decision;
      entry_price = none;
      current_price = none;
      target_price = none;
      stoploss_price = none;
      quantity = config.paper_quantity;
      state = no_data;
      exit_price = none;
      exit_time = none;
      exit_reason = "entry option LTP unavailable; no entry invented";
      gross_points = none;
      gross_pnl = none;
      assumed_slippage_points = fl.nought;
      costs = fl.nought;
      net_pnl = none;
      data_origin = book.data_origin;
      data_origin_label = origin_label book.data_origin;
      mode = config.system_mode;
      strategy_version = decision.strategy_version;
      feature_version = decision.feature_engine_version;
    }
    new_position book decision features signal_id at uuid (some entry) = record {
      paper_position_id = uuid;
      signal_id = signal_id;
      timestamp = at;
      underlying = decision.symbol;
      option_type = side_of decision.decision;
      strike = strike_for features decision;
      entry_price = some (fl.round2 entry);
      current_price = some (fl.round2 entry);
      target_price = some (fl.round2 (fl.add entry (fl.of_int (pos config.target_points))));
      stoploss_price = some (fl.round2 (fl.sub entry (fl.of_int (pos config.stoploss_points))));
      quantity = config.paper_quantity;
      state = opened;
      exit_price = none;
      exit_time = none;
      exit_reason = "";
      gross_points = none;
      gross_pnl = none;
      assumed_slippage_points = config.paper_slippage_points;
      costs = config.paper_costs_per_trade;
      net_pnl = none;
      data_origin = book.data_origin;
      data_origin_label = origin_label book.data_origin;
      mode = config.system_mode;
      strategy_version = decision.strategy_version;
      feature_version = decision.feature_engine_version;
    }

    unfoldable pub open_from_decision :
        PaperBook F
        → SignalDecision F
        → Option (MarketFeatures F)
        → String
        → Option Timestamp
        → String
        → Option (PaperPosition F) × PaperBook F
    open_from_decision book decision features signal_id now uuid =
        if not (is_setup decision.decision)
        then (none, book)
        else (if elem signal_id book.signal_ids
            then (none, book)
            else (if leb config.max_open_paper_positions (length (open_positions book))
                then (none, book)
                else (some position, admit position book)))
      where
        position : PaperPosition F
        position =
            new_position book decision features signal_id (or_else now decision.timestamp) uuid
              (entry_ltp features (side_of decision.decision))
