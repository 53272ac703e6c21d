-- ===== src/Base/Float.antt =====
-- What the program uses of Python's `float` and of its formatting: operations that the language
-- provides, hence parameters of the model.
use Prim.Native.Nat.{ℕ}
use Prim.Native.String.{String}
use mathlib.Core.Bool.{Bool, ◌&&◌}
use mathlib.Core.Option.{Option}
use theta_plus.Base.Tests.{if◌then◌else◌}
use theta_plus.Base.Int.{ℤ}
use theta_plus.Base.Raises.{Raises}

pub record Float (F : Type 0) : Type 0 where
  pub nought : F
  pub infinity : F
  pub minus_infinity : F
  pub lt : F → F → Bool
  pub le : F → F → Bool
  pub eq : F → F → Bool
  pub add : F → F → F
  pub sub : F → F → F
  pub mul : F → F → F
  pub neg : F → F
  pub abs : F → F
  pub round2 : F → F  -- `round(x, 2)`
  pub round4 : F → F  -- `round(x, 4)`
  pub div : F → F → F  -- where the divisor is not zero
  pub int_div : ℤ → ℤ → F  -- `m / n` for integers, where the divisor is not zero
  pub floor : F → Raises ℤ  -- `int(math.floor(x))`, which raises for NaN and the infinities
  pub of_int : ℤ → F

module _ {F : Type 0} ⦃fl : Float F⦄ where
  abbrev pub f_lt : F → F → Bool
  f_lt = fl.lt

  abbrev pub f_le : F → F → Bool
  f_le = fl.le

  -- `math.isfinite(x)`
  abbrev pub is_finite : F → Bool
  is_finite x = fl.lt fl.minus_infinity x && fl.lt x fl.infinity

  -- `min(a, b)` and `max(a, b)` keep the first argument unless the second one passes it.
  abbrev pub f_min : F → F → F
  f_min a b = if fl.lt b a then b else a

  abbrev pub f_max : F → F → F
  f_max a b = if fl.lt a b then b else a

-- How numbers and dates are written into texts, and read back.
pub record Format (F : Type 0) : Type 0 where
  pub fixed2 : F → String  -- f"{x:.2f}"
  pub signed3 : F → String  -- f"{x:+.3f}"
  pub whole : F → String  -- f"{x:.0f}"
  pub plain : F → String  -- f"{x}"
  pub int : ℤ → String  -- f"{n}"
  pub grouped : ℤ → String  -- f"{n:}"
  pub signed : ℤ → String  -- f"{n:+}"
  pub strip : String → String  -- s.strip()
  pub isoformat : ℕ → String  -- dt.astimezone().isoformat()
  pub fromisoformat : String → Option ℕ  -- date.fromisoformat, `none` for ValueError
