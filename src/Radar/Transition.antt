-- ===== src/Radar/Transition.antt =====
-- `radarTransition` (internal/datahub/radar_engine.go): a fill's effect on a signed position.
pub mod Exposure
use tidal_crypto_intelligenc.Base.{
  ℕ, Bool, true, false, not, ◌&&◌, ◌||◌, ◌==◌, if◌then◌else◌, Option, none, some, String, str_eq,
}
use tidal_crypto_intelligenc.Paper.Decimal.{DecimalOps, nil, is_nil, is_positive}
use tidal_crypto_intelligenc.Radar.{Fill, valid_asset, Reading, abs, trillion, sign_of, number}

module _ (D : DecimalOps) where
  open D use {Decimal, add, sub, mul, neg, less}

  -- The signed quantity of a side, or `none` for an unknown side.
  abbrev pub signed : String → Decimal → Option Decimal
  signed side size =
      if str_eq side "A" then some (neg size) else if str_eq side "B" then some size else none

  -- From nothing, or across zero.
  unfoldable pub newly_open : Decimal → Decimal → Bool
  newly_open before after =
      is_nil D before || not (is_nil D after) && not (sign_of D before == sign_of D after)

  -- The quantity that was opened.
  unfoldable pub opened_by : Decimal → Decimal → Decimal
  unfolding newly_open
  opened_by before after =
      if newly_open before after
      then abs D after
      else if less (abs D before) (abs D after)
      then sub (abs D after) (abs D before)
      else nil D

  -- The position before and after, and what was opened.
  pub record Change : Type 0 where
    pub before : Decimal
    pub after : Decimal
    pub opened : Decimal

  abbrev pub moved : Decimal → Option Decimal → Option Change
  moved before none = none
  moved before (some d) =
      some
        (record { before = before; after = add before d; opened = opened_by before (add before d) })

  -- The checks of the price and of the fill's identity.
  abbrev pub priced : Fill → Decimal → Decimal → Decimal → Option Change
  priced f before size p =
      if not (is_positive D p) || not (valid_asset f.coin) || f.time == 0 || f.negative_id
      then none
      else if less (trillion D) (mul size p)
      then none
      else moved before (signed f.side size)

  abbrev pub sized : Fill → Decimal → Option Decimal → Option Decimal → Option Change
  sized f before (some size) (some p) = if is_positive D size then priced f before size p else none
  sized f before _ _ = none

  module _ (R : Reading D) where
    abbrev pub begun : Fill → Option Decimal → Option Change
    begun f none = none
    begun f (some before) = sized f before (number D R f.sz) (number D R f.px)

    -- `none` is any of the errors.
    unfoldable pub transition : Fill → Option Change
    unfolding number opened_by
    transition f = begun f (number D R f.start)
