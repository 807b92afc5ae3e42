-- ===== src/Cost/Cases.antt =====
-- `costNewCases` and `costPriceChannel` (internal/datahub/onchain_engine.go): the cases that a new
-- cycle opens, none of which repeats one that is active.
use tidal_crypto_intelligenc.Base.{
  ℕ, zero, suc, ◌+◌, ◌-◌, Bool, false, not, ◌&&◌, ◌||◌, if◌then◌else◌, Option, none, some, List, [],
  ◌∷◌, ◌++◌, String, str_eq,
}
use tidal_crypto_intelligenc.Paper.Decimal.{DecimalOps, is_positive}
use tidal_crypto_intelligenc.Cost.{Zone, Case, Digests, watching, waiting, date_of}
use tidal_crypto_intelligenc.Cost.Advance.{is_active}

-- The directions and the buffers, in percent.
abbrev pub directions : Zone → List String
directions z =
    if str_eq z.side "inside"
    then "up" ∷ "down" ∷ []
    else if str_eq z.side "below"
    then "down" ∷ []
    else "up" ∷ []

abbrev pub buffers : String → List String
buffers group = if str_eq group "onchain" then "0" ∷ "0.5" ∷ [] else "0" ∷ []

-- What the cases of one call share.
pub record Cycle : Type 0 where
  pub group : String
  pub method : String
  pub revision : String
  pub id : String
  pub now : ℕ

module _ (D : DecimalOps) (dec : String → D.Decimal) where
  open D use {add, sub, mul, div}

  abbrev pub boundary_of : Zone → String → String → D.Decimal
  boundary_of z direction buffer =
      if str_eq direction "down"
      then mul (dec z.low) (sub (dec "1") (div (dec buffer) (dec "100")))
      else mul (dec z.high) (add (dec "1") (div (dec buffer) (dec "100")))

  -- The price's source is the same for all cases.
  abbrev pub same_case : Case D → Case D → Bool
  same_case c d =
      str_eq c.group d.group
      && str_eq c.method d.method
      && str_eq c.direction d.direction
      && str_eq c.buffer d.buffer
      && str_eq c.zone.low d.zone.low
      && str_eq c.zone.high d.zone.high

  abbrev pub rivals : Case D → Case D → Bool
  rivals c d = is_active c.phase && not c.legacy && same_case c d

  unfoldable pub duplicate : Case D → List (Case D) → Bool
  duplicate d [] = false
  duplicate d (c ∷ cs) = rivals c d || duplicate d cs

  unfoldable pub add_case : Case D → List (Case D) → List (Case D)
  unfolding duplicate
  add_case d cs = if duplicate d cs then cs else cs ++ d ∷ []

  module _ (H : Digests) where
    abbrev pub case_of : Cycle → Zone → String → String → Case D
    case_of y z direction buffer = record {
      id = H.of_case y.id z.low z.high direction buffer;
      group = y.group;
      cycle = y.id;
      zone = z;
      direction = direction;
      buffer = buffer;
      boundary = boundary_of z direction buffer;
      frozen_at = y.now;
      from = date_of y.now;
      through = date_of y.now + 6;
      last_date = 0;
      confirmed_date = 0;
      track_through = 0;
      phase = watching;
      quality = waiting;
      count = 0;
      method = y.method;
      first_price = "";
      first_detected_at = none;
      last_price = "";
      first_tracking_gap = 0;
      invalidated_date = 0;
      invalidated_at = none;
      shadow = not (str_eq buffer "0") || not (str_eq y.group "onchain");
      legacy = false;
    }

    -- The loops over buffers, directions and zones.
    unfoldable pub over_buffers :
        Cycle → Zone → String → List String → List (Case D) → List (Case D)
    unfolding add_case
    over_buffers y z direction [] cs = cs
    over_buffers y z direction (b ∷ bs) cs =
        over_buffers y z direction bs (add_case (case_of y z direction b) cs)

    unfoldable pub over_directions : Cycle → Zone → List String → List (Case D) → List (Case D)
    unfolding over_buffers
    over_directions y z [] cs = cs
    over_directions y z (d ∷ ds) cs =
        over_directions y z ds (over_buffers y z d (buffers y.group) cs)

    unfoldable pub over_zones : Cycle → List Zone → List (Case D) → List (Case D)
    unfolding over_directions
    over_zones y [] cs = cs
    over_zones y (z ∷ zs) cs = over_zones y zs (over_directions y z (directions z) cs)

  -- `costPriceChannel`: the lowest and the highest close of 20 days, the last one first.
  unfoldable pub channel_from :
      ℕ → ℕ → (ℕ → Option String) → String → String → Option (String × String)
  channel_from zero day prices lo hi = some (lo, hi)
  channel_from (suc n) day prices lo hi = elim (prices day) [
    | none ↦ none
    | some v ↦
        let rest =
          channel_from n (day - 1) prices
            (if str_eq lo "" || D.less (dec v) (dec lo) then v else lo)
            (if str_eq hi "" || D.less (dec hi) (dec v) then v else hi) in
        if is_positive D (dec v) then rest else none
  ]

  abbrev pub channel_zones : Option (String × String) → List Zone
  channel_zones none = []
  channel_zones (some (lo, hi)) =
      if str_eq lo hi then [] else record { side = "inside"; low = lo; high = hi } ∷ []

  unfoldable pub price_channel : ℕ → (ℕ → Option String) → List Zone
  unfolding channel_from
  price_channel day prices = channel_zones (channel_from 20 day prices "" "")
