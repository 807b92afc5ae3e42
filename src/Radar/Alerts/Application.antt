-- ===== src/Radar/Alerts/Application.antt =====
-- An application keeps the radar's tables sound.
use tidal_crypto_intelligenc.Base.{Option, none, some, List, [], ◌∷◌}
use tidal_crypto_intelligenc.Paper.Decimal.{DecimalOps}
use tidal_crypto_intelligenc.Radar.{Fill, Account, Wallet, Reading}
use tidal_crypto_intelligenc.Radar.Apply.{Db, Input, Tables, apply}

module _ (D : DecimalOps) (R : Reading D) where
  abbrev pub tables : Db D → Tables D
  tables b = record { events = b.events; outbox = b.outbox; trials = b.trials }

  -- The arguments of one application.
  pub record Call : Type 0 where
    pub input : Input D
    pub wallet : Wallet
    pub fills : List Fill
    pub account : Account

  -- A failed application is rolled back.
  abbrev pub or_same : Db D → Option (Db D) → Db D
  or_same b none = b
  or_same b (some b') = b'

  unfoldable pub apply_all : List Call → Db D → Db D
  unfolding apply
  apply_all [] b = b
  apply_all (x ∷ xs) b = apply_all xs (or_same b (apply D R x.input x.wallet x.fills x.account b))
