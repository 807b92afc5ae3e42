-- ===== src/Paper/Trading.antt =====
-- The helpers of internal/datahub/paper_engine.go on one trade: execution prices, exit triggers,
-- extrema and fills.
use tidal_crypto_intelligenc.Base.{ℕ, ◌+◌, if◌then◌else◌, String, str_eq, second}
use tidal_crypto_intelligenc.Paper.Decimal.{DecimalOps}
use tidal_crypto_intelligenc.Paper.Types.{Quote, Trade, Fill, sign, paper_fee, paper_slip}

module _ (D : DecimalOps) where
  open D use {Decimal, of_int, add, sub, mul, less}

  -- The price after slippage, and the size at the top of the book.
  unfoldable pub execution : Quote D → String → Decimal × Decimal
  execution q side =
      if str_eq side "buy"
      then (mul q.ask (add (of_int 1) (paper_slip D)), q.ask_qty)
      else (mul q.bid (sub (of_int 1) (paper_slip D)), q.bid_qty)

  unfoldable pub exit_side : Trade D → String
  exit_side t = if str_eq t.signal.direction "buy" then "sell" else "buy"

  unfoldable pub close_quote : Trade D → Quote D → Decimal
  close_quote t q = if str_eq t.signal.direction "buy" then q.bid else q.ask

  -- The first reason stays, and a close waits for a second.
  unfoldable pub trigger : String → ℕ → Trade D → Trade D
  trigger reason at t =
      if str_eq t.exit_reason ""
      then record t { exit_reason = reason; exit_after = at + second }
      else t

  -- What a unit of the position gains at the quote.
  unfoldable pub unit_gain : Trade D → Quote D → Decimal
  unfolding close_quote
  unit_gain t q = mul (sub (close_quote t q) t.entry) (sign D t)

  unfoldable pub mark : Trade D → Quote D → Trade D
  unfolding unit_gain
  mark t q =
      let delta = unit_gain t q in
      let up = if less t.mfe delta then record t { mfe = delta; mfe_at = q.at } else t in
      if less delta up.mae then record up { mae = delta; mae_at = q.at } else up

  -- `paperFillTrade`: the trade with its count raised, and the fill.
  unfoldable pub fill_trade :
      Trade D → String → String → Decimal → Decimal → Quote D → Trade D × Fill D
  fill_trade t kind side qty price q =
      let reference = if str_eq side "buy" then q.ask else q.bid in
      (
        record t { fill_count = t.fill_count + 1 },
        record {
          number = t.fill_count + 1;
          trade_id = t.id;
          group = t.group;
          kind = kind;
          side = side;
          at = q.at;
          price = price;
          quantity = qty;
          fee = mul (mul qty price) (paper_fee D);
          slippage = mul (mul reference qty) (paper_slip D);
          quote = q;
        },
      )
