-- ===== src/Study.antt =====
-- `matchEpisodes` (internal/datahub/signal_events.go): signals are assigned to price episodes, one
-- to one. The medians of `RuleEvaluation` are left out, and the lead is in
-- nanoseconds.
pub mod Account
pub mod Prices
pub mod Scenarios
use tidal_crypto_intelligenc.Base.{
  ℕ, ◌+◌, ◌-◌, ◌*◌, Bool, true, false, not, ◌&&◌, ◌||◌, leb, ltb, ◌==◌, if◌then◌else◌, Option, none,
  some, List, [], ◌∷◌, ◌++◌, String, str_eq, str_ltb, length, hour,
}

pub record Episode : Type 0 where
  pub id : String
  pub direction : String
  pub start : ℕ
  pub detected : ℕ

-- The fields of a `Signal` that are read: the stage of its features, if it has them, and whether its
-- price follows in a direction, if it has factors.
pub record Signal : Type 0 where
  pub id : String
  pub direction : String
  pub at : ℕ
  pub stage : Option String
  pub following : Option (String → Bool)

pub record EventMatch : Type 0 where
  pub event_id : String
  pub signal_id : String
  pub timing : String
  pub lead : Option ℕ

pub record Evaluation : Type 0 where
  pub signals : ℕ
  pub episodes : ℕ
  pub early : ℕ
  pub following : ℕ
  pub missed : ℕ
  pub pending : ℕ
  pub unmatched : ℕ
  pub matches : List EventMatch

-- `sort.Slice` by time and id.
abbrev pub before : Signal → Signal → Bool
before s t = if s.at == t.at then str_ltb s.id t.id else ltb s.at t.at

unfoldable pub insert_signal : Signal → List Signal → List Signal
insert_signal s [] = s ∷ []
insert_signal s (t ∷ ts) =
    let rest = t ∷ insert_signal s ts in if before t s then rest else s ∷ t ∷ ts

unfoldable pub sort_signals : List Signal → List Signal
unfolding insert_signal
sort_signals [] = []
sort_signals (s ∷ ss) = insert_signal s (sort_signals ss)

-- The map `used`.
unfoldable pub is_used : List String → String → Bool
is_used [] id = false
is_used (u ∷ us) id = str_eq u id || is_used us id

-- Not used, of the episode's direction, and within four hours of its start.
unfoldable pub fits : Episode → List String → Signal → Bool
unfolding is_used
fits e used s =
    not (is_used used s.id)
    && str_eq s.direction e.direction
    && leb e.start (s.at + 4 * hour)
    && leb s.at (e.start + 4 * hour)

unfoldable pub first_fit : Episode → List String → List Signal → Option Signal
unfolding fits
first_fit e used [] = none
first_fit e used (s ∷ ss) = let rest = first_fit e used ss in if fits e used s then some s else rest

abbrev pub stage_follows : Option String → Bool
stage_follows none = false
stage_follows (some x) = str_eq x "following"

abbrev pub price_follows : String → Option (String → Bool) → Bool
price_follows direction none = false
price_follows direction (some f) = f direction

-- Before the episode, and not yet following its price.
unfoldable pub is_early : Episode → Signal → Bool
is_early e s =
    ltb s.at e.start && not (stage_follows s.stage) && not (price_follows s.direction s.following)

abbrev pub matched : Episode → Option Signal → Evaluation → Evaluation
matched e none r = record r {
  missed = r.missed + 1;
  matches =
      r.matches ++ record { event_id = e.id; signal_id = ""; timing = "missed"; lead = none } ∷ [];
}
matched e (some s) r =
    if is_early e s
    then record r {
      early = r.early + 1;
      matches =
          r.matches
          ++ record {
            event_id = e.id;
            signal_id = s.id;
            timing = "early";
            lead = some (e.start - s.at);
          }
            ∷ [];
    }
    else record r {
      following = r.following + 1;
      matches =
          r.matches
          ++ record { event_id = e.id; signal_id = s.id; timing = "following"; lead = none } ∷ [];
    }

abbrev pub spent : Option Signal → List String → List String
spent none used = used
spent (some s) used = s.id ∷ used

-- The loop over the episodes.
unfoldable pub match_all :
    List Episode → List Signal → List String → Evaluation → Evaluation × List String
unfolding first_fit is_early
match_all [] ss used r = (r, used)
match_all (e ∷ es) ss used r =
    let f = first_fit e used ss in match_all es ss (spent f used) (matched e f r)

-- Its outcome is not known yet.
abbrev pub awaits : Option ℕ → Signal → Bool
awaits none s = false
awaits (some observed) s = ltb observed (s.at + 8 * hour)

-- The loop over the signals that are left.
unfoldable pub leftover : Option ℕ → List Signal → List String → Evaluation → Evaluation
unfolding is_used
leftover observed [] used r = r
leftover observed (s ∷ ss) used r = leftover observed ss used (
    if is_used used s.id
    then r
    else if awaits observed s
    then record r { pending = r.pending + 1 }
    else record r { unmatched = r.unmatched + 1 })

unfoldable pub match_episodes : List Episode → List Signal → Option ℕ → Evaluation
unfolding sort_signals match_all leftover
match_episodes es ss observed =
    let sorted = sort_signals ss in
    let r = match_all es sorted [] (record {
      signals = length ss;
      episodes = length es;
      early = 0;
      following = 0;
      missed = 0;
      pending = 0;
      unmatched = 0;
      matches = [];
    }) in
    leftover observed sorted r.1 r.0
