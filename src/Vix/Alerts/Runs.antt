-- ===== src/Vix/Alerts/Runs.antt =====
-- The watch over any fetches, failures and changes of the settings.
use tidal_crypto_intelligenc.Base.{
  ℕ, ◌≡◌, inl, inr, Bool, true, false, ◌&&◌, ◌||◌, not, List, ◌∷◌, Option, none, some, some_inv,
  String, Bool-cases,
}
use mathlib.Core.Path.{subst}
use tidal_crypto_intelligenc.Paper.Decimal.{DecimalOps}
use tidal_crypto_intelligenc.Vix.{Point, Feed, Local, is_delayed, quality}
use tidal_crypto_intelligenc.Vix.Cycle.{State, Tables, Delivery, no_cycle}
use tidal_crypto_intelligenc.Vix.Store.{
  Db, failure, last_of, goes_back, checked_low, ingest, opted_in, set_settings,
}
use tidal_crypto_intelligenc.Vix.Alerts.{Once, IsSound, IsFresh, low_changed, evaluate-IsSound}

module _ (D : DecimalOps) (dec : String → D.Decimal) (local : ℕ → Local) where
  -- What the operations do, in any order. `fresh` is a new cycle id each time.
  pub data Move (b : Db) : Db → Type 0 where
    ingested :
        (fresh : String) (paused : Bool) (now : ℕ) (d : Delivery) (first : Point)
        (more : List Point) (after : Db)
        → IsFresh fresh b.tables.events
        → ingest D dec local fresh paused now d first more b ≡ some after
        → Move b after
    opted :
        (fresh : String) (now : ℕ) (d : Delivery) (enabled : Bool)
        → IsFresh fresh b.tables.events
        → Move b (set_settings D dec local fresh now d enabled b)
    broken : (message : String) (now : ℕ) → Move b (failure message now b)

  pub data Reach (b : Db) : Db → Type 0 where
    here : Reach b b
    next : {c e : Db} → Reach b c → Move c e → Reach b e

  abbrev pub Sound : Db → Type 0
  Sound b = IsSound b.state b.tables.events

  ingest-Sound :
      (fresh : String) (paused : Bool) (now : ℕ) (d : Delivery) (first : Point) (more : List Point)
      (b after : Db)
      → IsFresh fresh b.tables.events
      → ingest D dec local fresh paused now d first more b ≡ some after
      → Sound b
      → Sound after
  unfolding ingest
  ingest-Sound fresh paused now d first more b after f h k =
      let p = last_of first more in
      let low = checked_low D dec local b.state.low_since p.at (first ∷ more) in
      let feed : Feed = record {
        latest = some p;
        fetched_at = some now;
        attempted_at = some now;
        error = "";
      } in
      let seen =
        low_changed b.state b.tables.events low b.state.last_point b.state.first_observation k in
      elim (Bool-cases (paused || goes_back b.feed.latest p)) [
        | inl e ↦ cc (rw e at h)
        | inr e ↦ elim (Bool-cases (is_delayed (quality local feed now))) [
          | inl g ↦ subst Sound (some_inv (rw (e, g) at h)) (
              evaluate-IsSound D dec fresh now d p (record b.state { low_since = low }) b.tables f
                seen)
          | inr g ↦ subst Sound (some_inv (rw (e, g) at h)) (
              low_changed b.state b.tables.events none b.state.last_point b.state.first_observation
                k)
        ]
      ]

  opted_in-IsSound :
      (fresh : String) (now : ℕ) (d : Delivery) (fine : Bool) (o : Option Point) (s : State)
      (t : Tables)
      → IsFresh fresh t.events
      → IsSound s t.events
      → let r = opted_in D dec local fresh now d fine o s t in IsSound r.0 r.1.events
  opted_in-IsSound fresh now d true (some p) s t f k =
      evaluate-IsSound D dec fresh now d p (record s { first_observation = true }) t f
        (low_changed s t.events s.low_since s.last_point true k)
  opted_in-IsSound fresh now d true none s t f k = k
  opted_in-IsSound fresh now d false o s t f k = k

  set_settings-Sound :
      (fresh : String) (now : ℕ) (d : Delivery) (enabled : Bool) (b : Db)
      → IsFresh fresh b.tables.events
      → Sound b
      → Sound (set_settings D dec local fresh now d enabled b)
  unfolding set_settings
  set_settings-Sound fresh now d enabled b f k =
      let s = record b.state { email_enabled = enabled } in
      let begun = record (no_cycle s) {
        ever_enabled = true;
        first_observation = false;
        last_point = none;
      } in
      let fine = is_delayed (quality local b.feed now) in
      elim (Bool-cases (enabled && not b.state.ever_enabled)) [
        | inl e ↦ rw e (
            opted_in-IsSound fresh now d fine b.feed.latest begun b.tables f
              (record { once = k.once; watched = λ a h. cc; prioritised = λ a h. cc }))
        | inr e ↦ rw e (record { once = k.once; watched = k.watched; prioritised = k.prioritised })
      ]

  Move-Sound : {b c : Db} → Move b c → Sound b → Sound c
  unfolding failure
  Move-Sound (ingested fresh paused now d first more after f h) k =
      ingest-Sound fresh paused now d first more _ after f h k
  Move-Sound (opted fresh now d enabled f) k = set_settings-Sound fresh now d enabled _ f k
  Move-Sound {b = b} (broken message now) k =
      low_changed b.state b.tables.events none b.state.last_point b.state.first_observation k

  Reach-Sound : {b c : Db} → Sound b → Reach b c → Sound c
  Reach-Sound k here = k
  Reach-Sound k (next r m) = Move-Sound m (Reach-Sound k r)

  -- From a sound start, over any fetches, failures and changes of the settings: no band is alerted
  -- twice in a cycle.
  pub Reach-Once : {b c : Db} → Sound b → Reach b c → Once c.tables.events
  Reach-Once k r = (Reach-Sound k r).once
