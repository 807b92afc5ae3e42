-- ===== src/Paper/Intakes.antt =====
-- `consume` (internal/datahub/paper_engine.go): publications become pending intents. A query that
-- fails ends the call with nothing changed, and is not modelled.
pub mod Replay
use tidal_crypto_intelligenc.Base.{
  ℕ, ◌+◌, Bool, true, false, not, ◌&&◌, ◌||◌, ltb, leb, if◌then◌else◌, List, [], ◌∷◌, ◌++◌, Option,
  none, some, String, str_eq, second,
}
use tidal_crypto_intelligenc.Paper.Decimal.{DecimalOps, nil}
use tidal_crypto_intelligenc.Paper.Types.{
  Signal, Intent, Trade, Account, State, Batch, empty_batch, join, intake_record,
}
use tidal_crypto_intelligenc.Paper.Trading.{trigger}
use tidal_crypto_intelligenc.Paper.Admission.{eligible, expired, admission}
use tidal_crypto_intelligenc.Paper.Store.{Store, commit, seen}

pub record Publication : Type 0 where
  pub seq : ℕ
  pub at : ℕ
  pub signal : Signal

-- `s.Origin == nil || !pub.At.After(*s.Origin)`.
abbrev pub before_origin : Option ℕ → ℕ → Bool
before_origin none at = true
before_origin (some o) at = leb at o

module _ (D : DecimalOps) where
  abbrev pub note : State D → Account D → Intent D → ℕ → String → String → Batch D
  note s a i now state reason = record (empty_batch D) {
    intakes = intake_record D s a i now state reason ∷ [];
  }

  abbrev pub superseded : State D → Account D → ℕ → Option (Intent D) → Batch D
  superseded s a now none = empty_batch D
  superseded s a now (some i) = note s a i now "skipped" "superseded_by_new_event"

  -- The last part of a round: admission, and the pending intent.
  unfoldable pub admit : Store D → State D → Intent D → ℕ → Bool → Account D → Account D × Batch D
  admit p s i now protected a =
      let reason = admission D p s i now protected in
      if str_eq reason ""
      then (record a { pending = some i }, superseded s a now a.pending)
      else (a, note s a i now "skipped" reason)

  -- The part from `a.Position` on.
  unfoldable pub face_position :
      Store D → State D → Intent D → ℕ → Bool → Account D → Option (Trade D) → Account D × Batch D
  unfolding admit expired
  face_position p s i now protected a none = admit p s i now protected a
  face_position p s i now protected a (some t) =
      let closing = trigger D "opposite_signal" now t in
      let turned = admit p s i now protected (record a { position = some closing }) in
      if str_eq t.signal.direction i.signal.direction
      then (a, note s a i now "associated" "same_direction")
      else if expired i.signal now
      then admit p s i now protected a
      else (turned.0, join D (record (empty_batch D) { trades = closing ∷ [] }) turned.1)

  -- One round for an account.
  unfoldable pub offer :
      Store D → State D → Publication → Intent D → ℕ → Bool → Account D → Account D × Batch D
  unfolding face_position
  offer p s news i now protected a =
      let first = note s a i now "seen" "first_publication" in
      let faced = face_position p s i now protected a a.position in
      if seen D p.ledger.intakes s.generation a.group i.signal.id
      then (a, empty_batch D)
      else if not (eligible i.signal)
      then (a, join D first (note s a i now "skipped" "ineligible_signal"))
      else if before_origin s.origin news.at
      then (a, join D first (note s a i now "skipped" "before_experiment"))
      else (faced.0, join D first faced.1)

  unfoldable pub offer_all :
      Store D
      → State D
      → Publication
      → Intent D
      → ℕ
      → Bool
      → List (Account D)
      → List (Account D) × Batch D
  unfolding offer
  offer_all p s news i now protected [] = ([], empty_batch D)
  offer_all p s news i now protected (a ∷ accounts) =
      let one = offer p s news i now protected a in
      let rest = offer_all p s news i now protected accounts in
      (one.0 ∷ rest.0, join D one.1 rest.1)

  -- The intake clock is frozen once; the hourly ATR is the store's.
  abbrev pub intent_of : Option (Intent D) → Signal → ℕ → Intent D
  intent_of none g now = record {
    signal = g;
    seen = now;
    after = now + second;
    atr = nil D;
    atr_through = 0;
  }
  intent_of (some r) g now = record {
    signal = g;
    seen = now;
    after = now + second;
    atr = r.atr;
    atr_through = r.atr_through;
  }

  -- One publication, if the cursor has not passed it.
  unfoldable pub take_one : Store D → ℕ → Bool → Publication → State D → State D × Batch D
  unfolding offer_all
  take_one p now protected news s =
      let offered = offer_all p s news (intent_of p.atr news.signal now) now protected s.accounts in
      if ltb s.cursor news.seq
      then (record s { accounts = offered.0; cursor = news.seq }, offered.1)
      else (s, empty_batch D)

  -- The loop over the publications.
  unfoldable pub take_in : Store D → ℕ → Bool → List Publication → State D → State D × Batch D
  unfolding take_one
  take_in p now protected [] s = (s, empty_batch D)
  take_in p now protected (news ∷ more) s =
      let one = take_one p now protected news s in
      let rest = take_in p now protected more one.0 in (rest.0, join D one.1 rest.1)

  unfoldable pub consume : Bool → List Publication → ℕ → Bool → Store D → Store D × Bool
  unfolding take_in
  consume taken pubs now protected p =
      let r = take_in p now protected pubs p.state in
      commit D taken (record (r.0) { at = now }) r.1 p
