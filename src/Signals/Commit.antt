-- ===== src/Signals/Commit.antt =====
-- `commitSignals` (internal/datahub/signals.go): a tick's updates become documents, the publication
-- that paper trading follows, and notices of mails. The clocks of a first reading and the version of
-- the collection are left out; a payload is the signal. `sent` is the query of the mails sent for a
-- signal.
pub mod Once
use tidal_crypto_intelligenc.Base.{
  ℕ, Bool, true, false, not, ◌&&◌, ◌||◌, ltb, leb, if◌then◌else◌, Option, none, some, List, [], ◌∷◌,
  ◌++◌, String, str_eq, join,
}
use tidal_crypto_intelligenc.Study.Prices.{Floats}
use tidal_crypto_intelligenc.Signals.Lifecycle.{Signal}
use tidal_crypto_intelligenc.Signals.Track.{put_row}

abbrev pub signal_rules : String
signal_rules = "flow-experiment-2.2.0"

abbrev pub multifactor_rules : String
multifactor_rules = "flow-multifactor-v1"

abbrev pub candidate_rules : String
candidate_rules = "flow-candidate-2.5.0"

module _ (F : Floats) where
  -- `signal_publications`: the time is in the caller's milliseconds.
  pub record Publication : Type 0 where
    pub id : String
    pub at : ℕ
    pub payload : Signal F

  pub record Notice : Type 0 where
    pub id : String
    pub signal_id : String
    pub kind : String
    pub created : ℕ
    pub status : String
    pub payload : Signal F

  pub record Tables : Type 0 where
    pub documents : List (Signal F)
    pub publications : List Publication
    pub notices : List Notice

  -- An update with its entry of the map `notices`, "" where it has none.
  pub record Update : Type 0 where
    pub signal : Signal F
    pub kind : String

  -- The hub's side of a commit: the cut-over of the rules, whether candidates may be mailed, whether
  -- there is a mail service.
  pub record Terms : Type 0 where
    pub now : ℕ
    pub cutover : Option ℕ
    pub candidate_allowed : Bool
    pub mail : Bool
    pub sent : String → Bool

  abbrev pub slash : String → String → String
  slash a b = join a (join "/" b)

  abbrev pub has_publication : String → List Publication → Bool
  has_publication id [] = false
  has_publication id (p ∷ ps) = str_eq p.id id || has_publication id ps

  abbrev pub has_notice : String → List Notice → Bool
  has_notice id [] = false
  has_notice id (n ∷ ns) = str_eq n.id id || has_notice id ns

  -- `INSERT OR IGNORE`.
  unfoldable pub publish : Publication → List Publication → List Publication
  publish p ps = if has_publication p.id ps then ps else ps ++ p ∷ []

  unfoldable pub notify : Notice → List Notice → List Notice
  notify n ns = if has_notice n.id ns then ns else ns ++ n ∷ []

  abbrev pub is_published : Update → Bool
  is_published u =
      str_eq u.signal.asset "BTC"
      && str_eq u.signal.rules multifactor_rules
      && str_eq u.kind "anomaly"

  -- `allowed`, without a cut-over and with one.
  abbrev pub allowed_before : Terms → Update → Bool
  allowed_before t u =
      not (str_eq u.signal.rules candidate_rules)
      || t.candidate_allowed
        && str_eq u.signal.level "strong"
        && (str_eq u.kind "strong" || str_eq u.kind "confirmed")

  abbrev pub allowed_after : Terms → ℕ → Update → Bool
  allowed_after t c u =
      if not (str_eq u.signal.rules multifactor_rules)
        && str_eq u.kind "confirmed"
        && leb u.signal.at c
        && ltb t.now u.signal.expires
      then t.sent u.signal.id
      else str_eq u.signal.rules multifactor_rules
        && (str_eq u.kind "anomaly" || str_eq u.kind "confirmed")

  abbrev pub allowed : Terms → Option ℕ → Update → Bool
  allowed t none u = allowed_before t u
  allowed t (some c) u = allowed_after t c u

  abbrev pub publication_of : Terms → Update → Publication
  publication_of t u = record {
    id = slash u.signal.rules u.signal.id;
    at = t.now;
    payload = u.signal;
  }

  abbrev pub notice_of : Terms → Update → Notice
  notice_of t u = record {
    id = slash u.signal.id u.kind;
    signal_id = u.signal.id;
    kind = u.kind;
    created = t.now;
    status = if t.mail then "pending" else "unconfigured";
    payload = u.signal;
  }

  -- One round of the loop.
  unfoldable pub commit_one : Terms → Update → Tables → Tables
  unfolding put_row publish notify
  commit_one t u d = record {
    documents = put_row F u.signal d.documents;
    publications =
        if is_published u then publish (publication_of t u) d.publications else d.publications;
    notices =
        if not (str_eq u.kind "") && allowed t t.cutover u
        then notify (notice_of t u) d.notices
        else d.notices;
  }

  -- `commitSignals`.
  unfoldable pub commit_signals : Terms → List Update → Tables → Tables
  unfolding commit_one
  commit_signals t [] d = d
  commit_signals t (u ∷ us) d = commit_signals t us (commit_one t u d)

  unfoldable pub commits : List (Terms × List Update) → Tables → Tables
  unfolding commit_signals
  commits [] d = d
  commits ((t, us) ∷ cs) d = commits cs (commit_signals t us d)
