-- ===== src/Signals/Rearm.antt =====
-- When a direction of an asset gives another signal: the loop over the sides in `processSignals`
-- (internal/datahub/signals.go), and the same in `processMultifactor` (multifactor_engine.go), without
-- the upgrade of an active signal's level. The entries of the maps `Active` and `Clear` for one key
-- are a record; "" is no id.
pub mod Gap
use tidal_crypto_intelligenc.Base.{
  ℕ, ◌-◌, ◌*◌, Bool, true, false, not, ◌&&◌, ◌||◌, leb, if◌then◌else◌, Option, none, some, List, [],
  ◌∷◌, String, str_eq, minute,
}
use tidal_crypto_intelligenc.Signals.{or_else}

pub record SideState : Type 0 where
  pub active : String
  pub clear : Option ℕ

-- What a tick finds for one side: `valid` is that the data are fresh and complete, `bounded` that
-- `candleBounds` has a range, `id` the id that a signal would get.
pub record Look : Type 0 where
  pub now : ℕ
  pub valid : Bool
  pub pattern : String
  pub new_bar : Bool
  pub bounded : Bool
  pub id : String

abbrev pub quiet : Look → Bool
quiet l = l.valid && str_eq l.pattern ""

abbrev pub idle : SideState → Bool
idle s = str_eq s.active ""

abbrev pub rearmed : Look → ℕ → SideState → SideState
rearmed l since s =
    if leb (30 * minute) (l.now - since)
    then record { active = ""; clear = none }
    else record s { clear = some since }

-- The body of `processSignals`' loop, with the id of a new signal.
unfoldable pub signal_side : Look → SideState → SideState × String
signal_side l s =
    let s' : SideState = if l.valid then s else record s { clear = none } in
    if not (idle s')
    then if quiet l
      then (rearmed l (or_else s'.clear l.now) s', "")
      else if l.valid
      then (record s' { clear = none }, "")
      else (s', "")
    else if not l.valid || not l.new_bar || str_eq l.pattern "" || not l.bounded
    then (s', "")
    else (record s' { active = l.id }, l.id)

-- The body of `processMultifactor`'s loop.
unfoldable pub multifactor_side : Look → SideState → SideState × String
multifactor_side l s =
    if not l.valid
    then (record s { clear = none }, "")
    else if not (idle s)
    then if str_eq l.pattern ""
      then (rearmed l (or_else s.clear l.now) s, "")
      else (record s { clear = none }, "")
    else if not l.new_bar || str_eq l.pattern "" || not l.bounded
    then (s, "")
    else (record s { active = l.id }, l.id)

pub data Rule : Type 0 where
  experiment : Rule
  multifactor : Rule

unfoldable pub side : Rule → Look → SideState → SideState × String
unfolding signal_side multifactor_side
side experiment l s = signal_side l s
side multifactor l s = multifactor_side l s

-- Some tick gives a signal.
unfoldable pub gives : Rule → List Look → SideState → Bool
unfolding side
gives r [] s = false
gives r (l ∷ ls) s = let t = side r l s in not (str_eq t.1 "") || gives r ls t.0
