-- ===== src/Paper/Quotes/Entries.antt =====
-- What an entry needs.
use tidal_crypto_intelligenc.Base.{
  ◌≤◌, ◌≡◌, refl, Bool, true, false, List, [], ◌∷◌, Bool-cases, inl, inr, str_eq, String,
  if◌then◌else◌,
}
use tidal_crypto_intelligenc.Paper.Decimal.{DecimalOps}
use tidal_crypto_intelligenc.Paper.Types.{Quote, Intent, Trade, Account, State, cash}
use tidal_crypto_intelligenc.Paper.Trading.{execution}
use tidal_crypto_intelligenc.Paper.Admission.Gate.{IsAdmitted, first_reason_iff}
use tidal_crypto_intelligenc.Paper.Store.{Store}
use tidal_crypto_intelligenc.Paper.Quotes.{filtered, cost, refusal}

-- The reason of an entry is "" when admission and the order's checks both give "".
pub reason_clear :
    (admitted refused : String)
    → str_eq (if str_eq admitted "" then refused else admitted) "" ≡ true
    → (str_eq admitted "" ≡ true) × (str_eq refused "" ≡ true)
reason_clear admitted refused h = elim (Bool-cases (str_eq admitted "")) [
  | inl e ↦ (e, rw e at h)
  | inr e ↦ cc (simp e at h)
]

module _ (D : DecimalOps) where
  open D use {Decimal, less}

  pub refusal_clear :
      (p : Store D) (a : Account D) (qty price size : Decimal)
      → str_eq (refusal D p a qty price size) "" ≡ true
      → (filtered D p qty price ≡ false)
        × (less size qty ≡ false)
        × (less (cash D a) (cost D qty price) ≡ false)
  unfolding refusal
  refusal_clear p a qty price size h =
      let tests : List (Bool × String) =
        (filtered D p qty price, "quantity_filter")
        ∷ (less size qty, "top_size_insufficient")
        ∷ (less (cash D a) (cost D qty price), "cash_insufficient")
        ∷ [] in
      let k = (first_reason_iff tests (refl, (refl, (refl, tt)))).0 h in (k.0, k.1.0, k.1.1.0)

  -- What holds when an account without a position has one after a quote.
  pub record IsFunded (p : Store D) (s : State D) (protected : Bool) (q : Quote D) (a : Account D)
      (i : Intent D) (u : Trade D) : Type 0 where
    pub waited : i.after ≤ q.at
    pub admitted : IsAdmitted D p s i q.at protected
    pub price : u.entry ≡ (execution D q i.signal.direction).0
    pub allowed : filtered D p u.quantity u.entry ≡ false
    pub size : less (execution D q i.signal.direction).1 u.quantity ≡ false
    pub cash_left : less (cash D a) (cost D u.quantity u.entry) ≡ false
