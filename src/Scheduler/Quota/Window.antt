-- ===== src/Scheduler/Quota/Window.antt =====
-- The rate limit over any history of attempts and refusals.
use tidal_crypto_intelligenc.Base.{
  ℕ, ◌+◌, ◌*◌, ◌<◌, ◌≤◌, ◌≡◌, refl, Bool, true, ◌&&◌, ltb, leb, List, [], ◌∷◌, ◌++◌, count, minute,
  millisecond, arith, All, Bool-cases, inl, inr, ap, ◌∙◌, sym, All-append, leb→le, ltb→lt,
}
use mathlib.Core.List.{append_assoc}
use mathlib.Core.Path.{subst}
use tidal_crypto_intelligenc.Scheduler.Quota.{
  Quota, new_quota, prune, available, record_start, FetchError, refused, drop_old, spaced_from_last,
}

-- Each start is at least 5.1 seconds after the one before.
abbrev pub Spaced : List ℕ → Type 0
Spaced [] = Unit
Spaced (s ∷ []) = Unit
Spaced (s ∷ t ∷ ts) = (s + 5100 * millisecond ≤ t) × Spaced (t ∷ ts)

abbrev pub in_window : ℕ → ℕ → Bool
in_window t s = ltb t s && leb s (t + minute)

abbrev AllLe : ℕ → List ℕ → Type 0
AllLe now ss = All (λ s. s ≤ now) ss

-- The last start is 5.1 seconds back, if there is one.
abbrev Clear : ℕ → List ℕ → Type 0
Clear now [] = Unit
Clear now (s ∷ []) = s + 5100 * millisecond ≤ now
Clear now (s ∷ t ∷ ts) = Clear now (t ∷ ts)

append-Spaced : (now : ℕ) (ss : List ℕ) → Spaced ss → Clear now ss → Spaced (ss ++ now ∷ [])
append-Spaced now [] h c = tt
append-Spaced now (s ∷ []) h c = (c, tt)
append-Spaced now (s ∷ t ∷ ts) h c = (h.0, append-Spaced now (t ∷ ts) h.1 c)

-- The quota holds the granted starts but for some that are a minute old.
abbrev Retains : ℕ → List ℕ → List ℕ → Type 0
Retains now granted kept =
    (old : List ℕ) × (granted ≡ old ++ kept) × All (λ s. s + minute ≤ now) old

Old-weaken :
    (a b : ℕ) (ss : List ℕ) → a ≤ b → All (λ s. s + minute ≤ a) ss → All (λ s. s + minute ≤ b) ss
Old-weaken a b [] h k = tt
Old-weaken a b (s ∷ ss) h k = (omega arith, Old-weaken a b ss h k.1)

-- The ledger invariant at an instant: the starts granted so far are spaced and not in the future,
-- and those of the last minute are all in the quota.
pub record IsLedger (now : ℕ) (granted : List ℕ) (q : Quota) : Type 0 where
  pub retains : Retains now granted q.starts
  pub spaced : Spaced granted
  pub past : AllLe now granted

pub new_quota-IsLedger : IsLedger 0 [] new_quota
new_quota-IsLedger = record { retains = ([], refl, tt); spaced = tt; past = tt }

AllLe-weaken : (a b : ℕ) (ss : List ℕ) → a ≤ b → AllLe a ss → AllLe b ss
AllLe-weaken a b [] h k = tt
AllLe-weaken a b (s ∷ ss) h k = (omega arith, AllLe-weaken a b ss h k.1)

pub IsLedger-later :
    (a b : ℕ) (granted : List ℕ) (q : Quota) → a ≤ b → IsLedger a granted q → IsLedger b granted q
IsLedger-later a b granted q h l = record {
  retains = (l.retains.0, l.retains.1, Old-weaken a b l.retains.0 h l.retains.2);
  spaced = l.spaced;
  past = AllLe-weaken a b granted h l.past;
}

drop_old-Retains :
    (now : ℕ) (ss : List ℕ)
    → (old : List ℕ) × (ss ≡ old ++ drop_old now ss) × All (λ s. s + minute ≤ now) old
unfolding drop_old
drop_old-Retains now [] = ([], refl, tt)
drop_old-Retains now (s ∷ ss) =
    let (old, e, k) = drop_old-Retains now ss in
    elim (Bool-cases (leb (s + minute) now)) [
      | inl h ↦ (s ∷ old, rw h (ap (◌∷◌ s) e), (leb→le _ _ h, k))
      | inr h ↦ ([], rw h, tt)
    ]

pub prune-IsLedger :
    (now : ℕ) (granted : List ℕ) (q : Quota)
    → IsLedger now granted q
    → IsLedger now granted (prune now q)
unfolding prune
prune-IsLedger now granted q l =
    let (old, e, k) = l.retains in
    let (older, e', k') = drop_old-Retains now q.starts in
    record {
      retains = (
        old ++ older,
        e ∙ ap (◌++◌ old) e' ∙ sym (append_assoc old older (drop_old now q.starts)),
        All-append (λ s. s + minute ≤ now) old older k k',
      );
      spaced = l.spaced;
      past = l.past;
    }

Clear-append :
    (now : ℕ) (old kept : List ℕ)
    → All (λ s. s + minute ≤ now) old
    → spaced_from_last now kept ≡ true
    → Clear now (old ++ kept)
unfolding spaced_from_last
Clear-append now [] [] k h = tt
Clear-append now [] (s ∷ []) k h = leb→le _ _ h
Clear-append now [] (s ∷ t ∷ ts) k h = Clear-append now [] (t ∷ ts) tt h
Clear-append now (s ∷ []) [] k h = omega arith
Clear-append now (s ∷ []) (t ∷ ts) k h = Clear-append now [] (t ∷ ts) tt h
Clear-append now (s ∷ r ∷ old) kept k h = Clear-append now (r ∷ old) kept k.1 h

available_spaced :
    (now : ℕ) (q : Quota)
    → (available now q).1 ≡ true
    → spaced_from_last now (prune now q).starts ≡ true
unfolding available
available_spaced now q h = ground arith

pub available_prunes : (now : ℕ) (q : Quota) → (available now q).0 ≡ prune now q
unfolding available
available_prunes now q = refl

-- A start that `available` allows keeps the ledger invariant.
pub record_start-IsLedger :
    (now : ℕ) (granted : List ℕ) (q : Quota)
    → IsLedger now granted q
    → (available now q).1 ≡ true
    → IsLedger now (granted ++ now ∷ []) (record_start now (prune now q))
unfolding record_start
record_start-IsLedger now granted q l h =
    let p = prune-IsLedger now granted q l in
    let (old, e, k) = p.retains in
    let clear = Clear-append now old (prune now q).starts k (available_spaced now q h) in
    record {
      retains =
          (old, ap (λ ss. ss ++ now ∷ []) e ∙ append_assoc old (prune now q).starts (now ∷ []), k);
      spaced = append-Spaced now granted l.spaced (subst (Clear now) (sym e) clear);
      past = All-append (λ s. s ≤ now) granted (now ∷ []) l.past (omega arith);
    }

refused_starts : (t : ℕ) (e : FetchError) (q : Quota) → (refused t e q).starts ≡ q.starts
unfolding refused
refused_starts t e q = ground arith

pub refused-IsLedger :
    (now t : ℕ) (e : FetchError) (granted : List ℕ) (q : Quota)
    → IsLedger now granted q
    → IsLedger now granted (refused t e q)
refused-IsLedger now t e granted q l = record {
  retains = rw (refused_starts t e q) l.retains;
  spaced = l.spaced;
  past = l.past;
}

-- Starts after the window's end are not counted.
beyond_window :
    (t s : ℕ) (ss : List ℕ) → Spaced (s ∷ ss) → t + minute < s → count (in_window t) (s ∷ ss) ≡ 0
beyond_window t s [] h b = ground arith
beyond_window t s (r ∷ rs) h b = ground (arith, beyond_window t r rs h.1)

window_packs :
    (t s : ℕ) (ss : List ℕ)
    → Spaced (s ∷ ss)
    → s ≤ t + minute
    → s + 5100 * millisecond * count (in_window t) (s ∷ ss) ≤ t + minute + 5100 * millisecond
window_packs t s [] h b = ground arith
window_packs t s (r ∷ rs) h b = elim (Bool-cases (leb r (t + minute))) [
  | inl e ↦ ground (arith, window_packs t r rs h.1)
  | inr e ↦ ground (arith, beyond_window t r rs h.1)
]

-- Spaced starts are at most twelve in any window of a minute.
pub Spaced-twelve : (t : ℕ) (ss : List ℕ) → Spaced ss → count (in_window t) ss ≤ 12
Spaced-twelve t [] h = omega arith
Spaced-twelve t (s ∷ []) h = ground arith
Spaced-twelve t (s ∷ r ∷ rs) h = elim (Bool-cases (ltb t s)) [
  | inl e ↦ elim (Bool-cases (leb s (t + minute))) [
    | inl f ↦ omega (arith, window_packs t s (r ∷ rs) h, ltb→lt t s e, leb→le s (t + minute) f)
    | inr f ↦ ground (arith, beyond_window t s (r ∷ rs) h)
  ]
  | inr e ↦ ground (arith, Spaced-twelve t (r ∷ rs) h.1)
]
