-- ===== src/Study/Account.antt =====
-- Every episode and every signal is accounted for once.
use tidal_crypto_intelligenc.Base.{
  ℕ, ◌+◌, ◌≤◌, ◌≡◌, refl, inl, inr, ◌∙◌, Bool, true, not, ◌&&◌, if◌then◌else◌, Option, none, some,
  some_inv, List, [], ◌∷◌, String, str_eq, length, count, arith, Bool-cases, if-split, All,
}
use mathlib.Core.Path.{subst}
use text.Mathlib.TextPositions.{eq_refl}
use tidal_crypto_intelligenc.Study.{
  Episode, Signal, Evaluation, before, insert_signal, sort_signals, is_used, fits, first_fit,
  is_early, matched, spent, match_all, awaits, leftover, match_episodes,
}

abbrev free : List String → Signal → Bool
free used s = not (is_used used s.id)

abbrev pub named : String → Signal → Bool
named id s = str_eq id s.id

-- No two signals have an id in common.
abbrev pub Distinct : List Signal → Type 0
Distinct ss = All (λ s. count (named s.id) ss ≤ 1) ss

count-insert_signal :
    (p : Signal → Bool) (s : Signal) (ss : List Signal)
    → count p (insert_signal s ss) ≡ count p (s ∷ ss)
unfolding insert_signal
count-insert_signal p s [] = refl
count-insert_signal p s (t ∷ ts) = ground (arith, count-insert_signal p s ts)

count-sort_signals : (p : Signal → Bool) (ss : List Signal) → count p (sort_signals ss) ≡ count p ss
unfolding sort_signals
count-sort_signals p [] = refl
count-sort_signals p (s ∷ ss) =
    count-insert_signal p s (sort_signals ss) ∙ rw (count-sort_signals p ss) refl

count_all : (ss : List Signal) → count (λ s. true) ss ≡ length ss
count_all [] = refl
count_all (s ∷ ss) = omega (arith, count_all ss)

count_split :
    (used : List String) (id : String) (ss : List Signal)
    → count (free used) ss ≡ count (free (id ∷ used)) ss + count (λ s. free used s && named id s) ss
unfolding is_used
count_split used id [] = refl
count_split used id (s ∷ ss) = ground (arith, count_split used id ss)

count_both : (f g : Signal → Bool) (ss : List Signal) → count (λ s. f s && g s) ss ≤ count g ss
count_both f g [] = omega arith
count_both f g (s ∷ ss) = ground (arith, count_both f g ss)

first_fit-counted :
    (e : Episode) (used : List String) (ss : List Signal) (s : Signal)
    → first_fit e used ss ≡ some s
    → 1 ≤ count (λ x. free used x && named s.id x) ss
unfolding first_fit fits
first_fit-counted e used [] s h = cc
first_fit-counted e used (x ∷ xs) s h = elim (Bool-cases (fits e used x)) [
  | inl f ↦ let same = some_inv (rw f at h) in rw⁻¹ same (rw (eq_refl x.id) (ground arith))
  | inr f ↦ let rest = first_fit-counted e used xs s (rw f at h) in ground (arith, rest)
]

first_fit-All :
    (P : Signal → Type 0) (e : Episode) (used : List String) (ss : List Signal) (s : Signal)
    → All P ss
    → first_fit e used ss ≡ some s
    → P s
unfolding first_fit
first_fit-All P e used [] s a h = cc
first_fit-All P e used (x ∷ xs) s a h = elim (Bool-cases (fits e used x)) [
  | inl f ↦ subst P (some_inv (rw f at h)) a.0
  | inr f ↦ first_fit-All P e used xs s a.1 (rw f at h)
]

insert_signal-All :
    (P : Signal → Type 0) (s : Signal) (ss : List Signal)
    → P s
    → All P ss
    → All P (insert_signal s ss)
unfolding insert_signal
insert_signal-All P s [] p a = (p, tt)
insert_signal-All P s (t ∷ ts) p a = elim (Bool-cases (before t s)) [
  | inl e ↦ rw e (a.0, insert_signal-All P s ts p a.1)
  | inr e ↦ rw e (p, a)
]

sort_signals-All : (P : Signal → Type 0) (ss : List Signal) → All P ss → All P (sort_signals ss)
unfolding sort_signals
sort_signals-All P [] a = tt
sort_signals-All P (s ∷ ss) a =
    insert_signal-All P s (sort_signals ss) a.0 (sort_signals-All P ss a.1)

map-All :
    (P Q : Signal → Type 0) (ss : List Signal) → ((s : Signal) → P s → Q s) → All P ss → All Q ss
map-All P Q [] f a = tt
map-All P Q (s ∷ ss) f a = (f s a.0, map-All P Q ss f a.1)

-- How many episodes have a signal.
abbrev found : Evaluation → ℕ
found r = r.early + r.following

abbrev rest_of : Evaluation → ℕ
rest_of r = r.pending + r.unmatched

found-matched :
    (e : Episode) (s : Signal) (r : Evaluation) → found (matched e (some s) r) ≡ found r + 1
found-matched e s r =
    if-split (λ (x : Evaluation). found x ≡ found r + 1) (is_early e s) _ _ (λ h. omega arith)
      (λ h. omega arith)

-- A match spends one signal.
spend :
    (e : Episode) (used : List String) (ss : List Signal) (r : Evaluation) (o : Option Signal)
    → Distinct ss
    → first_fit e used ss ≡ o
    → found (matched e o r) + count (free (spent o used)) ss ≡ found r + count (free used) ss
spend e used ss r none d h = refl
spend e used ss r (some s) d h =
    let split = count_split used s.id ss in
    let some_one = first_fit-counted e used ss s h in
    let at_most_one = count_both (free used) (named s.id) ss in
    let once = first_fit-All (λ x. count (named x.id) ss ≤ 1) e used ss s d h in
    let more = found-matched e s r in omega arith

match_all-signals :
    (es : List Episode) (ss : List Signal) (used : List String) (r : Evaluation)
    → Distinct ss
    → let x = match_all es ss used r in
      found x.0 + count (free x.1) ss ≡ found r + count (free used) ss
unfolding match_all
match_all-signals [] ss used r d = refl
match_all-signals (e ∷ es) ss used r d =
    match_all-signals es ss (spent (first_fit e used ss) used) (matched e (first_fit e used ss) r) d
    ∙ spend e used ss r (first_fit e used ss) d refl

settled-matched :
    (e : Episode) (o : Option Signal) (r : Evaluation)
    → (found (matched e o r) + (matched e o r).missed ≡ found r + r.missed + 1)
      × (rest_of (matched e o r) ≡ rest_of r)
settled-matched e none r = (omega arith, refl)
settled-matched e (some s) r =
    if-split
      (λ (x : Evaluation). (found x + x.missed ≡ found r + r.missed + 1) × (rest_of x ≡ rest_of r))
      (is_early e s) _ _ (λ h. (omega arith, refl)) (λ h. (omega arith, refl))

match_all-episodes :
    (es : List Episode) (ss : List Signal) (used : List String) (r : Evaluation)
    → let x = match_all es ss used r in
      (found x.0 + x.0.missed ≡ found r + r.missed + length es) × (rest_of x.0 ≡ rest_of r)
unfolding match_all
match_all-episodes [] ss used r = (omega arith, refl)
match_all-episodes (e ∷ es) ss used r =
    let o = first_fit e used ss in
    let (one, same) = settled-matched e o r in
    let (more, kept) = match_all-episodes es ss (spent o used) (matched e o r) in
    (omega arith, kept ∙ same)

-- One round of the last loop.
abbrev counted : Option ℕ → Signal → List String → Evaluation → Evaluation
counted observed s used r =
    if is_used used s.id
    then r
    else if awaits observed s
    then record r { pending = r.pending + 1 }
    else record r { unmatched = r.unmatched + 1 }

rest_of-counted :
    (observed : Option ℕ) (s : Signal) (used : List String) (r : Evaluation) (k : ℕ)
    → (rest_of (counted observed s used r) + k ≡ rest_of r + (if free used s then k + 1 else k))
      × (found (counted observed s used r) ≡ found r)
      × ((counted observed s used r).missed ≡ r.missed)
rest_of-counted observed s used r k = elim (Bool-cases (is_used used s.id)) [
  | inl u ↦ rw u (refl, refl, refl)
  | inr u ↦ elim (Bool-cases (awaits observed s)) [
    | inl w ↦ rw (u, w) (omega arith, refl, refl)
    | inr w ↦ rw (u, w) (omega arith, refl, refl)
  ]
]

leftover-rest :
    (observed : Option ℕ) (ss : List Signal) (used : List String) (r : Evaluation)
    → let x = leftover observed ss used r in
      (rest_of x ≡ rest_of r + count (free used) ss) × (found x ≡ found r) × (x.missed ≡ r.missed)
unfolding leftover
leftover-rest observed [] used r = (omega arith, refl, refl)
leftover-rest observed (s ∷ ss) used r =
    let (a, b, c) = leftover-rest observed ss used (counted observed s used r) in
    let (x, y, z) = rest_of-counted observed s used r (count (free used) ss) in
    (a ∙ x ∙ ground arith, b ∙ y, c ∙ z)

count_free : (ss : List Signal) → count (free []) ss ≡ count (λ s. true) ss
unfolding is_used
count_free [] = refl
count_free (s ∷ ss) = omega (arith, count_free ss)

-- If no two signals have an id in common, every episode is early, followed or missed, and every
-- signal is spent on one episode, pending or unmatched: the counts add up on both sides.
pub match_episodes_accounts :
    (es : List Episode) (ss : List Signal) (observed : Option ℕ)
    → Distinct ss
    → let r = match_episodes es ss observed in
      (r.early + r.following + r.missed ≡ length es)
      × (r.early + r.following + r.pending + r.unmatched ≡ length ss)
unfolding match_episodes
match_episodes_accounts es ss observed d =
    let sorted = sort_signals ss in
    let r : Evaluation = record {
      signals = length ss;
      episodes = length es;
      early = 0;
      following = 0;
      missed = 0;
      pending = 0;
      unmatched = 0;
      matches = [];
    } in
    let x = match_all es sorted [] r in
    let distinct : Distinct sorted =
      (sort_signals-All (λ x. count (named x.id) sorted ≤ 1) ss
        (map-All (λ x. count (named x.id) ss ≤ 1) (λ x. count (named x.id) sorted ≤ 1) ss
          (λ x h. rw (count-sort_signals (named x.id) ss) h) d)) in
    let one = match_all-signals es sorted [] r distinct in
    let (all, none_left) = match_all-episodes es sorted [] r in
    let (rest, same, missed) = leftover-rest observed sorted x.1 x.0 in
    let size = count-sort_signals (λ s. true) ss ∙ count_all ss in
    let everything = count_free sorted in (omega arith, omega arith)
