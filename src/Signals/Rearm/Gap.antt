-- ===== src/Signals/Rearm/Gap.antt =====
-- Between two signals of one side lies half an hour without a pattern, unbroken.
use tidal_crypto_intelligenc.Base.{
  ℕ, ◌-◌, ◌*◌, ◌≤◌, ◌+◌, ◌≡◌, ◌⊎◌, refl, ap, true, false, leb, Option, none, some, List, [], ◌∷◌,
  ◌++◌, All, str_eq, minute, arith, Bool-cases, inl, inr,
}
use tidal_crypto_intelligenc.Signals.{or_else}
use tidal_crypto_intelligenc.Signals.Rearm.{
  SideState, Look, quiet, idle, rearmed, signal_side, multifactor_side, Rule, experiment,
  multifactor, side, gives,
}

abbrev pub last_now : ℕ → List Look → ℕ
last_now t [] = t
last_now t (l ∷ ls) = last_now l.now ls

abbrev pub Quiet : Look → Type 0
Quiet l = quiet l ≡ true

-- The first ticks are quiet and reach half an hour after `t`.
pub record IsSpan (t : ℕ) (ls : List Look) : Type 0 where
  pub run : List Look
  pub rest : List Look
  pub split : ls ≡ run ++ rest
  pub unbroken : All Quiet run
  pub long : t + 30 * minute ≤ last_now t run

-- Somewhere quiet ticks follow one another for half an hour.
pub record HasGap (ls : List Look) : Type 0 where
  pub before : List Look
  pub first : Look
  pub after : List Look
  pub split : ls ≡ before ++ first ∷ after
  pub calm : Quiet first
  pub span : IsSpan first.now after

later : (l : Look) (ls : List Look) → HasGap ls → HasGap (l ∷ ls)
later l ls g = record {
  before = l ∷ g.before;
  first = g.first;
  after = g.after;
  split = ap (λ ks. l ∷ ks) g.split;
  calm = g.calm;
  span = g.span;
}

longer : (t : ℕ) (l : Look) (ls : List Look) → Quiet l → IsSpan t ls → IsSpan t (l ∷ ls)
longer t l ls q s = record {
  run = l ∷ s.run;
  rest = s.rest;
  split = ap (λ ks. l ∷ ks) s.split;
  unbroken = (q, s.unbroken);
  long = ends s.run s.long;
}
  where
    ends : (ks : List Look) → t + 30 * minute ≤ last_now t ks → t + 30 * minute ≤ last_now l.now ks
    ends [] h = omega arith
    ends (k ∷ ks) h = h

side_broken :
    (r : Rule) (l : Look) (s : SideState)
    → idle s ≡ false
    → quiet l ≡ false
    → side r l s ≡ (record s { clear = none }, "")
unfolding side signal_side multifactor_side
side_broken experiment l s h q = elim (Bool-cases l.valid) [
  | inl e ↦ let p = rw e at q in simp (e, h, p)
  | inr e ↦ simp (e, h)
]
side_broken multifactor l s h q = elim (Bool-cases l.valid) [
  | inl e ↦ let p = rw e at q in simp (e, h, p)
  | inr e ↦ simp (e, h)
]

side_quiet :
    (r : Rule) (l : Look) (s : SideState)
    → idle s ≡ false
    → quiet l ≡ true
    → side r l s ≡ (rearmed l (or_else s.clear l.now) s, "")
unfolding side signal_side multifactor_side
side_quiet experiment l s h q = elim (Bool-cases l.valid) [
  | inl e ↦ let p = rw e at q in simp (e, h, p)
  | inr e ↦ let n = rw e at q in cc
]
side_quiet multifactor l s h q = elim (Bool-cases l.valid) [
  | inl e ↦ let p = rw e at q in simp (e, h, p)
  | inr e ↦ let n = rw e at q in cc
]

-- The rest gives a signal, from an active side with the given start of its quiet time.
abbrev Found : Option ℕ → List Look → Type 0
Found none ls = HasGap ls
Found (some t) ls = IsSpan t ls ⊎ HasGap ls

after_quiet :
    (l : Look) (ls : List Look) (c : Option ℕ)
    → Quiet l
    → IsSpan (or_else c l.now) ls ⊎ HasGap ls
    → Found c (l ∷ ls)
after_quiet l ls none q (inl s) = record {
  before = [];
  first = l;
  after = ls;
  split = refl;
  calm = q;
  span = s;
}
after_quiet l ls (some t) q (inl s) = inl (longer t l ls q s)
after_quiet l ls none q (inr g) = later l ls g
after_quiet l ls (some t) q (inr g) = inr (later l ls g)

after_break : (l : Look) (ls : List Look) (c : Option ℕ) → HasGap ls → Found c (l ∷ ls)
after_break l ls none g = later l ls g
after_break l ls (some t) g = inr (later l ls g)

enough :
    (l : Look) (ls : List Look) (c : Option ℕ)
    → Quiet l
    → leb (30 * minute) (l.now - or_else c l.now) ≡ true
    → Found c (l ∷ ls)
enough l ls none q h = ground arith
enough l ls (some t) q h =
    inl (record { run = l ∷ []; rest = ls; split = refl; unbroken = (q, tt); long = ground arith })

gives_found :
    (r : Rule) (ls : List Look) (s : SideState)
    → idle s ≡ false
    → gives r ls s ≡ true
    → Found s.clear ls
unfolding gives
gives_found r [] s h g = cc
gives_found r (l ∷ ls) s h g = elim (Bool-cases (quiet l)) [
  | inr q ↦
      let n = rw (side_broken r l s h q) at g in
      after_break l ls s.clear (gives_found r ls (record s { clear = none }) h n)
  | inl q ↦ elim (Bool-cases (leb (30 * minute) (l.now - or_else s.clear l.now))) [
    | inl e ↦ enough l ls s.clear q e
    | inr e ↦
        let n = rw (side_quiet r l s h q, e) at g in
        after_quiet l ls s.clear q
          (gives_found r ls (record s { clear = some (or_else s.clear l.now) }) h n)
  ]
]

-- From a side with an active signal and no quiet time begun, as after it has given one, under the
-- experiment's rules or the multifactor rules: if any later ticks give it another signal, then among them are ticks one after another, all with valid
-- data and no pattern, whose last is at least half an hour after their first.
pub gives-HasGap :
    (r : Rule) (ls : List Look) (s : SideState)
    → str_eq s.active "" ≡ false
    → s.clear ≡ none
    → gives r ls s ≡ true
    → HasGap ls
gives-HasGap r ls s h c g = let f = gives_found r ls s h g in rw c at f
