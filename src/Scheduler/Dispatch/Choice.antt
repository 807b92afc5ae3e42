-- ===== src/Scheduler/Dispatch/Choice.antt =====
-- What `selectJobLocked` chooses.
use tidal_crypto_intelligenc.Base.{
  ℕ, ◌+◌, ◌≤◌, ◌<◌, ◌↔◌, sym, str_eq, ◌≡◌, ◌⊎◌, inl, inr, refl, Bool, true, false, Option, none,
  some, List, [], ◌∷◌, All, arith, Bool-cases, some_inv,
}
use mathlib.Core.List.{Mem, mem-cons_self, mem-cons_of_mem}
use mathlib.Core.Path.{subst}
use tidal_crypto_intelligenc.Scheduler.Job.{Job, is_live}
use tidal_crypto_intelligenc.Scheduler.Dispatch.{
  Score, score_lt, beats, current, priority, Storage, skipped, preferred, take_better, select_from,
  select_job,
}

-- `y` is not passed over for a worse job: whoever would be preferred to the chosen one is not due.
abbrev pub Unbeaten : ℕ → Storage → Job → List Job → Type 0
Unbeaten now st s js = All (λ x. (skipped now st x ≡ true) ⊎ (preferred now x s ≡ false)) js

beats_trans :
    (a b c : Bool) (p q r : Score)
    → beats a p b q ≡ true
    → beats a p c r ≡ false
    → beats b q c r ≡ false
beats_trans true true true p q r h k = ground arith
beats_trans true true false p q r h k = cc
beats_trans true false true p q r h k = refl
beats_trans true false false p q r h k = cc
beats_trans false true true p q r h k = cc
beats_trans false true false p q r h k = cc
beats_trans false false true p q r h k = refl
beats_trans false false false p q r h k = ground arith

beats_swap :
    (a b c : Bool) (p q r : Score)
    → beats a p b q ≡ false
    → beats b q c r ≡ false
    → beats a p c r ≡ false
beats_swap true true true p q r h k = ground arith
beats_swap true true false p q r h k = cc
beats_swap true false true p q r h k = cc
beats_swap true false false p q r h k = cc
beats_swap false true true p q r h k = refl
beats_swap false true false p q r h k = cc
beats_swap false false true p q r h k = refl
beats_swap false false false p q r h k = ground arith

preferred_trans :
    (now : ℕ) (x y z : Job)
    → preferred now x y ≡ true
    → preferred now x z ≡ false
    → preferred now y z ≡ false
unfolding preferred
preferred_trans now x y z h k =
    beats_trans (current x) (current y) (current z) (priority x now) (priority y now)
      (priority z now) h k

preferred_swap :
    (now : ℕ) (x y z : Job)
    → preferred now x y ≡ false
    → preferred now y z ≡ false
    → preferred now x z ≡ false
unfolding preferred
preferred_swap now x y z h k =
    beats_swap (current x) (current y) (current z) (priority x now) (priority y now)
      (priority z now) h k

preferred_irrefl : (now : ℕ) (x : Job) → preferred now x x ≡ false
unfolding preferred
preferred_irrefl now x = elim (Bool-cases (current x)) [
  | inl e ↦ rw e (ground arith)
  | inr e ↦ rw e (ground arith)
]

-- The job held so far does not beat the chosen one.
abbrev Held : ℕ → Option Job → Job → Type 0
Held now none s = Unit
Held now (some y) s = preferred now y s ≡ false

take_better-Held :
    (now : ℕ) (j s : Job) (held : Option Job)
    → Held now (take_better now j held) s
    → (preferred now j s ≡ false) × Held now held s
take_better-Held now j s none h = (h, tt)
take_better-Held now j s (some y) h = elim (Bool-cases (preferred now j y)) [
  | inl e ↦ let k = rw e at h in (k, preferred_trans now j y s e k)
  | inr e ↦ let k = rw e at h in (preferred_swap now j y s e k, k)
]

select_from-Unbeaten :
    (now : ℕ) (st : Storage) (held : Option Job) (js : List Job) (s : Job)
    → select_from now st held js ≡ some s
    → Unbeaten now st s js × Held now held s
unfolding select_from
select_from-Unbeaten now st none [] s h = (tt, tt)
select_from-Unbeaten now st (some y) [] s h = (tt, rw (some_inv h) (preferred_irrefl now s))
select_from-Unbeaten now st held (j ∷ js) s h = elim (Bool-cases (skipped now st j)) [
  | inl e ↦ let (rest, k) = select_from-Unbeaten now st held js s (rw e at h) in ((inl e, rest), k)
  | inr e ↦
      let (rest, k) = select_from-Unbeaten now st (take_better now j held) js s (rw e at h) in
      let (mine, k') = take_better-Held now j s held k in ((inr mine, rest), k')
]

pub select_job-Unbeaten :
    (now : ℕ) (st : Storage) (js : List Job) (s : Job)
    → select_job now st js ≡ some s
    → Unbeaten now st s js
unfolding select_job
select_job-Unbeaten now st js s h = (select_from-Unbeaten now st none js s h).0

-- What holds of every job that is due holds of the chosen one.
select_from_chosen {ℓ} :
    (P : Job → Type ℓ) (now : ℕ) (st : Storage) (held : Option Job) (js : List Job) (s : Job)
    → ((y : Job) → held ≡ some y → P y)
    → All (λ j. skipped now st j ≡ false → P j) js
    → select_from now st held js ≡ some s
    → P s
unfolding select_from
select_from_chosen P now st held [] s p k h = p s h
select_from_chosen P now st held (j ∷ js) s p k h = elim (Bool-cases (skipped now st j)) [
  | inl e ↦ select_from_chosen P now st held js s p k.1 (rw e at h)
  | inr e ↦
      select_from_chosen P now st (take_better now j held) js s (λ y q. taken y held p (k.0 e) q)
        k.1 (rw e at h)
]
  where
    taken :
        (y : Job) (held : Option Job)
        → ((z : Job) → held ≡ some z → P z)
        → P j
        → take_better now j held ≡ some y
        → P y
    taken y none p m q = subst P (some_inv q) m
    taken y (some z) p m q = elim (Bool-cases (preferred now j z)) [
      | inl e ↦ subst P (some_inv (rw e at q)) m
      | inr e ↦ p y (rw e at q)
    ]

pub select_job_chosen {ℓ} :
    (P : Job → Type ℓ) (now : ℕ) (st : Storage) (js : List Job) (s : Job)
    → All (λ j. skipped now st j ≡ false → P j) js
    → select_job now st js ≡ some s
    → P s
unfolding select_job
select_job_chosen P now st js s k h = select_from_chosen P now st none js s (λ y e. cc) k h

select_from-none :
    (now : ℕ) (st : Storage) (held : Option Job) (js : List Job)
    → select_from now st held js ≡ none
    → (held ≡ none) × All (λ j. skipped now st j ≡ true) js
unfolding select_from
select_from-none now st held [] h = (h, tt)
select_from-none now st held (j ∷ js) h = elim (Bool-cases (skipped now st j)) [
  | inl e ↦ let (q, k) = select_from-none now st held js (rw e at h) in (q, (e, k))
  | inr e ↦
      let (q, k) = select_from-none now st (take_better now j held) js (rw e at h) in
      absurd (taken held q)
]
  where
    taken : (held : Option Job) → ¬ (take_better now j held ≡ none)
    taken none q = cc
    taken (some z) q = ground arith

-- Nothing is chosen only when no job is due.
pub select_job-none :
    (now : ℕ) (st : Storage) (js : List Job)
    → select_job now st js ≡ none
    → All (λ j. skipped now st j ≡ true) js
unfolding select_job
select_job-none now st js h = (select_from-none now st none js h).1

-- A job may be sent now: neither ended nor under way, its time has come, and the storage takes its
-- data.
pub record IsDue (now : ℕ) (st : Storage) (j : Job) : Type 0 where
  pub enabled : j.disabled ≡ false
  pub incomplete : j.completed ≡ false
  pub idle : j.in_flight ≡ false
  pub come : j.next ≤ now
  pub room : (is_live j.mode ≡ true) ⊎ (st.paused ≡ false)
  pub order_room :
      (str_eq j.dataset.kind "large-history" ≡ false)
      ⊎ ((st.paused ≡ false) × (st.order_paused ≡ false))

-- A live job that is not one of order history.
abbrev pub IsCurrent : Job → Type 0
IsCurrent j = (is_live j.mode ≡ true) × (str_eq j.dataset.kind "large-history" ≡ false)

-- The score of `x` is lower than that of `y`.
abbrev pub Lower : ℕ → Job → Job → Type 0
Lower now x y =
    (priority x now).plus + (priority y now).minus < (priority y now).plus + (priority x now).minus

-- `s` is listed and may be sent; if a current job may be, `s` is current, and no job of its kind that may be sent
-- has a lower score.
pub record IsChoice (now : ℕ) (st : Storage) (s : Job) (js : List Job) : Type 0 where
  pub listed : Mem s js
  pub due : IsDue now st s
  pub live_first : All (λ x. IsDue now st x → IsCurrent x → IsCurrent s) js
  pub lowest : All (λ x. IsDue now st x → (IsCurrent x ↔ IsCurrent s) → ¬ Lower now x s) js

skipped-IsDue : (now : ℕ) (st : Storage) (j : Job) → skipped now st j ≡ false → IsDue now st j
unfolding skipped
skipped-IsDue now st j h = record {
  enabled = ground arith;
  incomplete = ground arith;
  idle = ground arith;
  come = ground arith;
  room = ground arith;
  order_room = ground arith;
}

IsDue-skipped : (now : ℕ) (st : Storage) (j : Job) → IsDue now st j → skipped now st j ≡ false
unfolding skipped
IsDue-skipped now st j d =
    ground (arith, d.enabled, d.incomplete, d.idle, d.come, d.room, d.order_room)

current_iff : (j : Job) → (current j ≡ true) ↔ IsCurrent j
unfolding current
current_iff j = (λ h. ground arith, λ h. ground arith)

all_due :
    (now : ℕ) (st : Storage) (js : List Job)
    → All (λ j. skipped now st j ≡ false → IsDue now st j) js
all_due now st [] = tt
all_due now st (j ∷ js) = (skipped-IsDue now st j, all_due now st js)

bool_iff : (a b : Bool) → (a ≡ true → b ≡ true) → (b ≡ true → a ≡ true) → a ≡ b
bool_iff true true f g = refl
bool_iff true false f g = sym (f refl)
bool_iff false true f g = g refl
bool_iff false false f g = refl

beats_current : (a b : Bool) (p q : Score) → beats a p b q ≡ false → a ≡ true → b ≡ true
beats_current true true p q h k = refl
beats_current true false p q h k = cc
beats_current false b p q h k = cc

beats_lower : (a b : Bool) (p q : Score) → beats a p b q ≡ false → a ≡ b → score_lt p q ≡ false
beats_lower true true p q h k = h
beats_lower true false p q h k = cc
beats_lower false true p q h k = cc
beats_lower false false p q h k = h

due_unbeaten :
    (now : ℕ) (st : Storage) (x s : Job)
    → (skipped now st x ≡ true) ⊎ (preferred now x s ≡ false)
    → IsDue now st x
    → preferred now x s ≡ false
due_unbeaten now st x s (inl e) d = cc (e, IsDue-skipped now st x d)
due_unbeaten now st x s (inr e) d = e

not_beaten :
    (now : ℕ) (x s : Job)
    → preferred now x s ≡ false
    → (IsCurrent x → IsCurrent s) × ((IsCurrent x ↔ IsCurrent s) → ¬ Lower now x s)
unfolding preferred
not_beaten now x s h =
    let p = priority x now in
    let q = priority s now in
    (
      λ k. (current_iff s).0 (beats_current (current x) (current s) p q h ((current_iff x).1 k)),
      λ k l.
          let same =
            bool_iff (current x) (current s) (λ e. (current_iff s).1 (k.0 ((current_iff x).0 e)))
              (λ e. (current_iff x).1 (k.1 ((current_iff s).0 e))) in
          let bad = beats_lower (current x) (current s) p q h same in ground arith,
    )

Unbeaten-all :
    (now : ℕ) (st : Storage) (s : Job) (js : List Job)
    → Unbeaten now st s js
    → All (λ x. IsDue now st x → IsCurrent x → IsCurrent s) js
      × All (λ x. IsDue now st x → (IsCurrent x ↔ IsCurrent s) → ¬ Lower now x s) js
Unbeaten-all now st s [] u = (tt, tt)
Unbeaten-all now st s (x ∷ js) u =
    let rest = Unbeaten-all now st s js u.1 in
    (
      (λ d. (not_beaten now x s (due_unbeaten now st x s u.0 d)).0, rest.0),
      (λ d. (not_beaten now x s (due_unbeaten now st x s u.0 d)).1, rest.1),
    )

all_listed :
    (now : ℕ) (st : Storage) (js ks : List Job)
    → ((j : Job) → Mem j js → Mem j ks)
    → All (λ j. skipped now st j ≡ false → Mem j ks) js
all_listed now st [] ks f = tt
all_listed now st (j ∷ js) ks f =
    (λ e. f j mem-cons_self, all_listed now st js ks (λ x m. f x (mem-cons_of_mem j m)))

-- The job that is chosen is one of the jobs and may be sent: it is enabled, not completed, not in flight, its time has come,
-- and the storage is not paused for its data. It is a live job outside order history if such a job
-- may be sent, and among those of its kind that may be sent none has a lower score.
pub select_job-IsChoice :
    (now : ℕ) (st : Storage) (js : List Job) (s : Job)
    → select_job now st js ≡ some s
    → IsChoice now st s js
select_job-IsChoice now st js s h =
    let (live_first, lowest) = Unbeaten-all now st s js (select_job-Unbeaten now st js s h) in
    record {
      listed = select_job_chosen (λ j. Mem j js) now st js s (all_listed now st js js (λ j m. m)) h;
      due = select_job_chosen (IsDue now st) now st js s (all_due now st js) h;
      live_first = live_first;
      lowest = lowest;
    }
