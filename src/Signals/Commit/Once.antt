-- ===== src/Signals/Commit/Once.antt =====
-- Publications and notices are made once and are never rewritten.
use mathlib.Core.Path.{subst}
use mathlib.Core.List.{append_assoc, append-nil}
use tidal_crypto_intelligenc.Base.{
  ◌≡◌, refl, sym, ap, ◌∙◌, Bool, true, false, ◌&&◌, not, if◌then◌else◌, List, [], ◌∷◌, ◌++◌, str_eq,
  Bool-cases, inl, inr, arith,
}
use tidal_crypto_intelligenc.Study.Prices.{Floats}
use tidal_crypto_intelligenc.Signals.Commit.{
  Publication, Notice, Tables, Update, Terms, multifactor_rules, has_publication, has_notice,
  publish, notify, is_published, allowed, publication_of, notice_of, commit_one, commit_signals,
  commits,
}

module _ (F : Floats) where
  -- Each entry is new to those before it.
  abbrev pub Added : List (Publication F) → List (Publication F) → Type 0
  Added ps [] = Unit
  Added ps (q ∷ qs) =
      (has_publication F q.id ps ≡ false)
      × (((str_eq q.payload.asset "BTC" ≡ true) × (str_eq q.payload.rules multifactor_rules ≡ true))
          × Added (ps ++ q ∷ []) qs)

  abbrev pub Noted : List (Notice F) → List (Notice F) → Type 0
  Noted ns [] = Unit
  Noted ns (m ∷ ms) = (has_notice F m.id ns ≡ false) × Noted (ns ++ m ∷ []) ms

  -- The tables grew at their ends, by new entries.
  pub record Grown (d d' : Tables F) : Type 0 where
    pub published : List (Publication F)
    pub publications : d'.publications ≡ d.publications ++ published
    pub new : Added d.publications published
    pub noted : List (Notice F)
    pub notices : d'.notices ≡ d.notices ++ noted
    pub fresh : Noted d.notices noted

  Added-append :
      (ps qs rs : List (Publication F)) → Added ps qs → Added (ps ++ qs) rs → Added ps (qs ++ rs)
  Added-append ps [] rs h k = subst (λ l. Added l rs) (append-nil ps) k
  Added-append ps (q ∷ qs) rs h k = (
    h.0,
    (
      h.1.0,
      Added-append (ps ++ q ∷ []) qs rs h.1.1
          (subst (λ l. Added l rs) (sym (append_assoc ps (q ∷ []) qs)) k),
    ),
  )

  Noted-append :
      (ps qs rs : List (Notice F)) → Noted ps qs → Noted (ps ++ qs) rs → Noted ps (qs ++ rs)
  Noted-append ps [] rs h k = subst (λ l. Noted l rs) (append-nil ps) k
  Noted-append ps (q ∷ qs) rs h k = (
    h.0,
    Noted-append (ps ++ q ∷ []) qs rs h.1
        (subst (λ l. Noted l rs) (sym (append_assoc ps (q ∷ []) qs)) k),
  )

  Grown-refl : (d : Tables F) → Grown d d
  Grown-refl d = record {
    published = [];
    publications = sym (append-nil d.publications);
    new = tt;
    noted = [];
    notices = sym (append-nil d.notices);
    fresh = tt;
  }

  Grown-trans : (a b c : Tables F) → Grown a b → Grown b c → Grown a c
  Grown-trans a b c g h = record {
    published = g.published ++ h.published;
    publications =
        h.publications
        ∙ ap (λ l. l ++ h.published) g.publications
        ∙ append_assoc a.publications g.published h.published;
    new =
        Added-append a.publications g.published h.published g.new
          (subst (λ l. Added l h.published) g.publications h.new);
    noted = g.noted ++ h.noted;
    notices = h.notices ∙ ap (λ l. l ++ h.noted) g.notices ∙ append_assoc a.notices g.noted h.noted;
    fresh =
        Noted-append a.notices g.noted h.noted g.fresh
          (subst (λ l. Noted l h.noted) g.notices h.fresh);
  }

  and_two : (a b c : Bool) → (a && b && c) ≡ true → (a ≡ true) × (b ≡ true)
  and_two a b c h = ground arith

  is_published_parts :
      (u : Update F)
      → is_published F u ≡ true
      → (str_eq u.signal.asset "BTC" ≡ true) × (str_eq u.signal.rules multifactor_rules ≡ true)
  is_published_parts u e = and_two _ _ _ e

  publish-Added :
      (t : Terms F) (u : Update F) (ps : List (Publication F))
      → (qs : List (Publication F)) × ((if is_published F u
            then publish F (publication_of F t u) ps
            else ps)
          ≡ ps ++ qs)
        × Added ps qs
  unfolding publish
  publish-Added t u ps = elim (Bool-cases (is_published F u)) [
    | inr e ↦ ([], rw (e, append-nil ps) refl, tt)
    | inl e ↦ elim (Bool-cases (has_publication F (publication_of F t u).id ps)) [
      | inl f ↦ ([], rw (e, f, append-nil ps) refl, tt)
      | inr f ↦
          let bound = is_published_parts u e in
          (publication_of F t u ∷ [], rw (e, f) refl, (f, (bound, tt)))
    ]
  ]

  notify-Noted :
      (t : Terms F) (u : Update F) (ns : List (Notice F))
      → (ms : List (Notice F)) × ((if not (str_eq u.kind "") && allowed F t t.cutover u
            then notify F (notice_of F t u) ns
            else ns)
          ≡ ns ++ ms)
        × Noted ns ms
  unfolding notify
  notify-Noted t u ns = elim (Bool-cases (not (str_eq u.kind "") && allowed F t t.cutover u)) [
    | inr e ↦ ([], rw (e, append-nil ns) refl, tt)
    | inl e ↦ elim (Bool-cases (has_notice F (notice_of F t u).id ns)) [
      | inl f ↦ ([], rw (e, f, append-nil ns) refl, tt)
      | inr f ↦ (notice_of F t u ∷ [], rw (e, f) refl, (f, tt))
    ]
  ]

  commit_one-Grown : (t : Terms F) (u : Update F) (d : Tables F) → Grown d (commit_one F t u d)
  unfolding commit_one
  commit_one-Grown t u d =
      let (qs, e, k) = publish-Added t u d.publications in
      let (ms, f, n) = notify-Noted t u d.notices in
      record { published = qs; publications = e; new = k; noted = ms; notices = f; fresh = n }

  commit_signals-Grown :
      (t : Terms F) (us : List (Update F)) (d : Tables F) → Grown d (commit_signals F t us d)
  unfolding commit_signals
  commit_signals-Grown t [] d = Grown-refl d
  commit_signals-Grown t (u ∷ us) d =
      Grown-trans d (commit_one F t u d) (commit_signals F t us (commit_one F t u d))
        (commit_one-Grown t u d) (commit_signals-Grown t us (commit_one F t u d))

  -- Any commits leave every publication and every notice as it is and add only new ones at the end:
  -- each with an id that nothing before it has, and each publication a signal of BTC under the
  -- multifactor rules.
  pub commits-Grown :
      (cs : List (Terms F × List (Update F))) (d : Tables F) → Grown d (commits F cs d)
  unfolding commits
  commits-Grown [] d = Grown-refl d
  commits-Grown ((t, us) ∷ cs) d =
      Grown-trans d (commit_signals F t us d) (commits F cs (commit_signals F t us d))
        (commit_signals-Grown t us d) (commits-Grown cs (commit_signals F t us d))
