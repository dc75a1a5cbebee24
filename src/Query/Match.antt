-- ===== src/Query/Match.antt =====
-- The filters of query/filter.go as propositions about a record.
use file_dbv.Prelude.{
  ◌≡◌, ◌↔◌, ◌⊎◌, inl, inr, Bool, true, false, not, refl, ◌||◌, if◌then◌else◌, str_eq, arith,
}
use file_dbv.Json.{Value, Data}
use file_dbv.Query.{
  Format, Filter, Filters, match_all, field_filter, and_filter, or_filter, nil, cons, match_op,
  match_field, matches, matches_every, matches_some, op_eq, op_neq, op_gt, op_gte, op_lt, op_lte,
}
use file_dbv.Query.Order.{is_nan_value, compare_values_eq_iff}

-- What a filter says of a record, as a proposition over its field tests.
module _ (f : Format) where
  abbrev mutual
    pub Accepts : Filter → Data → Type 0
    Accepts match_all r = Unit
    Accepts (field_filter ff) r = match_field f ff r ≡ true
    Accepts (and_filter fs) r = AcceptsEvery fs r
    Accepts (or_filter fs) r = AcceptsSome fs r

    pub AcceptsEvery : Filters → Data → Type 0
    AcceptsEvery nil r = Unit
    AcceptsEvery (cons g gs) r = Accepts g r × AcceptsEvery gs r

    pub AcceptsSome : Filters → Data → Type 0
    AcceptsSome nil r = ⊥
    AcceptsSome (cons g gs) r = Accepts g r ⊎ AcceptsSome gs r

  both :
      {P Q : Type 0} (b c : Bool)
      → (b ≡ true) ↔ P
      → (c ≡ true) ↔ Q
      → ((if not b then false else c) ≡ true) ↔ (P × Q)
  both true c p q = ((λ h. (p.0 refl, q.0 h)), (λ h. q.1 h.1))
  both false c p q = ((λ h. cc), (λ h. p.1 h.0))

  either :
      {P Q : Type 0} (b c : Bool)
      → (b ≡ true) ↔ P
      → (c ≡ true) ↔ Q
      → ((if b then true else c) ≡ true) ↔ (P ⊎ Q)
  either true c p q = ((λ h. inl (p.0 refl)), (λ h. refl))
  either false c p q = ((λ h. inr (q.0 h)), elim [ inl h ↦ (let z = p.1 h in cc) | inr h ↦ q.1 h ])

  mutual
    unfolding matches matches_every matches_some

    matches_lem : (g : Filter) (r : Data) → (matches f g r ≡ true) ↔ Accepts g r
    matches_lem match_all r = ((λ h. tt), (λ h. refl))
    matches_lem (field_filter ff) r = ((λ h. h), (λ h. h))
    matches_lem (and_filter gs) r = every_lem gs r
    matches_lem (or_filter gs) r = some_lem gs r

    every_lem : (gs : Filters) (r : Data) → (matches_every f gs r ≡ true) ↔ AcceptsEvery gs r
    every_lem nil r = ((λ h. tt), (λ h. refl))
    every_lem (cons g gs) r =
        both (matches f g r) (matches_every f gs r) (matches_lem g r) (every_lem gs r)

    some_lem : (gs : Filters) (r : Data) → (matches_some f gs r ≡ true) ↔ AcceptsSome gs r
    some_lem nil r = ((λ h. cc), (λ h. absurd h))
    some_lem (cons g gs) r =
        either (matches f g r) (matches_some f gs r) (matches_lem g r) (some_lem gs r)

  -- Match decides the proposition that a filter stands for: a conjunction over the sub-filters of
  -- an AND, a disjunction over those of an OR, at any nesting.
  pub matches_iff : (g : Filter) (r : Data) → (matches f g r ≡ true) ↔ Accepts g r
  matches_iff g r = matches_lem g r

  -- On two values that are not NaN, neq is the negation of eq, gte is gt or eq, lte is lt or eq,
  -- and a value is gt exactly when it is not lte.
  pub match_op_consistent :
      (v cmp : Value)
      → is_nan_value v ≡ false
      → is_nan_value cmp ≡ false
      → (match_op f op_neq v cmp ≡ not (match_op f op_eq v cmp))
        × (match_op f op_gte v cmp ≡ (match_op f op_gt v cmp || match_op f op_eq v cmp))
        × (match_op f op_lte v cmp ≡ (match_op f op_lt v cmp || match_op f op_eq v cmp))
        × (match_op f op_gt v cmp ≡ not (match_op f op_lte v cmp))
  unfolding match_op
  match_op_consistent v cmp p q =
      let iff = compare_values_eq_iff f v cmp p q in
      (refl, ground (arith, iff), ground (arith, iff), ground arith)
