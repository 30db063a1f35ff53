-- ===== src/Nodes/Grouped.antt =====
-- The results of several queries, grouped by a label.
use runai_cli.Prelude.{
  String, Bool, true, false, ◌&&◌, Option, none, some, List, [], ◌∷◌, ◌++◌, lookup, lookup-assign,
  select, select-append, str_eq, eq_iff, if◌then◌else◌, All, Any, ◌≡◌, ◌≢◌, refl, sym, ap, ◌∙◌, inl,
  inr, Bool-cases, Option-cases,
}
use mathlib.Core.Path.{subst}
use runai_cli.Nodes.Metrics.{
  MetricResult, QueryResults, Items, or_empty, results_at, add_result, results_loop, queries_loop,
  group_multi_queries_to_items,
}

append_one :
    {A : Type 0} (xs : List A) (y : A) (ys : List A) → (xs ++ y ∷ []) ++ ys ≡ xs ++ (y ∷ ys)
append_one [] y ys = refl
append_one (x ∷ xs) y ys = ap (λ zs. x ∷ zs) (append_one xs y ys)

append_nil : {A : Type 0} (xs : List A) → xs ++ [] ≡ xs
append_nil [] = refl
append_nil (x ∷ xs) = ap (λ zs. x ∷ zs) (append_nil xs)

append_assoc : {A : Type 0} (xs ys zs : List A) → (xs ++ ys) ++ zs ≡ xs ++ (ys ++ zs)
append_assoc [] ys zs = refl
append_assoc (x ∷ xs) ys zs = ap (λ ws. x ∷ ws) (append_assoc xs ys zs)

one_result :
    {A : Type 0} (of_item of_query : Bool) (xs : List A) (y : A) (ys : List A)
    → (if of_query
        then (if of_item && of_query then xs ++ y ∷ [] else xs) ++ ys
        else (if of_item && of_query then xs ++ y ∷ [] else xs))
      ≡ (if of_query then xs ++ (if of_item then y ∷ ys else ys) else xs)
one_result true true xs y ys = append_one xs y ys
one_result false true xs y ys = refl
one_result true false xs y ys = refl
one_result false false xs y ys = refl

no_result : {A : Type 0} (of_query : Bool) (xs : List A) → xs ≡ (if of_query then xs ++ [] else xs)
no_result true xs = sym (append_nil xs)
no_result false xs = refl

abbrev is_text : String → Option String → Bool
is_text item none = false
is_text item (some other) = str_eq other item

module _ (label : String) where
  -- The result has the label with this value.
  abbrev pub is_of : String → MetricResult → Bool
  is_of item result = is_text item (lookup result.metric label)

  abbrev pub LacksLabel : MetricResult → Type 0
  LacksLabel result = lookup result.metric label ≡ none

  abbrev pub HasLabel : MetricResult → Type 0
  HasLabel result = lookup result.metric label ≢ none

  results_at-add_result :
      (items : Items) (item query : String) (result : MetricResult) (other name : String)
      → results_at (add_result items item query result) other name ≡ (
          if str_eq item other && str_eq query name
          then results_at items other name ++ result ∷ []
          else results_at items other name)
  unfolding add_result
  results_at-add_result items item query result other name =
      ap (λ o. or_empty (lookup (or_empty o) name)) (lookup-assign items item other _)
      ∙ elim (Bool-cases (str_eq item other)) [
        | inr e ↦ rw e refl
        | inl e ↦
            let same = (eq_iff item other).0 e in
            rw e (
              ap or_empty (lookup-assign (or_empty (lookup items item)) query name _)
              ∙ elim (Bool-cases (str_eq query name)) [
                | inl f ↦ rw f (
                    ap (λ z. z ++ result ∷ [])
                      (ap (λ z. results_at items z query) same
                        ∙ ap (results_at items other) ((eq_iff query name).0 f)))
                | inr f ↦ rw f (ap (λ z. results_at items z name) same)
              ])
      ]

  -- What the loop over the results of a query leaves, behind what was there.
  abbrev Grown : Items → String → List MetricResult → Option Items → Type 0
  Grown items query results none = Any LacksLabel results
  Grown items query results (some out) =
      All HasLabel results
      × ((item name : String)
          → results_at out item name ≡ (
              if str_eq query name
              then results_at items item name ++ select (is_of item) results
              else results_at items item name))

  Grown-cons :
      (items : Items) (query value : String) (result : MetricResult) (results : List MetricResult)
      (o : Option Items)
      → lookup result.metric label ≡ some value
      → Grown (add_result items value query result) query results o
      → Grown items query (result ∷ results) o
  unfolding select
  Grown-cons items query value result results none e h = inr h
  Grown-cons items query value result results (some out) e (all, h) = (
    (λ q. cc (e, q), all),
    λ item name.
        h item name
        ∙ rw (results_at-add_result items value query result item name, e)
            (one_result (str_eq value item) (str_eq query name) (results_at items item name) result
              (select (is_of item) results)),
  )

  results_loop-Grown :
      (query : String) (items : Items) (results : List MetricResult)
      → Grown items query results (results_loop label query items results)
  unfolding results_loop select
  results_loop-Grown query items [] =
      (tt, λ item name. no_result (str_eq query name) (results_at items item name))
  results_loop-Grown query items (result ∷ results) =
      elim (Option-cases (lookup result.metric label)) [
        | inl e ↦ rw e (inl e)
        | inr (value, e) ↦ rw e (
            Grown-cons items query value result results _ e
              (results_loop-Grown query (add_result items value query result) results))
      ]

  -- All answers to the query of a name; in a map there is one.
  abbrev pub answers_of : String → QueryResults → List MetricResult
  answers_of name [] = []
  answers_of name (query ∷ queries) =
      if str_eq query.0 name then query.1 ++ answers_of name queries else answers_of name queries

  abbrev GrownBy : Items → QueryResults → Option Items → Type 0
  GrownBy items queries none = Any (λ query. Any LacksLabel query.1) queries
  GrownBy items queries (some out) =
      All (λ query. All HasLabel query.1) queries
      × ((item name : String)
          → results_at out item name
            ≡ results_at items item name ++ select (is_of item) (answers_of name queries))

  GrownBy-cons :
      (items next : Items) (query : String × List MetricResult) (queries : QueryResults)
      (o : Option Items)
      → Grown items query.0 query.1 (some next)
      → GrownBy next queries o
      → GrownBy items (query ∷ queries) o
  GrownBy-cons items next query queries none g h = inr h
  GrownBy-cons items next query queries (some out) (has, g) (all, h) = (
    (has, all),
    λ item name.
        h item name
        ∙ ap (λ z. z ++ select (is_of item) (answers_of name queries)) (g item name)
        ∙ elim (Bool-cases (str_eq query.0 name)) [
          | inl e ↦ rw e (
              append_assoc (results_at items item name) _ _
              ∙ ap (λ z. results_at items item name ++ z)
                  (sym (select-append (is_of item) query.1 (answers_of name queries))))
          | inr e ↦ rw e refl
        ],
  )

  queries_loop-GrownBy :
      (items : Items) (queries : QueryResults)
      → GrownBy items queries (queries_loop label items queries)
  unfolding queries_loop select
  queries_loop-GrownBy items [] = (tt, λ item name. sym (append_nil (results_at items item name)))
  queries_loop-GrownBy items (query ∷ queries) =
      let grown = results_loop-Grown query.0 items query.1 in
      elim (Option-cases (results_loop label query.0 items query.1)) [
        | inl e ↦ rw e (inl (subst (Grown items query.0 query.1) e grown))
        | inr (next, e) ↦ rw e (
            GrownBy-cons items next query queries _ (subst (Grown items query.0 query.1) e grown)
              (queries_loop-GrownBy next queries))
      ]

  abbrev pub IsGrouped : QueryResults → Option Items → Type 0
  IsGrouped queries none = Any (λ query. Any LacksLabel query.1) queries
  IsGrouped queries (some out) =
      All (λ query. All HasLabel query.1) queries
      × ((item name : String)
          → results_at out item name ≡ select (is_of item) (answers_of name queries))

  start_empty :
      (queries : QueryResults) (o : Option Items) → GrownBy [] queries o → IsGrouped queries o
  unfolding lookup
  start_empty queries none h = h
  start_empty queries (some out) h = h

  -- The results of the queries cannot be grouped exactly if one of them lacks the label. Otherwise each
  -- item gets, for each query, the results of that query whose label has the item's value, in their
  -- order; so the order in which Go takes the queries does not matter.
  pub group_multi_queries_to_items-IsGrouped :
      (queries : QueryResults)
      → IsGrouped queries (group_multi_queries_to_items (some queries) label)
  unfolding group_multi_queries_to_items
  group_multi_queries_to_items-IsGrouped queries =
      start_empty queries _ (queries_loop-GrownBy [] queries)
