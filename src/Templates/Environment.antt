-- ===== src/Templates/Environment.antt =====
-- Which environment variables a merge keeps.
use runai_cli.Prelude.{
  String, true, none, some, List, [], ◌∷◌, ◌++◌, select, any, str_eq, eq_iff, ◌≡◌, ◌↔◌, inl, inr,
  refl, sym, ap, ◌∙◌, arith, Any, Elem, Elem-select, Bool-cases, Option-cases,
}
use mathlib.Core.Option.{some-injective}
use mathlib.Core.Path.{subst}
use mathlib.Core.List.{append-nil, append_assoc}
use runai_cli.Templates.{
  variable_key, cli_keys, is_key, is_new_key, append_variables, merge_environment_variables,
}

append_variables-select :
    (keys env variables : List String)
    → append_variables keys env variables
      ≡ env ++ select (λ v. is_new_key keys (variable_key v)) variables
unfolding append_variables select
append_variables-select keys env [] = sym (append-nil env)
append_variables-select keys env (v ∷ vs) = elim (Bool-cases (is_new_key keys (variable_key v))) [
  | inl e ↦ rw e (append_variables-select keys (env ++ v ∷ []) vs ∙ append_assoc env (v ∷ []) _)
  | inr e ↦ rw e (append_variables-select keys env vs)
]

-- A variable of the list has this key.
abbrev pub IsGiven : String → List String → Type 0
IsGiven key variables = Any (λ v. variable_key v ≡ some key) variables

cli_keys-some :
    (v : String) (vs : List String) {k : String}
    → variable_key v ≡ some k
    → cli_keys (v ∷ vs) ≡ k ∷ cli_keys vs
unfolding cli_keys
cli_keys-some v vs e = rw (e, cli_keys)

cli_keys-none :
    (v : String) (vs : List String) → variable_key v ≡ none → cli_keys (v ∷ vs) ≡ cli_keys vs
unfolding cli_keys
cli_keys-none v vs e = rw (e, cli_keys)

cli_keys_iff :
    (key : String) (variables : List String)
    → (is_key (cli_keys variables) key ≡ true) ↔ IsGiven key variables
unfolding cli_keys any
cli_keys_iff key [] = (λ h. cc, λ h. absurd h)
cli_keys_iff key (v ∷ vs) = elim (Option-cases (variable_key v)) [
  | inl e ↦ rw (cli_keys-none v vs e) (
    λ h. inr ((cli_keys_iff key vs).0 h),
    elim [ inl k ↦ cc | inr h ↦ (cli_keys_iff key vs).1 h ],
  )
  | inr (k, e) ↦ rw (cli_keys-some v vs e) (elim (Bool-cases (str_eq k key)) [
    | inl q ↦ rw q (λ h. inl (e ∙ ap some ((eq_iff k key).0 q)), λ h. refl)
    | inr q ↦ rw q (
      λ h. inr ((cli_keys_iff key vs).0 h),
      elim [ inl t ↦ ground (arith, eq_iff k key) | inr h ↦ (cli_keys_iff key vs).1 h ],
    )
  ])
]

-- A variable of a template that the merge takes over: it has a key, which no given variable has.
abbrev pub IsTaken : List String → String → Type 0
IsTaken base v = (key : String) × (variable_key v ≡ some key) × ¬ (IsGiven key base)

is_new_key_iff :
    (base : List String) (v : String)
    → (is_new_key (cli_keys base) (variable_key v) ≡ true) ↔ IsTaken base v
is_new_key_iff base v = elim (Option-cases (variable_key v)) [
  | inl e ↦ rw e (λ h. cc, λ (k, q, h). cc)
  | inr (key, e) ↦ rw e (elim (Bool-cases (is_key (cli_keys base) key)) [
    | inl given ↦ rw given (
      λ h. cc,
      λ (k, q, h). absurd (
          h (subst (λ t. IsGiven t base) (some-injective _ _ q) ((cli_keys_iff key base).0 given))),
    )
    | inr free ↦
        rw free (λ h. (key, refl, λ given. cc (free, (cli_keys_iff key base).1 given)), λ h. refl)
  ])
]

-- The merged variables are the given ones, in their order, and behind them those of the template
-- that have the form of one key and one value, with a key that no given variable of that form has;
-- a variable of the template with no "=", or with more than one, is left out.
pub merge_environment_variables-IsTaken :
    (base patch : List String)
    → (taken : List String) × (merge_environment_variables base patch ≡ base ++ taken)
      × ((v : String) → Elem v taken ↔ (Elem v patch × IsTaken base v))
unfolding merge_environment_variables
merge_environment_variables-IsTaken base patch = (
  select (λ v. is_new_key (cli_keys base) (variable_key v)) patch,
  append_variables-select (cli_keys base) base patch,
  λ v.
      let s = Elem-select (λ v. is_new_key (cli_keys base) (variable_key v)) v patch in
      (
        λ h. ((s.0 h).0, (is_new_key_iff base v).0 (s.0 h).1),
        λ h. s.1 (h.0, (is_new_key_iff base v).1 h.1),
      ),
)
