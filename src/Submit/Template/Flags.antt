-- ===== src/Submit/Template/Flags.antt =====
-- What a template and the command line make of a flag, and the order in which the flags are looked
-- at for one that is missing.
use runai_cli.Prelude.{
  String, Bool, true, false, not, ◌&&◌, Option, none, some, is_some, List, [], ◌∷◌, ◌++◌,
  find_first, str_eq, eq_iff, if◌then◌else◌, ◌≡◌, refl, sym, inl, inr, Bool-cases, Option-cases,
  arith,
}
use runai_cli.Templates.{TemplateField}
use runai_cli.Submit.Template.{
  Result, ok, mandatory, ◌>>=◌, merge_string_flags, is_required, field_value, parsed,
  apply_template_field_for_string, apply_template_field,
}

-- The name of a flag, and whether it is required and nobody gives it.
abbrev pub Flag : Type 0
Flag = String × Bool

abbrev pub outcome {ℓ} : {A : Type ℓ} → A → Option Flag → Result A
outcome a none = ok a
outcome a (some flag) = mandatory flag.0

-- The result, unless a flag is missing: the first that is.
unfoldable pub judge {ℓ} : {A : Type ℓ} → List Flag → A → Result A
unfolding find_first
judge flags a = outcome a (find_first (λ f. f.1) flags)

-- The command line wins, then the template.
abbrev pub chosen_text : String → Option TemplateField → String
chosen_text cli field = if str_eq cli "" then field_value field else cli

abbrev pub text_flag : String → String → Option TemplateField → Flag
text_flag name cli field =
    (name, str_eq cli "" && str_eq (field_value field) "" && is_required field)

abbrev pub chosen {ℓ} :
    {A : Type ℓ} → (String → Option A) → Option A → Option TemplateField → Option A
chosen parse none field = parsed parse field
chosen parse (some cli) field = some cli

abbrev pub flag {ℓ} :
    {A : Type ℓ} → (String → Option A) → String → Option A → Option TemplateField → Flag
flag parse name cli field = (name, not (is_some (chosen parse cli field)) && is_required field)

pub judge_one :
    {A : Type 0} (f : Flag) (a : A) → judge (f ∷ []) a ≡ (if f.1 then mandatory f.0 else ok a)
unfolding judge
judge_one (name, true) a = refl
judge_one (name, false) a = refl

merge_string_flags_lem :
    (cli template : String)
    → merge_string_flags cli template ≡ (if str_eq cli "" then template else cli)
unfolding merge_string_flags
merge_string_flags_lem cli template = ground (arith, eq_iff cli "", eq_iff template "")

pub apply_string :
    (cli : String) (field : Option TemplateField) (name : String)
    → apply_template_field_for_string cli field name
      ≡ judge (text_flag name cli field ∷ []) (chosen_text cli field)
unfolding apply_template_field_for_string
apply_string cli field name =
    rw (merge_string_flags_lem, judge_one)
      (elim (Bool-cases (str_eq cli "")) [ inl e ↦ rw e | inr e ↦ rw (e, e) ])

pub apply_flag :
    {A : Type 0} (parse : String → Option A) (cli : Option A) (field : Option TemplateField)
    (name : String)
    → apply_template_field parse cli field name
      ≡ judge (flag parse name cli field ∷ []) (chosen parse cli field)
unfolding apply_template_field
apply_flag parse (some cli) field name =
    sym (judge_one (flag parse name (some cli) field) (some cli))
apply_flag parse none field name = elim (Option-cases (parsed parse field)) [
  | inl e ↦ rw (judge_one, e)
  | inr (value, e) ↦ rw (judge_one, e)
]

pub judge-bind :
    {A B : Type 0} (flags more : List Flag) (a : A) (b : B) (m : Result A) (k : A → Result B)
    → m ≡ judge flags a
    → k a ≡ judge more b
    → (m >>= k) ≡ judge (flags ++ more) b
unfolding judge
judge-bind [] more a b m k e h = rw e h
judge-bind ((name, true) ∷ flags) more a b m k e h = rw e
judge-bind ((name, false) ∷ flags) more a b m k e h = judge-bind flags more a b m k e h

-- One more flag: behind it, it is known not to be missing.
pub flag-bind :
    {A B : Type 0} (f : Flag) (more : List Flag) (a : A) (b : B) (m : Result A) (k : A → Result B)
    → m ≡ judge (f ∷ []) a
    → (f.1 ≡ false → k a ≡ judge more b)
    → (m >>= k) ≡ judge (f ∷ more) b
unfolding judge
flag-bind (name, true) more a b m k e h = rw e
flag-bind (name, false) more a b m k e h = rw e (h refl)
