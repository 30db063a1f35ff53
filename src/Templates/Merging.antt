-- ===== src/Templates/Merging.antt =====
-- Laws of the merge of templates.
use mathlib.Core.Option.{some-injective}
use runai_cli.Prelude.{Bool, Option, none, some, is_some, ◌≡◌, refl, ap, ◌∙◌}
use runai_cli.Templates.{
  TemplateField, GitSyncTemplate, SubmitTemplate, override, merge_template_fields,
  merge_git_sync_template, merge_submit_templates,
}

override_assoc :
    {A : Type 0} (a b c : Option A) → override (override a b) c ≡ override a (override b c)
override_assoc a b none = refl
override_assoc a none (some c) = refl
override_assoc a (some b) (some c) = refl

-- A merged field: the patch decides where it is there, and the base decides whether the field is
-- required where the patch does not say so.
pub record IsOver (base patch merged : Option TemplateField) : Type 0 where
  pub kept : patch ≡ none → merged ≡ base
  pub taken :
      (p : TemplateField)
      → patch ≡ some p
      → (m : TemplateField) × (merged ≡ some m)
        × (m.value ≡ p.value)
        × ((r : Bool) → p.required ≡ some r → m.required ≡ some r)
        × ((b : TemplateField) → base ≡ some b → p.required ≡ none → m.required ≡ b.required)
        × (base ≡ none → m.required ≡ p.required)

override-none : {A : Type 0} (base patch : Option A) → patch ≡ none → override base patch ≡ base
override-none base none e = refl
override-none base (some a) e = absurd (cc e)

override-some :
    {A : Type 0} (base patch : Option A) {a : A} → patch ≡ some a → override base patch ≡ some a
override-some base none e = absurd (cc e)
override-some base (some a) e = e

merge_template_fields-IsOver :
    (base patch : Option TemplateField) → IsOver base patch (merge_template_fields base patch)
unfolding merge_template_fields
merge_template_fields-IsOver base none = record { kept = λ e. refl; taken = λ p e. absurd (cc e) }
merge_template_fields-IsOver none (some patch) = record {
  kept = λ e. absurd (cc e);
  taken = λ p e.
      let same = some-injective _ _ e in
      (
        patch,
        refl,
        ap (λ f. f.value) same,
        λ r q. ap (λ f. f.required) same ∙ q,
        λ b h. absurd (cc h),
        λ h. ap (λ f. f.required) same,
      );
}
merge_template_fields-IsOver (some base) (some patch) = record {
  kept = λ e. absurd (cc e);
  taken = λ p e.
      let same = some-injective _ _ e in
      (
        record { required = override base.required patch.required; value = patch.value },
        refl,
        ap (λ f. f.value) same,
        λ r q. override-some base.required patch.required (ap (λ f. f.required) same ∙ q),
        λ b h q.
            override-none base.required patch.required (ap (λ f. f.required) same ∙ q)
            ∙ ap (λ f. f.required) (some-injective _ _ h),
        λ h. absurd (cc h),
      );
}

merged_assoc :
    (a b c : Option TemplateField)
    → merge_template_fields (merge_template_fields a b) c
      ≡ merge_template_fields a (merge_template_fields b c)
unfolding merge_template_fields
merged_assoc a b none = refl
merged_assoc a none (some c) = refl
merged_assoc none (some b) (some c) = refl
merged_assoc (some a) (some b) (some c) =
    ap (λ required. some (record { required = required; value = c.value }))
      (override_assoc a.required b.required c.required)

-- A merged field has the value of the patch where the patch is there, and is the base where not. It is
-- required as the patch says, or as the base says where the patch does not say it. Of three fields laid
-- over each other, the two upper ones may be merged first.
pub merge_template_fields_assoc :
    (a b c : Option TemplateField)
    → IsOver a b (merge_template_fields a b)
      × (merge_template_fields (merge_template_fields a b) c
          ≡ merge_template_fields a (merge_template_fields b c))
merge_template_fields_assoc a b c = (merge_template_fields-IsOver a b, merged_assoc a b c)

is_some-merge_git_sync_template :
    (base patch : Option GitSyncTemplate)
    → is_some (merge_git_sync_template base patch) ≡ is_some base
unfolding merge_git_sync_template
is_some-merge_git_sync_template base none = refl
is_some-merge_git_sync_template none (some patch) = refl
is_some-merge_git_sync_template (some base) (some patch) = refl

-- A merged template has a git-sync part exactly when the base has one: the git-sync part of the
-- patch is dropped where the base has none.
pub merge_submit_templates-git_sync :
    (base patch : SubmitTemplate)
    → is_some (merge_submit_templates base patch).git_sync ≡ is_some base.git_sync
unfolding merge_submit_templates
merge_submit_templates-git_sync base patch =
    is_some-merge_git_sync_template base.git_sync patch.git_sync
