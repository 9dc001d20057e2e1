-- ===== src/Templates/Resolved.antt =====
-- A template that was created, looked up by a reference to it: templates/templates.service.ts.
use sms_platform_backend.Base.{
  ℕ, zero, suc, ◌≤◌, ◌<◌, ◌≡◌, ◌≢◌, refl, sym, subst, ap, ◌∙◌, Bool, true, false, ◌&&◌, Option,
  none, some, List, [], ◌∷◌, ◌++◌, arith, ◌==◌, Bool-cases, inl, inr, head_of, any_row, find_first,
  find_first-append_new, keep_rows, All, All-map, ok,
}
use sms_platform_backend.Database.{Text, same_text}
use sms_platform_backend.Templates.{
  TemplateRow, CreateTemplateDto, TemplateTable, of_name, max_version, group_of, current_group,
  next_version, is_true, deactivated, deactivated_if, insert_template, created_row, create_template,
  at_sign, before_at, after_at, non_zero, version_of, or_not_found, resolve_template,
}

-- How a number is written, and read back by Number.
pub record Numerals (to_number : Text → Option ℕ) (print : ℕ → Text) : Type 0 where
  pub read : (n : ℕ) → to_number (print n) ≡ some n
  pub plain : (n : ℕ) → any_row (λ u. u == at_sign) (print n) ≡ false
  pub some_digit : (n : ℕ) → print n ≢ []

before_at-plain : (t : Text) → any_row (λ u. u == at_sign) t ≡ false → before_at t ≡ t
before_at-plain [] h = refl
before_at-plain (u ∷ us) h = ground (arith, before_at-plain us)

before_at-join :
    (t rest : Text) → any_row (λ u. u == at_sign) t ≡ false → before_at (t ++ at_sign ∷ rest) ≡ t
before_at-join [] rest h = refl
before_at-join (u ∷ us) rest h = ground (arith, before_at-join us rest)

after_at-join :
    (t rest : Text) → any_row (λ u. u == at_sign) t ≡ false → after_at (t ++ at_sign ∷ rest) ≡ rest
after_at-join [] rest h = refl
after_at-join (u ∷ us) rest h = ground (arith, after_at-join us rest)

same_text_self : (t : Text) → same_text t t ≡ true
same_text_self [] = refl
same_text_self (u ∷ us) = ground (arith, same_text_self us)

max_version-above : (rs : List TemplateRow) → All (λ r. r.template_version ≤ max_version rs) rs
max_version-above [] = tt
max_version-above (r ∷ rs) =
    (omega arith, All-map rs (λ x h. omega (arith, h)) (max_version-above rs))

-- No row of a name has a version above all of that name.
absent_version :
    (p : TemplateRow → Bool) (m v : ℕ) (rs : List TemplateRow)
    → All (λ r. r.template_version ≤ m) (keep_rows p rs)
    → m < v
    → find_first (λ r. p r && r.template_version == v) rs ≡ none
absent_version p m v [] h lt = refl
absent_version p m v (r ∷ rs) h lt = elim (Bool-cases (p r)) [
  | inl e ↦
      (let (low, rest) : (r.template_version ≤ m)
            × All (λ x. x.template_version ≤ m) (keep_rows p rs) =
          rw e at h in
        ground (arith, absent_version p m v rs rest lt))
  | inr e ↦
      (let rest : All (λ x. x.template_version ≤ m) (keep_rows p rs) = rw e at h in
        ground (arith, absent_version p m v rs rest lt))
]

-- Rows of one key are one group.
one_group :
    (k j : ℕ) (rs : List TemplateRow)
    → k ≡ j
    → All (λ r. r.template_key ≡ k) rs
    → keep_rows (λ r. r.template_key == j) rs ≡ rs
one_group k j [] e h = refl
one_group k j (r ∷ rs) e h = ground (arith, one_group k j rs e h.1, h.0)

group_of-all :
    (k : ℕ) (rs : List TemplateRow)
    → All (λ r. r.template_key ≡ k) rs
    → group_of (head_of rs) rs ≡ rs
group_of-all k [] h = refl
group_of-all k (r ∷ rs) h = one_group k r.template_key (r ∷ rs) (sym h.0) h

-- The UPDATE looks at no version.
absent_deactivated :
    (b : Bool) (which q : TemplateRow → Bool) (rs : List TemplateRow)
    → ((r : TemplateRow) → q (deactivated which r) ≡ q r)
    → find_first q rs ≡ none
    → find_first q (deactivated_if b which rs) ≡ none
absent_deactivated false which q rs keep h = h
absent_deactivated true which q [] keep h = refl
absent_deactivated true which q (r ∷ rs) keep h =
    ground (arith, keep r, absent_deactivated true which q rs keep)

found_created :
    (tenant : ℕ) (dto : CreateTemplateDto) (w : TemplateTable) (k : ℕ)
    → All (λ r. r.template_key ≡ k) (keep_rows (of_name tenant dto.new_name) w.templates)
    → find_first
        (λ r.
          of_name tenant dto.new_name r
          && r.template_version == (created_row tenant dto w).template_version)
        (create_template tenant dto w).1.templates
      ≡ some (created_row tenant dto w)
unfolding create_template insert_template created_row current_group
found_created tenant dto w k one =
    let name = of_name tenant dto.new_name in
    let row = created_row tenant dto w in
    let named = keep_rows name w.templates in
    let group_is : group_of (head_of named) named ≡ named = group_of-all k named one in
    let above : All (λ r. r.template_version ≤ max_version (group_of (head_of named) named)) named =
      subst (λ g. All (λ r. r.template_version ≤ max_version g) named) (sym group_is)
        (max_version-above named) in
    let own : (name row && row.template_version == row.template_version) ≡ true =
      ground (arith, same_text_self dto.new_name) in
    find_first-append_new (λ r. name r && r.template_version == row.template_version)
      (deactivated_if (is_true dto.new_active) name w.templates) row
      (absent_deactivated (is_true dto.new_active) name _ w.templates (λ r. ground arith)
        (absent_version name _ row.template_version w.templates above (omega arith)))
    ∙ rw own refl

version_of-some :
    (to_number : Text → Option ℕ) (t : Text) (v : ℕ)
    → t ≢ []
    → 0 < v
    → to_number t ≡ some v
    → version_of to_number t ≡ some v
version_of-some to_number [] v ne l e = absurd (ne refl)
version_of-some to_number (u ∷ us) zero ne l e = absurd (omega arith)
version_of-some to_number (u ∷ us) (suc v) ne l e = ap non_zero e

-- If numerals are read back as they are written, hold no at sign and are not empty, the name holds
-- no at sign, and all rows of the tenant under the name belong to one template, then
-- `resolveTemplate` of the name, an at sign and the version that `createTemplate` has returned
-- finds the row that it has returned.
pub resolve-create :
    (to_number : Text → Option ℕ) (print : ℕ → Text) (tenant : ℕ) (dto : CreateTemplateDto)
    (w w' : TemplateTable) (row : TemplateRow) (k : ℕ)
    → Numerals to_number print
    → any_row (λ u. u == at_sign) dto.new_name ≡ false
    → All (λ r. r.template_key ≡ k) (keep_rows (of_name tenant dto.new_name) w.templates)
    → create_template tenant dto w ≡ (ok row, w')
    → resolve_template to_number tenant (dto.new_name ++ at_sign ∷ print row.template_version) w'
      ≡ ok row
unfolding resolve_template create_template insert_template
resolve-create to_number print tenant dto w w' row k numerals plain one h =
    let same_row : created_row tenant dto w ≡ row = ground (arith, ap (λ x. x.0) h) in
    let same_table : (create_template tenant dto w).1 ≡ w' = ap (λ x. x.1) h in
    let v = next_version (current_group tenant dto.new_name w.templates) in
    let same_version : v ≡ row.template_version = ap (λ r. r.template_version) same_row in
    let number : version_of to_number
          (before_at (after_at (dto.new_name ++ at_sign ∷ print row.template_version)))
        ≡ some row.template_version =
      ap (λ t. version_of to_number (before_at t))
        (after_at-join dto.new_name (print row.template_version) plain)
      ∙ ap (version_of to_number)
          (before_at-plain (print row.template_version) (numerals.plain row.template_version))
      ∙ subst (λ n. version_of to_number (print n) ≡ some n) same_version
          (version_of-some to_number (print v) v (numerals.some_digit v) (omega arith)
            (numerals.read v)) in
    let found : find_first
          (λ r. of_name tenant dto.new_name r && r.template_version == row.template_version)
          w'.templates
        ≡ some row =
      subst
        (λ t.
          find_first
            (λ r. of_name tenant dto.new_name r && r.template_version == row.template_version)
            t.templates
          ≡ some row)
        same_table
        (subst
          (λ x.
            find_first
              (λ r. of_name tenant dto.new_name r && r.template_version == x.template_version)
              (create_template tenant dto w).1.templates
            ≡ some x)
          same_row (found_created tenant dto w k one)) in
    rw (number, before_at-join dto.new_name (print row.template_version) plain)
      (ap or_not_found found)
