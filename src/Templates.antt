-- ===== src/Templates.antt =====
-- templates/templates.service.ts: the versions of a template, and the reference of a message to one.
-- Merge has the merge fields of a body and `render`.
pub mod Resolved
pub mod Merge
pub mod Rendered
use Prim.Native.Nat.{max}
use sms_platform_backend.Base.{
  ℕ, zero, suc, ◌+◌, Bool, true, false, ◌&&◌, Option, none, some, List, [], ◌∷◌, ◌++◌, ◌==◌, ltb,
  if◌then◌else◌, get_or, head_of, find_first, keep_rows, map_rows, any_row, not, Result, ok, err,
  template_not_found,
}
use sms_platform_backend.Database.{Text, same_text}

pub record TemplateRow : Type 0 where
  pub template_id : ℕ
  pub template_key : ℕ
  pub template_tenant : ℕ
  pub template_name : Text
  pub template_body : Text
  pub template_version : ℕ
  pub template_active : Bool

pub record CreateTemplateDto : Type 0 where
  pub new_name : Text
  pub new_body : Text
  pub new_active : Option Bool

pub record UpdateTemplateDto : Type 0 where
  pub changed_name : Option Text
  pub changed_body : Option Text
  pub changed_active : Option Bool

-- `templates`, with the next identity and the next result of gen_random_uuid().
pub record TemplateTable : Type 0 where
  pub templates : List TemplateRow
  pub next_template_id : ℕ
  pub next_template_key : ℕ

-- `WHERE tenant_id = $1 AND name = $2`
abbrev pub of_name : ℕ → Text → TemplateRow → Bool
of_name tenant name row = row.template_tenant == tenant && same_text row.template_name name

-- `MAX(version)`
abbrev pub max_version : List TemplateRow → ℕ
max_version [] = 0
max_version (r ∷ rs) = max r.template_version (max_version rs)

-- The first group of `GROUP BY template_key`; with several groups the order is PostgreSQL's.
abbrev pub group_of : Option TemplateRow → List TemplateRow → List TemplateRow
group_of none rows = []
group_of (some first) rows = keep_rows (λ r. r.template_key == first.template_key) rows

unfoldable pub current_group : ℕ → Text → List TemplateRow → List TemplateRow
current_group tenant name rows =
    let named = keep_rows (of_name tenant name) rows in group_of (head_of named) named

abbrev pub key_or_new : List TemplateRow → ℕ → ℕ
key_or_new [] fresh = fresh
key_or_new (r ∷ rs) fresh = r.template_key

-- `MAX(version) + 1`, or 1 without a group.
abbrev pub next_version : List TemplateRow → ℕ
next_version group = max_version group + 1

abbrev pub is_true : Option Bool → Bool
is_true (some true) = true
is_true _ = false

abbrev pub deactivated : (TemplateRow → Bool) → TemplateRow → TemplateRow
deactivated which row = if which row then record row { template_active = false } else row

-- The rows after the UPDATE, where it is done.
abbrev pub deactivated_if : Bool → (TemplateRow → Bool) → List TemplateRow → List TemplateRow
deactivated_if b which rows = if b then map_rows (deactivated which) rows else rows

-- The INSERT.
unfoldable pub insert_template : TemplateRow → TemplateTable → Result TemplateRow × TemplateTable
insert_template row w = (
  ok row,
  record w {
    templates = w.templates ++ row ∷ [];
    next_template_id = w.next_template_id + 1;
    next_template_key = w.next_template_key + 1;
  },
)

unfoldable pub created_row : ℕ → CreateTemplateDto → TemplateTable → TemplateRow
unfolding current_group
created_row tenant dto w =
    let group = current_group tenant dto.new_name w.templates in
    record {
      template_id = w.next_template_id;
      template_key = key_or_new group w.next_template_key;
      template_tenant = tenant;
      template_name = dto.new_name;
      template_body = dto.new_body;
      template_version = next_version group;
      template_active = get_or dto.new_active true;
    }

-- `createTemplate`: only an explicit `isActive` deactivates the other versions.
unfoldable pub create_template :
    ℕ → CreateTemplateDto → TemplateTable → Result TemplateRow × TemplateTable
unfolding created_row insert_template
create_template tenant dto w = insert_template (created_row tenant dto w) (record w {
  templates = deactivated_if (is_true dto.new_active) (of_name tenant dto.new_name) w.templates;
})

abbrev pub is_template : ℕ → ℕ → TemplateRow → Bool
is_template tenant id row = row.template_id == id && row.template_tenant == tenant

unfoldable pub updated_row : ℕ → UpdateTemplateDto → TemplateRow → ℕ → TemplateRow
updated_row tenant dto existing id = record {
  template_id = id;
  template_key = existing.template_key;
  template_tenant = tenant;
  template_name = get_or dto.changed_name existing.template_name;
  template_body = get_or dto.changed_body existing.template_body;
  template_version = existing.template_version + 1;
  template_active = get_or dto.changed_active true;
}

abbrev pub update_found :
    ℕ → UpdateTemplateDto → Option TemplateRow → TemplateTable → Result TemplateRow × TemplateTable
update_found tenant dto none w = (err template_not_found, w)
update_found tenant dto (some existing) w =
    insert_template (updated_row tenant dto existing w.next_template_id) (record w {
      templates =
          deactivated_if (get_or dto.changed_active true)
            (λ r. r.template_tenant == tenant && r.template_key == existing.template_key)
            w.templates;
    })

-- `updateTemplate`: a new version beside the one that is updated.
unfoldable pub update_template :
    ℕ → ℕ → UpdateTemplateDto → TemplateTable → Result TemplateRow × TemplateTable
unfolding insert_template updated_row
update_template tenant id dto w =
    update_found tenant dto (find_first (is_template tenant id) w.templates) w

-- `deleteTemplate`
unfoldable pub delete_template : ℕ → ℕ → TemplateTable → Result (Unit {0}) × TemplateTable
delete_template tenant id w =
    if any_row (is_template tenant id) w.templates
    then (
      ok tt,
      record w { templates = keep_rows (λ r. not (is_template tenant id r)) w.templates },
    )
    else (err template_not_found, w)

abbrev pub at_sign : ℕ
at_sign = b'@'

-- The parts of `templateRef.split('@')` that are used: the first, and the second, if there is one.
abbrev pub before_at : Text → Text
before_at [] = []
before_at (u ∷ us) = if u == at_sign then [] else u ∷ before_at us

abbrev pub after_at : Text → Text
after_at [] = []
after_at (u ∷ us) = if u == at_sign then us else after_at us

-- The version of a reference: missing, NaN and 0 are falsy. `to_number` is Number.
abbrev pub non_zero : Option ℕ → Option ℕ
non_zero (some (suc n)) = some (suc n)
non_zero _ = none

abbrev pub version_of : (Text → Option ℕ) → Text → Option ℕ
version_of to_number [] = none
version_of to_number (u ∷ us) = non_zero (to_number (u ∷ us))

-- `ORDER BY version DESC LIMIT 1`
abbrev pub newer_of : TemplateRow → Option TemplateRow → TemplateRow
newer_of r none = r
newer_of r (some s) = if ltb r.template_version s.template_version then s else r

abbrev pub newest_version : List TemplateRow → Option TemplateRow
newest_version [] = none
newest_version (r ∷ rs) = some (newer_of r (newest_version rs))

abbrev pub or_not_found : Option TemplateRow → Result TemplateRow
or_not_found none = err template_not_found
or_not_found (some row) = ok row

abbrev pub resolved_by : Option ℕ → ℕ → Text → List TemplateRow → Option TemplateRow
resolved_by (some version) tenant name rows =
    find_first (λ r. of_name tenant name r && r.template_version == version) rows
resolved_by none tenant name rows =
    newest_version (keep_rows (λ r. of_name tenant name r && r.template_active) rows)

-- `resolveTemplate`
unfoldable pub resolve_template : (Text → Option ℕ) → ℕ → Text → TemplateTable → Result TemplateRow
resolve_template to_number tenant template_ref w = or_not_found (
    resolved_by (version_of to_number (before_at (after_at template_ref))) tenant
      (before_at template_ref) w.templates)
