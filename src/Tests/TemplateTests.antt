-- ===== src/Tests/TemplateTests.antt =====
-- A template with numerals in unary.
use sms_platform_backend.Base.{
  ◌⊎◌, err, missing_merge_fields, ℕ, zero, suc, ◌+◌, ◌==◌, ◌≡◌, ◌≢◌, refl, ap, true, false, Option,
  some, [], ◌∷◌, ◌++◌, arith, any_row, length, ok,
}
use sms_platform_backend.Database.{Text}
use sms_platform_backend.Templates.{
  TemplateRow, CreateTemplateDto, TemplateTable, at_sign, create_template, created_row,
  current_group, insert_template, resolve_template,
}
use sms_platform_backend.Strings.{codes}
use sms_platform_backend.Templates.Merge.{MergeData, pieces, names_of, filled, render}
use sms_platform_backend.Templates.Rendered.{IsGiven, render_lem}
use sms_platform_backend.Templates.Resolved.{Numerals, resolve-create}

-- n + 1 strokes for n.
abbrev print : ℕ → Text
print zero = b'1' ∷ []
print (suc n) = b'1' ∷ print n

abbrev to_number : Text → Option ℕ
to_number [] = some 0
to_number (u ∷ us) = some (length us)

length-print : (n : ℕ) → length (print n) ≡ n + 1
length-print zero = refl
length-print (suc n) = omega (arith, length-print n)

unary : Numerals to_number print
unary = record { read = read_lem; plain = plain_lem; some_digit = some_lem }
  where
    read_lem : (n : ℕ) → to_number (print n) ≡ some n
    read_lem zero = refl
    read_lem (suc n) = ap some (omega (arith, length-print n))

    plain_lem : (n : ℕ) → any_row (λ u. u == at_sign) (print n) ≡ false
    plain_lem zero = refl
    plain_lem (suc n) = plain_lem n

    some_lem : (n : ℕ) → print n ≢ []
    some_lem zero h = absurd cc
    some_lem (suc n) h = absurd cc

abbrev first : TemplateRow
first = record {
  template_id = 1;
  template_key = 4;
  template_tenant = 5;
  template_name = b'o' ∷ [];
  template_body = [];
  template_version = 1;
  template_active = true;
}

abbrev table : TemplateTable
table = record { templates = first ∷ []; next_template_id = 2; next_template_key = 6 }

abbrev dto : CreateTemplateDto
dto = record { new_name = b'o' ∷ []; new_body = b'x' ∷ []; new_active = some true }

abbrev second : TemplateRow
second = created_row 5 dto table

resolve-create_example :
    resolve_template to_number 5
      (b'o' ∷ [] ++ at_sign ∷ print second.template_version)
      (create_template 5 dto table).1
    ≡ ok second
unfolding create_template insert_template created_row current_group
resolve-create_example =
    resolve-create to_number print 5 dto table (create_template 5 dto table).1 second 4 unary refl
      (refl, tt) refl

abbrev body : Text
body = codes "Hi {{ name }}!"

abbrev values : MergeData
values = record {
  own = (codes "name", codes "Abebe") ∷ [];
  inherited = (codes "constructor", codes "function Object()") ∷ [];
}

-- A key of the prototype is a value.
inherited_key : render (codes "{{constructor}}") values ≡ ok (codes "function Object()")
unfolding render
inherited_key = refl

greeting : render body values ≡ ok (codes "Hi Abebe!")
unfolding render
greeting = refl

render_lem_example :
    (IsGiven values (names_of (pieces 14 body))
      × (render body values ≡ ok (filled values (pieces 14 body)))
      × (names_of (pieces 14 body) ≡ [] → render body values ≡ ok body))
    ⊎ ((¬ IsGiven values (names_of (pieces 14 body)))
        × (render body values ≡ err missing_merge_fields))
render_lem_example = render_lem body values
