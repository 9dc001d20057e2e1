-- ===== src/Templates/Merge.antt =====
-- templates/templates.service.ts: `extractMergeFields`, `validateMergeData` and `render`. The data
-- are the keys of `mergeData`, with String of their values: its own, then those of its prototype.
use sms_platform_backend.Base.{
  ℕ, zero, suc, Bool, not, ◌&&◌, ◌||◌, Option, none, some, List, [], ◌∷◌, ◌++◌, ◌==◌, leb,
  if◌then◌else◌, is_some, find_first, keep_rows, length, Result, ok, err, missing_merge_fields,
}
use sms_platform_backend.Database.{Text, same_text}

-- `\s`
abbrev pub is_space : ℕ → Bool
is_space u =
    u == 32
    || (leb 9 u && leb u 13)
    || u == 0xa0
    || u == 0x1680
    || (leb 0x2000 u && leb u 0x200a)
    || u == 0x2028
    || u == 0x2029
    || u == 0x202f
    || u == 0x205f
    || u == 0x3000
    || u == 0xfeff

-- `[a-zA-Z0-9_.-]`
abbrev pub is_field_unit : ℕ → Bool
is_field_unit u =
    (leb b'a' u && leb u b'z')
    || (leb b'A' u && leb u b'Z')
    || (leb b'0' u && leb u b'9')
    || u == b'_'
    || u == b'.'
    || u == b'-'

unfoldable pub take_while : (ℕ → Bool) → Text → Text
take_while p [] = []
take_while p (u ∷ us) = if p u then u ∷ take_while p us else []

unfoldable pub drop_while : (ℕ → Bool) → Text → Text
drop_while p [] = []
drop_while p (u ∷ us) = if p u then drop_while p us else u ∷ us

-- The rest after `{{`, and after `}}`.
unfoldable pub after_two : ℕ → Text → Option Text
after_two brace (u ∷ v ∷ us) = if u == brace && v == brace then some us else none
after_two brace _ = none

abbrev pub named : Text → Option Text → Option (Text × Text)
named (u ∷ us) (some rest) = some (u ∷ us, rest)
named _ _ = none

abbrev pub inside : Option Text → Option (Text × Text)
inside none = none
inside (some text) =
    let from_name = drop_while is_space text in
    named (take_while is_field_unit from_name)
      (after_two b'}' (drop_while is_space (drop_while is_field_unit from_name)))

-- The expression at the head of a text: its group, and the rest. Its classes are disjoint, so that
-- there is one way to match.
unfoldable pub match_field : Text → Option (Text × Text)
unfolding take_while drop_while after_two
match_field text = inside (after_two b'{' text)

pub data Piece : Type 0 where
  unit : ℕ → Piece
  field : Text → Piece

-- The matches from left to right, with the units between them, on fuel.
unfoldable pub pieces : ℕ → Text → List Piece
unfolding match_field
pieces zero text = []
pieces (suc fuel) [] = []
pieces (suc fuel) (u ∷ us) = elim (match_field (u ∷ us)) [
  | some (name, rest) ↦ field name ∷ pieces fuel rest
  | none ↦ unit u ∷ pieces fuel us
]

abbrev pub names_of : List Piece → List Text
names_of [] = []
names_of (unit u ∷ ps) = names_of ps
names_of (field name ∷ ps) = name ∷ names_of ps

-- `[...new Set(names)]`
unfoldable pub distinct_names : List Text → List Text
distinct_names [] = []
distinct_names (name ∷ names) =
    name ∷ keep_rows (λ n. not (same_text n name)) (distinct_names names)

-- `extractMergeFields`
unfoldable pub extract_merge_fields : Text → List Text
unfolding pieces distinct_names
extract_merge_fields body = distinct_names (names_of (pieces (length body) body))

-- The own keys and those of Object.prototype, such as 'constructor'.
pub record MergeData : Type 0 where
  pub own : List (Text × Text)
  pub inherited : List (Text × Text)

abbrev pub text_of : Option (Text × Text) → Text
text_of none = []
text_of (some p) = p.1

abbrev pub given : MergeData → Text → Option (Text × Text)
given values name = find_first (λ p. same_text p.0 name) (values.own ++ values.inherited)

-- `validateMergeData`
unfoldable pub missing_fields : Text → MergeData → List Text
unfolding extract_merge_fields
missing_fields body values =
    keep_rows (λ name. not (is_some (given values name))) (extract_merge_fields body)

abbrev pub filled : MergeData → List Piece → Text
filled values [] = []
filled values (unit u ∷ ps) = u ∷ filled values ps
filled values (field name ∷ ps) = text_of (given values name) ++ filled values ps

abbrev pub unless_missing : List Text → Text → Result Text
unless_missing [] text = ok text
unless_missing (name ∷ names) text = err missing_merge_fields

-- `render`
unfoldable pub render : Text → MergeData → Result Text
unfolding missing_fields pieces
render body values =
    unless_missing (missing_fields body values) (filled values (pieces (length body) body))
