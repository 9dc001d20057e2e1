-- ===== src/Templates/Rendered.antt =====
-- `render` of templates/templates.service.ts: what it needs, and what it leaves as it is.
use sms_platform_backend.Base.{
  ℕ, zero, suc, ◌≤◌, ◌<◌, ◌≡◌, refl, sym, ap, subst, ◌∙◌, ◌⊎◌, ◌↔◌, inl, inr, Bool, true, false,
  not, ◌&&◌, Option, none, some, List, [], ◌∷◌, ◌==◌, arith, is_some, keep_rows, length, All,
  All-map, All-keep_rows, All-keep_rows_under, Bool-cases, Option-cases, ok, err,
  missing_merge_fields,
}
use sms_platform_backend.Database.{Text, same_text}
use sms_platform_backend.Strings.{same_text_eq}
use sms_platform_backend.Templates.Merge.{
  is_space, is_field_unit, take_while, drop_while, after_two, named, inside, match_field, unit,
  field, pieces, names_of, distinct_names, extract_merge_fields, MergeData, given, missing_fields,
  filled, unless_missing, render,
}

length-drop_while : (p : ℕ → Bool) (t : Text) → length (drop_while p t) ≤ length t
unfolding drop_while
length-drop_while p [] = omega arith
length-drop_while p (u ∷ us) = ground (arith, length-drop_while p us)

length-after_two :
    (brace : ℕ) (t rest : Text) → after_two brace t ≡ some rest → length rest < length t
unfolding after_two
length-after_two brace [] rest h = cc
length-after_two brace (u ∷ []) rest h = cc
length-after_two brace (u ∷ v ∷ us) rest h = elim (Bool-cases (u == brace && v == brace)) [
  | inl e ↦
      (let q : us ≡ rest = ground arith in
        subst (λ r. length r < suc (suc (length us))) q (omega arith))
  | inr e ↦ ground arith
]

named_rest :
    (n : Text) (o : Option Text) (name rest : Text) → named n o ≡ some (name, rest) → o ≡ some rest
named_rest [] o name rest h = cc
named_rest (u ∷ us) none name rest h = cc
named_rest (u ∷ us) (some r) name rest h = cc

-- A match takes units away.
length-match_field :
    (t name rest : Text) → match_field t ≡ some (name, rest) → length rest < length t
unfolding match_field
length-match_field t name rest h = go (after_two b'{' t) refl h
  where
    go :
        (o : Option Text)
        → after_two b'{' t ≡ o
        → inside o ≡ some (name, rest)
        → length rest < length t
    go none opened found = cc
    go (some us) opened found =
        let from_name = drop_while is_space us in
        let to_end = drop_while is_space (drop_while is_field_unit from_name) in
        let closed =
          named_rest (take_while is_field_unit from_name) (after_two b'}' to_end) name rest found in
        omega (
          arith,
          length-after_two b'{' t us opened,
          length-after_two b'}' to_end rest closed,
          length-drop_while is_space (drop_while is_field_unit from_name),
          length-drop_while is_field_unit from_name,
          length-drop_while is_space us,
        )

-- Fuel for each unit is enough.
pub pieces_enough : (f g : ℕ) (t : Text) → length t ≤ f → length t ≤ g → pieces f t ≡ pieces g t
unfolding pieces
pieces_enough zero zero [] h k = refl
pieces_enough zero (suc g) [] h k = refl
pieces_enough (suc f) zero [] h k = refl
pieces_enough (suc f) (suc g) [] h k = refl
pieces_enough zero g (u ∷ us) h k = absurd (omega arith)
pieces_enough (suc f) zero (u ∷ us) h k = absurd (omega arith)
pieces_enough (suc f) (suc g) (u ∷ us) h k = elim (Option-cases (match_field (u ∷ us))) [
  | inl gone ↦
      rw (gone, pieces) (ap (λ ps. unit u ∷ ps) (pieces_enough f g us (omega arith) (omega arith)))
  | inr ((name, rest), found) ↦
      (let less = length-match_field (u ∷ us) name rest found in
        rw (found, pieces)
          (ap (λ ps. field name ∷ ps)
            (pieces_enough f g rest (omega (arith, less)) (omega (arith, less)))))
]

pieces_plain :
    (fuel u : ℕ) (us : Text)
    → names_of (pieces (suc fuel) (u ∷ us)) ≡ []
    → (pieces (suc fuel) (u ∷ us) ≡ unit u ∷ pieces fuel us) × (names_of (pieces fuel us) ≡ [])
unfolding pieces
pieces_plain fuel u us h = elim (Option-cases (match_field (u ∷ us))) [
  | inl gone ↦ (let h' = rw (gone, pieces) at h in rw (gone, pieces) (refl, h'))
  | inr ((name, rest), found) ↦ (let h' = rw (found, pieces) at h in absurd (cc))
]

-- A body without fields is its units.
plain_filled :
    (values : MergeData) (fuel : ℕ) (t : Text)
    → length t ≤ fuel
    → names_of (pieces fuel t) ≡ []
    → filled values (pieces fuel t) ≡ t
unfolding pieces
plain_filled values zero [] h e = refl
plain_filled values (suc fuel) [] h e = refl
plain_filled values zero (u ∷ us) h e = absurd (omega arith)
plain_filled values (suc fuel) (u ∷ us) h e =
    let (first, rest) = pieces_plain fuel u us e in
    ap (filled values) first ∙ ap (λ t. u ∷ t) (plain_filled values fuel us (omega arith) rest)

keep_none : (p : Text → Bool) (xs : List Text) → All (λ x. p x ≡ false) xs → keep_rows p xs ≡ []
keep_none p [] h = refl
keep_none p (x ∷ xs) h = ground (arith, keep_none p xs h.1)

keep_nothing : (p : Text → Bool) (xs : List Text) → keep_rows p xs ≡ [] → All (λ x. p x ≡ false) xs
keep_nothing p [] h = tt
keep_nothing p (x ∷ xs) h = elim (Bool-cases (p x)) [
  | inl e ↦ ground arith
  | inr e ↦ (e, keep_nothing p xs (ground arith))
]

-- The set of the names holds what the names hold.
All-distinct_names :
    (P : Text → Type 0) (names : List Text) → All P names → All P (distinct_names names)
unfolding distinct_names
All-distinct_names P [] h = tt
All-distinct_names P (n ∷ ns) h = (
  h.0,
  All-keep_rows P (λ m. not (same_text m n)) (distinct_names ns) (All-distinct_names P ns h.1),
)

All-from_distinct_names :
    (P : Text → Type 0) (names : List Text) → All P (distinct_names names) → All P names
unfolding distinct_names
All-from_distinct_names P [] h = tt
All-from_distinct_names P (n ∷ ns) h =
    let others = All-keep_rows_under P (λ m. not (same_text m n)) (distinct_names ns) h.1 in
    (
      h.0,
      All-from_distinct_names P ns (
          All-map (distinct_names ns)
            (λ m rest. elim (Bool-cases (same_text m n)) [
              | inl e ↦ subst P (sym (same_text_eq m n e)) h.0
              | inr e ↦ rest (rw e refl)
            ])
            others),
    )

-- The data have a value for every field.
abbrev pub IsGiven : MergeData → List Text → Type 0
IsGiven values names = All (λ name. is_some (given values name) ≡ true) names

missing_none :
    (body : Text) (values : MergeData)
    → IsGiven values (names_of (pieces (length body) body)) ↔ (missing_fields body values ≡ [])
unfolding missing_fields extract_merge_fields
missing_none body values =
    let names = names_of (pieces (length body) body) in
    let missing : Text → Bool = λ name. not (is_some (given values name)) in
    (
      λ h. keep_none missing (distinct_names names) (
          All-map (distinct_names names) (λ n e. ap not e)
            (All-distinct_names (λ name. is_some (given values name) ≡ true) names h)),
      λ h.
          All-from_distinct_names (λ name. is_some (given values name) ≡ true) names
            (All-map (distinct_names names) (λ n e. ground arith)
              (keep_nothing missing (distinct_names names) h)),
    )

-- `render` returns the body with each merge field replaced by its value exactly if the data have a
-- value for every field of the body, among their own keys or those of their prototype, and throws
-- otherwise; a body without fields is returned as it is.
pub render_lem :
    (body : Text) (values : MergeData)
    → (IsGiven values (names_of (pieces (length body) body))
        × (render body values ≡ ok (filled values (pieces (length body) body)))
        × (names_of (pieces (length body) body) ≡ [] → render body values ≡ ok body))
      ⊎ ((¬ IsGiven values (names_of (pieces (length body) body)))
          × (render body values ≡ err missing_merge_fields))
unfolding render
render_lem body values = go (missing_fields body values) refl
  where
    go :
        (missing : List Text)
        → missing_fields body values ≡ missing
        → (IsGiven values (names_of (pieces (length body) body))
            × (render body values ≡ ok (filled values (pieces (length body) body)))
            × (names_of (pieces (length body) body) ≡ [] → render body values ≡ ok body))
          ⊎ ((¬ IsGiven values (names_of (pieces (length body) body)))
              × (render body values ≡ err missing_merge_fields))
    go [] e =
        let done = ap (λ m. unless_missing m (filled values (pieces (length body) body))) e in
        inl (
          (missing_none body values).1 e,
          done,
          λ plain.
              done ∙ ap (λ t. ok t) (plain_filled values (length body) body (omega arith) plain),
        )
    go (n ∷ ns) e = inr (
      λ all. absurd (cc (e, (missing_none body values).0 all)),
      ap (λ m. unless_missing m (filled values (pieces (length body) body))) e,
    )
