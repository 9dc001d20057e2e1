-- ===== src/Dlr/Choice.antt =====
-- What `correlateMessageForDlr` of messages/messages.service.ts chooses.
use sms_platform_backend.Base.{
  ℕ, ◌≤◌, ◌<◌, ◌≡◌, refl, sym, subst, ap, ◌∙◌, ◌⊎◌, inl, inr, Bool, true, false, Option, none, some,
  List, [], ◌∷◌, ltb, if◌then◌else◌, or_else, keep_rows, All-keep_rows, All, All-map, some_inj,
  arith, Bool-cases, Option-cases,
}
use sms_platform_backend.Database.{Text, MessageRow}
use sms_platform_backend.Dlr.Correlate.{
  DlrInput, sent_earlier, is_direct, later_sent, latest_sent, confidence, is_candidate,
  ranks_before, place, pull_best, settled_by, chosen, fallback_match, correlate_message,
}

module _ (input : DlrInput) where
  -- No other row has a higher confidence.
  abbrev Below : MessageRow × List MessageRow → Type 0
  Below p = All (λ r. confidence input r ≤ confidence input p.0) p.1

  if-Below :
      (b : Bool) (x y : MessageRow × List MessageRow)
      → (b ≡ true → Below x)
      → (b ≡ false → Below y)
      → Below (if b then x else y)
  if-Below true x y hx hy = hx refl
  if-Below false x y hx hy = hy refl

  not_before :
      (m best : MessageRow)
      → ranks_before input best m ≡ false
      → confidence input best ≤ confidence input m
  unfolding ranks_before
  not_before m best h = ground arith

  before :
      (m best : MessageRow)
      → ranks_before input best m ≡ true
      → confidence input m ≤ confidence input best
  unfolding ranks_before
  before m best h = ground arith

  place-Below :
      (m : MessageRow) (o : Option (MessageRow × List MessageRow))
      → ((q : MessageRow × List MessageRow) → o ≡ some q → Below q)
      → Below (place input m o)
  unfolding place
  place-Below m none h = tt
  place-Below m (some (best, rest)) h =
      if-Below (ranks_before input best m) _ _ (λ e. (before m best e, h (best, rest) refl))
        (λ e. (
          not_before m best e,
          All-map rest (λ r le. omega (arith, le, not_before m best e)) (h (best, rest) refl),
        ))

  pull_best-Below :
      (ms : List MessageRow) (p : MessageRow × List MessageRow)
      → pull_best input ms ≡ some p
      → Below p
  unfolding pull_best
  pull_best-Below [] p h = cc
  pull_best-Below (m ∷ ms) p h =
      subst Below (some_inj (place input m (pull_best input ms)) p h)
        (place-Below m (pull_best input ms) (pull_best-Below ms))

  -- What holds of the best row and of the others holds of every row.
  abbrev Both : (MessageRow → Type 0) → MessageRow × List MessageRow → Type 0
  Both P p = P p.0 × All P p.1

  if-Both :
      (P : MessageRow → Type 0) (b : Bool) (m best : MessageRow) (rest : List MessageRow)
      → Both P (if b then (best, m ∷ rest) else (m, best ∷ rest))
      → P m × Both P (best, rest)
  if-Both P true m best rest h = (h.1.0, (h.0, h.1.1))
  if-Both P false m best rest h = (h.0, (h.1.0, h.1.1))

  nothing_pulled : (ms : List MessageRow) → pull_best input ms ≡ none → ms ≡ []
  unfolding pull_best
  nothing_pulled [] e = refl
  nothing_pulled (x ∷ xs) e = cc

  pulled :
      (P : MessageRow → Type 0) (ms : List MessageRow) (p : MessageRow × List MessageRow)
      → pull_best input ms ≡ some p
      → Both P p
      → All P ms
  unfolding pull_best place
  pulled P [] p h both = tt
  pulled P (m ∷ ms) p h both =
      go (pull_best input ms) refl (λ q. pulled P ms q)
        (subst (Both P) (sym (some_inj (place input m (pull_best input ms)) p h)) both)
    where
      go :
          (o : Option (MessageRow × List MessageRow))
          → pull_best input ms ≡ o
          → ((q : MessageRow × List MessageRow) → pull_best input ms ≡ some q → Both P q → All P ms)
          → Both P (place input m o)
          → All P (m ∷ ms)
      go none e rec h = (h.0, subst (All P) (sym (nothing_pulled ms e)) tt)
      go (some (best, rest)) e rec h =
          let (here, there) = if-Both P (ranks_before input best m) m best rest h in
          (here, rec (best, rest) e there)

  if-Both_back :
      (P : MessageRow → Type 0) (b : Bool) (m best : MessageRow) (rest : List MessageRow)
      → P m
      → Both P (best, rest)
      → Both P (if b then (best, m ∷ rest) else (m, best ∷ rest))
  if-Both_back P true m best rest pm h = (h.0, (pm, h.1))
  if-Both_back P false m best rest pm h = (pm, (h.0, h.1))

  kept :
      (P : MessageRow → Type 0) (ms : List MessageRow) (p : MessageRow × List MessageRow)
      → pull_best input ms ≡ some p
      → All P ms
      → Both P p
  unfolding pull_best place
  kept P [] p h all = cc
  kept P (m ∷ ms) p h all =
      subst (Both P) (some_inj (place input m (pull_best input ms)) p h)
        (go (pull_best input ms) refl (λ q e. kept P ms q e all.1))
    where
      go :
          (o : Option (MessageRow × List MessageRow))
          → pull_best input ms ≡ o
          → ((q : MessageRow × List MessageRow) → pull_best input ms ≡ some q → Both P q)
          → Both P (place input m o)
      go none e rec = (all.0, tt)
      go (some (best, rest)) e rec =
          if-Both_back P (ranks_before input best m) m best rest all.0 (rec (best, rest) e)

  -- Every other row has less confidence, where the runner-up has not the same.
  runner_up_less :
      (best : MessageRow) (rest : List MessageRow) (m : MessageRow)
      → Below (best, rest)
      → settled_by input best (pull_best input rest) ≡ some m
      → (best ≡ m) × All (λ r. confidence input r < confidence input best) rest
  unfolding settled_by
  runner_up_less best rest m below h = go (pull_best input rest) refl h
    where
      go :
          (o : Option (MessageRow × List MessageRow))
          → pull_best input rest ≡ o
          → settled_by input best o ≡ some m
          → (best ≡ m) × All (λ r. confidence input r < confidence input best) rest
      go none e h = (
        ground arith,
        subst (All (λ r. confidence input r < confidence input best)) (sym (nothing_pulled rest e))
            tt,
      )
      go (some (r, others)) e h =
          let top : confidence input r ≤ confidence input best =
            (kept (λ x. confidence input x ≤ confidence input best) rest (r, others) e below).0 in
          let under : All (λ x. confidence input x ≤ confidence input r) rest =
            pulled (λ x. confidence input x ≤ confidence input r) rest (r, others) e
              (omega arith, pull_best-Below rest (r, others) e) in
          let less : confidence input r < confidence input best = ground (arith, top) in
          (ground arith, All-map rest (λ x le. omega (arith, le, less)) under)

  chosen_lem :
      (ms : List MessageRow) (m : MessageRow)
      → chosen input (pull_best input ms) ≡ some m
      → (4 ≤ confidence input m) × All (λ r. (r ≡ m) ⊎ (confidence input r < confidence input m)) ms
  unfolding chosen
  chosen_lem ms m h = go (pull_best input ms) refl h
    where
      go :
          (o : Option (MessageRow × List MessageRow))
          → pull_best input ms ≡ o
          → chosen input o ≡ some m
          → (4 ≤ confidence input m)
            × All (λ r. (r ≡ m) ⊎ (confidence input r < confidence input m)) ms
      go none e h = cc
      go (some (best, rest)) e h = elim (Bool-cases (ltb (confidence input best) 4)) [
        | inl low ↦ absurd (ground arith)
        | inr high ↦
            (let (same_row, less) =
                runner_up_less best rest m (pull_best-Below ms (best, rest) e) (ground arith) in
              subst
                (λ x.
                  (4 ≤ confidence input x)
                  × All (λ r. (r ≡ x) ⊎ (confidence input r < confidence input x)) ms)
                same_row
                (
                  ground arith,
                  pulled (λ r. (r ≡ best) ⊎ (confidence input r < confidence input best)) ms
                      (best, rest) e (inl refl, All-map rest (λ r lt. inr lt) less),
                ))
      ]

  latest_kept :
      (P : MessageRow → Type 0) (ms : List MessageRow) (m : MessageRow)
      → All P ms
      → latest_sent ms ≡ some m
      → P m
  unfolding latest_sent later_sent
  latest_kept P [] m all h = cc
  latest_kept P (x ∷ xs) m all h = go (latest_sent xs) refl (λ b e. latest_kept P xs b all.1 e) h
    where
      go :
          (o : Option MessageRow)
          → latest_sent xs ≡ o
          → ((b : MessageRow) → latest_sent xs ≡ some b → P b)
          → some (later_sent x o) ≡ some m
          → P m
      go none e rec h = subst P (some_inj x m h) all.0
      go (some best) e rec h = elim (Bool-cases (sent_earlier x.sent_at best.sent_at)) [
        | inl q ↦ (let r : best ≡ m = ground arith in subst P r (rec best e))
        | inr q ↦ (let r : x ≡ m = ground arith in subst P r all.0)
      ]

  -- A message that `correlateMessageForDlr` chooses by phone number has a confidence of at least 4,
  -- and every other candidate has a lower one.
  pub fallback_match_lem :
      (now : ℕ) (ms : List MessageRow) (phone : Text) (m : MessageRow)
      → fallback_match input now ms (some phone) ≡ some m
      → (4 ≤ confidence input m)
        × All
            (λ r. (r ≡ m) ⊎ (confidence input r < confidence input m))
            (keep_rows (is_candidate input now phone) ms)
  unfolding fallback_match
  fallback_match_lem now ms phone m h = chosen_lem (keep_rows (is_candidate input now phone) ms) m h

  chosen_kept :
      (P : MessageRow → Type 0) (ms : List MessageRow) (m : MessageRow)
      → All P ms
      → chosen input (pull_best input ms) ≡ some m
      → P m
  unfolding chosen
  chosen_kept P ms m all h = go (pull_best input ms) refl h
    where
      go :
          (o : Option (MessageRow × List MessageRow))
          → pull_best input ms ≡ o
          → chosen input o ≡ some m
          → P m
      go none e h = cc
      go (some (best, rest)) e h = elim (Bool-cases (ltb (confidence input best) 4)) [
        | inl low ↦ absurd (ground arith)
        | inr high ↦
            subst P
              (runner_up_less best rest m (pull_best-Below ms (best, rest) e) (ground arith)).0
              (kept P ms (best, rest) e all).0
      ]

  -- What holds of every message holds of the one that is chosen.
  pub correlate_message_kept :
      (P : MessageRow → Type 0) (now : ℕ) (ms : List MessageRow) (m : MessageRow)
      → All P ms
      → correlate_message input now ms ≡ some m
      → P m
  unfolding correlate_message fallback_match
  correlate_message_kept P now ms m all h =
      elim (Option-cases (latest_sent (keep_rows (is_direct input) ms))) [
        | inr (d, e) ↦
            (let q : d ≡ m = ground arith in
              subst P q (
                latest_kept P (keep_rows (is_direct input) ms) d
                  (All-keep_rows P (is_direct input) ms all) e))
        | inl e ↦
            by_phone input.dlr_phone
              (sym (ap (λ o. or_else o (fallback_match input now ms input.dlr_phone)) e) ∙ h)
      ]
    where
      by_phone : (phone : Option Text) → fallback_match input now ms phone ≡ some m → P m
      by_phone none h = cc
      by_phone (some phone) h =
          chosen_kept P (keep_rows (is_candidate input now phone) ms) m
            (All-keep_rows P (is_candidate input now phone) ms all) h
