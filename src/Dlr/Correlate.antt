-- ===== src/Dlr/Correlate.antt =====
-- `correlateMessageForDlr` of messages/messages.service.ts: the message that a report is about. Of
-- rows that the queries order the same, the later one in the table stands for any.
use sms_platform_backend.Base.{
  ℕ, ◌+◌, ◌-◌, Bool, true, false, ◌&&◌, ◌||◌, Option, none, some, List, [], ◌∷◌, ◌==◌, leb, ltb,
  if◌then◌else◌, or_else, keep_rows,
}
use sms_platform_backend.Database.{Text, same_text, MessageRow}

-- `column = $n`, where the parameter may be NULL
abbrev pub matches : Option ℕ → Option ℕ → Bool
matches none v = false
matches (some k) none = false
matches (some k) (some v) = v == k

abbrev pub matches_text : Option Text → Option Text → Bool
matches_text none v = false
matches_text (some k) none = false
matches_text (some k) (some v) = same_text v k

-- `$n IS NULL OR tenant_id = $n`
abbrev pub matches_or_null : Option ℕ → ℕ → Bool
matches_or_null none v = true
matches_or_null (some k) v = v == k

-- The input; times are milliseconds.
pub record DlrInput : Type 0 where
  pub dlr_tenant : Option ℕ
  pub dlr_provider : ℕ
  pub dlr_provider_message : Option ℕ
  pub dlr_phone : Option Text
  pub dlr_sender : Option Text
  pub dlr_event_at : Option ℕ
  pub dlr_body_hash : Option ℕ
  pub dlr_campaign : Option ℕ
  pub dlr_route_rule : Option ℕ

-- Later in `sent_at DESC NULLS LAST`.
abbrev pub sent_earlier : Option ℕ → Option ℕ → Bool
sent_earlier none b = true
sent_earlier (some a) none = false
sent_earlier (some a) (some b) = leb a b

unfoldable pub is_direct : DlrInput → MessageRow → Bool
is_direct input m =
    matches (some input.dlr_provider) m.provider_id
    && (matches_or_null input.dlr_tenant m.tenant_id
        && matches input.dlr_provider_message m.provider_message_id)

unfoldable pub later_sent : MessageRow → Option MessageRow → MessageRow
later_sent m none = m
later_sent m (some best) = if sent_earlier m.sent_at best.sent_at then best else m

-- `ORDER BY sent_at DESC NULLS LAST LIMIT 1`
unfoldable pub latest_sent : List MessageRow → Option MessageRow
latest_sent [] = none
latest_sent (m ∷ ms) = some (later_sent m (latest_sent ms))

-- The distance of two times.
abbrev pub apart : ℕ → ℕ → ℕ
apart a b = a - b + (b - a)

abbrev pub time_points : Option ℕ → Option ℕ → ℕ
time_points (some event) (some sent) =
    if leb (apart sent event) 900000 then 3 else if leb (apart sent event) 21600000 then 1 else 0
time_points _ _ = 0

abbrev pub points : ℕ → Bool → ℕ
points n true = n
points n false = 0

-- `confidence_score`
unfoldable pub confidence : DlrInput → MessageRow → ℕ
confidence input m =
    points 3 (matches_text input.dlr_sender m.source_addr)
    + points 6 (matches input.dlr_body_hash m.body_hash)
    + points 4 (matches input.dlr_campaign m.campaign_id)
    + points 4 (matches input.dlr_route_rule m.route_rule_id)
    + time_points input.dlr_event_at m.sent_at

-- The window of `sent_at`: 6 hours around the event, or the last 24 hours.
abbrev pub in_window : ℕ → Option ℕ → Option ℕ → Bool
in_window now event none = false
in_window now none (some sent) = leb now (sent + 86400000) && leb sent now
in_window now (some event) (some sent) = leb event (sent + 21600000) && leb sent (event + 21600000)

unfoldable pub is_candidate : DlrInput → ℕ → Text → MessageRow → Bool
is_candidate input now phone m =
    matches (some input.dlr_provider) m.provider_id
    && (matches_or_null input.dlr_tenant m.tenant_id
        && (same_text m.phone_number phone && in_window now input.dlr_event_at m.sent_at))

-- First by confidence, then by the time of sending.
unfoldable pub ranks_before : DlrInput → MessageRow → MessageRow → Bool
ranks_before input a b =
    ltb (confidence input b) (confidence input a)
    || (confidence input a == confidence input b && sent_earlier b.sent_at a.sent_at)

unfoldable pub place :
    DlrInput → MessageRow → Option (MessageRow × List MessageRow) → MessageRow × List MessageRow
place input m none = (m, [])
place input m (some (best, rest)) =
    if ranks_before input best m then (best, m ∷ rest) else (m, best ∷ rest)

-- The first row of the order, and the others.
unfoldable pub pull_best : DlrInput → List MessageRow → Option (MessageRow × List MessageRow)
pull_best input [] = none
pull_best input (m ∷ ms) = some (place input m (pull_best input ms))

-- `best` against `runnerUp`.
unfoldable pub settled_by :
    DlrInput → MessageRow → Option (MessageRow × List MessageRow) → Option MessageRow
settled_by input best none = some best
settled_by input best (some (runner_up, rest)) =
    if confidence input runner_up == confidence input best then none else some best

unfoldable pub chosen : DlrInput → Option (MessageRow × List MessageRow) → Option MessageRow
chosen input none = none
chosen input (some (best, rest)) =
    if ltb (confidence input best) 4 then none else settled_by input best (pull_best input rest)

unfoldable pub fallback_match : DlrInput → ℕ → List MessageRow → Option Text → Option MessageRow
fallback_match input now ms none = none
fallback_match input now ms (some phone) =
    chosen input (pull_best input (keep_rows (is_candidate input now phone) ms))

-- `correlateMessageForDlr`
unfoldable pub correlate_message : DlrInput → ℕ → List MessageRow → Option MessageRow
correlate_message input now ms =
    or_else (latest_sent (keep_rows (is_direct input) ms))
      (fallback_match input now ms input.dlr_phone)
