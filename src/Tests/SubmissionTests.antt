-- ===== src/Tests/SubmissionTests.antt =====
-- The submission of a message on concrete inputs.
use native.Mathlib.Decide.{ℕ_discrete}
use sms_platform_backend.Base.{
  pos, ◌+ℤ◌, ◌-ℤ◌, ◌≡◌, refl, ◌⊎◌, true, false, none, some, [], ◌∷◌, ◌++◌, Result, ok, err, All,
}
use sms_platform_backend.Database.{Db, MessageRow, transactional, LedgerKey-discrete, Text}
use sms_platform_backend.Messages.{log_event}
use sms_platform_backend.Wallet.{reserve_wallet}
use sms_platform_backend.Outbox.{enqueue}
use sms_platform_backend.Billing.Books.{Balanced}
use sms_platform_backend.Submission.Content.{
  CountryCode, starts_with, plus, phone_units, normalize_phone_number, normalize_phone_number_lem,
  trimmed_phone_number,
}
use sms_platform_backend.Submission.Pricing.{
  PricingRow, sell, sells, Newest, sell_unit_price_minor, sell_unit_price_minor-Newest,
}
use sms_platform_backend.Submission.Services.{
  SubmissionContext, SubmitMessageDto, SubmissionServices,
}
use sms_platform_backend.Submission.Prepare.{Draft}
use sms_platform_backend.Submission.Accept.{
  Submitted, repeated, created, accept_draft, insert_unless, existing_message, is_repeat,
  reserve_new, announce_accepted, new_message, submit_message_with_context,
}
use sms_platform_backend.Submission.Repeats.{accept_draft_again}
use sms_platform_backend.Submission.Outcome.{submit-Balanced}
use sms_platform_backend.Tests.Sample.{db, message, clock, route, db-Balanced}

-- "0911" and "+251911".
abbrev local_number : Text
local_number = 48 ∷ 57 ∷ 49 ∷ 49 ∷ []

abbrev full_number : Text
full_number = 43 ∷ 50 ∷ 53 ∷ 49 ∷ 57 ∷ 49 ∷ 49 ∷ []

normalize_phone_number_lem_example :
    (starts_with plus full_number ≡ true)
    × (phone_units full_number ≡ true)
    × (normalize_phone_number full_number ≡ ok full_number)
unfolding normalize_phone_number trimmed_phone_number starts_with
normalize_phone_number_lem_example = normalize_phone_number_lem local_number full_number refl

abbrev rule : PricingRow
rule = record {
  pricing_kind = sell;
  pricing_tenant = some 1;
  pricing_provider = none;
  pricing_country = CountryCode.et;
  pricing_traffic = transactional;
  parts_from = 1;
  parts_to = 10;
  is_active = true;
  effective_from = 100;
  effective_to = none;
  unit_price_minor = pos 30;
}

sell_unit_price_minor-Newest_example :
    (All (λ row. sells 5000 1 CountryCode.et transactional 1 row ≡ false) (rule ∷ [])
      × (sell_unit_price_minor 5000 (rule ∷ []) 1 CountryCode.et transactional 1 ≡ pos 0))
    ⊎ ((row : PricingRow) × Newest (sells 5000 1 CountryCode.et transactional 1) (rule ∷ []) row
        × (sell_unit_price_minor 5000 (rule ∷ []) 1 CountryCode.et transactional 1
            ≡ row.unit_price_minor))
sell_unit_price_minor-Newest_example =
    sell_unit_price_minor-Newest 5000 (rule ∷ []) 1 CountryCode.et transactional 1

abbrev context : SubmissionContext
context = record {
  context_tenant = 1;
  context_api_key = some 2;
  can_send = true;
  rate_limit_rps = some 10;
  daily_quota = none;
  idempotency_key = some 77;
}

abbrev dto : SubmitMessageDto
dto = record {
  dto_phone_number = local_number;
  dto_body = some (72 ∷ 105 ∷ []);
  dto_template_ref = none;
  dto_sender = 77 ∷ [];
  dto_traffic_type = none;
  dto_client_message_id = none;
}

abbrev draft : Draft
draft = record {
  draft_phone = full_number;
  draft_body = 72 ∷ 105 ∷ [];
  draft_traffic = transactional;
  draft_route = route;
  draft_parts = 1;
  draft_price = pos 30;
  draft_cost = pos 20;
  draft_hash = 1234;
}

-- Services that let everything pass.
abbrev open_services : SubmissionServices (Unit {0})
open_services = record {
  tenant_policy = λ tenant s. ok (record { api_rate_limit_rps = 10; submit_tps_limit = 10 });
  enforce_limit = λ bucket limit cost s. (ok tt, s);
  enforce_daily_quota = λ bucket quota s. (ok tt, s);
  assert_not_opted_out = λ tenant phone s. (ok tt, s);
  rendered_template = λ tenant template s. (ok [], s);
  route_preview = λ tenant phone traffic s. (ok route, s);
  ensure_approved = λ tenant sender provider s. (ok tt, s);
  enforce_submission = λ input s. (ok tt, s);
  pricing_rules = λ s. rule ∷ [];
  sha256 = λ body. 1234;
}

submit-Balanced_example :
    Balanced (submit_message_with_context open_services clock context dto (db, tt)).1.0
submit-Balanced_example = submit-Balanced open_services clock context dto db tt db-Balanced

abbrev submitted_db : Result (Submitted × Db) → Db
submitted_db (ok (r, after)) = after
submitted_db (err e) = db

abbrev first_row : Result (Submitted × Db) → MessageRow
first_row (ok (created m, after)) = m
first_row _ = message

abbrev submission : Result (Submitted × Db)
submission = accept_draft clock context dto draft db

-- The table later, with another row behind.
abbrev later_db : Db
later_db = record (submitted_db submission) {
  messages =
      (submitted_db submission).messages
      ++ record (first_row submission) { key = record (first_row submission).key { id = 99 } } ∷ [];
}

accept_draft_again_example :
    (n : MessageRow) × (n.key ≡ (first_row submission).key)
    × (accept_draft
          (record { now = 6000; today = 20000 })
          context
          dto
          (record draft { draft_price = pos 5 })
          later_db
        ≡ ok (repeated n, later_db))
unfolding accept_draft insert_unless existing_message is_repeat reserve_new reserve_wallet
    LedgerKey-discrete ℕ_discrete new_message ◌+ℤ◌ ◌-ℤ◌ announce_accepted log_event enqueue
accept_draft_again_example =
    accept_draft_again clock (record { now = 6000; today = 20000 }) context dto draft
      (record draft { draft_price = pos 5 }) db (first_row submission) (submitted_db submission)
      later_db refl refl refl ((refl, refl, refl), ((refl, refl, refl), tt))
