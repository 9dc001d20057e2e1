-- ===== src/Tests/Sample.antt =====
-- The data of the tests: a tenant with a wallet, and a message that is being submitted.
use sms_platform_backend.Base.{
  pos, ◌≡◌, refl, true, false, none, some, [], ◌∷◌, arith, ok, +ℤ-zero, ap, ◌∙◌, same_iff,
}
use sms_platform_backend.Status.{MessageStatus, MessageCompositeId, submitting}
use sms_platform_backend.Database.{
  Db, Clock, MessageRow, WalletRow, reserved, transactional, http, MessageEventPayload, LedgerRow,
  reserve, reserve_key, BillingState, LedgerKey, LedgerKey-discrete,
}
use sms_platform_backend.Workflow.Services.{Services, FraudAction, RouteDecision, DispatchResult}
use sms_platform_backend.Billing.Books.{Balanced, hold, is_open, is_settlement}

abbrev pub ref : MessageCompositeId
ref = record { submit_date = 20000; tenant_id = 1; id = 7 }

abbrev pub message_in : MessageStatus → BillingState → MessageRow
message_in status billing = record {
  key = ref;
  client_message_id = none;
  api_idempotency_key = none;
  api_key_id = none;
  source_addr = none;
  phone_number = 43 ∷ 50 ∷ [];
  body = 72 ∷ 105 ∷ [];
  traffic_type = transactional;
  status = status;
  version = 2;
  attempt_count = 1;
  provider_id = some 3;
  smpp_config_id = none;
  route_rule_id = some 5;
  provider_message_id = some 99;
  price_minor = pos 30;
  cost_minor = pos 20;
  billing_state = billing;
  message_parts = 1;
  sent_at = none;
  delivered_at = none;
  failed_at = none;
  state_changed_at = 1000;
  last_error_code = none;
  campaign_id = none;
  body_hash = some 1234;
}

abbrev pub message : MessageRow
message = message_in submitting reserved

abbrev pub wallet : WalletRow
wallet = record {
  wallet_id = 11;
  owner = 1;
  available_balance_minor = pos 70;
  reserved_balance_minor = pos 30;
  credit_limit_minor = pos 0;
  wallet_version = 1;
}

abbrev pub reservation : LedgerRow
reservation = record {
  ledger_tenant = 1;
  ledger_wallet = 11;
  ledger_ref = ref;
  kind = reserve;
  amount_minor = pos 30;
  balance_before_minor = pos 100;
  balance_after_minor = pos 70;
  idempotency_key = reserve_key ref;
}

abbrev pub db_with : MessageRow → Db
db_with m = record {
  messages = m ∷ [];
  next_message_id = 8;
  wallets = wallet ∷ [];
  transactions = reservation ∷ [];
  message_logs = [];
  audit_logs = [];
  outbox_events = [];
  next_event_id = 1;
  dlr_webhooks = [];
  next_webhook_id = 6;
}

abbrev pub db : Db
db = db_with message

abbrev pub clock : Clock
clock = record { now = 5000; today = 20000 }

abbrev pub payload : MessageEventPayload
payload = record {
  message_ref = ref;
  event_version = 2;
  event_phone = 43 ∷ 50 ∷ [];
  event_body = 72 ∷ 105 ∷ [];
  event_sender = 77 ∷ [];
  event_traffic = transactional;
  event_provider = some 3;
  event_smpp_config = none;
  event_rule = some 5;
  event_protocol = some http;
  event_provider_message = some 99;
  event_accepted = true;
  event_error = none;
  event_retryable = false;
  event_uncertain = false;
}

abbrev pub route : RouteDecision
route = record {
  routing_rule = 6;
  route_provider = 4;
  route_smpp_config = none;
  route_protocol = http;
  estimated_unit_cost_minor = pos 20;
  score = pos 0;
}

abbrev pub accepted_result : DispatchResult
accepted_result = record {
  accepted = true;
  provider_message = some 99;
  error_code = none;
  retryable = false;
  uncertain = false;
}

-- Services without a state of their own: one route, one provider that accepts, and a given verdict
-- of the fraud rules.
abbrev pub services : FraudAction → Services (Unit {0})
services verdict = record {
  select_route = λ tenant phone traffic options s. (ok route, s);
  get_retry_policy = λ tenant provider traffic s. record {
    max_attempts = 3;
    retry_intervals = 5 ∷ 30 ∷ 300 ∷ [];
    retry_on_errors = [];
  };
  evaluate = λ input s. (verdict, s);
  get_provider = λ provider s. ok (record {
    profile_id = provider;
    default_protocol = http;
    has_base_url = true;
    max_global_tps = 100;
  });
  assert_dispatch_allowed = λ provider tps s. (ok tt, s);
  get_smpp_config = λ config s. ok config;
  http_submit = λ request s. (ok accepted_result, s);
  submit_sm = λ config request s. (ok accepted_result, s);
  record_dispatch_result = λ provider protocol result config s. s;
}

-- Ending a reservation is not reserving.
settlement_is_new : (k : LedgerKey) → is_settlement k ≡ true → (reserve_key ref ≡ k) → false ≡ true
settlement_is_new k h e = ap is_settlement e ∙ h

-- The books of a database with one message that holds its price while it is open.
books_of :
    (status : MessageStatus)
    → is_open status ≡ true
    → Balanced (db_with (message_in status reserved))
unfolding hold
books_of status o = record {
  held = λ t. ground (arith, +ℤ-zero (pos 30));
  aligned = λ r m h. ground arith;
  unsettled = λ r m k h e s q.
      ground (arith, settlement_is_new k s, (same_iff LedgerKey-discrete (reserve_key ref) k).0);
  message_ids = (omega arith, tt);
  ledger_ids = (omega arith, tt);
}

pub db-Balanced : Balanced db
db-Balanced = books_of submitting refl
