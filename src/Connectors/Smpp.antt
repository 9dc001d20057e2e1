-- ===== src/Connectors/Smpp.antt =====
-- connectors/smpp.service.ts: the session of a destination, the pool of sessions, and the result of
-- `submit_sm`. The socket is a parameter.
use Prim.Native.Nat.{max, ◌^◌}
use sms_platform_backend.Base.{
  ℕ, ◌+◌, ◌-◌, ◌*◌, ◌%◌, Bool, true, false, ◌&&◌, Option, none, some, List, [], ◌∷◌, ◌==◌, ltb, leb,
  if◌then◌else◌, find_first, length, keep_rows, not, Result, ok, err, other_error,
}
use sms_platform_backend.Database.{Text, smpp_throttle, smpp_status, unknown_submit_outcome}
use sms_platform_backend.Workflow.Services.{DispatchResult}
use sms_platform_backend.Connectors.Http.{refused, taken}

-- The part of `SmppDispatchRequest` that names the session; `endpoint` stands for the host, the
-- port and the system id.
pub record SmppEndpoint : Type 0 where
  pub smpp_provider : ℕ
  pub endpoint : ℕ
  pub max_sessions : ℕ

abbrev pub is_digit : ℕ → Bool
is_digit u = leb b'0' u && leb u b'9'

-- One round of the loop, on the 32 bits of `hash`: `((hash << 5) - hash + code) | 0`.
unfoldable pub next_hash : ℕ → ℕ → ℕ
next_hash hash code = ((hash * 32) % 2 ^ 32 + (2 ^ 32 - hash) + code) % 2 ^ 32

unfoldable pub hash_units : ℕ → Text → ℕ
unfolding next_hash
hash_units hash [] = hash
hash_units hash (u ∷ us) = hash_units (next_hash hash u) us

-- `Math.abs` of the 32 bits as a signed number.
unfoldable pub abs32 : ℕ → ℕ
abs32 hash = if ltb hash (2 ^ 31) then hash else 2 ^ 32 - hash

-- `computeSessionSlot`
unfoldable pub compute_session_slot : Text → ℕ → ℕ
unfolding hash_units abs32
compute_session_slot destination max_sessions =
    abs32 (hash_units 0 (keep_rows is_digit destination)) % max max_sessions 1

pub record SessionKey : Type 0 where
  pub key_provider : ℕ
  pub key_endpoint : ℕ
  pub slot : ℕ

-- `getSessionKey`
unfoldable pub get_session_key : SmppEndpoint → Text → SessionKey
unfolding compute_session_slot
get_session_key config destination = record {
  key_provider = config.smpp_provider;
  key_endpoint = config.endpoint;
  slot = compute_session_slot destination config.max_sessions;
}

abbrev pub same_key : SessionKey → SessionKey → Bool
same_key a b =
    a.key_provider == b.key_provider && (a.key_endpoint == b.key_endpoint && a.slot == b.slot)

-- A session of the map.
pub record Session : Type 0 where
  pub session_key : SessionKey
  pub healthy : Bool

abbrev pub has_session_key : SessionKey → Session → Bool
has_session_key k session = same_key session.session_key k

-- `sessions.delete(key)`
unfoldable pub drop_session : SessionKey → List Session → List Session
drop_session k sessions = keep_rows (λ s. not (has_session_key k s)) sessions

-- `sessions.set(key, state)`
unfoldable pub set_session : Session → List Session → List Session
set_session session [] = session ∷ []
set_session session (s ∷ rest) =
    let behind = set_session session rest in
    if has_session_key session.session_key s then session ∷ rest else s ∷ behind

-- `existing?.healthy`
abbrev pub is_live : Option Session → Bool
is_live none = false
is_live (some s) = s.healthy

-- The answer to the bind.
unfoldable pub after_bind : SessionKey → Bool → List Session → Result SessionKey × List Session
unfolding set_session
after_bind k true sessions =
    (ok k, set_session (record { session_key = k; healthy = true }) sessions)
after_bind k false sessions = (err other_error, sessions)

-- `ensureSession`; `bound` is whether the provider answers the bind with status 0.
unfoldable pub ensure_session : SessionKey → Bool → List Session → Result SessionKey × List Session
unfolding after_bind
ensure_session k bound sessions =
    if is_live (find_first (has_session_key k) sessions)
    then (ok k, sessions)
    else after_bind k bound sessions

-- The answer to `submit_sm`: its status and message id, or none in time.
pub data SmppAnswer : Type 0 where
  answered : ℕ → Option ℕ → SmppAnswer
  timed_out : SmppAnswer

-- The result of `submitSm`.
unfoldable pub smpp_result : SmppAnswer → DispatchResult
smpp_result (answered status message) =
    if status == 0
    then taken message
    else refused (if status == 88 then smpp_throttle else smpp_status status) (status == 88) false
smpp_result timed_out = refused unknown_submit_outcome false true

-- `evaluateSessionHealth`: all the sessions of a provider, and those that are healthy.
unfoldable pub evaluate_session_health : ℕ → List Session → ℕ × ℕ
evaluate_session_health provider sessions =
    let of_provider = keep_rows (λ s. s.session_key.key_provider == provider) sessions in
    (length of_provider, length (keep_rows (λ s. s.healthy) of_provider))

-- What changes the pool: a message for a destination, with the answer to a bind where there is
-- one, or the end of a session ('close' or 'error').
pub data PoolEvent : Type 0 where
  dispatched : Text → Bool → PoolEvent
  ended : SessionKey → PoolEvent

unfoldable pub pool_step : SmppEndpoint → PoolEvent → List Session → List Session
unfolding ensure_session get_session_key drop_session
pool_step config (dispatched destination bound) sessions =
    (ensure_session (get_session_key config destination) bound sessions).1
pool_step config (ended k) sessions = drop_session k sessions

unfoldable pub pool_after : SmppEndpoint → List PoolEvent → List Session → List Session
unfolding pool_step
pool_after config [] sessions = sessions
pool_after config (e ∷ es) sessions = pool_after config es (pool_step config e sessions)
