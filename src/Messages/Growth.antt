-- ===== src/Messages/Growth.antt =====
-- How transactions change the table of messages over time: the calls of `patchMessage` and
-- `transitionMessage` of messages/messages.service.ts from any reader, however old the row is that
-- it has read, and the statements beside them, which leave the messages alone.
use sms_platform_backend.Base.{
  ℕ, ◌<◌, ◌≡◌, refl, sym, subst, ap, ◌∙◌, inl, inr, ◌⊎◌, Bool, true, ◌||◌, Option, none, some,
  arith, ltb, Bool-cases, find_first,
}
use sms_platform_backend.Status.{
  MessageStatus, MessageCompositeId, accepted, routed, submitting, provider_accepted, delivered,
  failed, same_status, same_status_iff,
}
use sms_platform_backend.Database.{Db, MessageRow, ErrorCode}
use sms_platform_backend.Messages.{is_ref, find_message, legal_status_change, legal_update}
use sms_platform_backend.Messages.Updates.{SameIdentity}
use sms_platform_backend.Messages.Distinct.{Distinct}

-- How far a status is from 'accepted'.
unfoldable pub rank : MessageStatus → ℕ
rank accepted = 0
rank routed = 1
rank submitting = 2
rank provider_accepted = 3
rank delivered = 4
rank failed = 4

-- A status stays, or moves on.
unfoldable pub leads : MessageStatus → MessageStatus → Bool
leads a b = same_status a b || ltb (rank a) (rank b)

pub leads_self : (a : MessageStatus) → leads a a ≡ true
unfolding leads
leads_self a = ground (arith, (same_status_iff a a).1 refl)

leads_trans : (a b c : MessageStatus) → leads a b ≡ true → leads b c ≡ true → leads a c ≡ true
unfolding leads
leads_trans a b c p q =
    ground (arith, same_status_iff a b, same_status_iff b c, same_status_iff a c)

-- The two final statuses lead nowhere.
pub leads_final : (a b : MessageStatus) → (a ≡ delivered) ⊎ (a ≡ failed) → leads a b ≡ true → b ≡ a
unfolding leads rank
leads_final a b final h = ground (arith, same_status_iff a b)

legal_change-leads :
    (from to : MessageStatus) (code : Option ErrorCode)
    → legal_status_change from to code ≡ true
    → leads from to ≡ true
unfolding legal_status_change leads rank same_status
legal_change-leads from to none h = ground arith
legal_change-leads from to (some code) h = ground arith

-- The rows that one message may have at a time and later.
pub record Grows (m n : MessageRow) : Type 0 where
  pub same_or_later : (n ≡ m) ⊎ (m.version < n.version)
  pub forward : leads m.status n.status ≡ true
  pub identity : SameIdentity m n

pub Grows-self : (m : MessageRow) → Grows m m
Grows-self m = record {
  same_or_later = inl refl;
  forward = leads_self m.status;
  identity = (refl, refl, refl, refl, refl, refl);
}

pub Grows-trans : (l m n : MessageRow) → Grows l m → Grows m n → Grows l n
Grows-trans l m n g h = record {
  same_or_later = later g.same_or_later h.same_or_later;
  forward = leads_trans l.status m.status n.status g.forward h.forward;
  identity = (
    h.identity.0 ∙ g.identity.0,
    h.identity.1 ∙ g.identity.1,
    h.identity.2 ∙ g.identity.2,
    h.identity.3 ∙ g.identity.3,
    h.identity.4 ∙ g.identity.4,
    h.identity.5 ∙ g.identity.5,
  );
}
  where
    later :
        (m ≡ l) ⊎ (l.version < m.version)
        → (n ≡ m) ⊎ (m.version < n.version)
        → (n ≡ l) ⊎ (l.version < n.version)
    later (inl p) (inl q) = inl (q ∙ p)
    later (inl p) (inr q) = inr (subst (λ x. x.version < n.version) p q)
    later (inr p) (inl q) = inr (subst (λ x. l.version < x.version) (sym q) p)
    later (inr p) (inr q) = inr (omega arith)

pub legal-Grows : (m n : MessageRow) → SameIdentity m n → legal_update m n ≡ true → Grows m n
unfolding legal_update
legal-Grows m n same h = record {
  same_or_later = inr (ground arith);
  forward = elim (Bool-cases (same_status n.status m.status)) [
    | inl e ↦
        subst (λ s. leads m.status s ≡ true) (sym ((same_status_iff n.status m.status).0 e))
          (leads_self m.status)
    | inr e ↦ legal_change-leads m.status n.status n.last_error_code (ground arith)
  ];
  identity = same;
}

-- One database and a later one: every message is still found, and has grown; identities are
-- not used twice, if they were not before.
pub record Evolves (db db' : Db) : Type 0 where
  pub distinct : Distinct db.messages → Distinct db'.messages
  pub grown :
      (ref : MessageCompositeId) (m : MessageRow)
      → find_message ref db ≡ some m
      → (n : MessageRow) × (find_message ref db' ≡ some n) × Grows m n

pub Evolves-same : (db db' : Db) → db'.messages ≡ db.messages → Evolves db db'
unfolding find_message
Evolves-same db db' e = record {
  distinct = λ d. subst Distinct (sym e) d;
  grown = λ ref m h. (m, ap (find_first (is_ref ref)) e ∙ h, Grows-self m);
}

pub Evolves-trans : (a b c : Db) → Evolves a b → Evolves b c → Evolves a c
Evolves-trans a b c p q = record {
  distinct = λ d. q.distinct (p.distinct d);
  grown = λ ref l h.
      let (m, there, g) = p.grown ref l h in
      let (n, still, k) = q.grown ref m there in (n, still, Grows-trans l m n g k);
}
