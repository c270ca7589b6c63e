-- ===== src/Outbox/Receipts.antt =====
-- Repeated calls of `record_once` of services/api/netops_api/application/outbox.py.
use netops_copilot.Prelude.{
  ℕ, ◌==◌, nat_eq, list_beq_iff, ltb, contains, ◌≡◌, refl, inl, inr, ◌⊎◌, Bool, true, false, ◌||◌,
  Bool-cases, [], ◌∷◌, arith, if◌then◌else◌, list_eq, String, ◌∙◌,
}
use netops_copilot.Prelude.Lists.{length, any, keep-first, List-cases}
use netops_copilot.Prelude.Text.{Text, strip, is_blank}
use netops_copilot.Prelude.Time.{Datetime, is_utc}
use netops_copilot.Prelude.Json.{Json}
use netops_copilot.Errors.{
  consumer_payload_mismatch, integrity_error, runtime_error, Exception, ok, err, Result-cases,
}
use netops_copilot.Storage.Tables.{InboxRow, Database}
use netops_copilot.Outbox.Commands.{validate_utc}
use netops_copilot.Outbox.Inbox.{
  is_receipt, check_inbox, insert_consumer_inbox, select_consumer_payload, compare_receipt,
  after_insert, receipt, record_once,
}

-- The three outcomes of the insert.
insert_consumer_inbox-cases :
    (r : InboxRow) (db : Database)
    → ((any (is_receipt r.organization_id r.consumer_name r.event_id) db.consumer_inbox ≡ false)
        × (check_inbox r ≡ true)
        × (insert_consumer_inbox r db
            ≡ (ok (r.id ∷ []), record db { consumer_inbox = r ∷ db.consumer_inbox })))
      ⊎ ((any (is_receipt r.organization_id r.consumer_name r.event_id) db.consumer_inbox ≡ true)
          × (check_inbox r ≡ true)
          × (insert_consumer_inbox r db ≡ (ok [], db)))
      ⊎ ((constraint : String) × (insert_consumer_inbox r db
            ≡ (err (integrity_error constraint), db)))
unfolding insert_consumer_inbox
insert_consumer_inbox-cases r db = elim (Bool-cases (check_inbox r)) [
  | inr p ↦ inr (inr ("ck_consumer_inbox", rw p))
  | inl p ↦
      elim (Bool-cases
        (any (is_receipt r.organization_id r.consumer_name r.event_id) db.consumer_inbox)) [
          | inl known ↦ inr (inl (known, p, rw (p, known)))
          | inr fresh ↦ elim (Bool-cases (any (λ (o : InboxRow). o.id == r.id) db.consumer_inbox)) [
            | inl taken ↦ inr (inr ("consumer_inbox_pkey", rw (p, fresh, taken)))
            | inr free ↦ elim (Bool-cases (contains db.organizations r.organization_id)) [
              | inr q ↦ inr (inr ("consumer_inbox_organization_id_fkey", rw (p, fresh, free, q)))
              | inl q ↦ inl (fresh, p, rw (p, fresh, free, q))
            ]
          ]
        ]
]

-- The comparison with a stored receipt never reports a new one.
compare_receipt-cases :
    (organization_id : ℕ) (consumer_name : Text) (event_id : ℕ) (sha : Text) (db : Database)
    → ((e : Exception) × (compare_receipt organization_id consumer_name event_id sha db
          ≡ (err e, db)))
      ⊎ (compare_receipt organization_id consumer_name event_id sha db ≡ (ok false, db))
unfolding compare_receipt
compare_receipt-cases organization_id consumer_name event_id sha db =
    elim (List-cases (select_consumer_payload organization_id (strip consumer_name) event_id db)) [
      | inl p ↦
          inl (runtime_error "Consumer deduplication conflict did not retain its receipt.", rw p)
      | inr (inr (x, y, rest, p)) ↦
          inl (runtime_error "Multiple rows were found when one or none was required", rw p)
      | inr (inl (x, p)) ↦ elim (Bool-cases (x == sha)) [
        | inl q ↦ inr (rw (p, q))
        | inr q ↦ inl (consumer_payload_mismatch event_id consumer_name, rw (p, q))
      ]
    ]

own_receipt : (r : InboxRow) → is_receipt r.organization_id r.consumer_name r.event_id r ≡ true
own_receipt r = rw ((list_beq_iff r.consumer_name r.consumer_name).1 refl) (ground arith)

module _ (organization_id : ℕ) (digest : Json → Text) (consumer_name : Text) (event_id : ℕ) where
  -- If `record_once` reports a new receipt then no receipt had its key, and it is stored.
  record_once-new :
      (inbox_id : ℕ) (payload : Json) (at : Datetime) (db after : Database)
      → record_once organization_id digest inbox_id consumer_name event_id payload at db
        ≡ (ok true, after)
      → ((is_blank consumer_name || ltb 255 (length consumer_name)) ≡ false)
        × (any (is_receipt organization_id (strip consumer_name) event_id) db.consumer_inbox
            ≡ false)
        × (check_inbox (receipt organization_id inbox_id consumer_name event_id (digest payload) at)
            ≡ true)
        × (after ≡ record db {
          consumer_inbox =
              receipt organization_id inbox_id consumer_name event_id (digest payload) at
              ∷ db.consumer_inbox;
        })
  unfolding record_once after_insert
  record_once-new inbox_id payload at db after h =
      elim (Bool-cases (is_blank consumer_name || ltb 255 (length consumer_name))) [
        | inl p ↦ let e = rw p at h in cc e
        | inr p ↦ elim (Result-cases (validate_utc at "processed_at must be timezone-aware UTC.")) [
          | inr (e, p2) ↦ let f = rw (p, p2) at h in cc f
          | inl (_, p2) ↦
              elim (insert_consumer_inbox-cases
                (receipt organization_id inbox_id consumer_name event_id (digest payload) at) db) [
                  | inl (fresh, valid, q) ↦ let f = rw (p, p2, q) at h in (p, fresh, valid, cc f)
                  | inr (inr (n, q)) ↦ let f = rw (p, p2, q) at h in cc f
                  | inr (inl (known, valid, q)) ↦
                      elim (compare_receipt-cases organization_id consumer_name event_id
                        (digest payload) db) [
                          | inl (e, r) ↦ let f = rw (p, p2, q, r) at h in cc f
                          | inr r ↦ let f = rw (p, p2, q, r) at h in cc f
                        ]
                ]
        ]
      ]

  -- If `record_once` reports a replay then nothing was written and a receipt of the key is there.
  record_once-old :
      (inbox_id : ℕ) (payload : Json) (at : Datetime) (db after : Database)
      → record_once organization_id digest inbox_id consumer_name event_id payload at db
        ≡ (ok false, after)
      → ((is_blank consumer_name || ltb 255 (length consumer_name)) ≡ false)
        × (any (is_receipt organization_id (strip consumer_name) event_id) db.consumer_inbox ≡ true)
        × (check_inbox (receipt organization_id inbox_id consumer_name event_id (digest payload) at)
            ≡ true)
        × (after ≡ db)
        × (compare_receipt organization_id consumer_name event_id (digest payload) db
            ≡ (ok false, db))
  unfolding record_once after_insert
  record_once-old inbox_id payload at db after h =
      elim (Bool-cases (is_blank consumer_name || ltb 255 (length consumer_name))) [
        | inl p ↦ let e = rw p at h in cc e
        | inr p ↦ elim (Result-cases (validate_utc at "processed_at must be timezone-aware UTC.")) [
          | inr (e, p2) ↦ let f = rw (p, p2) at h in cc f
          | inl (_, p2) ↦
              elim (insert_consumer_inbox-cases
                (receipt organization_id inbox_id consumer_name event_id (digest payload) at) db) [
                  | inl (fresh, valid, q) ↦ let f = rw (p, p2, q) at h in cc f
                  | inr (inr (n, q)) ↦ let f = rw (p, p2, q) at h in cc f
                  | inr (inl (known, valid, q)) ↦
                      elim (compare_receipt-cases organization_id consumer_name event_id
                        (digest payload) db) [
                          | inl (e, r) ↦ let f = rw (p, p2, q, r) at h in cc f
                          | inr r ↦ let f = rw (p, p2, q, r) at h in (p, known, valid, cc f, r)
                        ]
                ]
        ]
      ]

  -- Once a receipt is recorded as new, every later record for the same consumer and event, with
  -- arguments that pass the checks, changes nothing: with a payload of the same fingerprint it
  -- returns false, and with one of another fingerprint it raises the mismatch.
  pub record_once-idempotent :
      (inbox_id inbox_id2 : ℕ) (payload payload2 : Json) (at at2 : Datetime) (db after : Database)
      → record_once organization_id digest inbox_id consumer_name event_id payload at db
        ≡ (ok true, after)
      → is_utc at2 ≡ true
      → check_inbox (receipt organization_id inbox_id2 consumer_name event_id (digest payload2) at2)
        ≡ true
      → record_once organization_id digest inbox_id2 consumer_name event_id payload2 at2 after ≡ (
        (if digest payload == digest payload2
            then ok false
            else err (consumer_payload_mismatch event_id consumer_name)),
        after,
      )
  unfolding record_once insert_consumer_inbox after_insert compare_receipt select_consumer_payload
      validate_utc
  record_once-idempotent inbox_id inbox_id2 payload payload2 at at2 db after first utc valid =
      let (named, fresh, _, stored) = record_once-new inbox_id payload at db after first in
      let row = receipt organization_id inbox_id consumer_name event_id (digest payload) at in
      let (alone, known) =
        keep-first (is_receipt organization_id (strip consumer_name) event_id) row db.consumer_inbox
          (own_receipt row) fresh in
      elim (Bool-cases (digest payload == digest payload2)) [
        | inl q ↦ rw (stored, named, utc, valid, known, alone, q) refl
        | inr q ↦ rw (stored, named, utc, valid, known, alone, q) refl
      ]

  -- Recording the same payload again, at any later valid time, returns false and changes nothing,
  -- whether the first record was itself new or a replay.
  pub record_once-replay :
      (inbox_id inbox_id2 : ℕ) (payload : Json) (at at2 : Datetime) (db after : Database)
      (is_new : Bool)
      → record_once organization_id digest inbox_id consumer_name event_id payload at db
        ≡ (ok is_new, after)
      → is_utc at2 ≡ true
      → record_once organization_id digest inbox_id2 consumer_name event_id payload at2 after
        ≡ (ok false, after)
  unfolding check_inbox record_once after_insert insert_consumer_inbox validate_utc
  record_once-replay inbox_id inbox_id2 payload at at2 db after true h utc =
      let (_, _, valid, _) = record_once-new inbox_id payload at db after h in
      record_once-idempotent inbox_id inbox_id2 payload payload at at2 db after h utc valid
      ∙ rw ((list_beq_iff (digest payload) (digest payload)).1 refl) refl
  record_once-replay inbox_id inbox_id2 payload at at2 db after false h utc =
      let (named, known, valid, same, compared) = record_once-old inbox_id payload at db after h in
      rw (same, named, utc, valid, known, compared) refl
