-- ===== src/Outbox/Rules.antt =====
-- The trigger `netops_guard_outbox_event_mutation` of
-- services/api/alembic/versions/20260715_02_case_spine.py, and that no statement of the repository
-- trips it.
use netops_copilot.Prelude.{
  ℕ, ◌==◌, nat_eq, option_eq, ◌≤◌, inl, inr, Bool-cases, ◌≡◌, ◌∙◌, ap, refl, String, Bool, true,
  Option, none, some, arith, List, [], ◌∷◌,
}
use netops_copilot.Prelude.Text.{Text}
use netops_copilot.Prelude.Json.{Json}
use netops_copilot.Storage.Tables.{OutboxRow}
use netops_copilot.Outbox.Statements.{
  LeaseRequest, is_unpublished, update_where, set_lease, set_published, set_retry,
}

-- The business fields, which the trigger compares one by one.
abbrev pub business : OutboxRow → ℕ × ℕ × ℕ × ℕ × String × ℕ × ℕ × Json × ℕ
business r = (
  r.id, r.organization_id, r.case_id, r.case_event_id, r.event_type, r.aggregate_version,
  r.correlation_id, r.payload, r.created_at,
)

-- What the trigger lets a row become: the attempts never go down, and a published row keeps the
-- time of its publication.
pub record MayBecome (old next : OutboxRow) : Type 0 where
  same_event : business next ≡ business old
  no_fewer_attempts : old.attempt_count ≤ next.attempt_count
  same_publication : (at : ℕ) → old.published_at ≡ some at → next.published_at ≡ some at

-- Row by row.
abbrev pub Rowwise : List OutboxRow → List OutboxRow → Type 0
Rowwise [] [] = Unit
Rowwise (r ∷ rows) (n ∷ next) = MayBecome r n × Rowwise rows next
Rowwise _ _ = ⊥

unchanged : (r : OutboxRow) → MayBecome r r
unchanged r = record {
  same_event = refl;
  no_fewer_attempts = omega arith;
  same_publication = λ at h. h;
}

pub Rowwise-refl : (rows : List OutboxRow) → Rowwise rows rows
Rowwise-refl [] = tt
Rowwise-refl (r ∷ rows) = (unchanged r, Rowwise-refl rows)

pub update_where-Rowwise :
    (test : OutboxRow → Bool) (set : OutboxRow → OutboxRow)
    → ((r : OutboxRow) → test r ≡ true → MayBecome r (set r))
    → (rows : List OutboxRow) → Rowwise rows (update_where test set rows)
unfolding update_where
update_where-Rowwise test set h [] = tt
update_where-Rowwise test set h (r ∷ rows) = (
  elim (Bool-cases (test r)) [ inl p ↦ rw p (h r p) | inr p ↦ rw p (unchanged r) ],
  update_where-Rowwise test set h rows,
)

pub set_lease-MayBecome : (q : LeaseRequest) (r : OutboxRow) → MayBecome r (set_lease q r)
set_lease-MayBecome q r = record {
  same_event = refl;
  no_fewer_attempts = omega arith;
  same_publication = λ at h. h;
}

pub set_published-MayBecome :
    (at : ℕ) (r : OutboxRow) → is_unpublished r ≡ true → MayBecome r (set_published at r)
set_published-MayBecome at r free = record {
  same_event = refl;
  no_fewer_attempts = omega arith;
  same_publication = λ t h. cc (free, ap (λ (o : Option ℕ). o == none) h);
}

pub set_retry-MayBecome : (at : ℕ) (code : Text) (r : OutboxRow) → MayBecome r (set_retry at code r)
set_retry-MayBecome at code r = record {
  same_event = refl;
  no_fewer_attempts = omega arith;
  same_publication = λ at h. h;
}

MayBecome-trans : (a b c : OutboxRow) → MayBecome a b → MayBecome b c → MayBecome a c
MayBecome-trans a b c p q = record {
  same_event = q.same_event ∙ p.same_event;
  no_fewer_attempts = omega (arith, p.no_fewer_attempts, q.no_fewer_attempts);
  same_publication = λ at h. q.same_publication at (p.same_publication at h);
}

pub Rowwise-trans : (a b c : List OutboxRow) → Rowwise a b → Rowwise b c → Rowwise a c
Rowwise-trans [] [] [] p q = tt
Rowwise-trans (x ∷ a) (y ∷ b) (z ∷ c) p q =
    (MayBecome-trans x y z p.0 q.0, Rowwise-trans a b c p.1 q.1)
Rowwise-trans [] (y ∷ b) c p q = absurd p
Rowwise-trans [] [] (z ∷ c) p q = absurd q
Rowwise-trans (x ∷ a) [] c p q = absurd p
Rowwise-trans (x ∷ a) (y ∷ b) [] p q = absurd q
