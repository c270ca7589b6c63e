-- ===== src/Ledger/Guarded.antt =====
-- The order of the states within an attempt of
-- services/api/alembic/versions/20260716_05_artifact_processing_ledger.py, as an invariant.
use netops_copilot.Prelude.{
  suc, ◌==◌, nat_eq, nat_beq_iff, option_eq, &&-true, ◌≡◌, sym, subst, ◌⊎◌, inl, inr, true, false,
  Bool-cases, Option-cases, not, some, List, ◌∷◌, arith, dec_beq_iff,
}
use netops_copilot.Errors.{raised_by_trigger, ok, raise_if, >>=-eq-ok}
use netops_copilot.Keyset.Members.{Member, Member-keep}
use netops_copilot.Ledger.Tables.{
  ProcessingState, quarantined, verified, redacted, failed, ProcessingState-discrete,
  processing_state_eq, ProcessingRow, Ledger,
}
use netops_copilot.Ledger.Trigger.{
  is_of, highest_attempt, prior_row, may_follow, check_attempt, validate_event,
  insert_processing_event,
}
use netops_copilot.Ledger.Branches.{
  own, insert_processing_event-cases, highest-Member, prior-Member,
}

-- A row of the same attempt in another state.
abbrev pub Has : List ProcessingRow → ProcessingRow → ProcessingState → Type 0
Has rows r s =
    (q : ProcessingRow) × Member q rows
    × (q.organization_id ≡ r.organization_id)
    × (q.artifact_id ≡ r.artifact_id)
    × (q.attempt ≡ r.attempt)
    × (q.state ≡ s)

-- A row of the attempt before.
abbrev pub HasPrevious : List ProcessingRow → ProcessingRow → Type 0
HasPrevious rows r =
    (q : ProcessingRow) × Member q rows
    × (q.organization_id ≡ r.organization_id)
    × (q.artifact_id ≡ r.artifact_id)
    × (r.attempt ≡ suc q.attempt)

-- What a row in a state must find in the ledger.
abbrev pub Needs : List ProcessingRow → ProcessingRow → ProcessingState → Type 0
Needs rows r quarantined = (r.attempt ≡ 1) ⊎ HasPrevious rows r
Needs rows r verified = Has rows r quarantined
Needs rows r redacted = Has rows r verified
Needs rows r failed = Has rows r quarantined ⊎ Has rows r verified

abbrev pub IsGuarded : Ledger → Type 0
IsGuarded l = (r : ProcessingRow) → Member r l.events → Needs l.events r r.state

-- Which row the trigger found before a row that it lets through.
Follows : ProcessingState → ProcessingState → Type 0
Follows prior quarantined = ⊥
Follows prior verified = prior ≡ quarantined
Follows prior redacted = prior ≡ verified
Follows prior failed = (prior ≡ quarantined) ⊎ (prior ≡ verified)

follows :
    (p : ProcessingRow) (s : ProcessingState) → may_follow (some p) s ≡ true → Follows p.state s
unfolding may_follow Follows ProcessingState-discrete
follows p quarantined h = cc h
follows p verified h =
    (dec_beq_iff ProcessingState-discrete p.state quarantined).0 (ground (arith, h))
follows p redacted h = (dec_beq_iff ProcessingState-discrete p.state verified).0 (ground (arith, h))
follows p failed h = ground (
  arith,
  h,
  dec_beq_iff ProcessingState-discrete p.state quarantined,
  dec_beq_iff ProcessingState-discrete p.state verified,
)

module _ (new : ProcessingRow) (l : Ledger) where
  Member-own :
      (q : ProcessingRow)
      → Member q (own new l)
      → Member q l.events
        × (q.organization_id ≡ new.organization_id)
        × (q.artifact_id ≡ new.artifact_id)
  Member-own q m =
      let k = (Member-keep (is_of new.organization_id new.artifact_id) q l.events).0 m in
      let both =
        &&-true (q.organization_id == new.organization_id) (q.artifact_id == new.artifact_id) k.1 in
      (
        k.0,
        (nat_beq_iff q.organization_id new.organization_id).0 both.0,
        (nat_beq_iff q.artifact_id new.artifact_id).0 both.1,
      )

  Needs-attempt :
      check_attempt (highest_attempt (own new l)) new.attempt ≡ ok tt
      → Needs l.events new quarantined
  Needs-attempt h = elim (Option-cases (highest_attempt (own new l))) [
    | inl p ↦ let e = rw p at h in inl (ground (arith, e))
    | inr (n, p) ↦
        let e = rw p at h in
        let (q, m, same) = highest-Member (own new l) n p in
        let (k, a, b) = Member-own q m in
        inr
          (q, k, a, b, (let c : new.attempt ≡ suc n = ground (arith, e) in omega (arith, c, same)))
  ]

  Needs-prior :
      (s : ProcessingState)
      → may_follow (prior_row new.attempt (own new l)) s ≡ true
      → Needs l.events new s
  unfolding may_follow Follows
  Needs-prior s h = elim (Option-cases (prior_row new.attempt (own new l))) [
    | inl p ↦ let e = rw p at h in absurd (let f : false ≡ true = e in cc f)
    | inr (q, p) ↦
        let e : may_follow (some q) s ≡ true = rw p at h in
        let (m, at_attempt) = prior-Member new.attempt (own new l) q p in
        let (k, a, b) = Member-own q m in found s q k a b at_attempt (follows q s e)
  ]
    where
      found :
          (s : ProcessingState) (q : ProcessingRow)
          → Member q l.events
          → q.organization_id ≡ new.organization_id
          → q.artifact_id ≡ new.artifact_id
          → q.attempt ≡ new.attempt
          → Follows q.state s
          → Needs l.events new s
      found quarantined q k a b c f = absurd f
      found verified q k a b c f = (q, k, a, b, c, f)
      found redacted q k a b c f = (q, k, a, b, c, f)
      found failed q k a b c (inl f) = inl (q, k, a, b, c, f)
      found failed q k a b c (inr f) = inr (q, k, a, b, c, f)

  Needs-new : validate_event (own new l) new ≡ ok tt → Needs l.events new new.state
  unfolding validate_event
  Needs-new h = elim (Bool-cases (new.state == quarantined)) [
    | inl t ↦
        let is : new.state ≡ quarantined =
          (dec_beq_iff ProcessingState-discrete new.state quarantined).0 t in
        let e = rw t at h in subst (Needs l.events new) (sym is) (Needs-attempt e)
    | inr f ↦
        let e = rw f at h in
        elim (Bool-cases (may_follow (prior_row new.attempt (own new l)) new.state)) [
          | inl g ↦ Needs-prior new.state g
          | inr g ↦ absurd (
              let (u, first_ok, second_ok) =
                >>=-eq-ok
                  (raise_if (not (highest_attempt (own new l) == some new.attempt)) (
                    raised_by_trigger
                      "artifact processing state requires an active quarantined attempt"))
                  (λ _.
                    raise_if (not (may_follow (prior_row new.attempt (own new l)) new.state))
                      (raised_by_trigger "invalid artifact processing transition"))
                  e in
              let bad = rw g at second_ok in cc bad)
        ]
  ]

-- A row needs no more of a ledger that has grown.
Needs-grown :
    (rows : List ProcessingRow) (new r : ProcessingRow) (s : ProcessingState)
    → Needs rows r s
    → Needs (new ∷ rows) r s
Needs-grown rows new r quarantined (inl e) = inl e
Needs-grown rows new r quarantined (inr (q, m, a, b, c)) = inr (q, inr m, a, b, c)
Needs-grown rows new r verified (q, m, a, b, c, d) = (q, inr m, a, b, c, d)
Needs-grown rows new r redacted (q, m, a, b, c, d) = (q, inr m, a, b, c, d)
Needs-grown rows new r failed (inl (q, m, a, b, c, d)) = inl (q, inr m, a, b, c, d)
Needs-grown rows new r failed (inr (q, m, a, b, c, d)) = inr (q, inr m, a, b, c, d)

-- Whatever row is offered, and whether it is inserted or refused, afterwards each attempt of an
-- artifact but the first still has a row of the attempt before, a verified row has a quarantined
-- row of its attempt, a redacted row has a verified one, and a failed row one of the two, if this
-- held of every row before.
pub insert_processing_event-IsGuarded :
    (new : ProcessingRow) (l : Ledger) → IsGuarded l → IsGuarded (insert_processing_event new l).1
insert_processing_event-IsGuarded new l h = elim (insert_processing_event-cases new l) [
  | inr (e, p) ↦ rw p h
  | inl (valid, p) ↦ rw p (λ r m. elim m [
    | inl same ↦
        subst (λ x. Needs (new ∷ l.events) x x.state) (sym same)
          (Needs-grown l.events new new new.state (Needs-new new l valid))
    | inr old ↦ Needs-grown l.events new r r.state (h r old)
  ])
]
