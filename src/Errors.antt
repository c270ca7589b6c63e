-- ===== src/Errors.antt =====
-- The exceptions of the services as values, and the two ways in which code raises them: a
-- function that may raise, and a method that may raise after it has written to its state.
use netops_copilot.Prelude.{
  ℕ, String, ◌≡◌, refl, ◌⊎◌, inl, inr, Bool, true, false, Option, none, some, List, [], ◌∷◌,
}
use netops_copilot.Prelude.Text.{Text}
use netops_copilot.Prelude.Int.{ℤ}
use netops_copilot.Domain.States.{CaseState}

-- One constructor for each exception class, with the identities and versions that the class keeps.
pub data Exception : Type 0 where
  value_error : String → Exception
  runtime_error : String → Exception
  case_identity_mismatch : (snapshot_case_id command_case_id : ℕ) → Exception
  version_conflict : (case_id : ℕ) (expected_version : ℤ) (actual_version : ℕ) → Exception
  invalid_transition : (from_state to_state : CaseState) → Exception
  transition_authorization : (message : String) → Exception
  transition_constraint : (message : String) → Exception
  case_not_found : (case_id : ℕ) → Exception
  idempotency_conflict : (existing_case_id requested_case_id : ℕ) → Exception
  integrity_error : (constraint : String) → Exception
  overflow_error : Exception
  outbox_lease_lost : (outbox_id : ℕ) → Exception
  consumer_payload_mismatch : (event_id : ℕ) (consumer_name : Text) → Exception
  event_cursor_not_found : (event_id : ℕ) → Exception
  -- `RAISE EXCEPTION` of a trigger
  raised_by_trigger : (message : String) → Exception
  processing_state_conflict : (artifact_id : ℕ) → Exception
  authorization_error : (code : String) → Exception
  api_error : (status_code : ℕ) (code : String) → Exception

pub data Result {ℓ} (T : Type ℓ) : Type ℓ where
  ok : T → Result T
  err : Exception → Result T

-- Goes on with the value, or passes the exception on.
infixl 5 ◌>>=◌ ◌>>◌
abbrev pub ◌>>=◌ {ℓ κ} : {T : Type ℓ} {U : Type κ} → Result T → (T → Result U) → Result U
err raised >>= next = err raised
ok value >>= next = next value

abbrev pub ◌>>◌ {κ} : {U : Type κ} → Result (Unit {0}) → Result U → Result U
first >> second = first >>= λ _. second

-- `if test: raise e`
abbrev pub raise_if : Bool → Exception → Result (Unit {0})
raise_if true e = err e
raise_if false e = ok tt

-- `if value is None: raise e`
abbrev pub or_raise {ℓ} : {A : Type ℓ} → Option A → Exception → Result A
or_raise none e = err e
or_raise (some a) e = ok a

-- `tuple(f(row) for row in rows)`
abbrev pub traverse {ℓ κ} : {A : Type ℓ} {B : Type κ} → (A → Result B) → List A → Result (List B)
traverse f [] = ok []
traverse f (x ∷ xs) = f x >>= λ y. traverse f xs >>= λ ys. ok (y ∷ ys)

pub >>=-eq-ok {ℓ κ} :
    {T : Type ℓ} {U : Type κ} (first : Result T) (next : T → Result U) {u : U}
    → (first >>= next) ≡ ok u
    → (t : T) × (first ≡ ok t) × (next t ≡ ok u)
>>=-eq-ok (err raised) next h = cc
>>=-eq-ok (ok value) next h = (value, refl, h)

pub Result-cases {ℓ} :
    {A : Type ℓ} (m : Result A) → ((a : A) × (m ≡ ok a)) ⊎ ((e : Exception) × (m ≡ err e))
Result-cases (ok a) = inl (a, refl)
Result-cases (err e) = inr (e, refl)
