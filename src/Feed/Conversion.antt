-- ===== src/Feed/Conversion.antt =====
-- Conversion of the rows of a page by `_feed_event`.
use netops_copilot.Prelude.{
  ℕ, nat_eq, ◌≡◌, refl, sym, ◌∙◌, inl, inr, Option, none, some, List, [], ◌∷◌, ◌++◌,
}
use netops_copilot.Errors.{Result, ok, ◌>>=◌, Result-cases, traverse}
use netops_copilot.Storage.Tables.{EventRow}
use netops_copilot.Keyset.Pages.{last, last-append}
use netops_copilot.Feed.Read.{CaseFeedEvent, feed_event}

pub traverse-append {ℓ κ} :
    {A : Type ℓ} {B : Type κ} (f : A → Result B) (xs ys : List A)
    → traverse f (xs ++ ys) ≡ (
        traverse f xs >>= λ (front : List B).
        traverse f ys >>= λ (rest : List B). ok (front ++ rest))
traverse-append f [] ys = elim (Result-cases (traverse f ys)) [
  | inl (b, p) ↦ rw p refl
  | inr (e, p) ↦ rw p refl
]
traverse-append f (x ∷ xs) ys = elim (Result-cases (f x)) [
  | inr (e, p) ↦ rw p refl
  | inl (b, p) ↦ elim (Result-cases (traverse f xs)) [
    | inr (e, q) ↦ rw (p, traverse-append f xs ys, q) refl
    | inl (bs, q) ↦ elim (Result-cases (traverse f ys)) [
      | inr (e, r) ↦ rw (p, traverse-append f xs ys, q, r) refl
      | inl (cs, r) ↦ rw (p, traverse-append f xs ys, q, r) refl
    ]
  ]
]

feed_event-id : (x : EventRow) (v : CaseFeedEvent) → feed_event x ≡ ok v → v.event_id ≡ x.id
unfolding feed_event
feed_event-id x v h = go x.actor_id h
  where
    go : (actor : Option ℕ) → feed_event (record x { actor_id = actor }) ≡ ok v → v.event_id ≡ x.id
    go none h = cc h
    go (some a) h = cc h

-- A converted page ends in the event of its last row.
pub page-end :
    (front : List EventRow) (end : EventRow) (page : List CaseFeedEvent)
    → traverse feed_event (front ++ end ∷ []) ≡ ok page
    → (v : CaseFeedEvent) × (last page ≡ some v) × (v.event_id ≡ end.id)
page-end front end page h =
    let split = sym (traverse-append feed_event front (end ∷ [])) ∙ h in
    elim (Result-cases (traverse feed_event front)) [
      | inr (e, p) ↦ let bad = rw p at split in absurd (cc bad)
      | inl (vs, p) ↦ elim (Result-cases (feed_event end)) [
        | inr (e, q) ↦ let bad = rw (p, q) at split in absurd (cc bad)
        | inl (v, q) ↦
            let good = rw (p, q) at split in
            let same : vs ++ v ∷ [] ≡ page = cc good in
            (v, rw (sym same) (last-append vs v), feed_event-id end v q)
      ]
    ]
