-- ===== src/Feed/Isolation.antt =====
-- What `TenantCaseEventFeed.read_after` may depend on.
use netops_copilot.Prelude.{
  ℕ, ◌==◌, nat_eq, &&-true, ◌≡◌, refl, sym, ap, ◌∙◌, inl, inr, Bool, true, Bool-cases, ◌&&◌, Option,
  none, some, List, [], ◌∷◌, arith,
}
use mathlib.Core.Path.{fun_ext}
use netops_copilot.Prelude.Int.{ℤ, natural}
use netops_copilot.Prelude.Lists.{any, keep, take}
use netops_copilot.Errors.{ok}
use netops_copilot.Storage.Tables.{CaseRow, EventRow, Database}
use netops_copilot.Keyset.Order.{Key, precedes}
use netops_copilot.Keyset.Members.{keep-keep}
use netops_copilot.Keyset.Sort.{sort}
use netops_copilot.Feed.Statements.{
  is_visible_case, is_visible, event_key, feed_order, select_initial_page, select_visible_cursor,
  select_page_after_cursor,
}
use netops_copilot.Feed.Read.{select_rows, read_after}

-- The part of the tables that an organization with these assets may see.
unfoldable pub visible_part : ℕ → List ℕ → Database → Database
visible_part org asset_ids db = record db {
  cases = keep (is_visible_case org asset_ids) db.cases;
  case_events = keep (is_visible org asset_ids db.cases) db.case_events;
}

-- A row that every test in question refuses makes no difference to `any`.
any-keep {ℓ} :
    {A : Type ℓ} (p q : A → Bool)
    → ((x : A) → q x ≡ true → p x ≡ true)
    → (xs : List A) → any q (keep p xs) ≡ any q xs
any-keep p q weaker [] = refl
any-keep p q weaker (x ∷ xs) = elim (Bool-cases (p x)) [
  | inl t ↦
      rw t (elim (Bool-cases (q x)) [ inl s ↦ rw s refl | inr n ↦ rw n (any-keep p q weaker xs) ])
  | inr f ↦ elim (Bool-cases (q x)) [
    | inl s ↦ absurd (let e = sym (weaker x s) ∙ f in cc e)
    | inr n ↦ rw f (rw n (any-keep p q weaker xs))
  ]
]

module _ (org : ℕ) (asset_ids : List ℕ) (db : Database) where
  same_visible :
      (e : EventRow)
      → is_visible org asset_ids (keep (is_visible_case org asset_ids) db.cases) e
        ≡ is_visible org asset_ids db.cases e
  unfolding is_visible
  same_visible e =
      ap (λ b. e.organization_id == org && b)
        (any-keep (is_visible_case org asset_ids)
          (λ (c : CaseRow).
            c.organization_id == e.organization_id
            && c.id == e.case_id
            && is_visible_case org asset_ids c)
          (λ c h. ground (arith, h)) db.cases)

  same_visibility :
      is_visible org asset_ids (keep (is_visible_case org asset_ids) db.cases)
      ≡ is_visible org asset_ids db.cases
  same_visibility = fun_ext same_visible

  same_cursor :
      (id : ℕ)
      → select_visible_cursor org asset_ids id (visible_part org asset_ids db)
        ≡ select_visible_cursor org asset_ids id db
  unfolding select_visible_cursor visible_part
  same_cursor id = rw same_visibility (
      keep-keep (is_visible org asset_ids db.cases)
        (λ (e : EventRow). e.id == id && is_visible org asset_ids db.cases e)
        (λ e h. (&&-true (e.id == id) (is_visible org asset_ids db.cases e) h).1) db.case_events)

  same_page :
      (after : Key) (limit : ℕ)
      → select_page_after_cursor org asset_ids after limit (visible_part org asset_ids db)
        ≡ select_page_after_cursor org asset_ids after limit db
  unfolding select_page_after_cursor visible_part
  same_page after limit = rw same_visibility (
      ap (λ l. take limit (sort feed_order l))
        (keep-keep (is_visible org asset_ids db.cases)
          (λ (e : EventRow). is_visible org asset_ids db.cases e && precedes after (event_key e))
          (λ e h.
            (&&-true (is_visible org asset_ids db.cases e) (precedes after (event_key e)) h).0)
          db.case_events))

  same_rows :
      (after : Option ℕ) (limit : ℕ)
      → select_rows org after asset_ids limit (visible_part org asset_ids db)
        ≡ select_rows org after asset_ids limit db
  unfolding select_rows select_initial_page visible_part
  same_rows none limit = rw same_visibility (
      ap (λ l. ok (take limit (sort feed_order l)))
        (keep-keep (is_visible org asset_ids db.cases) (is_visible org asset_ids db.cases)
          (λ e h. h) db.case_events))
  same_rows (some id) limit = simp (same_cursor, same_page) refl

  -- `read_after` returns, or raises, the same for the part of the tables that the organization may
  -- see with its assets as for the whole: what is not visible, a cursor included, changes nothing.
  pub read_after-visible :
      (after : Option ℕ) (limit : ℤ)
      → read_after org after asset_ids limit (visible_part org asset_ids db)
        ≡ read_after org after asset_ids limit db
  unfolding read_after
  read_after-visible after limit = rw (same_rows after (natural limit)) refl
