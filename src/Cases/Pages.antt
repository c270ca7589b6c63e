-- ===== src/Cases/Pages.antt =====
-- A client that reads the listing of services/api/netops_api/application/cases.py page by page.
use netops_copilot.Prelude.{
  ℕ, zero, suc, ltb, nat_eq, ◌≡◌, refl, ap, ◌∙◌, true, false, none, some, List, [], ◌∷◌, ◌++◌, map,
  arith,
}
use netops_copilot.Prelude.Lists.{length, take}
use netops_copilot.Storage.Tables.{CaseRow}
use netops_copilot.Keyset.Pages.{last, last-append}
use netops_copilot.Cases.Commands.{case_record}
use netops_copilot.Cases.Listing.{to_page}

module _ {ℓ κ} {A : Type ℓ} {B : Type κ} (f : A → B) where
  -- What a page shows of the rows that were fetched, one more than it holds.
  pub take-map-take : (n : ℕ) (xs : List A) → take n (map f (take (suc n) xs)) ≡ map f (take n xs)
  take-map-take zero [] = refl
  take-map-take zero (x ∷ xs) = refl
  take-map-take (suc n) [] = refl
  take-map-take (suc n) (x ∷ xs) = ap (λ l. f x ∷ l) (take-map-take n xs)

  -- One more row was fetched just when there are more rows than the page holds.
  pub is_more : (n : ℕ) (xs : List A) → ltb n (length (map f (take (suc n) xs))) ≡ ltb n (length xs)
  is_more zero [] = refl
  is_more zero (x ∷ xs) = ground arith
  is_more (suc n) [] = refl
  is_more (suc n) (x ∷ xs) = ground (arith, is_more n xs)

  pub map-append_rest : (xs ys : List A) → map f (xs ++ ys) ≡ map f xs ++ map f ys
  map-append_rest [] ys = refl
  map-append_rest (x ∷ xs) ys = ap (λ l. f x ∷ l) (map-append_rest xs ys)

pub take-all {ℓ} : {A : Type ℓ} (n : ℕ) (xs : List A) → ltb n (length xs) ≡ false → take n xs ≡ xs
take-all zero [] h = refl
take-all zero (x ∷ xs) h = absurd (ground (arith, h))
take-all (suc n) [] h = refl
take-all (suc n) (x ∷ xs) h = ap (λ l. x ∷ l) (take-all n xs (ground (arith, h)))

-- The page of the rows that are left, if they fit on it and if they do not.
module _ (n : ℕ) (rest : List CaseRow) where
  pub to_page-final :
      ltb n (length rest) ≡ false
      → to_page n (map case_record (take (suc n) rest))
        ≡ record { items = map case_record rest; next_cursor = none }
  unfolding to_page
  to_page-final h =
      let page = take-map-take case_record n rest ∙ ap (map case_record) (take-all n rest h) in
      rw (is_more case_record n rest, h, page) refl

  pub to_page-more :
      (front : List CaseRow) (end : CaseRow)
      → ltb n (length rest) ≡ true
      → take n rest ≡ front ++ end ∷ []
      → to_page n (map case_record (take (suc n) rest)) ≡ record {
        items = map case_record (take n rest);
        next_cursor = some (record { updated_at = end.updated_at; case_id = end.id });
      }
  unfolding to_page
  to_page-more front end h p =
      let page = take-map-take case_record n rest in
      let ends : last (map case_record (take n rest)) ≡ some (case_record end) =
        ap (λ l. last (map case_record l)) p
        ∙ ap last (map-append_rest case_record front (end ∷ []))
        ∙ last-append (map case_record front) (case_record end) in
      rw (is_more case_record n rest, h, page) (rw ends refl)
