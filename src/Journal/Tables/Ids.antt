-- ===== src/Journal/Tables/Ids.antt =====
-- Ids: a fresh one is in no row, and a search by it finds the row that is inserted with it.
use evm_garbage_collector.Prelude.{
  ℕ, ◌≤◌, ◌≡◌, Bool, true, none, some, List, [], ◌∷◌, arith, find, is_some, ◌==◌, refl,
}
use evm_garbage_collector.Journal.Tables.{next_id}

module _ {A : Type 0} (id_of : A → ℕ) where
  -- an id at or above the next one is in no row
  pub find_above : (i : ℕ) (xs : List A) → next_id id_of xs ≤ i → find (λ x. id_of x == i) xs ≡ none
  unfolding next_id
  find_above i [] h = refl
  find_above i (x ∷ xs) h = ground (arith, find_above i xs)

  pub find_fresh : (xs : List A) → find (λ x. id_of x == next_id id_of xs) xs ≡ none
  find_fresh xs = find_above (next_id id_of xs) xs (omega arith)

  -- a row that some search finds is there under its id
  pub find_by_id :
      (p : A → Bool) (xs : List A) (y : A)
      → find p xs ≡ some y
      → is_some (find (λ x. id_of x == id_of y) xs) ≡ true
  find_by_id p [] y h = cc
  find_by_id p (x ∷ xs) y h = ground (arith, find_by_id p xs y)
