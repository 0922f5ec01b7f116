-- ===== src/Prelude/Lists.antt =====
-- Lists measured by native numbers, and searches that run.
use Prim.Native.Nat.{ℕ, suc}
use mathlib.Core.Bool.{Bool, true, false, ◌&&◌, ◌||◌}
use mathlib.Core.List.{List, [], ◌∷◌, ◌++◌}
use mathlib.Core.Path.{◌≡◌, refl}
use native.Mathlib.Omega.{arith}
use mathlib.Core.Option.{Option, none, some}
use evm_garbage_collector.Prelude.Tests.{is_some, if◌then◌else◌}

module _ {ℓ} {A : Type ℓ} where
  abbrev pub length : List A → ℕ
  length [] = 0
  length (x ∷ xs) = suc (length xs)

  -- next((x for x in l if p(x)), None)
  abbrev pub find : (A → Bool) → List A → Option A
  find p [] = none
  find p (x ∷ xs) = if p x then some x else find p xs

  abbrev pub find_last : (A → Bool) → List A → Option A
  find_last p [] = none
  find_last p (x ∷ xs) = elim (find_last p xs) [
    | some y ↦ some y
    | none ↦ if p x then some x else none
  ]

  abbrev pub any : (A → Bool) → List A → Bool
  any p [] = false
  any p (x ∷ xs) = p x || any p xs

  abbrev pub all : (A → Bool) → List A → Bool
  all p [] = true
  all p (x ∷ xs) = p x && all p xs

  abbrev pub select : (A → Bool) → List A → List A
  select p [] = []
  select p (x ∷ xs) = if p x then x ∷ select p xs else select p xs

  -- UPDATE … SET f WHERE p
  abbrev pub update_where : (A → Bool) → (A → A) → List A → List A
  update_where p f [] = []
  update_where p f (x ∷ xs) = (if p x then f x else x) ∷ update_where p f xs

module _ {ℓ} {A : Type ℓ} (p : A → Bool) where
  -- what is appended to a list that has no such row is the row that a search finds
  pub find-append_new :
      (xs : List A) (y : A) → find p xs ≡ none → p y ≡ true → find p (xs ++ y ∷ []) ≡ some y
  find-append_new [] y h e = rw e
  find-append_new (x ∷ xs) y h e = ground (arith, find-append_new xs y)

  -- what a search finds passes the test
  pub find_holds : (xs : List A) (y : A) → find p xs ≡ some y → p y ≡ true
  find_holds [] y h = cc
  find_holds (x ∷ xs) y h = ground (arith, find_holds xs y)

module _ {ℓ} {A : Type ℓ} (p q : A → Bool) (f : A → A) (keeps : (x : A) → p (f x) ≡ p x) where
  -- an update that does not touch what a search tests leaves what it finds, updated or not
  pub find-update_where :
      (xs : List A) → is_some (find p (update_where q f xs)) ≡ is_some (find p xs)
  find-update_where [] = refl
  find-update_where (x ∷ xs) = ground (arith, keeps x, find-update_where xs)

module _ {ℓ} {A : Type ℓ} (p : A → Bool) where
  -- a search for any row of a list and one more
  pub any_appended : (xs : List A) (y : A) → any p (xs ++ y ∷ []) ≡ (any p xs || p y)
  any_appended [] y = ground arith
  any_appended (x ∷ xs) y = ground (arith, any_appended xs y)
