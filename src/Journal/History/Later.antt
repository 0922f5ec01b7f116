-- ===== src/Journal/History/Later.antt =====
-- The order of tables of steps, by their ids and by the evolution of what they hold
-- (src/evm_inventory/journal.py).
use evm_garbage_collector.Prelude.{
  ℕ, ◌≤◌, ◌<◌, ◌≡◌, Bool, Option, some, List, [], ◌∷◌, ◌++◌, arith, find, update_where, ◌==◌,
  ==_iff, Bool-cases, inl, inr, if◌then◌else◌,
}
use evm_garbage_collector.Journal.Tables.{Step, next_id}
use evm_garbage_collector.Journal.Steps.{StepIntent, new_step}
use evm_garbage_collector.Journal.History.Paths.{Evolves, Evolves-refl, Evolves-trans}

-- ids ascend, from above a bound
abbrev pub Above : ℕ → List Step → Type 0
Above b [] = Unit
Above b (s ∷ xs) = (b < s.id) × Above s.id xs

abbrev pub lookup : ℕ → List Step → Option Step
lookup i = find (λ (s : Step). s.id == i)

-- A row that some search finds is the row of its id.
pub lookup_found :
    (p : Step → Bool) (b : ℕ) (xs : List Step) (y : Step)
    → Above b xs
    → find p xs ≡ some y
    → (b < y.id) × (lookup y.id xs ≡ some y)
lookup_found p b [] y h e = cc
lookup_found p b (x ∷ xs) y h e = ground (arith, lookup_found p x.id xs y h.1)

Above-update :
    (q : Step → Bool) (f : Step → Step)
    → ((s : Step) → (f s).id ≡ s.id)
    → (b : ℕ) (xs : List Step) → Above b xs
    → Above b (update_where q f xs)
Above-update q f keeps b [] h = tt
Above-update q f keeps b (x ∷ xs) h = elim (Bool-cases (q x)) [
  | inl hit ↦ rw (hit, keeps x) (h.0, Above-update q f keeps x.id xs h.1)
  | inr miss ↦ rw miss (h.0, Above-update q f keeps x.id xs h.1)
]

Above-append :
    (b : ℕ) (xs : List Step) (y : Step)
    → Above b xs
    → b < y.id
    → next_id (λ (s : Step). s.id) xs ≤ y.id
    → Above b (xs ++ y ∷ [])
unfolding next_id
Above-append b [] y h low high = (low, tt)
Above-append b (x ∷ xs) y h low high = (h.0, Above-append x.id xs y h.1 (omega arith) (omega arith))

pub lookup-update :
    (i j : ℕ) (f : Step → Step)
    → ((s : Step) → (f s).id ≡ s.id)
    → (xs : List Step) (row : Step) → lookup i xs ≡ some row
    → lookup i (update_where (λ (s : Step). s.id == j) f xs) ≡ some (if i == j then f row else row)
lookup-update i j f keeps [] row h = cc
lookup-update i j f keeps (x ∷ xs) row h = ground (arith, keeps x, lookup-update i j f keeps xs row)

lookup-append :
    (i : ℕ) (xs ys : List Step) (row : Step)
    → lookup i xs ≡ some row
    → lookup i (xs ++ ys) ≡ some row
lookup-append i [] ys row h = cc
lookup-append i (x ∷ xs) ys row h = ground (arith, lookup-append i xs ys row)

pub record Later (xs ys : List Step) : Type 0 where
  pub ordered : Above 0 ys
  pub kept :
      (i : ℕ) (x : Step) → lookup i xs ≡ some x → (y : Step) × (lookup i ys ≡ some y) × Evolves x y

pub Later-refl : (xs : List Step) → Above 0 xs → Later xs xs
Later-refl xs h = record { ordered = h; kept = λ i x e. (x, e, Evolves-refl x) }

pub Later-trans : (xs ys zs : List Step) → Later xs ys → Later ys zs → Later xs zs
Later-trans xs ys zs p q = record {
  ordered = q.ordered;
  kept = λ i x e.
      let (y, ey, xy) = p.kept i x e in
      let (z, ez, yz) = q.kept i y ey in (z, ez, Evolves-trans x y z xy yz);
}

pub Later-update :
    (j : ℕ) (f : Step → Step) (xs : List Step)
    → Above 0 xs
    → ((s : Step) → (f s).id ≡ s.id)
    → ((row : Step) → lookup j xs ≡ some row → Evolves row (f row))
    → Later xs (update_where (λ (s : Step). s.id == j) f xs)
Later-update j f xs h keeps evolves = record {
  ordered = Above-update (λ (s : Step). s.id == j) f keeps 0 xs h;
  kept = λ i x e. (if i == j then f x else x, lookup-update i j f keeps xs x e, evolved i x e);
}
  where
    evolved : (i : ℕ) (x : Step) → lookup i xs ≡ some x → Evolves x (if i == j then f x else x)
    evolved i x e = elim (Bool-cases (i == j)) [
      | inl hit ↦ rw hit (evolves x (rw (← (==_iff i j).0 hit) e))
      | inr miss ↦ rw miss (Evolves-refl x)
    ]

next_id-pos : (xs : List Step) → 0 < next_id (λ (s : Step). s.id) xs
unfolding next_id
next_id-pos [] = omega arith
next_id-pos (x ∷ xs) = omega arith

pub Later-append :
    (xs : List Step) (k : StepIntent)
    → Above 0 xs
    → Later xs (xs ++ new_step (next_id (λ (s : Step). s.id) xs) k ∷ [])
unfolding new_step
Later-append xs k h = record {
  ordered = Above-append 0 xs _ h (next_id-pos xs) (omega arith);
  kept = λ i x e. (x, lookup-append i xs _ x e, Evolves-refl x);
}
