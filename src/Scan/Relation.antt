-- ===== src/Scan/Relation.antt =====
-- How a buffer of src/evm_inventory/scan_buffer.py stands to the tables that its operations,
-- replayed, leave (src/evm_inventory/store.py).
use evm_garbage_collector.Prelude.{
  ℕ, ◌≤◌, ◌<◌, String, ◌≡◌, refl, sym, ap, ◌∙◌, subst, Bool, true, false, Option, none, some, List,
  [], ◌∷◌, ◌++◌, find, any, update_where, if◌then◌else◌, arith, Bool-cases, inl, inr,
}
use evm_garbage_collector.Prelude.Int.{ℤ, eq_ℤ}
use evm_garbage_collector.Scan.Store.{Facts, Asset, is_asset, has_asset_id, fresh_id}
use evm_garbage_collector.Scan.Buffer.{Row, row_is, has_id}

-- a row and the table's row for it, where there is one
abbrev pub Match : (ℤ → ℤ) → Option Row → Option Asset → Type 0
Match tr none none = Unit
Match tr (some r) (some a) = (ℤ.pos a.id ≡ tr r.id) × (a.facts ≡ r.facts)
Match tr _ _ = ⊥

-- the ids of the buffer are `tr` of them in the table
pub record Related (wallet : String) (chain_id : ℕ) (tr : ℤ → ℤ) (next : ℕ) (rows : List Row)
    (assets : List Asset) : Type 0 where
  pub same :
      (a : String) → Match tr (find (row_is a) rows) (find (is_asset wallet chain_id a) assets)
  pub known : (i : ℤ) → any (has_id i) rows ≡ true → any (has_asset_id (tr i)) assets ≡ true
  pub apart :
      (i j : ℤ) → any (has_id i) rows ≡ true → any (has_id j) rows ≡ true → tr i ≡ tr j → i ≡ j
  pub older : (k : ℕ) → any (has_id (ℤ.negsuc k)) rows ≡ true → k < next

pub eq_ℤ→eq : (a b : ℤ) → eq_ℤ a b ≡ true → a ≡ b
eq_ℤ→eq (ℤ.pos a) (ℤ.pos b) h = ap ℤ.pos (ground arith)
eq_ℤ→eq (ℤ.pos a) (ℤ.negsuc b) h = ground arith
eq_ℤ→eq (ℤ.negsuc a) (ℤ.pos b) h = ground arith
eq_ℤ→eq (ℤ.negsuc a) (ℤ.negsuc b) h = ap ℤ.negsuc (ground arith)

pub eq_ℤ_refl : (a : ℤ) → eq_ℤ a a ≡ true
eq_ℤ_refl a = ground arith

module _ {ℓ} {A : Type ℓ} (p : A → Bool) where
  -- an update that does not touch what a search tests updates what it finds
  find_updated :
      (q : A → Bool) (f : A → A)
      → ((x : A) → p (f x) ≡ p x)
      → (xs : List A)
      → find p (update_where q f xs) ≡ (elim (find p xs) as (λ o. Option A) [
        | none ↦ none
        | some x ↦ some (if q x then f x else x)
      ])
  find_updated q f keeps [] = refl
  find_updated q f keeps (x ∷ xs) = ground (arith, keeps x, find_updated q f keeps xs)

  pub any_updated :
      (q : A → Bool) (f : A → A)
      → ((x : A) → p (f x) ≡ p x)
      → (xs : List A) → any p (update_where q f xs) ≡ any p xs
  any_updated q f keeps [] = refl
  any_updated q f keeps (x ∷ xs) = ground (arith, keeps x, any_updated q f keeps xs)

  pub find_appended :
      (xs : List A) (y : A)
      → find p (xs ++ y ∷ []) ≡ (elim (find p xs) as (λ o. Option A) [
        | none ↦ if p y then some y else none
        | some x ↦ some x
      ])
  find_appended [] y = refl
  find_appended (x ∷ xs) y = ground (arith, find_appended xs y)

  -- what is found is there
  pub found_any :
      (q : A → Bool) (xs : List A) (x : A) → find p xs ≡ some x → q x ≡ true → any q xs ≡ true
  found_any q [] x h e = cc
  found_any q (y ∷ xs) x h e = ground (arith, found_any q xs x)

-- no row has the fresh id
pub any-fresh_id :
    (n : ℕ) (rs : List Asset) → fresh_id rs ≤ n → any (has_asset_id (ℤ.pos n)) rs ≡ false
unfolding fresh_id
any-fresh_id n [] h = refl
any-fresh_id n (r ∷ rs) h = ground (arith, any-fresh_id n rs)

module _ {wallet : String} {chain_id : ℕ} {tr : ℤ → ℤ} {next : ℕ} {rows : List Row}
    {assets : List Asset} (v : Related wallet chain_id tr next rows assets) where
  pub found_known :
      (p : Row → Bool) (r : Row) → find p rows ≡ some r → any (has_id r.id) rows ≡ true
  found_known p r e = found_any p (has_id r.id) rows r e (eq_ℤ_refl r.id)

  module _ (i : ℤ) (present : any (has_id i) rows ≡ true) (f : Facts → Facts) (g : Asset → Asset)
      (ids : (x : Asset) → (g x).id ≡ x.id)
      (keys : (a : String) (x : Asset)
        → is_asset wallet chain_id a (g x) ≡ is_asset wallet chain_id a x)
      (facts : (x : Asset) → (g x).facts ≡ f x.facts) where
    in_table :
        (r : Row) (a : Asset)
        → ℤ.pos a.id ≡ tr r.id
        → eq_ℤ r.id i ≡ true
        → eq_ℤ (ℤ.pos a.id) (tr i) ≡ true
    in_table r a e is =
        subst (λ z. eq_ℤ z (tr i) ≡ true) (sym (e ∙ ap tr (eq_ℤ→eq r.id i is))) (eq_ℤ_refl (tr i))

    kept_rows :
        (j : ℤ)
        → any
            (has_id j)
            (update_where (has_id i) (λ (r : Row). record r { facts = f r.facts }) rows)
          ≡ any (has_id j) rows
    kept_rows j =
        any_updated (has_id j) (has_id i) (λ (r : Row). record r { facts = f r.facts }) (λ x. refl)
          rows

    same_test :
        (r : Row) (a : Asset)
        → any (has_id r.id) rows ≡ true
        → ℤ.pos a.id ≡ tr r.id
        → has_asset_id (tr i) a ≡ has_id i r
    same_test r a there e = elim (Bool-cases (eq_ℤ r.id i)) [
      | inl is ↦ in_table r a e is ∙ sym is
      | inr other ↦ elim (Bool-cases (eq_ℤ (ℤ.pos a.id) (tr i))) [
        | inr elsewhere ↦ elsewhere ∙ sym other
        | inl there' ↦
            let alike : r.id ≡ i =
              v.apart r.id i there present (sym e ∙ eq_ℤ→eq (ℤ.pos a.id) (tr i) there') in
            let same_id : eq_ℤ r.id i ≡ true =
              subst (λ j. eq_ℤ r.id j ≡ true) alike (eq_ℤ_refl r.id) in
            cc
      ]
    ]

    Match-if :
        (b : Bool) (r : Row) (a : Asset)
        → Match tr (some r) (some a)
        → Match tr
            (some (if b then record r { facts = f r.facts } else r))
            (some (if b then g a else a))
    Match-if true r a (e, h) = (ap ℤ.pos (ids a) ∙ e, facts a ∙ ap f h)
    Match-if false r a m = m

    Match-updated :
        (o : Option Row) (s : Option Asset)
        → ((r : Row) → o ≡ some r → any (has_id r.id) rows ≡ true)
        → Match tr o s
        → Match tr
            (elim o as (λ x. Option Row) [
              | none ↦ none
              | some r ↦ some (if has_id i r then record r { facts = f r.facts } else r)
            ])
            (elim s as (λ x. Option Asset) [
              | none ↦ none
              | some a ↦ some (if has_asset_id (tr i) a then g a else a)
            ])
    Match-updated none none there m = tt
    Match-updated none (some a) there m = absurd m
    Match-updated (some r) none there m = absurd m
    Match-updated (some r) (some a) there (e, h) =
        rw (same_test r a (there r refl) e) (Match-if (has_id i r) r a (e, h))

    updated-Match :
        (a : String)
        → Match tr
            (find
              (row_is a)
              (update_where (has_id i) (λ (r : Row). record r { facts = f r.facts }) rows))
            (find (is_asset wallet chain_id a) (update_where (has_asset_id (tr i)) g assets))
    updated-Match a =
        rw
          (
            find_updated (row_is a) (has_id i) (λ (r : Row). record r { facts = f r.facts })
                (λ x. refl) rows,
            find_updated (is_asset wallet chain_id a) (has_asset_id (tr i)) g (keys a) assets,
          )
          (Match-updated (find (row_is a) rows) (find (is_asset wallet chain_id a) assets)
            (λ r e. found_known (row_is a) r e) (v.same a))

    pub updated-Related :
        Related wallet chain_id tr next
          (update_where (has_id i) (λ (r : Row). record r { facts = f r.facts }) rows)
          (update_where (has_asset_id (tr i)) g assets)
    updated-Related = record {
      same = λ a. updated-Match a;
      known = λ j h.
          any_updated (has_asset_id (tr j)) (has_asset_id (tr i)) g
            (λ x. ap (λ (n : ℕ). eq_ℤ (ℤ.pos n) (tr j)) (ids x)) assets
          ∙ v.known j (sym (kept_rows j) ∙ h);
      apart = λ j k h h' e. v.apart j k (sym (kept_rows j) ∙ h) (sym (kept_rows k) ∙ h') e;
      older = λ k h. v.older k (sym (kept_rows (ℤ.negsuc k)) ∙ h);
    }
