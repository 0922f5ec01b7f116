-- ===== src/Scan/Appended.antt =====
-- A new asset in a buffer of src/evm_inventory/scan_buffer.py and in the table of
-- src/evm_inventory/store.py.
use evm_garbage_collector.Prelude.{
  any_appended, ℕ, suc, ◌<◌, String, ◌≡◌, refl, sym, ap, ◌∙◌, subst, Bool, true, false, ◌||◌,
  Option, none, some, List, [], ◌∷◌, ◌++◌, find, any, if◌then◌else◌, arith, Bool-cases, inl, inr,
  ◌⊎◌, ◌≢◌,
}
use evm_garbage_collector.Prelude.Int.{ℤ, eq_ℤ}
use evm_garbage_collector.Scan.Store.{Asset, is_asset, has_asset_id, fresh_id}
use evm_garbage_collector.Scan.Buffer.{Row, row_is, has_id}
use evm_garbage_collector.Scan.Relation.{
  Match, Related, eq_ℤ→eq, eq_ℤ_refl, find_appended, any-fresh_id, found_known,
}

-- the ids, with one more
abbrev pub with_new : ℤ → ℕ → (ℤ → ℤ) → ℤ → ℤ
with_new i n tr j = if eq_ℤ j i then ℤ.pos n else tr j

or_right : (b c : Bool) → b ≡ false → (b || c) ≡ true → c ≡ true
or_right b c h e = ground arith

or_true : (b c : Bool) → (b ≡ true) ⊎ (c ≡ true) → (b || c) ≡ true
or_true b c (inl h) = ground arith
or_true b c (inr h) = ground arith

module _ {wallet : String} {chain_id : ℕ} {tr : ℤ → ℤ} {next : ℕ} {rows : List Row}
    {assets : List Asset} (v : Related wallet chain_id tr next rows assets) (r : Row) (a : Asset)
    (row_id : r.id ≡ ℤ.negsuc next) (asset_id : a.id ≡ fresh_id assets) (facts : a.facts ≡ r.facts)
    (keys : (x : String) → is_asset wallet chain_id x a ≡ row_is x r) where
  new_tr : ℤ → ℤ
  new_tr = with_new (ℤ.negsuc next) (fresh_id assets) tr

  pub unseen : (i : ℤ) → any (has_id i) rows ≡ true → eq_ℤ i (ℤ.negsuc next) ≡ false
  unseen i h = elim (Bool-cases (eq_ℤ i (ℤ.negsuc next))) [
    | inr other ↦ other
    | inl is ↦
        let late : next < next =
          v.older next (subst (λ j. any (has_id j) rows ≡ true) (eq_ℤ→eq i (ℤ.negsuc next) is) h) in
        let none_later : ⊥ = omega arith in absurd none_later
  ]

  -- an id of the buffer is the new one or an old one
  pub new_or_old :
      (i : ℤ)
      → any (has_id i) (rows ++ r ∷ []) ≡ true
      → (any (has_id i) rows ≡ true) ⊎ (i ≡ ℤ.negsuc next)
  new_or_old i h = elim (Bool-cases (any (has_id i) rows)) [
    | inl old ↦ inl old
    | inr other ↦
        let is =
          or_right (any (has_id i) rows) (has_id i r) other
            (sym (any_appended (has_id i) rows r) ∙ h) in
        inr (sym (eq_ℤ→eq r.id i is) ∙ row_id)
  ]

  old-new_tr : (i : ℤ) → any (has_id i) rows ≡ true → new_tr i ≡ tr i
  unfolding new_tr
  old-new_tr i h = rw (unseen i h) refl

  new-new_tr : new_tr (ℤ.negsuc next) ≡ ℤ.pos (fresh_id assets)
  unfolding new_tr
  new-new_tr = rw (eq_ℤ_refl (ℤ.negsuc next)) refl

  new_id : (i : ℤ) → i ≡ ℤ.negsuc next → ℤ.pos a.id ≡ new_tr i
  new_id i new = ap ℤ.pos asset_id ∙ sym (ap new_tr new ∙ new-new_tr)

  Match-new : (b : Bool) → Match new_tr (if b then some r else none) (if b then some a else none)
  Match-new true = (new_id r.id row_id, facts)
  Match-new false = tt

  Match-old :
      (o : Option Row) (s : Option Asset) (x : String)
      → ((r' : Row) → o ≡ some r' → any (has_id r'.id) rows ≡ true)
      → Match tr o s
      → Match new_tr
          (elim o as (λ y. Option Row) [
            | none ↦ if row_is x r then some r else none
            | some r' ↦ some r'
          ])
          (elim s as (λ y. Option Asset) [
            | none ↦ if is_asset wallet chain_id x a then some a else none
            | some a' ↦ some a'
          ])
  Match-old none none x there m = rw (keys x) (Match-new (row_is x r))
  Match-old none (some a') x there m = absurd m
  Match-old (some r') none x there m = absurd m
  Match-old (some r') (some a') x there (e, h) = (e ∙ sym (old-new_tr r'.id (there r' refl)), h)

  known_new :
      (i : ℤ)
      → (any (has_id i) rows ≡ true) ⊎ (i ≡ ℤ.negsuc next)
      → any (has_asset_id (new_tr i)) (assets ++ a ∷ []) ≡ true
  known_new i (inl old) =
      any_appended (has_asset_id (new_tr i)) assets a
      ∙ or_true (any (has_asset_id (new_tr i)) assets) (has_asset_id (new_tr i) a) (
          inl (
            subst (λ z. any (has_asset_id z) assets ≡ true) (sym (old-new_tr i old))
              (v.known i old)))
  known_new i (inr new) =
      any_appended (has_asset_id (new_tr i)) assets a
      ∙ or_true (any (has_asset_id (new_tr i)) assets) (has_asset_id (new_tr i) a)
          (inr (subst (λ z. eq_ℤ (ℤ.pos a.id) z ≡ true) (new_id i new) (eq_ℤ_refl (ℤ.pos a.id))))

  -- no id of the table is the new one
  unlike : (i : ℤ) → any (has_id i) rows ≡ true → tr i ≢ ℤ.pos (fresh_id assets)
  unlike i h e =
      let there : any (has_asset_id (ℤ.pos (fresh_id assets))) assets ≡ true =
        subst (λ z. any (has_asset_id z) assets ≡ true) e (v.known i h) in
      let gone = any-fresh_id (fresh_id assets) assets omega arith in cc

  apart_new :
      (i j : ℤ)
      → (any (has_id i) rows ≡ true) ⊎ (i ≡ ℤ.negsuc next)
      → (any (has_id j) rows ≡ true) ⊎ (j ≡ ℤ.negsuc next)
      → new_tr i ≡ new_tr j
      → i ≡ j
  apart_new i j (inl p) (inl q) e = v.apart i j p q (sym (old-new_tr i p) ∙ e ∙ old-new_tr j q)
  apart_new i j (inl p) (inr q) e =
      absurd (unlike i p (sym (old-new_tr i p) ∙ e ∙ ap new_tr q ∙ new-new_tr))
  apart_new i j (inr p) (inl q) e =
      absurd (unlike j q (sym (old-new_tr j q) ∙ sym e ∙ ap new_tr p ∙ new-new_tr))
  apart_new i j (inr p) (inr q) e = p ∙ sym q

  older_new :
      (k : ℕ)
      → (any (has_id (ℤ.negsuc k)) rows ≡ true) ⊎ (ℤ.negsuc k ≡ ℤ.negsuc next)
      → k < suc next
  older_new k (inl h) = let old = v.older k h in omega arith
  older_new k (inr e) = ground arith

  pub appended-Related :
      Related wallet chain_id
        (with_new (ℤ.negsuc next) (fresh_id assets) tr)
        (suc next)
        (rows ++ r ∷ [])
        (assets ++ a ∷ [])
  unfolding new_tr
  appended-Related = record {
    same = λ x.
        rw (find_appended (row_is x) rows r, find_appended (is_asset wallet chain_id x) assets a)
          (Match-old (find (row_is x) rows) (find (is_asset wallet chain_id x) assets) x
            (λ r' e. found_known v (row_is x) r' e) (v.same x));
    known = λ i h. known_new i (new_or_old i h);
    apart = λ i j h h' e. apart_new i j (new_or_old i h) (new_or_old j h') e;
    older = λ k h. older_new k (new_or_old (ℤ.negsuc k) h);
  }
