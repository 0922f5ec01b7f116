-- ===== src/Scan/Framed.antt =====
-- The rows of the other wallets and networks (src/evm_inventory/store.py) while the operations of a
-- buffer are replayed (src/evm_inventory/scan_buffer.py).
pub mod Inserts
use evm_garbage_collector.Prelude.{
  ℕ, suc, ◌≤◌, String, ◌≡◌, refl, sym, ap, ◌∙◌, Bool, true, false, ◌&&◌, ◌||◌, not, Option, List,
  [], ◌∷◌, ◌++◌, any, all, select, update_where, lower, text_eq, text_eq_iff, ◌==◌, arith,
  any_appended, if◌then◌else◌, inl, inr, ◌⊎◌,
}
use evm_garbage_collector.Prelude.Int.{ℤ, eq_ℤ}
use evm_garbage_collector.Journal.Value.{Value}
use evm_garbage_collector.Scan.Store.{
  Facts, Asset, Tables, Discovery, has_asset_id, fresh_id, assets_of, discovery_state, put,
}
use evm_garbage_collector.Scan.Buffer.{Row, has_id}
use evm_garbage_collector.Scan.Relation.{any_updated, any-fresh_id, Related}

-- a row of this wallet and this network
abbrev pub is_row : String → ℕ → Asset → Bool
is_row wallet chain_id r = text_eq r.wallet (lower wallet) && (r.chain_id == chain_id)

-- another wallet or another network
abbrev pub IsOther : String → ℕ → String → ℕ → Type 0
IsOther wallet chain_id w c = (text_eq (lower wallet) (lower w) && (chain_id == c)) ≡ false

-- no two rows have the same id
unfoldable pub AreKeyed : List Asset → Type 0
AreKeyed [] = Unit
AreKeyed (a ∷ rs) = (any (has_asset_id (ℤ.pos a.id)) rs ≡ false) × AreKeyed rs

-- a row with this id is of this wallet and network
abbrev pub is_owned : String → ℕ → ℤ → Asset → Bool
is_owned wallet chain_id i a = not (has_asset_id i a) || is_row wallet chain_id a

pub other_row :
    (wallet : String) (chain_id : ℕ) (w : String) (c : ℕ) (a : Asset)
    → IsOther wallet chain_id w c
    → is_row wallet chain_id a ≡ true
    → is_row w c a ≡ false
other_row wallet chain_id w c a other own =
    let same : a.wallet ≡ lower wallet = (text_eq_iff a.wallet (lower wallet)).0 (ground arith) in
    let alike : a.chain_id ≡ chain_id = ground arith in rw (same, alike) other

module _ {A : Type 0} (p : A → Bool) where
  select_updated :
      (q own : A → Bool) (g : A → A)
      → ((x : A) → own x ≡ true → p x ≡ false)
      → ((x : A) → p (g x) ≡ p x)
      → (xs : List A) → all (λ x. not (q x) || own x) xs ≡ true
      → select p (update_where q g xs) ≡ select p xs
  select_updated q own g other keeps [] h = refl
  select_updated q own g other keeps (x ∷ xs) h =
      ground (arith, other x, keeps x, select_updated q own g other keeps xs)

  pub select_appended : (xs : List A) (y : A) → p y ≡ false → select p (xs ++ y ∷ []) ≡ select p xs
  select_appended [] y h = ground arith
  select_appended (x ∷ xs) y h = ground (arith, select_appended xs y h)

  all_updated :
      (q : A → Bool) (g : A → A)
      → ((x : A) → p (g x) ≡ p x)
      → (xs : List A) → all p (update_where q g xs) ≡ all p xs
  all_updated q g keeps [] = refl
  all_updated q g keeps (x ∷ xs) = ground (arith, keeps x, all_updated q g keeps xs)

  pub all_appended :
      (xs : List A) (y : A) → all p xs ≡ true → p y ≡ true → all p (xs ++ y ∷ []) ≡ true
  all_appended [] y h e = ground arith
  all_appended (x ∷ xs) y h e = ground (arith, all_appended xs y)

same_id :
    (g : Asset → Asset) (b : Bool) (a : Asset) → (g a).id ≡ a.id → (if b then g a else a).id ≡ a.id
same_id g true a e = e
same_id g false a e = refl

AreKeyed-updated :
    (q : Asset → Bool) (g : Asset → Asset)
    → ((x : Asset) → (g x).id ≡ x.id)
    → (rs : List Asset) → AreKeyed rs
    → AreKeyed (update_where q g rs)
unfolding AreKeyed
AreKeyed-updated q g ids [] k = tt
AreKeyed-updated q g ids (a ∷ rs) k = (
  rw (same_id g (q a) a (ids a)) (
      any_updated (has_asset_id (ℤ.pos a.id)) q g
        (λ x. ap (λ (n : ℕ). eq_ℤ (ℤ.pos n) (ℤ.pos a.id)) (ids x)) rs
      ∙ k.0),
  AreKeyed-updated q g ids rs k.1,
)

apart :
    (n : ℕ) (x : Asset) (rs : List Asset) (a : Asset)
    → a.id ≡ n
    → any (has_asset_id (ℤ.pos n)) (x ∷ rs) ≡ false
    → any (has_asset_id (ℤ.pos x.id)) rs ≡ false
    → (any (has_asset_id (ℤ.pos x.id)) rs || has_asset_id (ℤ.pos x.id) a) ≡ false
apart n x rs a e h k = ground arith

tail_apart :
    (n : ℕ) (x : Asset) (rs : List Asset)
    → any (has_asset_id (ℤ.pos n)) (x ∷ rs) ≡ false
    → any (has_asset_id (ℤ.pos n)) rs ≡ false
tail_apart n x rs h = ground arith

pub AreKeyed-appended :
    (n : ℕ) (rs : List Asset) (a : Asset)
    → a.id ≡ n
    → any (has_asset_id (ℤ.pos n)) rs ≡ false
    → AreKeyed rs
    → AreKeyed (rs ++ a ∷ [])
unfolding AreKeyed
AreKeyed-appended n [] a e h k = (refl, tt)
AreKeyed-appended n (x ∷ rs) a e h k = (
  any_appended (has_asset_id (ℤ.pos x.id)) rs a ∙ apart n x rs a e h k.0,
  AreKeyed-appended n rs a e (tail_apart n x rs h) k.1,
)

-- a test that no member passes
pub nowhere :
    {A : Type 0} (q own : A → Bool) (xs : List A)
    → any q xs ≡ false
    → all (λ x. not (q x) || own x) xs ≡ true
nowhere q own [] h = refl
nowhere q own (x ∷ xs) h = ground (arith, nowhere q own xs)

-- what the replay so far has left of the tables `t`, for the rows of the other wallets and networks
pub record Framed (wallet : String) (chain_id : ℕ) (tr : ℤ → ℤ) (rows : List Row) (t now : Tables)
    : Type 0 where
  pub owned :
      (i : ℤ) → any (has_id i) rows ≡ true → all (is_owned wallet chain_id (tr i)) now.assets ≡ true
  pub keyed : AreKeyed now.assets
  pub others :
      (w : String) (c : ℕ) → IsOther wallet chain_id w c → assets_of w c now ≡ assets_of w c t
  pub states :
      (w : String) (c : ℕ)
      → IsOther wallet chain_id w c
      → discovery_state w c now ≡ discovery_state w c t

module _ {wallet : String} {chain_id : ℕ} {tr : ℤ → ℤ} {rows : List Row} {t now : Tables}
    (f : Framed wallet chain_id tr rows t now) where
  -- the facts of the row with this id are updated
  pub updated-Framed :
      (i : ℤ) (h : Facts → Facts) (g : Asset → Asset)
      → any (has_id i) rows ≡ true
      → ((x : Asset) → (g x).id ≡ x.id)
      → ((x : Asset) → (g x).wallet ≡ x.wallet)
      → ((x : Asset) → (g x).chain_id ≡ x.chain_id)
      → Framed wallet chain_id tr
          (update_where (has_id i) (λ (r : Row). record r { facts = h r.facts }) rows)
          t
          (record now { assets = update_where (has_asset_id (tr i)) g now.assets })
  unfolding assets_of discovery_state
  updated-Framed i h g present ids wallets chains = record {
    owned = λ j there.
        all_updated (is_owned wallet chain_id (tr j)) (has_asset_id (tr i)) g
          (λ x. rw (ids x, wallets x, chains x) refl) now.assets
        ∙ f.owned j (
            sym (
              any_updated (has_id j) (has_id i) (λ (r : Row). record r { facts = h r.facts })
                (λ x. refl) rows)
            ∙ there);
    keyed = AreKeyed-updated (has_asset_id (tr i)) g ids now.assets f.keyed;
    others = λ w c other.
        select_updated (is_row w c) (has_asset_id (tr i)) (is_row wallet chain_id) g
          (λ x own. other_row wallet chain_id w c x other own) (λ x. rw (wallets x, chains x) refl)
          now.assets (f.owned i present)
        ∙ f.others w c other;
    states = λ w c other. f.states w c other;
  }

  pub discovered-Framed :
      (d : Discovery)
      → Framed wallet chain_id tr rows t
          (record now { discovery = put wallet chain_id d now.discovery })
  unfolding assets_of discovery_state put
  discovered-Framed d = record {
    owned = λ j there. f.owned j there;
    keyed = f.keyed;
    others = λ w c other. f.others w c other;
    states = λ w c other. rw other (f.states w c other);
  }

  pub passed-Framed :
      (p : String → ℕ → Option Value) → Framed wallet chain_id tr rows t (record now { passes = p })
  unfolding assets_of discovery_state
  passed-Framed p = record {
    owned = λ j there. f.owned j there;
    keyed = f.keyed;
    others = λ w c other. f.others w c other;
    states = λ w c other. f.states w c other;
  }
