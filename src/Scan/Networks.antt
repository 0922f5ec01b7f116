-- ===== src/Scan/Networks.antt =====
-- The buffers of several wallets and networks (src/evm_inventory/scan_buffer.py), all filled from
-- one store and then saved into it, one after another.
use evm_garbage_collector.Prelude.{
  ℕ, String, ◌≡◌, refl, sym, ap, ◌∙◌, Bool, false, Option, none, some, List, [], ◌∷◌, map, find,
  select, lower, text_eq, text_eq_iff, arith, Bool-cases, inl, inr,
}
use evm_garbage_collector.Scan.Store.{Facts, Asset, Tables, is_asset, assets_of, discovery_state}
use evm_garbage_collector.Scan.Buffer.{Buffer, scan_buffer, Replay, persist, Write, write_all}
use evm_garbage_collector.Scan.Framed.{AreKeyed, IsOther, is_row}
use evm_garbage_collector.Scan.Refinement.{row_facts, asset_facts, AreOwn, Keeps, saved_into}

-- a wallet on a network, and the writes of its buffer
pub record Visit : Type 0 where
  pub wallet : String
  pub chain_id : ℕ
  pub writes : List (Bool × Write)

unfoldable pub visited : Tables → Visit → Buffer
visited t v = write_all v.writes (scan_buffer v.wallet v.chain_id t)

-- persist of each buffer; `none` is an exception of one of them
unfoldable pub persist_all : List Buffer → Tables → Option Tables
persist_all [] t = some t
persist_all (b ∷ bs) t = elim (persist b t).1 [ none ↦ none | some r ↦ persist_all bs r.tables ]

-- a wallet and a network that none of these visits
unfoldable pub IsElsewhere : String → ℕ → List Visit → Type 0
IsElsewhere w c [] = Unit
IsElsewhere w c (v ∷ vs) = IsOther v.wallet v.chain_id w c × IsElsewhere w c vs

-- no wallet is visited on a network twice, and every write names the wallet and the network of its
-- buffer
unfoldable pub AreSeparate : List Visit → Type 0
unfolding IsElsewhere
AreSeparate [] = Unit
AreSeparate (v ∷ vs) =
    IsElsewhere v.wallet v.chain_id vs × AreOwn v.wallet v.chain_id v.writes × AreSeparate vs

-- what the buffers showed, when they were filled from `t`, is what the tables `now` say
unfoldable pub AreShown : Tables → List Visit → Tables → Type 0
unfolding visited
AreShown t [] now = Unit
AreShown t (v ∷ vs) now =
    ((a : String) → asset_facts v.wallet v.chain_id a now ≡ row_facts a (visited t v))
    × (discovery_state v.wallet v.chain_id now ≡ (visited t v).state)
    × AreShown t vs now

IsOther-sym : (w : String) (c : ℕ) (w' : String) (c' : ℕ) → IsOther w c w' c' → IsOther w' c' w c
IsOther-sym w c w' c' h = elim (Bool-cases (text_eq (lower w') (lower w))) [
  | inr other ↦ rw other refl
  | inl same ↦
      let e : lower w' ≡ lower w = (text_eq_iff (lower w') (lower w)).0 same in ground arith
]

find_row :
    (w : String) (c : ℕ) (a : String) (rs : List Asset)
    → find (is_asset w c a) rs ≡ find (λ (r : Asset). text_eq r.asset_id a) (select (is_row w c) rs)
find_row w c a [] = refl
find_row w c a (r ∷ rs) = ground (arith, find_row w c a rs)

kept_facts :
    (w : String) (c : ℕ) (a : String) (t now : Tables)
    → assets_of w c now ≡ assets_of w c t
    → asset_facts w c a now ≡ asset_facts w c a t
unfolding asset_facts assets_of
kept_facts w c a t now h =
    ap (λ (o : Option Asset). elim o as (λ x. Option Facts) [ none ↦ none | some r ↦ some r.facts ])
      (find_row w c a now.assets
        ∙ ap (find (λ (r : Asset). text_eq r.asset_id a)) h
        ∙ sym (find_row w c a t.assets))

-- two stores that say the same of every visit
AreSame : List Visit → Tables → Tables → Type 0
AreSame [] t u = Unit
AreSame (v ∷ vs) t u =
    (assets_of v.wallet v.chain_id t ≡ assets_of v.wallet v.chain_id u)
    × (discovery_state v.wallet v.chain_id t ≡ discovery_state v.wallet v.chain_id u)
    × AreSame vs t u

AreSame-refl : (vs : List Visit) (t : Tables) → AreSame vs t t
unfolding AreSame
AreSame-refl [] t = tt
AreSame-refl (v ∷ vs) t = (refl, refl, AreSame-refl vs t)

-- the visits that follow, when one was saved
AreSame-kept :
    (w : String) (c : ℕ) (vs : List Visit) (t u now : Tables)
    → IsElsewhere w c vs
    → ((w' : String) (c' : ℕ) → IsOther w c w' c' → Keeps w' c' u now)
    → AreSame vs t u
    → AreSame vs t now
unfolding AreSame IsElsewhere
AreSame-kept w c [] t u now e kept same = tt
AreSame-kept w c (v ∷ vs) t u now (other, others) kept (rows, state, rest) =
    let (r, s) = kept v.wallet v.chain_id (IsOther-sym v.wallet v.chain_id w c other) in
    (rows ∙ sym r, state ∙ sym s, AreSame-kept w c vs t u now others kept rest)

persist_cons :
    (b : Buffer) (bs : List Buffer) (u : Tables) (r : Replay)
    → (persist b u).1 ≡ some r
    → persist_all (b ∷ bs) u ≡ persist_all bs r.tables
unfolding persist_all
persist_cons b bs u r e = rw (persist_all, e) refl

all_saved :
    (vs : List Visit) (t u : Tables)
    → AreSame vs t u
    → u.readonly ≡ false
    → AreKeyed u.assets
    → AreSeparate vs
    → (now : Tables) × (persist_all (map (visited t) vs) u ≡ some now)
      × AreShown t vs now
      × ((w : String) (c : ℕ) → IsElsewhere w c vs → Keeps w c u now)
unfolding AreSame AreSeparate AreShown IsElsewhere persist_all visited
all_saved [] t u same writable keyed separate = (u, refl, tt, (λ w c e. (refl, refl)))
all_saved (v ∷ vs) t u (rows, state, same) writable keyed (elsewhere, own, separate) =
    let (r, runs, shown, found, writable', keyed', kept) =
      saved_into v.wallet v.chain_id t u v.writes rows state writable own in
    let (now, rest_runs, rest_shown, rest_kept) =
      all_saved vs t r.tables
        (AreSame-kept v.wallet v.chain_id vs t u r.tables elsewhere (kept keyed) same) writable'
        (keyed' keyed) separate in
    let (last, last_state) = rest_kept v.wallet v.chain_id elsewhere in
    (
      now,
      persist_cons (visited t v) (map (visited t) vs) u r runs ∙ rest_runs,
      (
        (λ a. kept_facts v.wallet v.chain_id a r.tables now last ∙ shown a),
        last_state ∙ found,
        rest_shown,
      ),
      (λ w c e.
          let (a, b) = rest_kept w c e.1 in let (a', b') = kept keyed w c e.0 in (a ∙ a', b ∙ b')),
    )

-- Buffers of different wallets and networks, all filled from a store that can be written and in
-- which no two assets have the same id, are saved into it one after another without an exception,
-- whatever writes of its own wallet and network the workers of each made and whichever of them
-- raised. In the end the store says of every asset of these wallets and networks, and of their
-- discovery, what their buffers showed, and of every other wallet and network what it said before.
pub persist_all_refines :
    (vs : List Visit) (t : Tables) (w : String) (c : ℕ)
    → t.readonly ≡ false
    → AreKeyed t.assets
    → AreSeparate vs
    → IsElsewhere w c vs
    → (now : Tables) × (persist_all (map (visited t) vs) t ≡ some now)
      × AreShown t vs now
      × (assets_of w c now ≡ assets_of w c t)
      × (discovery_state w c now ≡ discovery_state w c t)
persist_all_refines vs t w c writable keyed separate elsewhere =
    let (now, saved, shown, kept) = all_saved vs t t (AreSame-refl vs t) writable keyed separate in
    let (rows, state) = kept w c elsewhere in (now, saved, shown, rows, state)
