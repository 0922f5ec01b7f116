-- ===== src/RouteCheckpoints/Secrets.antt =====
-- Secrets and functions in what encode writes (src/evm_inventory/route_checkpoints.py).
use evm_garbage_collector.Prelude.{
  String, ◌≡◌, refl, subst, Bool, true, false, ◌||◌, ◌&&◌, not, Option, none, some, List, ◌∷◌, all,
  arith, Bool-cases, inl, inr,
}
use evm_garbage_collector.RouteCheckpoints.{
  Json, plain, array, object, Items, nil, cons, Members, end, member, Library, Node, scalar,
  decimal, datetime, timedelta, tuple, list, dict, instance_of, namespace, callable, foreign, Nodes,
  empty, node, Entries, none_left, entry, both, map?, is_secret, is_callable, encode, encode_nodes,
  encode_entries, encode_fields, tag, typed,
}
use evm_garbage_collector.RouteCheckpoints.RoundTrip.{names}

-- no key of a dict, at any depth, is a secret's
unfoldable mutual
  pub hides : Json → Bool
  hides (plain s) = true
  hides (array xs) = hides_items xs
  hides (object ms) = hides_members ms

  pub hides_items : Items → Bool
  hides_items nil = true
  hides_items (cons j xs) = hides j && hides_items xs

  pub hides_members : Members → Bool
  hides_members end = true
  hides_members (member k j ms) = not (is_secret k) && hides j && hides_members ms

-- every instance, at any depth, has the fields of its class
unfoldable mutual
  unfolding names

  pub IsTyped : {lib : Library} → Node lib → Type 0
  IsTyped (tuple ns) = AreTyped ns
  IsTyped (list ns) = AreTyped ns
  IsTyped (dict es) = EntriesTyped es
  IsTyped {lib} (instance_of name es) = (lib.fields_of name ≡ some (names es)) × EntriesTyped es
  IsTyped (namespace es) = EntriesTyped es
  IsTyped _ = Unit

  pub AreTyped : {lib : Library} → Nodes lib → Type 0
  AreTyped empty = Unit
  AreTyped (node n ns) = IsTyped n × AreTyped ns

  pub EntriesTyped : {lib : Library} → Entries lib → Type 0
  EntriesTyped none_left = Unit
  EntriesTyped (entry key n es) = IsTyped n × EntriesTyped es

-- of a result, where there is one
abbrev Holds {ℓ} : {A : Type ℓ} → (A → Bool) → Option A → Type 0
Holds p none = Unit
Holds p (some a) = p a ≡ true

both-Holds {ℓ} :
    {A B C : Type ℓ} (p : A → Bool) (q : B → Bool) (r : C → Bool) (f : A → B → C)
    → ((a : A) (b : B) → p a ≡ true → q b ≡ true → r (f a b) ≡ true)
    → (x : Option A) (y : Option B) → Holds p x
    → Holds q y
    → Holds r (both f x y)
both-Holds p q r f h (some a) (some b) u v = h a b u v
both-Holds p q r f h (some a) none u v = tt
both-Holds p q r f h none y u v = tt

map?-Holds {ℓ} :
    {A B : Type ℓ} (p : A → Bool) (q : B → Bool) (f : A → B)
    → ((a : A) → p a ≡ true → q (f a) ≡ true)
    → (x : Option A) → Holds p x
    → Holds q (map? f x)
map?-Holds p q f h (some a) u = h a u
map?-Holds p q f h none u = tt

member-hides :
    (k : String) (j : Json) (ms : Members)
    → is_secret k ≡ false
    → hides j ≡ true
    → hides_members ms ≡ true
    → hides_members (member k j ms) ≡ true
unfolding hides_members
member-hides k j ms e h hs = rw (e, h, hs) refl

tag-hides : (k : String) (j : Json) → is_secret k ≡ false → hides j ≡ true → hides (tag k j) ≡ true
unfolding hides hides_members
tag-hides k j e h = member-hides k j end e h refl

member-Holds :
    (k : String) (x : Option Json) (y : Option Members)
    → is_secret k ≡ false
    → Holds hides x
    → Holds hides_members y
    → Holds hides_members (both (member k) x y)
member-Holds k x y e =
    both-Holds hides hides_members hides_members (member k)
      (λ j ms u us. member-hides k j ms e u us) x y

not_secret : (b : Bool) (key : String) → (b || is_secret key) ≡ false → is_secret key ≡ false
not_secret b key h = ground arith

head_not_secret :
    (key : String) (ks : List String)
    → all (λ k. not (is_secret k)) (key ∷ ks) ≡ true
    → is_secret key ≡ false
head_not_secret key ks h = ground arith

tail_not_secret :
    (key : String) (ks : List String)
    → all (λ k. not (is_secret k)) (key ∷ ks) ≡ true
    → all (λ k. not (is_secret k)) ks ≡ true
tail_not_secret key ks h = ground arith

typed-hides :
    (lib : Library) (name : String) (fields : Option Json)
    → Holds hides fields
    → Holds hides (typed lib name fields)
unfolding hides hides_members is_secret
typed-hides lib name none h = ground arith
typed-hides lib name (some j) h = ground arith

module _ {lib : Library}
    (no_secret_fields : (name : String) (ks : List String)
      → lib.fields_of name ≡ some ks
      → all (λ k. not (is_secret k)) ks ≡ true) where
  mutual
    unfolding IsTyped encode hides hides_items is_secret names

    hidden : (v : Node lib) → IsTyped v → Holds hides (encode v)
    hidden (scalar s) h = refl
    hidden (decimal d) h = refl
    hidden (datetime d) h = refl
    hidden (timedelta d) h = refl
    hidden (tuple ns) h =
        map?-Holds hides_items hides (λ xs. tag "$tuple" (array xs))
          (λ xs u. tag-hides "$tuple" (array xs) refl u) (encode_nodes ns) (hidden_nodes ns h)
    hidden (list ns) h =
        map?-Holds hides_items hides array (λ xs u. u) (encode_nodes ns) (hidden_nodes ns h)
    hidden (dict es) h =
        map?-Holds hides_members hides object (λ ms u. u) (encode_entries es) (hidden_entries es h)
    hidden (instance_of name es) h = typed-hides lib name (map? object (encode_fields es)) (
        map?-Holds hides_members hides object (λ ms u. u) (encode_fields es)
          (hidden_fields es (no_secret_fields name (names es) h.0) h.1))
    hidden (namespace es) h =
        map?-Holds hides_members hides (λ ms. tag "$namespace" (object ms))
          (λ ms u. tag-hides "$namespace" (object ms) refl u) (encode_entries es)
          (hidden_entries es h)
    hidden callable h = tt
    hidden foreign h = tt

    hidden_nodes : (ns : Nodes lib) → AreTyped ns → Holds hides_items (encode_nodes ns)
    hidden_nodes empty h = refl
    hidden_nodes (node n ns) (typed_node, typed_rest) =
        both-Holds hides hides_items hides_items cons (λ j xs u us. rw (u, us) refl) (encode n)
          (encode_nodes ns) (hidden n typed_node) (hidden_nodes ns typed_rest)

    hidden_entries : (es : Entries lib) → EntriesTyped es → Holds hides_members (encode_entries es)
    hidden_entries none_left h = refl
    hidden_entries (entry key n es) (typed_node, typed_rest) =
        elim (Bool-cases (is_callable n || is_secret key)) [
          | inl left_out ↦ rw left_out (hidden_entries es typed_rest)
          | inr kept ↦ rw kept (
              member-Holds key (encode n) (encode_entries es) (not_secret (is_callable n) key kept)
                (hidden n typed_node) (hidden_entries es typed_rest))
        ]

    hidden_fields :
        (es : Entries lib)
        → all (λ k. not (is_secret k)) (names es) ≡ true
        → EntriesTyped es
        → Holds hides_members (encode_fields es)
    hidden_fields none_left s h = refl
    hidden_fields (entry key n es) s (typed_node, typed_rest) =
        member-Holds key (encode n) (encode_fields es) (head_not_secret key (names es) s)
          (hidden n typed_node) (hidden_fields es (tail_not_secret key (names es) s) typed_rest)

  -- Where no class of the snapshots has a field named as a secret and every instance has the fields
  -- of its class, nothing that encode writes has a secret's key, at any depth.
  pub encode-hides : (v : Node lib) (j : Json) → IsTyped v → encode v ≡ some j → hides j ≡ true
  encode-hides v j h e = subst (Holds hides) e (hidden v h)
