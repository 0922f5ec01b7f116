-- ===== src/Journal/Session.antt =====
-- A connection of Python's sqlite3 with its implicit transactions (`self.connection` of Journal in
-- src/evm_inventory/journal.py). `saved` is what is committed and survives a crash; `work` is what
-- the connection reads. The first write opens a transaction, which stays open after a raise.
use evm_garbage_collector.Prelude.{
  String, ◌≡◌, refl, Bool, true, false, Option, none, some, if◌then◌else◌,
}
use evm_garbage_collector.Journal.Tables.{Db, empty_db}

pub data Error : Type 0 where
  key_error : Error
  value_error : String → Error
  operational_error : Error
  rpc_error : String → Error
  request_error : String → Error
  timeout_error : String → Error
  stage_deadline_exceeded : String → Error
  gas_deferred : String → Error
  ambiguous_broadcast : String → Error

pub data Result {ℓ} (A : Type ℓ) : Type ℓ where
  ok : A → Result A
  err : Error → Result A

-- the rest of a chain of checks
abbrev pub on_ok {ℓ κ} : {A : Type ℓ} {B : Type κ} → Result A → (A → Result B) → Result B
on_ok (ok a) f = f a
on_ok (err e) f = err e

-- one check: an error, or the rest
abbrev pub refuse_if {ℓ} : {A : Type ℓ} → Bool → Error → Result A → Result A
refuse_if b e rest = if b then err e else rest

pub record Connection : Type 0 where
  pub saved : Db
  pub work : Db
  pub in_transaction : Bool

abbrev pub opened : Connection
opened = record { saved = empty_db; work = empty_db; in_transaction = false }

abbrev pub Session : Type 0 → Type 0
Session A = Connection → Result A × Connection

module _ {A : Type 0} where
  abbrev pub pure : A → Session A
  pure a c = (ok a, c)

  abbrev pub raise : Error → Session A
  raise e c = (err e, c)

  abbrev pub lift : Result A → Session A
  lift r c = (r, c)

  -- a SELECT
  abbrev pub query : (Db → A) → Session A
  query f c = (ok (f c.work), c)

  abbrev pub or_raise : Error → Option A → Session A
  or_raise e none c = (err e, c)
  or_raise e (some a) c = (ok a, c)

abbrev pub and_then : {A B : Type 0} → Result A → (A → Session B) → Session B
and_then (ok a) f c = f a c
and_then (err e) f c = (err e, c)

infixl 5 ◌>>=◌ ◌>>◌
abbrev pub ◌>>=◌ : {A B : Type 0} → Session A → (A → Session B) → Session B
◌>>=◌ m f c = let (r, c') = m c in and_then r f c'

abbrev pub ◌>>◌ : {A B : Type 0} → Session A → Session B → Session B
m >> k = m >>= λ _. k

abbrev pub raise_if : Bool → Error → Session (Unit {0})
raise_if b e c = (if b then err e else ok tt, c)

-- an INSERT or an UPDATE
abbrev pub write : (Db → Db) → Session (Unit {0})
write f c = (ok tt, record c { work = f c.work; in_transaction = true })

abbrev pub commit : Session (Unit {0})
commit c = (ok tt, record c { saved = c.work; in_transaction = false })

abbrev pub committed : Connection → Connection
committed c = record c { saved = c.work; in_transaction = false }

abbrev pub rolled_back : Connection → Connection
rolled_back c = record c { work = c.saved; in_transaction = false }

-- leaving `with self.connection`
abbrev pub leave : {A : Type 0} → Result A → Connection → Result A × Connection
leave (ok a) c = (ok a, committed c)
leave (err e) c = (err e, rolled_back c)

-- with self.connection: …
unfoldable pub scoped : {A : Type 0} → Session A → Session A
scoped m c = let (r, c') = m c in leave r c'

-- with self.connection: BEGIN IMMEDIATE; …  BEGIN is refused inside an open transaction.
unfoldable pub transaction : {A : Type 0} → Session A → Session A
unfolding scoped
transaction m c =
    if c.in_transaction
    then (err operational_error, rolled_back c)
    else scoped m (record c { in_transaction = true })

-- Between two operations the connection reads what is committed.
abbrev pub IsSettled : Connection → Type 0
IsSettled c = c.work ≡ c.saved

-- What an operation leaves: a settled connection, and after a raise the committed tables as before.
abbrev pub Leaves : {A : Type 0} → Connection → Result A × Connection → Type 0
Leaves c (ok a, c') = IsSettled c'
Leaves c (err e, c') = IsSettled c' × (c'.saved ≡ c.saved)

-- an operation that begins with a check, which raises or goes on with the connection as it was
pub and_then-Leaves :
    {A B : Type 0} (c : Connection)
    → IsSettled c
    → (r : Result A) (f : A → Session B) → ((a : A) → Leaves c (f a c))
    → Leaves c (and_then r f c)
and_then-Leaves c settled (ok a) f h = h a
and_then-Leaves c settled (err e) f h = (settled, refl)
