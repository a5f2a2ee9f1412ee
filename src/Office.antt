-- ===== src/Office.antt =====
-- What the management services share: the tables that they keep, the requests that leave the process,
-- and the monad in which an operation runs.
-- The database is not refused: a repository method reads or writes the tables, and a transaction is one
-- step. Redis, Kafka and the tables of Asterisk answer or refuse each request, as `Outside` says. An
-- operation runs to its end before the next one.
pub mod Rows
pub mod Rules
use comm_care.Prelude.{
  ℕ, String, Bool, true, false, Option, none, some, List, [], ◌∷◌, if◌then◌else◌,
}
use comm_care.Entities.{Extension}
use comm_care.Office.Rows.{ℤ}

pub data UserStatus : Type 0 where
  active inactive : UserStatus

pub record User : Type 0 where
  pub id : String
  pub name : String
  pub tenant_id : Option String
  pub status : UserStatus

pub record Tenant : Type 0 where
  pub id : String
  pub name : String
  pub assigned_extension_count : ℤ
  pub reserved_extension_count : ℤ

-- The tables in the order of their creation, and the counter of the extensions in Redis.
pub record Tables : Type 0 where
  pub extensions : List Extension
  pub tenants : List Tenant
  pub users : List User
  pub top_extension_id : Option ℕ

pub data Request : Type 0 where
  read_top_extension_id increment_top_extension_id acquire_lock release_lock : Request
  write_top_extension_id : ℕ → Request
  upsert_pjsip : Extension → Request
  delete_pjsip : ℕ → Request
  publish_extension_create : String → ℕ → Request
  publish_bulk_assignment : String → String → ℕ → Request

-- A request that was answered, or one that failed.
pub data Entry : Type 0 where
  did failed : Request → Entry

-- `new_id` is `randomUUID` and the ids that the database generates.
pub record Outside : Type 0 where
  pub refuses : List Entry → Request → Bool
  pub new_id : Tables → String
  pub password : List Entry → String

-- The requests stand newest first.
pub record Office : Type 0 where
  pub tables : Tables
  pub requests : List Entry

-- The HTTP exceptions that the services throw, and what a refused request throws.
pub data Exception : Type 0 where
  bad_request forbidden not_found conflict internal_server_error refused : Exception

pub data Outcome (A : Type 0) : Type 0 where
  done : A → Office → Outcome A
  thrown : Exception → Office → Outcome A

-- The office in which an operation ended, whether it returned or threw.
abbrev pub office_after : {A : Type 0} → Outcome A → Office
office_after (done a o) = o
office_after (thrown x o) = o

abbrev pub Task : Type 0 → Type 0
Task A = Office → Outcome A

abbrev pub pure : {A : Type 0} → A → Task A
pure a o = done a o

abbrev pub throw : {A : Type 0} → Exception → Task A
throw x o = thrown x o

abbrev pub continue : {A B : Type 0} → Outcome A → (A → Task B) → Outcome B
continue (done a o) f = f a o
continue (thrown x o) f = thrown x o

infixl 5 ◌>>=◌ ◌>>◌
unfoldable pub ◌>>=◌ : {A B : Type 0} → Task A → (A → Task B) → Task B
◌>>=◌ m f o = continue (m o) f

abbrev pub ◌>>◌ : {A B : Type 0} → Task A → Task B → Task B
m >> k = m >>= λ _. k

abbrev pub skip : Task (Unit {0})
skip = pure tt

unfoldable pub query : {A : Type 0} → (Tables → A) → Task A
query f o = done (f o.tables) o

unfoldable pub write : (Tables → Tables) → Task (Unit {0})
write f o = done tt (record o { tables = f o.tables })

-- `o ?? throw x`
abbrev pub or_throw : {A : Type 0} → Exception → Option A → Task A
or_throw x none = throw x
or_throw x (some a) = pure a

abbrev pub throw_if : Bool → Exception → Task (Unit {0})
throw_if true x = throw x
throw_if false x = skip

-- `for (const x of xs) { f(x); }`
unfoldable pub for_each : {A : Type 0} → (A → Task (Unit {0})) → List A → Task (Unit {0})
unfolding ◌>>=◌
for_each f [] = skip
for_each f (x ∷ xs) = f x >> for_each f xs

-- `catch (error) { throw x; }`
unfoldable pub catch_with : {A : Type 0} → Exception → Task A → Task A
catch_with x m o = elim (m o) [ done a o' ↦ done a o' | thrown y o' ↦ thrown x o' ]

-- `finally { f(); }`
unfoldable pub finally : {A : Type 0} → Task A → Task (Unit {0}) → Task A
finally m f o = elim (m o) [
  | done a o' ↦ elim (f o') [ done u o'' ↦ done a o'' | thrown x o'' ↦ thrown x o'' ]
  | thrown y o' ↦ elim (f o') [ done u o'' ↦ thrown y o'' | thrown x o'' ↦ thrown x o'' ]
]

abbrev pub with_request : Office → Entry → Office
with_request o e = record o { requests = e ∷ o.requests }

module _ (out : Outside) where
  -- Whether a request is answered.
  unfoldable pub ask : Request → Task Bool
  ask r o =
      if out.refuses o.requests r
      then done false (with_request o (failed r))
      else done true (with_request o (did r))

  unfoldable pub request : Request → Task (Unit {0})
  unfolding ask ◌>>=◌
  request r = ask r >>= λ answered. if answered then skip else throw refused

  -- `randomBytes`
  unfoldable pub new_password : Task String
  new_password o = done (out.password o.requests) o
