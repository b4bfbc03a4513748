-- ===== src/OAuth/Service/Monad.antt =====
-- A method of the service as a computation that may throw and keeps the database that it reached:
-- what a call wrote before an exception stays written.
use chief_everything_officer.Base.{Bool, true, false, Option, none, some}
use chief_everything_officer.OAuth.Records.{OAuthDb}
use chief_everything_officer.OAuth.Store.{
  Outcome, ok, fail, invalid_grant, invalid_target, unavailable,
}
use chief_everything_officer.OAuth.Service.{ServiceError, Result, return, throw, uncaught}

abbrev pub M : Type 0 → Type 0
M A = OAuthDb → Result A × OAuthDb

abbrev pub after : {A B : Type 0} → Result A → OAuthDb → (A → M B) → Result B × OAuthDb
after (return a) db f = f a db
after (throw e) db f = (throw e, db)

infixl 5 ◌>>=◌ ◌>>◌
abbrev pub ◌>>=◌ : {A B : Type 0} → M A → (A → M B) → M B
◌>>=◌ m f db = after (m db).0 (m db).1 f

abbrev pub ◌>>◌ : {B : Type 0} → M (Unit {0}) → M B → M B
m >> k = m >>= λ _. k

abbrev pub lift : {A : Type 0} → Result A → M A
lift r db = (r, db)

abbrev pub raise : {A : Type 0} → ServiceError → M A
raise e db = (throw e, db)

abbrev pub check : Bool → ServiceError → M (Unit {0})
check true e db = (return tt, db)
check false e db = (throw e, db)

abbrev pub found : {A : Type 0} → Option A → ServiceError → M A
found none e db = (throw e, db)
found (some a) e db = (return a, db)

-- A call of a store's method; an exception of the store passes through.
abbrev pub outcome : {A : Type 0} → Outcome A → OAuthDb → Result (Outcome A) × OAuthDb
outcome (ok a) db = (return (ok a), db)
outcome (fail invalid_grant) db = (return (fail invalid_grant), db)
outcome (fail invalid_target) db = (return (fail invalid_target), db)
outcome (fail unavailable) db = (throw uncaught, db)

abbrev pub call : {A : Type 0} → (OAuthDb → Outcome A × OAuthDb) → M (Outcome A)
call m db = outcome (m db).0 (m db).1
