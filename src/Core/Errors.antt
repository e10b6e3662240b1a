-- ===== src/Core/Errors.antt =====
-- backend/app/core/exceptions.py and backend/app/core/db_errors.py: what a call raises, and how a
-- refused write becomes an error of the application.
use realesatecrm.Base.{String, Text, Option, ℕ, Bool, ◌||◌, codes, lower, occurs_in, if◌then◌else◌}

-- The subclasses of `AppError` that the services raise, each with its `code`. Messages are for
-- display only.
pub data AppError : Type 0 where
  not_found unauthorized forbidden conflict validation business_rule : String → AppError

-- The `status_code` of each subclass.
unfoldable pub status_code : AppError → ℕ
status_code (AppError.not_found c) = 404
status_code (AppError.unauthorized c) = 401
status_code (AppError.forbidden c) = 403
status_code (AppError.conflict c) = 409
status_code (AppError.validation c) = 422
status_code (AppError.business_rule c) = 422

-- SQLAlchemy's `DBAPIError`: `str(e.orig)` and the driver's `sqlstate`.
pub record DbError : Type 0 where
  pub orig : Text
  pub sqlstate : Option String

-- `multiple_results` and `no_result` are SQLAlchemy's `MultipleResultsFound` and `NoResultFound`,
-- `value_error` is Python's `ValueError`.
pub data Raised : Type 0 where
  app : AppError → Raised
  dbapi : DbError → Raised
  multiple_results no_result value_error : Raised

pub data Result {ℓ} (A : Type ℓ) : Type ℓ where
  ok : A → Result A
  raised : Raised → Result A

-- `needle in orig_msg`, where `orig_msg` is in lower case.
unfoldable pub mentions : DbError → String → Bool
mentions e needle = occurs_in (codes needle) (lower e.orig)

-- `raise_clean_error_for_write`: what it raises.
unfoldable pub clean_error : DbError → Raised
clean_error e =
    if mentions e "invalid input value for enum" || mentions e "invalid input syntax"
    then app (AppError.validation "INVALID_FIELD_VALUE")
    else if mentions e "violates check constraint"
    then app (AppError.validation "CHECK_CONSTRAINT_VIOLATION")
    else if mentions e "violates not-null constraint"
    then app (AppError.validation "MISSING_REQUIRED_FIELD")
    else if mentions e "violates foreign key constraint"
    then app (AppError.validation "INVALID_REFERENCE")
    else if mentions e "violates unique constraint" || mentions e "duplicate key value"
    then app (AppError.conflict "DUPLICATE_RECORD")
    else dbapi e
