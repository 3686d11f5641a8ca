-- ===== src/Failure.antt =====
-- Go's `error` values as the program builds them (`errors.New`, `fmt.Errorf`, `errors.Join`), and
-- the standard library's `errors.Is` and `errors.As` on them. What a foreign error says is not
-- modelled past its kind: `errorf` stands for any error that wraps nothing.
use flowhand.Base.{String, Bool, true, false, ◌||◌, Option, none, some, List, ℕ}

-- The sentinels that the program tests for with `errors.Is`: `domaintasks.ErrNotFound`,
-- `domaintasks.ErrConflict`, `pgx.ErrNoRows`, ogen's `ht.ErrInternalServerErrorResponse` and
-- `http.ErrServerClosed`.
pub data Sentinel : Type 0 where
  err_not_found err_conflict err_no_rows err_internal_response err_server_closed : Sentinel

pub data GoError : Type 0 where
  sentinel : Sentinel → GoError
  -- A `*pgconn.PgError` with its SQLSTATE.
  pg_error : String → GoError
  -- An error that wraps nothing.
  errorf : String → GoError
  -- `validate.Error`, with the names of its fields.
  invalid_fields : List String → GoError
  -- `fmt.Errorf("text: %w", err)` and `errors.Wrap(err, "text")`.
  wrap : String → GoError → GoError
  -- `fmt.Errorf("text %s: %w", id, err)`.
  wrap_id : String → ℕ → GoError → GoError
  -- `ogenerrors.DecodeRequestError`, `DecodeParamsError`, `DecodeParamError`, `DecodeBodyError`.
  decode_request decode_params decode_param decode_body : GoError → GoError
  -- `errors.Join` of one error, or of two.
  join_one : GoError → GoError
  join_two : GoError → GoError → GoError

abbrev pub same_sentinel : Sentinel → Sentinel → Bool
same_sentinel err_not_found err_not_found = true
same_sentinel err_conflict err_conflict = true
same_sentinel err_no_rows err_no_rows = true
same_sentinel err_internal_response err_internal_response = true
same_sentinel err_server_closed err_server_closed = true
same_sentinel _ _ = false

-- `errors.Is(err, target)`: some error of the chain is the target.
abbrev pub errors_is : Sentinel → GoError → Bool
errors_is target (sentinel s) = same_sentinel target s
errors_is target (pg_error code) = false
errors_is target (errorf text) = false
errors_is target (invalid_fields names) = false
errors_is target (wrap text e) = errors_is target e
errors_is target (wrap_id text id e) = errors_is target e
errors_is target (decode_request e) = errors_is target e
errors_is target (decode_params e) = errors_is target e
errors_is target (decode_param e) = errors_is target e
errors_is target (decode_body e) = errors_is target e
errors_is target (join_one e) = errors_is target e
errors_is target (join_two e f) = errors_is target e || errors_is target f

abbrev pub or_else {ℓ} : {A : Type ℓ} → Option A → Option A → Option A
or_else none o = o
or_else (some a) o = some a

-- `errors.As(err, &pgErr)`: the SQLSTATE of the first `*pgconn.PgError` of the chain.
abbrev pub as_pg_error : GoError → Option String
as_pg_error (sentinel s) = none
as_pg_error (pg_error code) = some code
as_pg_error (errorf text) = none
as_pg_error (invalid_fields names) = none
as_pg_error (wrap text e) = as_pg_error e
as_pg_error (wrap_id text id e) = as_pg_error e
as_pg_error (decode_request e) = as_pg_error e
as_pg_error (decode_params e) = as_pg_error e
as_pg_error (decode_param e) = as_pg_error e
as_pg_error (decode_body e) = as_pg_error e
as_pg_error (join_one e) = as_pg_error e
as_pg_error (join_two e f) = or_else (as_pg_error e) (as_pg_error f)

-- `errors.As(err, &decReq)` with a `*ogenerrors.DecodeRequestError`: one stands in the chain.
abbrev pub as_decode_request : GoError → Bool
as_decode_request (sentinel s) = false
as_decode_request (pg_error code) = false
as_decode_request (errorf text) = false
as_decode_request (invalid_fields names) = false
as_decode_request (wrap text e) = as_decode_request e
as_decode_request (wrap_id text id e) = as_decode_request e
as_decode_request (decode_request e) = true
as_decode_request (decode_params e) = as_decode_request e
as_decode_request (decode_param e) = as_decode_request e
as_decode_request (decode_body e) = as_decode_request e
as_decode_request (join_one e) = as_decode_request e
as_decode_request (join_two e f) = as_decode_request e || as_decode_request f

-- `errors.As(err, &decParam)` with a `*ogenerrors.DecodeParamsError`.
abbrev pub as_decode_params : GoError → Bool
as_decode_params (sentinel s) = false
as_decode_params (pg_error code) = false
as_decode_params (errorf text) = false
as_decode_params (invalid_fields names) = false
as_decode_params (wrap text e) = as_decode_params e
as_decode_params (wrap_id text id e) = as_decode_params e
as_decode_params (decode_request e) = as_decode_params e
as_decode_params (decode_params e) = true
as_decode_params (decode_param e) = as_decode_params e
as_decode_params (decode_body e) = as_decode_params e
as_decode_params (join_one e) = as_decode_params e
as_decode_params (join_two e f) = as_decode_params e || as_decode_params f

-- `errors.Join(a, b)`: nil errors are dropped, and nil is returned if nothing is left.
abbrev pub errors_join : Option GoError → Option GoError → Option GoError
errors_join none none = none
errors_join (some e) none = some (join_one e)
errors_join none (some f) = some (join_one f)
errors_join (some e) (some f) = some (join_two e f)

-- Go's `(value, error)`.
pub data Result {ℓ} (A : Type ℓ) : Type ℓ where
  ok : A → Result A
  err : GoError → Result A

-- `if err != nil { return ..., err }`
infixl 5 ◌>>=◌ ◌>>◌
abbrev pub ◌>>=◌ {ℓ κ} : {A : Type ℓ} {B : Type κ} → Result A → (A → Result B) → Result B
ok a >>= k = k a
err e >>= k = err e

abbrev pub ◌>>◌ {ℓ κ} : {A : Type ℓ} {B : Type κ} → Result A → Result B → Result B
m >> k = m >>= λ _. k

-- `if err != nil { return ..., f(err) }`
abbrev pub map_err {ℓ} : {A : Type ℓ} → (GoError → GoError) → Result A → Result A
map_err f (ok a) = ok a
map_err f (err e) = err (f e)

-- A nil error is a success with no value.
abbrev pub of_error : Option GoError → Result (Unit {0})
of_error none = ok tt
of_error (some e) = err e
