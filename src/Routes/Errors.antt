-- ===== src/Routes/Errors.antt =====
-- `register_error_handlers` of data-processing-service/app/__init__.py: the answers to requests that are
-- aborted. The text of the exception is a parameter.
use global_payments_api.Prelude.{ℕ, String, ◌≡◌, refl}

-- The codes with a handler, with the text of the exception.
pub data Aborted : Type 0 where
  abort_400 : String → Aborted
  abort_404 : String → Aborted
  abort_422 : String → Aborted
  abort_500 : String → Aborted

pub record Problem : Type 0 where
  pub code : String
  pub message : String
  pub status : ℕ

abbrev pub error_response : Aborted → Problem
error_response (abort_400 e) = record { code = "BAD_REQUEST"; message = e; status = 400 }
error_response (abort_404 e) = record {
  code = "NOT_FOUND";
  message = "Resource not found";
  status = 404;
}
error_response (abort_422 e) = record { code = "UNPROCESSABLE_ENTITY"; message = e; status = 422 }
error_response (abort_500 e) = record {
  code = "INTERNAL_ERROR";
  message = "An unexpected error occurred. Please contact support.";
  status = 500;
}

-- What an unexpected error says does not reach the client.
internal_error_hides : (e f : String) → error_response (abort_500 e) ≡ error_response (abort_500 f)
internal_error_hides e f = refl
