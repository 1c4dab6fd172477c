-- ===== src/Core/Errors.antt =====
-- packages/core/src/errors.ts: an error as a problem document.
use fiber_paid_http.Prelude.{
  ℕ, Text, text, ◌++◌, ltb, if◌then◌else◌, Failure, http_error, plain_error,
}

pub record ProblemBody : Type 0 where
  pub kind : Text
  pub title : Text
  pub status : ℕ
  pub detail : Text

pub record Problem : Type 0 where
  pub status : ℕ
  pub body : ProblemBody

internal_error : ℕ → Problem
internal_error status = record {
  status = status;
  body = record {
    kind = text "https://paymentauth.org/problems/internal-error";
    title = text "internal-error";
    status = status;
    detail = text "Internal error";
  };
}

unfoldable pub to_problem_json : Failure → Problem
unfolding internal_error
to_problem_json (http_error e) =
    if ltb e.status 500
    then record {
      status = e.status;
      body = record {
        kind = text "https://paymentauth.org/problems/" ++ e.code;
        title = e.code;
        status = e.status;
        detail = e.message;
      };
    }
    else internal_error e.status
to_problem_json (plain_error message) = internal_error 500
