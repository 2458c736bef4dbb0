-- ===== src/Errors/Chain.antt =====
-- internal/errors/app_errors.go: what `errors.As` and `errors.Is` find in a wrapped error.
use hate_sentry.Base.{some, String, ◌≡◌, refl}
use hate_sentry.Errors.{
  Error, Frame, frames, app, plain, AppError, ErrorCode, wrap, wrap_frame, new,
}

-- Of a wrapped error, `errors.As` finds the wrapper; all frames of the error are its causes.
pub record IsWrapped (outer : Error) (e : Error) (code : ErrorCode) (message : String)
    : Type 0 where
  pub wrapper : AppError
  pub own_eq : outer.own ≡ app wrapper
  pub causes_eq : outer.causes ≡ frames e
  pub code_eq : wrapper.code ≡ code
  pub message_eq : wrapper.message ≡ message

wrap_frame-IsWrapped :
    (frame : Frame) (e : Error) (code : ErrorCode) (message : String)
    → IsWrapped (wrap_frame frame e code message) e code message
unfolding new
wrap_frame-IsWrapped (app inner) e code message = record {
  wrapper = _;
  own_eq = refl;
  causes_eq = refl;
  code_eq = refl;
  message_eq = refl;
}
wrap_frame-IsWrapped (plain _) e code message = record {
  wrapper = _;
  own_eq = refl;
  causes_eq = refl;
  code_eq = refl;
  message_eq = refl;
}
wrap_frame-IsWrapped _ e code message = record {
  wrapper = _;
  own_eq = refl;
  causes_eq = refl;
  code_eq = refl;
  message_eq = refl;
}

pub wrap-IsWrapped :
    (e : Error) (code : ErrorCode) (message : String)
    → (outer : Error) × (wrap (some e) code message ≡ some outer) × IsWrapped outer e code message
unfolding wrap
wrap-IsWrapped e code message = (_, refl, wrap_frame-IsWrapped e.own e code message)
