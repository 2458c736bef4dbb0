-- ===== src/Tests/ErrorResponses.antt =====
-- The answers to errors, at a concrete request.
use hate_sentry.Base.{some, inr, arith}
use hate_sentry.Errors.{raised, rate_limit_exceeded}
use hate_sentry.Errors.Status.{IsErrorStatus}
use hate_sentry.Errors.Response.{handle, handle-IsErrorStatus}

handle-IsErrorStatus_example :
    IsErrorStatus
      ((handle (some "t") (some (raised (rate_limit_exceeded "slow down")))).http_status)
unfolding rate_limit_exceeded
handle-IsErrorStatus_example =
    handle-IsErrorStatus (some "t") (some (raised (rate_limit_exceeded "slow down")))
      (inr (record { low = omega arith; high = omega arith }))
