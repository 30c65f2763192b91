-- ===== src/Connect/HttpStatus.antt =====
-- packages/connect-core/src/protocol-connect/http-status.ts.
use connect_web.Prelude.{ℕ, ◌≤◌, ◌<◌, ◌≡◌, ◌↔◌, ◌⊎◌, arith, ◌==◌, if◌then◌else◌}
use connect_web.Code.{
  Code, canceled, unknown, invalid_argument, deadline_exceeded, not_found, already_exists,
  permission_denied, resource_exhausted, failed_precondition, aborted, out_of_range, unimplemented,
  internal, unavailable, data_loss, unauthenticated, number, inherited,
}

unfoldable pub code_from_http_status : ℕ → Code
code_from_http_status status =
    if status == 400
    then invalid_argument
    else if status == 401
    then unauthenticated
    else if status == 403
    then permission_denied
    else if status == 404
    then unimplemented
    else if status == 408
    then deadline_exceeded
    else if status == 409
    then aborted
    else if status == 412
    then failed_precondition
    else if status == 413
    then resource_exhausted
    else if status == 415
    then internal
    else if status == 429
    then unavailable
    else if status == 431
    then resource_exhausted
    else if status == 502
    then unavailable
    else if status == 503
    then unavailable
    else if status == 504
    then unavailable
    else unknown

unfoldable pub code_to_http_status : Code → ℕ
code_to_http_status canceled = 408
code_to_http_status unknown = 500
code_to_http_status invalid_argument = 400
code_to_http_status deadline_exceeded = 408
code_to_http_status not_found = 404
code_to_http_status already_exists = 409
code_to_http_status permission_denied = 403
code_to_http_status resource_exhausted = 429
code_to_http_status failed_precondition = 412
code_to_http_status aborted = 409
code_to_http_status out_of_range = 400
code_to_http_status unimplemented = 404
code_to_http_status internal = 500
code_to_http_status unavailable = 503
code_to_http_status data_loss = 500
code_to_http_status unauthenticated = 401
code_to_http_status (number z) = 500
code_to_http_status (inherited p) = 500

-- No error is sent with a status that a client would take for success: the status of every code, listed
-- or not, is a client or server error.
pub code_to_http_status-bounds :
    (c : Code) → (400 ≤ code_to_http_status c) × (code_to_http_status c < 600)
unfolding code_to_http_status
code_to_http_status-bounds canceled = omega arith
code_to_http_status-bounds _ = omega arith

-- The codes that a client infers again from the status alone.
abbrev pub Restored : Code → Type 0
Restored c =
    (c ≡ unknown)
    ⊎ ((c ≡ invalid_argument)
        ⊎ ((c ≡ deadline_exceeded)
            ⊎ ((c ≡ permission_denied)
                ⊎ ((c ≡ failed_precondition)
                    ⊎ ((c ≡ aborted)
                        ⊎ ((c ≡ unimplemented) ⊎ ((c ≡ unavailable) ⊎ (c ≡ unauthenticated))))))))

-- `codeFromHttpStatus` after `codeToHttpStatus` gives the code back exactly for nine codes; every other
-- code is changed on the way.
pub code_from-to_http_status :
    (c : Code) → (code_from_http_status (code_to_http_status c) ≡ c) ↔ Restored c
unfolding code_from_http_status code_to_http_status
code_from-to_http_status canceled = ground arith
code_from-to_http_status _ = ground arith
