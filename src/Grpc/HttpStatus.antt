-- ===== src/Grpc/HttpStatus.antt =====
-- http-status.ts of packages/connect-core/src/protocol-grpc.
use connect_web.Connect.HttpStatus.{code_from_http_status as connect_code}
use connect_web.Code.{
  unknown, unavailable, unimplemented, permission_denied, unauthenticated, internal, Code,
}
use connect_web.Prelude.{ℕ, ◌≡◌, ◌⊎◌, Option, none, some, arith, ◌==◌, if◌then◌else◌}

-- the error code for a status, or null
unfoldable pub code_from_http_status : ℕ → Option Code
code_from_http_status status =
    if status == 200
    then none
    else if status == 400
    then some internal
    else if status == 401
    then some unauthenticated
    else if status == 403
    then some permission_denied
    else if status == 404
    then some unimplemented
    else if status == 429
    then some unavailable
    else if status == 502
    then some unavailable
    else if status == 503
    then some unavailable
    else if status == 504
    then some unavailable
    else some unknown

-- On every status but 200, 400, 408, 409, 412, 413, 415 and 431, gRPC gives the code that Connect
-- gives.
pub code_from_http_status-agrees :
    (status : ℕ)
    → (code_from_http_status status ≡ some (connect_code status))
      ⊎ ((status ≡ 200)
          ⊎ ((status ≡ 400)
              ⊎ ((status ≡ 408)
                  ⊎ ((status ≡ 409)
                      ⊎ ((status ≡ 412) ⊎ ((status ≡ 413) ⊎ ((status ≡ 415) ⊎ (status ≡ 431))))))))
unfolding code_from_http_status connect_code
code_from_http_status-agrees status = ground arith
