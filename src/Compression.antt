-- ===== src/Compression.antt =====
-- packages/connect-core/src/compression.ts: limits on sizes, validation of options, and the choice
-- of encodings.
use connect_web.Prelude.{
  ℕ, Bool, ◌||◌, List, [], ◌∷◌, ◌++◌, map, Option, none, some, ltb, if◌then◌else◌,
}
use connect_web.Text.{to_lower_case, Text, codes, join, ◌===◌}
use connect_web.Text.Decimal.{print}
use connect_web.Text.Split.{split_comma}
use connect_web.Text.Trim.{trim}
use connect_web.Headers.{append}
use connect_web.Code.{invalid_argument, internal, resource_exhausted, unimplemented}
use connect_web.ConnectError.{ConnectError, new_error, Result, ok, ◌>>=◌, throw_error, checked}
use connect_web.Envelope.{Compression}

abbrev pub max_read_max_bytes : ℕ
max_read_max_bytes = 0xffffffff

abbrev pub max_write_max_bytes : ℕ
max_write_max_bytes = max_read_max_bytes

unfoldable pub assert_write_max_bytes : ℕ → ℕ → Result (Unit {0})
assert_write_max_bytes write_max_bytes bytes_written =
    if ltb write_max_bytes bytes_written
    then throw_error
        (codes "message size "
          ++ (print bytes_written
              ++ (codes " is larger than configured writeMaxBytes " ++ print write_max_bytes)))
        resource_exhausted
    else ok tt

unfoldable pub read_max_message : ℕ → ℕ → Bool → Text
read_max_message read_max_bytes bytes_read total_size_known =
    if total_size_known
    then codes "message size "
      ++ (print bytes_read
          ++ (codes " is larger than configured readMaxBytes " ++ print read_max_bytes))
    else codes "message size is larger than configured readMaxBytes " ++ print read_max_bytes

unfoldable pub assert_read_max_bytes : ℕ → ℕ → Bool → Result (Unit {0})
assert_read_max_bytes read_max_bytes bytes_read total_size_known =
    if ltb read_max_bytes bytes_read
    then throw_error (read_max_message read_max_bytes bytes_read total_size_known)
        resource_exhausted
    else ok tt

-- `Partial<CompressionOptions>`; the options are numbers without a fraction
pub record PartialOptions : Type 0 where
  pub write_max_bytes : Option ℕ
  pub read_max_bytes : Option ℕ
  pub compress_min_bytes : Option ℕ

pub record CompressionOptions : Type 0 where
  pub write_max_bytes : ℕ
  pub read_max_bytes : ℕ
  pub compress_min_bytes : ℕ

abbrev or_default : Option ℕ → ℕ → ℕ
or_default none d = d
or_default (some n) d = n

range_message : Text → ℕ → ℕ → Text
range_message name n limit =
    name ++ (b' ' ∷ (print n ++ (codes " must be >= 1 and <= " ++ print limit)))

-- `compressionValidateOptions`, for limits that are natural numbers; NaN would pass both tests
unfoldable pub compression_validate_options : PartialOptions → Result CompressionOptions
unfolding range_message
compression_validate_options opt =
    let write = or_default opt.write_max_bytes max_write_max_bytes in
    let read = or_default opt.read_max_bytes max_read_max_bytes in
    if ltb write 1 || ltb max_write_max_bytes write
    then throw_error (range_message (codes "writeMaxBytes") write max_write_max_bytes) internal
    else if ltb read 1 || ltb max_read_max_bytes read
    then throw_error (range_message (codes "readMaxBytes") read max_read_max_bytes) internal
    else ok (record {
      write_max_bytes = write;
      read_max_bytes = read;
      compress_min_bytes = or_default opt.compress_min_bytes 0;
    })

-- `available.find((c) => c.name === name)`
unfoldable pub find_compression : Text → List Compression → Option Compression
find_compression name [] = none
find_compression name (c ∷ cs) = if c.name === name then some c else find_compression name cs

-- `available.map((c) => c.name).join(",")`
unfoldable pub names : List Compression → Text
names cs = join (codes ",") (map (λ (c : Compression). c.name) cs)

-- the loop over the accepted names, up to the first that is available
unfoldable pub first_accepted : List Compression → List Text → Option Compression
first_accepted available [] = none
first_accepted available (n ∷ ns) =
    let rest = first_accepted available ns in
    elim (find_compression n available) [ none ↦ rest | some c ↦ some c ]

pub record Negotiated : Type 0 where
  pub request : Option Compression
  pub response : Option Compression
  pub error : Option ConnectError

-- the request part: the compression found, or the error that the response must carry
unfoldable pub request_encoding :
    List Compression → Option Text → Text → Result (Option Compression × Option ConnectError)
request_encoding available none header_name = ok (none, none)
request_encoding available (some requested) header_name =
    if requested === codes "identity"
    then ok (none, none)
    else elim (find_compression requested available) [
      | some c ↦ ok (some c, none)
      | none ↦ do
        metadata ← checked (append [] header_name (names available))
        ok (
          none,
          some (
              new_error
                (codes "unknown compression \""
                  ++ (requested ++ (codes "\": supported encodings are " ++ names available)))
                unimplemented metadata [] none),
        )
    ]

unfoldable pub response_encoding :
    List Compression → Option Text → Option Compression → Option Compression
response_encoding available none request = request
response_encoding available (some accepted) request =
    if accepted === [] then request else first_accepted available (map trim (split_comma accepted))

unfoldable pub compression_negotiate :
    List Compression → Option Text → Option Text → Text → Result Negotiated
unfolding request_encoding response_encoding
compression_negotiate available requested accepted header_name = do
  (request, error) ← request_encoding available requested header_name
  ok (record {
    request = request;
    response = response_encoding available accepted request;
    error = error;
  })

-- The compression of a response, by the value of its encoding header: part of
-- `validateResponseWithCompression` of all three protocols.
unfoldable pub accepted_compression : List Compression → Option Text → Result (Option Compression)
accepted_compression accept none = ok none
accepted_compression accept (some encoding) =
    if to_lower_case encoding === codes "identity"
    then ok none
    else elim (find_compression encoding accept) [
      | some c ↦ ok (some c)
      | none ↦
          throw_error (codes "unsupported response encoding \"" ++ (encoding ++ codes "\""))
            invalid_argument
    ]
