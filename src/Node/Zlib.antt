-- ===== src/Node/Zlib.antt =====
-- compression.ts of packages/connect-node/src: gzip and brotli of the zlib of Node.
use connect_web.Prelude.{ℕ, ◌||◌, [], ◌++◌, Option, none, some, if◌then◌else◌}
use connect_web.Text.{Text, codes, ◌===◌}
use connect_web.Text.Decimal.{print}
use connect_web.Code.{Code, resource_exhausted, invalid_argument, internal}
use connect_web.ConnectError.{
  reason_text, new_error, Reason, Result, ok, err, connect_error, simple_error, Bytes,
}
use connect_web.Envelope.{Compression}

-- what a function of zlib returns: bytes, or an error with its property `code` if it is a string
pub data Zipped : Type 0 where
  zipped : Bytes → Zipped
  zip_error : Option Text → Reason → Zipped

-- the functions of zlib: the second of each pair has the option `maxOutputLength`
pub record Zlib : Type 0 where
  pub gzip : Bytes → Zipped
  pub gunzip : Bytes → ℕ → Zipped
  pub brotli_compress : Bytes → Zipped
  pub brotli_decompress : Bytes → ℕ → Zipped

abbrev pub too_large : ℕ → Reason
too_large read_max_bytes = connect_error (
    simple_error
      (codes "message is larger than configured readMaxBytes "
        ++ (print read_max_bytes ++ codes " after decompression"))
      resource_exhausted)

abbrev pub decompression_failed : Code → Reason → Reason
decompression_failed code e =
    connect_error (new_error (codes "decompression failed") code [] [] (some (reason_text e)))

unfoldable pub wrap_code : ℕ → Option Text → Reason → Reason
unfolding reason_text
wrap_code read_max_bytes none e = decompression_failed internal e
wrap_code read_max_bytes (some code) e =
    if code === codes "ERR_BUFFER_TOO_LARGE"
    then too_large read_max_bytes
    else if code === codes "Z_DATA_ERROR" || code === codes "ERR_PADDING_2"
    then decompression_failed invalid_argument e
    else decompression_failed internal e

unfoldable pub wrap_zlib_errors : Zipped → ℕ → Result Bytes
unfolding wrap_code
wrap_zlib_errors (zipped b) read_max_bytes = ok b
wrap_zlib_errors (zip_error code e) read_max_bytes = err (wrap_code read_max_bytes code e)

unwrapped : Zipped → Result Bytes
unwrapped (zipped b) = ok b
unwrapped (zip_error code e) = err e

unfoldable pub compression_gzip : Zlib → Compression
unfolding wrap_zlib_errors unwrapped
compression_gzip zlib = record {
  name = codes "gzip";
  compress = λ bytes. unwrapped (zlib.gzip bytes);
  decompress =
      λ bytes read_max_bytes. wrap_zlib_errors (zlib.gunzip bytes read_max_bytes) read_max_bytes;
}

unfoldable pub compression_brotli : Zlib → Compression
unfolding wrap_zlib_errors unwrapped
compression_brotli zlib = record {
  name = codes "brotli";
  compress = λ bytes. unwrapped (zlib.brotli_compress bytes);
  decompress = λ bytes read_max_bytes.
      wrap_zlib_errors (zlib.brotli_decompress bytes read_max_bytes) read_max_bytes;
}
