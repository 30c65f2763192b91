-- ===== src/Node/Negotiation/Options.antt =====
-- The options of a handler: compression.ts of packages/connect-core/src, and the options of handler.ts
-- and of the factories in packages/connect-node/src.
use connect_web.Prelude.{◌≤◌, ◌≡◌, some, arith}
use connect_web.ConnectError.{ok}
use connect_web.Compression.{
  PartialOptions, CompressionOptions, compression_validate_options, max_read_max_bytes,
}

-- limits that are in range
abbrev pub IsInRange : CompressionOptions → Type 0
IsInRange l =
    ((1 ≤ l.write_max_bytes) × (l.write_max_bytes ≤ max_read_max_bytes))
    × ((1 ≤ l.read_max_bytes) × (l.read_max_bytes ≤ max_read_max_bytes))

abbrev pub given : CompressionOptions → PartialOptions
given l = record {
  write_max_bytes = some l.write_max_bytes;
  read_max_bytes = some l.read_max_bytes;
  compress_min_bytes = some l.compress_min_bytes;
}

-- `compressionValidateOptions` returns limits in range only, and takes such limits as they are.
pub compression_validate_options-IsInRange :
    (opt : PartialOptions) (l : CompressionOptions)
    → compression_validate_options opt ≡ ok l
    → IsInRange l × (compression_validate_options (given l) ≡ ok l)
unfolding compression_validate_options
compression_validate_options-IsInRange opt l h = (ground arith, ground arith)
