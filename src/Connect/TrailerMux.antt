-- ===== src/Connect/TrailerMux.antt =====
-- trailer-mux.ts of packages/connect-core/src/protocol-connect.
pub mod Muxed
pub mod RoundTrip
use connect_web.ConnectError.{◌>>=◌, checked, ok, Result}
use connect_web.Headers.{set, copy, Headers}
use connect_web.Prelude.{[], ◌∷◌, ◌++◌, if◌then◌else◌, drop}
use connect_web.Text.{to_lower_case, starts_with, Text, codes}

abbrev pub trailer_prefix : Text
trailer_prefix = codes "trailer-"

-- the loop of `trailerDemux`, from the headers and trailers that are there
unfoldable pub demux_from : Headers → Headers → Headers → Result (Headers × Headers)
demux_from h t [] = ok (h, t)
demux_from h t ((key, value) ∷ header) =
    if starts_with trailer_prefix (to_lower_case key)
    then (checked (set t (drop 8 key) value) >>= (λ u. demux_from h u header))
    else (checked (set h key value) >>= (λ g. demux_from g t header))

unfoldable pub trailer_demux : Headers → Result (Headers × Headers)
unfolding demux_from
trailer_demux = demux_from [] []

-- the loop of `trailerMux`
unfoldable pub mux_from : Headers → Headers → Result Headers
mux_from h [] = ok h
mux_from h ((key, value) ∷ trailer) =
    checked (set h (trailer_prefix ++ key) value) >>= λ g. mux_from g trailer

unfoldable pub trailer_mux : Headers → Headers → Result Headers
unfolding mux_from
trailer_mux header trailer = mux_from (copy header) trailer
