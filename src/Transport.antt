-- ===== src/Transport.antt =====
-- transport.ts of packages/connect-core/src: the calls of a client, for a method that was chosen.
use connect_web.Prelude.{ℕ, Option}
use connect_web.Headers.{Headers}
use connect_web.ConnectError.{Result}
use connect_web.Stream.{Stream}
use connect_web.Serialization.{Input}
use connect_web.Node.Transport.{Response}

-- `Transport`: the arguments are the timeout, the header and the input
pub record Transport (I PI O : Type 0) : Type 0 where
  pub unary : Option ℕ → Option Headers → Input I PI → Result (Response O)
  pub stream : Option ℕ → Option Headers → Stream I → Result (Response (Stream O))
