-- ===== src/Node.antt =====
-- packages/connect-node/src: the handlers of a server, over requests and responses that do not depend
-- on Node.
pub mod NodeError
pub mod Zlib
pub mod NodeHeader
pub mod Universal
pub mod Implementation
pub mod Handler
pub mod GrpcHandler
pub mod GrpcWebHandler
pub mod ConnectHandler
pub mod Negotiation
pub mod Protocols
pub mod Transport
