-- ===== src/Node/ConnectHandler.antt =====
-- connect-handler.ts of packages/connect-node/src: the handlers of one method for the Connect
-- protocol.
pub mod Unary
pub mod ErrorHeader
pub mod Failure
pub mod Streaming
pub mod Exchange
pub mod Received
pub mod Arrived
