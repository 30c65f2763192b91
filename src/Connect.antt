-- ===== src/Connect.antt =====
-- packages/connect-core/src/protocol-connect: the Connect protocol.
pub mod ContentType
pub mod HttpStatus
pub mod Timeout
pub mod RequestHeader
pub mod ErrorJson
pub mod EndStream
pub mod TrailerMux
pub mod ValidateResponse
pub mod JsonBytes
