-- ===== src/Grpc.antt =====
-- packages/connect-core/src/protocol-grpc: the gRPC protocol.
pub mod ContentType
pub mod HttpStatus
pub mod Timeout
pub mod RequestHeader
pub mod TrailerStatus
pub mod ValidateResponse
