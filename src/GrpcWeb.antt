-- ===== src/GrpcWeb.antt =====
-- packages/connect-core/src/protocol-grpc-web: the gRPC-web protocol.
pub mod ContentType
pub mod RequestHeader
pub mod ValidateResponse
pub mod Trailer
