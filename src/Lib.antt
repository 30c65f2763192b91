-- ===== src/Lib.antt =====
-- Connect for TypeScript: the protocol library packages/connect-core, and the handlers and transports
-- of packages/connect-node.
--
-- The library implements the protocols Connect, gRPC and gRPC-web for clients and servers. Requests
-- and responses are headers and a stream of bytes. The bytes of a stream are enveloped messages:
-- one byte of flags, four bytes of length, and a payload that may be compressed. Errors travel as
-- JSON (Connect) or as trailers (gRPC).
--
-- What models what (paths below packages/connect-core/src, and for Node below packages/connect-node/src):
--   Code              code.ts: Code, codeFromString, codeToString
--   ConnectError      connect-error.ts: ConnectError, connectErrorFromReason, connectErrorDetails;
--                     Result is what a function that may throw returns
--   Compression       compression.ts: the limits, compressionValidateOptions, compressionNegotiate
--   Envelope          envelope.ts: encodeEnvelope(s), envelopeCompress, envelopeDecompress; in
--                     Envelope/Reader createEnvelopeReadableStream
--   AsyncIterable     async-iterable.ts: in Split transformSplitEnvelope, in ReadAllBytes
--                     transformReadAllBytes, in Transforms the transforms element by element, in
--                     Pipeline what they do together, in Writable createWritableIterable
--   Connect           protocol-connect: ContentType, HttpStatus, Timeout, RequestHeader, ErrorJson,
--                     EndStream, TrailerMux and ValidateResponse, named for their files
--   Grpc, GrpcWeb     protocol-grpc and protocol-grpc-web, likewise; Grpc/TrailerStatus has
--                     trailer-status.ts, validate-trailer.ts and decodeBinaryHeader, GrpcWeb/Trailer
--                     trailer.ts; Connect/JsonBytes the bytes of errors and of ends of streams
--   MethodUrl         create-method-url.ts
--   Node              Universal private/universal.ts, Implementation implementation.ts, Handler,
--                     GrpcHandler, GrpcWebHandler and ConnectHandler the handlers of the three
--                     protocols, Protocols their factories, Negotiation handler.ts; Transport has the
--                     transports of the three protocols, each with unary and stream; NodeError and
--                     NodeHeader private/node-error.ts and private/node-universal-header.ts, and Zlib
--                     compression.ts
--   Interceptor       interceptor.ts
--   Transport, Client transport.ts; promise-client.ts and any-client.ts, with callback-client.ts in
--                     Client/Callbacks
--   Serialization     serialization.ts
--   Stream            an asynchronous iterable as its consumer sees it: elements, then the end or an
--                     error
--   Text, Headers, Json, Pattern
--                     what the sources use of JavaScript: strings as code units, with decimal numbers,
--                     trimming, percent encoding and UTF-8; the Headers class; JSON values; and regular
--                     expressions without repetition, which backtrack as those of JavaScript do
--
-- A function that may throw returns a Result, whose error is the value that is thrown; null and
-- undefined are the none of an Option. A Uint8Array is a list of bytes, written with its offset as the
-- source does, and a mutable Headers object is passed on explicitly. The loops over a source or a list
-- recur on it. The inner loop of transformSplitEnvelope has fuel: each round but the last takes five
-- bytes or more, so that one more than the length of the buffer is enough, and a lemma shows that more
-- fuel changes nothing. The loop over the causes of an error has as many rounds as there are errors, and
-- one more. Printing a number has fuel n + 1 for the number n.
--
-- The protobuf library, base64, JSON.stringify and JSON.parse, the compression algorithms and type
-- registries are parameters, and so is what a user implements: an implementation is a function of its
-- input and its context that gives its outputs and the context that it leaves. Where a theorem is
-- about a text of JSON, its hypothesis is that JSON.parse reads the text that JSON.stringify prints. A
-- universal client is a function from its request to its response, and what a call of a client does is
-- the sequence of what it hands out. Not modelled are: laziness and interleaving of asynchronous
-- iterables (a transform maps what its source yields to what it yields), the text of JSON, the
-- separate entries of "set-cookie", the place of integer-like keys in an object, timeouts and limits
-- that are no whole numbers (NaN among them), the exponent with which JavaScript prints numbers from
-- 10^21 on, headers of a user that are not given as a Headers object, pipes, abortable iterables, the
-- validation of the options of transports, the clients and servers over the HTTP of Node, the signals
-- that abort a call, and the packages connect-web and protoc-gen-connect-web.
pub mod Prelude
pub mod Text
pub mod Code
pub mod Headers
pub mod Json
pub mod ConnectError
pub mod Stream
pub mod Envelope
pub mod Compression
pub mod Serialization
pub mod MethodUrl
pub mod Interceptor
pub mod Transport
pub mod Client
pub mod AsyncIterable
pub mod Pattern
pub mod Connect
pub mod Grpc
pub mod GrpcWeb
pub mod Node
pub mod Tests
