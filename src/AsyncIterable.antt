-- ===== src/AsyncIterable.antt =====
-- packages/connect-core/src/async-iterable.ts: the transforms and sinks over asynchronous iterables.
pub mod Split
pub mod Transforms
pub mod ReadAllBytes
pub mod Pipeline
pub mod Writable
