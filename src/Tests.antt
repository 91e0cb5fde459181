-- ===== src/Tests.antt =====
-- Small runs of the modelled code, and each theorem with hypotheses at a concrete input.
mod Wire
mod Session
mod Sending
mod Sparse
mod BitSet
mod Server
mod Client
mod Ecs
mod Lobby
