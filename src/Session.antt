-- ===== src/Session.antt =====
-- lib/rtnt/src/core/session.cpp and its header: the reliable-UDP state of one connection.
pub mod Window
pub mod Received
pub mod Invariant
pub mod History
pub mod WideShift
pub mod State
pub mod Outgoing
pub mod Reorder
pub mod Incoming
pub mod Kept
pub mod Identity
pub mod Order
pub mod Acked
pub mod Once
pub mod Run
pub mod Delivery
pub mod SentAgain
pub mod Resend
pub mod Numbering
pub mod RichRead
pub mod AckBytes
pub mod RichAck
