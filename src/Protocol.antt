-- ===== src/Protocol.antt =====
-- src/protocol.cpp: events, and what its handlers return.
pub mod Change
pub mod Counting
pub mod Sent
pub mod Session
pub mod Connect
pub mod Verify
pub mod Control
pub mod Clock
pub mod Acknowledge
pub mod Receive
pub mod Fragment
pub mod Unsequenced
pub mod Datagram
pub mod Outgoing
pub mod Sending
pub mod Delivery
pub mod Service
pub mod Incoming
pub mod Timeout
use enetcpp.Base.{ℕ, Option}
use enetcpp.Host.{Conn}

-- `enum EventType`
pub data EventType : Type 0 where
  nothing connect disconnect receive : EventType

-- `Event`, with the index of its peer and the address of its packet
pub record Event : Type 0 where
  pub type : EventType
  pub peer : Option ℕ
  pub channel_id : ℕ
  pub user_data : ℕ
  pub packet : Option ℕ

-- A connection and the caller's event; `none` is a null pointer.
pub record Reported : Type 0 where
  pub conn : Conn
  pub event : Option Event
