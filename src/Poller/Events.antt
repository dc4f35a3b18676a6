-- ===== src/Poller/Events.antt =====
-- internal/globals/events.go: the messages that the poller exchanges with plugins and channels.
use nmslite.Common.{ℕ, ℤ, String, Option, List, Items}
use nmslite.Database.{MonitorRow}
use nmslite.Auth.Credentials.{Credentials}

pub record PollTask : Type 0 where
  pub request_id : String
  pub target : String
  pub port : ℤ
  pub credentials : Credentials

-- `metrics` is none for a nil slice (`null`, or no field).
pub record PollResult : Type 0 where
  pub request_id : String
  pub status : String
  pub timestamp : String
  pub metrics : Option Items
  pub error : String

pub data EventType : Type 0 where
  down recovered : EventType

pub record MonitorStateEvent : Type 0 where
  pub monitor_id : ℕ
  pub ip : String
  pub event_type : EventType
  pub failures : ℕ
  pub timestamp : ℤ

pub record CacheInvalidateEvent : Type 0 where
  pub update_type : String
  pub monitors : List MonitorRow
  pub monitor_ids : List ℕ
