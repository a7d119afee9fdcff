-- ===== src/Types.antt =====
-- src/types.rs: peer states and events.
use focl.Base.{ℕ, String}
use focl.Base.Int.{ℤ}

pub data PeerState : Type 0 where
  idle connect active open_sent open_confirm established : PeerState

pub data Event : Type 0 where
  peer_state : String → PeerState → Event
  archive_segment_opened : String → String → ℤ → Event
  archive_segment_finalized : String → String → ℤ → ℕ → Event
  archive_replication_succeeded : String → String → Event
  archive_replication_failed : String → String → String → Event

pub record EventEnvelope : Type 0 where
  pub version : ℕ
  pub envelope_type : String
  pub event : Event

-- `EventEnvelope::new`
abbrev pub envelope : Event → EventEnvelope
envelope e = record { version = 1; envelope_type = "event"; event = e }
