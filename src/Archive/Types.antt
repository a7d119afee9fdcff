-- ===== src/Archive/Types.antt =====
-- src/archive/types.rs: the archive's data.
use focl.Base.{ℕ, String, Bool, Option, List}
use focl.Base.Int.{ℤ}
use focl.Net.{IpAddr}
use focl.Config.{CompressionKind}

pub data ArchiveStream : Type 0 where
  updates ribs : ArchiveStream

-- `ArchiveStream::as_str`
unfoldable pub as_str : ArchiveStream → String
as_str updates = "updates"
as_str ribs = "ribs"

pub record SegmentPaths : Type 0 where
  pub tmp_path : String
  pub final_path : String
  pub relative_path : String

pub record FinalizedSegment : Type 0 where
  pub stream : ArchiveStream
  pub start_ts : ℤ
  pub end_ts : ℤ
  pub record_count : ℕ
  pub bytes : ℕ
  pub compression : CompressionKind
  pub final_path : String
  pub relative_path : String
  pub manifest_path : String

pub record UpdateRecordInput : Type 0 where
  pub timestamp : ℤ
  pub peer_asn : ℕ
  pub local_asn : ℕ
  pub interface_index : ℕ
  pub peer_ip : ℕ
  pub local_ip : ℕ
  pub bgp_message : List ℕ

pub record PeerStateRecordInput : Type 0 where
  pub timestamp : ℤ
  pub peer_asn : ℕ
  pub local_asn : ℕ
  pub interface_index : ℕ
  pub peer_ip : ℕ
  pub local_ip : ℕ
  pub old_state : ℕ
  pub new_state : ℕ

pub record SnapshotPeer : Type 0 where
  pub peer_bgp_id : ℕ
  pub peer_ip : IpAddr
  pub peer_asn : ℕ

pub record SnapshotRoute : Type 0 where
  pub sequence : ℕ
  pub prefix : ℕ
  pub prefix_len : ℕ
  pub peer_index : ℕ
  pub originated_time : ℕ
  pub path_attributes : List ℕ

pub record RibSnapshotInput : Type 0 where
  pub timestamp : ℤ
  pub collector_bgp_id : ℕ
  pub view_name : String
  pub peers : List SnapshotPeer
  pub routes : List SnapshotRoute

pub record ArchiveStatus : Type 0 where
  pub enabled : Bool
  pub collector_id : String
  pub updates_interval_secs : ℕ
  pub ribs_interval_secs : ℕ
  pub updates_open_path : Option String
  pub updates_record_count : ℕ
  pub ribs_last_path : Option String
  pub ribs_last_record_count : ℕ
  pub queued_replication_jobs : ℕ
  pub replication_failures : ℕ
