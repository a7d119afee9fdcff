-- ===== src/Control/Rendered.antt =====
-- src/bin/focld.rs: the JSON values of the daemon's responses.
use focl.Base.{String, List, [], ◌∷◌}
use focl.Base.Int.{pos}
use focl.Bgp.{RibSummary}
use focl.Archive.Types.{ArchiveStatus, FinalizedSegment}
use focl.Control.{
  Value, boolean, number, text, array, object, Values, no_values, value_then, field_then, field,
  ArchiveStatusResult,
}

unfoldable pub status_result : ArchiveStatus → ArchiveStatusResult
status_result s = record {
  enabled = s.enabled;
  collector_id = s.collector_id;
  updates_interval_secs = s.updates_interval_secs;
  ribs_interval_secs = s.ribs_interval_secs;
  updates_open_path = s.updates_open_path;
  updates_record_count = s.updates_record_count;
  ribs_last_path = s.ribs_last_path;
  ribs_last_record_count = s.ribs_last_record_count;
  queued_replication_jobs = s.queued_replication_jobs;
  replication_failures = s.replication_failures;
}

unfoldable pub daemon_value : RibSummary → ArchiveStatus → Value
daemon_value rib s = object (
    field_then "daemon" (text "focld") (
      field_then "archive_enabled" (boolean s.enabled) (
        field_then "queued_replication_jobs" (number (pos s.queued_replication_jobs)) (
          field_then "peers_total" (number (pos rib.peers_total))
            (field "peers_established" (number (pos rib.peers_established)))))))

unfoldable pub segment_value : FinalizedSegment → Value
segment_value segment = object (
    field_then "path" (text segment.final_path)
      (field "records" (number (pos segment.record_count))))

unfoldable pub destination_values : List (String × String × String) → Values
destination_values [] = no_values
destination_values ((key, mode, type) ∷ rows) =
    value_then
      (object
        (field_then "key" (text key) (field_then "mode" (text mode) (field "type" (text type)))))
      (destination_values rows)

unfoldable pub values_of : {A : Type 0} → (A → Value) → List A → Values
values_of to_value [] = no_values
values_of to_value (a ∷ more) = value_then (to_value a) (values_of to_value more)

unfoldable pub prefixes_value : String → List String → Value
prefixes_value peer prefixes =
    object (field_then "peer" (text peer) (field "prefixes" (array (values_of text prefixes))))
