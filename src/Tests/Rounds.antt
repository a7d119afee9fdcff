-- ===== src/Tests/Rounds.antt =====
-- A service over its buckets, a dump, and an archive that is disabled.
use focl.Base.{ℕ, String, Option, List, true, none, some, [], ◌∷◌, ◌≡◌, refl, arith, Result, ok, ap}
use focl.Base.Int.{pos, rem_euclid, wrap_i64, ◌-ℤ◌}
use focl.Net.{v4}
use focl.Archive.Types.{RibSnapshotInput, SegmentPaths, UpdateRecordInput, ribs}
use focl.Archive.World.{create_parent, World, call}
use focl.Archive.Layout.{aligned_epoch, segment_paths, interval_of, paths_at}
use focl.Archive.FilePath.{parent, split_name, join}
use focl.Config.{extension}
use focl.Base.Text.{padded, replace, trim_start_matches}
use focl.Archive.Writer.{new, new_encoder}
use focl.Archive.Snapshot.{
  build_peer_index_table, encode_routes, encode_route, index_peers, contains_key,
  build_table_dump_v2, encode_bgp4mp_message_as4, parse_update_message, encode_mrt_message,
}
use focl.Archive.Snapshot.Dump.{is_ok, build_table_dump_v2_iff}
use focl.Archive.Service.{ArchiveService, ensure_updates_writer, rotate_to, close}
use focl.Archive.Service.Rounds.{with_collector, tick, tick_ribs, snapshot_now}
use focl.Archive.Service.Ticks.{tick-again}
use focl.Archive.Service.Stored.{dump_writer, files_with, snapshot_now-stored}
use focl.Archive.Service.Recorded.{ingest_all, grown}
use focl.Archive.Service.Groups.{Group, AreGroups, writer_of}
use focl.Archive.Service.Groups
use focl.Archive.Service.Overtaken.{ingest_update_with, ingest_update_overtaken}
use focl.Archive.Service.Archived.{AreApart, AreStored, ingest_all-archived}
use focl.Archive.Writer.Complete.{calm, segment_of}
use focl.Base.Text.{text_ne}
use focl.Tests.Segments.{calendar, no_files, writer}
use focl.Tests.Config.{archive}
use focl.Tests.Replicas.{kit, mrt, service, replicator}

-- Two peers and a route of the second.
abbrev snapshot : RibSnapshotInput
snapshot = record {
  timestamp = pos 1000;
  collector_bgp_id = 0;
  view_name = "main";
  peers =
      record { peer_bgp_id = 1; peer_ip = v4 3221225986; peer_asn = 64501 }
      ∷ record { peer_bgp_id = 2; peer_ip = v4 3221225987; peer_asn = 64502 }
      ∷ [];
  routes =
      record {
        sequence = 0;
        prefix = 3405803776;
        prefix_len = 24;
        peer_index = 1;
        originated_time = 900;
        path_attributes = 64 ∷ [];
      }
      ∷ [];
}

build_table_dump_v2_iff_example : is_ok (build_table_dump_v2 mrt snapshot) ≡ true
build_table_dump_v2_iff_example = (build_table_dump_v2_iff mrt snapshot).1 (record {
  peers = omega arith;
  routes =
      (record { prefix_len = omega arith; peer = omega arith; net = refl; attributes = refl }, tt);
})

abbrev an_update : UpdateRecordInput
an_update = record {
  timestamp = pos 1000;
  peer_asn = 64501;
  local_asn = 64500;
  interface_index = 0;
  peer_ip = 3221225986;
  local_ip = 3221225985;
  bgp_message = 255 ∷ [];
}

-- The service after the first snapshot, without a segment of updates.
abbrev begun : ArchiveService
begun = record service { last_rib_bucket = some (pos 0) }

abbrev ticked : Result (Unit {0}) × (ArchiveService × World)
ticked = tick kit (pos 1000) (begun, calm no_files 0)

one_tick : ticked.0 ≡ ok tt
unfolding tick tick_ribs ensure_updates_writer rotate_to close segment_paths interval_of
    aligned_epoch rem_euclid wrap_i64 ◌-ℤ◌ paths_at split_name padded extension join replace
    trim_start_matches new new_encoder call create_parent parent
one_tick = refl

tick-again_example : tick kit (pos 1700) ticked.1 ≡ (ok tt, ticked.1)
unfolding aligned_epoch rem_euclid wrap_i64 ◌-ℤ◌
tick-again_example =
    tick-again kit (pos 1000) (pos 1700) (pos 900) (pos 0) begun ticked.1.0 (calm no_files 0)
      ticked.1.1 refl refl refl refl (ap (λ r. (r, ticked.1)) one_tick)

-- The service with a segment that is open.
abbrev opened : ArchiveService
opened = record service { updates_writer = some writer }

-- An update of the next bucket, and where its segment goes.
abbrev later_update : UpdateRecordInput
later_update = record an_update { timestamp = pos 1900 }

abbrev next_group : Group
next_group = record {
  bucket = pos 1800;
  first = later_update;
  others = [];
  records = (9 ∷ 1 ∷ 2 ∷ []) ∷ [];
  paths = record {
    tmp_path = "/var/lib/focld/archive/.tmp/focl01/1970.01/UPDATES/.updates.19700101.0015.gz.tmp";
    final_path = "/var/lib/focld/archive/focl01/1970.01/UPDATES/updates.19700101.0015.gz";
    relative_path = "focl01/1970.01/UPDATES/updates.19700101.0015.gz";
  };
}

next_AreGroups : AreGroups kit archive writer (next_group ∷ [])
unfolding aligned_epoch rem_euclid wrap_i64 ◌-ℤ◌ encode_bgp4mp_message_as4 parse_update_message
    encode_mrt_message segment_paths interval_of paths_at split_name padded extension join replace
    trim_start_matches
next_AreGroups = (((refl, refl, tt), refl, omega arith), refl, tt)

next_AreApart : AreApart writer.paths (next_group ∷ [])
next_AreApart = (
  ((text_ne _ _ refl, text_ne _ _ refl, text_ne _ _ refl), tt),
  ((text_ne _ _ refl, text_ne _ _ refl, text_ne _ _ refl), tt),
  tt,
)

ingest_all-archived_example :
    (s' : ArchiveService) × (files' : String → Option (List ℕ)) × (m : ℕ) × (ingest_all kit
        (later_update ∷ [])
        (opened, calm no_files 0)
      ≡ (ok tt, (s', calm files' m)))
    × (s'.updates_writer ≡ some (writer_of archive next_group))
    × (s'.cfg ≡ archive)
    × AreStored kit (λ k. refl) archive files' writer (next_group ∷ [])
ingest_all-archived_example =
    ingest_all-archived kit opened writer (next_group ∷ []) no_files 0 (λ k. refl) refl refl
      next_AreGroups next_AreApart

-- What the dump consists of, and where it goes.
abbrev dump : List (List ℕ)
dump = (9 ∷ 1 ∷ 2 ∷ []) ∷ (9 ∷ 1 ∷ 2 ∷ []) ∷ []

abbrev dump_paths : SegmentPaths
dump_paths = record {
  tmp_path = "/var/lib/focld/archive/.tmp/focl01/1970.01/RIBS/.rib.19700101.0015.gz.tmp";
  final_path = "/var/lib/focld/archive/focl01/1970.01/RIBS/rib.19700101.0015.gz";
  relative_path = "focl01/1970.01/RIBS/rib.19700101.0015.gz";
}

paths_of_dump : segment_paths calendar archive ribs (pos 1000) ≡ ok dump_paths
unfolding segment_paths interval_of aligned_epoch rem_euclid wrap_i64 ◌-ℤ◌ paths_at split_name
    padded extension join replace trim_start_matches
paths_of_dump = refl

abbrev completed : RibSnapshotInput
completed = with_collector 3221225985 snapshot

records_of_dump : build_table_dump_v2 mrt completed ≡ ok dump
unfolding build_table_dump_v2 build_peer_index_table encode_routes encode_route encode_mrt_message
    index_peers contains_key
records_of_dump = refl

snapshot_now-stored_example :
    let w = dump_writer archive (pos 0) dump_paths dump in
    let segment = segment_of kit.lib (pos 1000) w in
    (m : ℕ) × (s' : ArchiveService) × (snapshot_now kit snapshot (service, calm no_files 0)
      ≡ (ok segment, (s', calm (files_with kit (pos 1000) w no_files) m)))
    × (s'.ribs_last ≡ some segment)
    × (s'.cfg ≡ archive)
    × (s'.updates_writer ≡ none)
    × (s'.last_rib_bucket ≡ none)
unfolding aligned_epoch rem_euclid wrap_i64 ◌-ℤ◌
snapshot_now-stored_example =
    snapshot_now-stored kit replicator service snapshot (pos 0) dump_paths dump no_files 0
      (λ k. refl) refl refl refl paths_of_dump records_of_dump (omega arith)

-- An update of the open bucket, overtaken by the one of the next bucket.
ingest_update_overtaken_example :
    (s' : ArchiveService) × (m : ℕ) × (ingest_update_with kit
        (λ st. (ingest_all kit (later_update ∷ []) st).1)
        an_update
        (opened, calm no_files 0)
      ≡ (ok tt, (s', calm (Groups.opened kit (λ k. refl) archive writer next_group no_files) m)))
    × (s'.updates_writer ≡ some (grown (writer_of archive next_group) (9 ∷ 1 ∷ 2 ∷ []) 1))
unfolding aligned_epoch rem_euclid wrap_i64 ◌-ℤ◌ encode_bgp4mp_message_as4 parse_update_message
    encode_mrt_message
ingest_update_overtaken_example =
    ingest_update_overtaken kit opened writer next_group an_update (9 ∷ 1 ∷ 2 ∷ []) no_files 0
      (λ k. refl) refl refl refl refl next_AreGroups.0 refl (omega arith)
