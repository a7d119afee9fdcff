-- ===== src/Archive/Layout.antt =====
-- src/archive/layout.rs: the bucket of a timestamp and the paths of a segment.
-- The calendar is chrono's `Utc.timestamp_opt`; it is an argument.
pub mod Buckets
pub mod Shared
use Prim.Native.String.{◌++◌}
use focl.Base.{
  ℕ, suc, String, Bool, true, false, not, ◌||◌, Option, none, some, ◌≡◌, refl, ◌==◌, if◌then◌else◌,
  is_none, Result, ok, err, ◌>>=◌, ◌>>◌, bail_if, ok_or,
}
use focl.Base.Int.{ℤ, pos, negsuc, ◌-ℤ◌, rem_euclid, wrap_i64, signed}
use focl.Base.Text.{padded, contains, replace, trim_start_matches}
use focl.Config.{
  LayoutProfile, route_views, ris, custom, ArchiveConfig, CustomLayoutTemplates, extension,
}
use focl.Archive.Types.{ArchiveStream, updates, ribs, SegmentPaths}
use focl.Archive.FilePath.{join, split_name, name_extension}

pub record DateTime : Type 0 where
  pub year : ℤ
  pub month : ℕ
  pub day : ℕ
  pub hour : ℕ
  pub minute : ℕ

-- An interval of 0 makes `rem_euclid` panic; the panic is an error with its message.
unfoldable pub aligned_epoch : ℤ → ℕ → Result ℤ
aligned_epoch timestamp interval_secs =
    if interval_secs == 0
    then err "attempt to calculate the remainder with a divisor of zero"
    else ok (wrap_i64 (timestamp -ℤ pos (rem_euclid timestamp interval_secs)))

-- `{:04}` of the year, which is signed.
year_text : ℤ → String
year_text (pos n) = padded 4 n
year_text (negsuc n) = "-" ++ padded 3 (suc n)

yyyymmdd_text : DateTime → String
unfolding year_text
yyyymmdd_text dt = year_text dt.year ++ (padded 2 dt.month ++ padded 2 dt.day)

hhmm_text : DateTime → String
hhmm_text dt = padded 2 dt.hour ++ padded 2 dt.minute

-- The rest of `build_custom_relative_path`: a file name with no extension gets one.
with_extension : String → String → String × String → Result String
with_extension path ext (dir, name) =
    if is_none (name_extension name) then ok (dir ++ (name ++ ("." ++ ext))) else ok path

unfoldable pub build_custom_relative_path : String → String → DateTime → String → Result String
unfolding year_text yyyymmdd_text hhmm_text with_extension
build_custom_relative_path template collector dt ext = do
  bail_if
      (not (contains template "{collector}")
        || (not (contains template "{yyyymmdd}") || not (contains template "{hhmm}")))
      "custom template must contain {collector}, {yyyymmdd}, and {hhmm} tokens"
  let t1 = replace "{collector}" collector template
  let t2 = replace "{yyyy}" (year_text dt.year) t1
  let t3 = replace "{mm}" (padded 2 dt.month) t2
  let t4 = replace "{dd}" (padded 2 dt.day) t3
  let t5 = replace "{yyyymmdd}" (yyyymmdd_text dt) t4
  let t6 = replace "{hhmm}" (hhmm_text dt) t5
  let path = replace "{ext}" ext t6
  named ← ok_or (split_name path) "custom template did not produce file name"
  with_extension path ext named

unfoldable pub interval_of : ArchiveConfig → ArchiveStream → ℕ
interval_of cfg updates = cfg.updates_interval_secs
interval_of cfg ribs = cfg.ribs_interval_secs

template_of : CustomLayoutTemplates → ArchiveStream → String
template_of t updates = t.updates
template_of t ribs = t.ribs

-- The directory and file prefix of the two fixed layouts.
fixed_part : LayoutProfile → ArchiveStream → String
fixed_part route_views updates = "/UPDATES/updates."
fixed_part route_views ribs = "/RIBS/rib."
fixed_part ris updates = "/updates."
fixed_part ris ribs = "/bview."
fixed_part custom _ = ""

fixed_path : ArchiveConfig → ArchiveStream → DateTime → String
unfolding year_text yyyymmdd_text hhmm_text fixed_part
fixed_path cfg stream dt =
    cfg.collector_id
    ++ ("/"
        ++ (year_text dt.year
            ++ ("."
                ++ (padded 2 dt.month
                    ++ (fixed_part cfg.layout_profile stream
                        ++ (yyyymmdd_text dt
                            ++ ("." ++ (hhmm_text dt ++ ("." ++ extension cfg.compression)))))))))

custom_path : ArchiveConfig → ArchiveStream → DateTime → Result String
unfolding template_of
custom_path cfg stream dt = do
  templates ← ok_or cfg.custom_templates "custom layout profile requires archive.custom_templates"
  build_custom_relative_path (template_of templates stream) cfg.collector_id dt
      (extension cfg.compression)

relative_path_by : LayoutProfile → ArchiveConfig → ArchiveStream → DateTime → Result String
unfolding fixed_path custom_path
relative_path_by route_views cfg stream dt = ok (fixed_path cfg stream dt)
relative_path_by ris cfg stream dt = ok (fixed_path cfg stream dt)
relative_path_by custom cfg stream dt = custom_path cfg stream dt

-- The paths of a segment that starts at a point of the calendar.
unfoldable pub paths_at : ArchiveConfig → ArchiveStream → DateTime → Result SegmentPaths
unfolding relative_path_by
paths_at cfg stream dt = do
  relative_path ← relative_path_by cfg.layout_profile cfg stream dt
  named ← ok_or (split_name relative_path) "cannot derive temporary file name for archive segment"
  ok (record {
    tmp_path =
        join cfg.tmp_root
          (named.0 ++ ("." ++ (replace "/" "_" (trim_start_matches b'.' named.1) ++ ".tmp")));
    final_path = join cfg.root relative_path;
    relative_path = relative_path;
  })

unfoldable pub segment_paths :
    (ℤ → Option DateTime) → ArchiveConfig → ArchiveStream → ℤ → Result SegmentPaths
unfolding interval_of
segment_paths timestamp_opt cfg stream timestamp = do
  aligned ← aligned_epoch timestamp (interval_of cfg stream)
  dt ← ok_or (timestamp_opt aligned) ("invalid timestamp " ++ signed aligned)
  paths_at cfg stream dt
