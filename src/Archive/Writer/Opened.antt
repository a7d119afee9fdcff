-- ===== src/Archive/Writer/Opened.antt =====
-- src/archive/writer.rs: the writer that `new` gives, whichever calls fail.
use focl.Base.{some, [], ◌≡◌, refl}
use focl.Base.Int.{ℤ}
use focl.Config.{ArchiveConfig, CompressionKind, gzip, bzip2, zstd}
use focl.Archive.Types.{ArchiveStream, SegmentPaths}
use focl.Archive.World.{pure, touch, create_parent, write_file, update}
use focl.Archive.Triple.{
  Triple, Triple-bind, Triple-touch, Triple-pure, Triple-call, Triple-create_parent,
}
use focl.Archive.Writer.{SegmentWriter, started, new, new_encoder}

-- The writer is what it was told to be.
abbrev pub IsNew : ArchiveConfig → ArchiveStream → ℤ → SegmentPaths → SegmentWriter → Type 0
IsNew cfg stream start_ts paths w =
    (w.cfg ≡ cfg) × (w.stream ≡ stream) × (w.start_ts ≡ start_ts) × (w.paths ≡ paths)

Triple-encoder :
    (kind : CompressionKind)
    → Triple (λ _. Unit {0}) (new_encoder kind) (λ _ _. Unit {0}) (λ _. Unit {0})
unfolding new_encoder
Triple-encoder gzip = Triple-pure (λ _ _. tt) gzip
Triple-encoder bzip2 = Triple-pure (λ _ _. tt) bzip2
Triple-encoder zstd =
    Triple-bind (touch _) (λ _. pure zstd) (Triple-touch (λ _ _. tt) _)
      (λ _. Triple-pure (λ _ _. tt) zstd)

pub new-IsNew :
    (cfg : ArchiveConfig) (stream : ArchiveStream) (start_ts : ℤ) (paths : SegmentPaths)
    → Triple
        (λ _. Unit {0})
        (new cfg stream start_ts paths)
        (λ w _. IsNew cfg stream start_ts paths w)
        (λ _. Unit {0})
unfolding new
new-IsNew cfg stream start_ts paths =
    Triple-bind (create_parent _ paths.tmp_path) _
      (Triple-create_parent (λ _ _. tt) _ paths.tmp_path)
      (λ _.
        Triple-bind (create_parent _ paths.final_path) _
          (Triple-create_parent (λ _ _. tt) _ paths.final_path)
          (λ _.
            Triple-bind (write_file _ paths.tmp_path []) _
              (Triple-call _ (update paths.tmp_path (some [])) (λ _ _. tt) (λ _ _. tt))
              (λ _.
                Triple-bind (new_encoder cfg.compression)
                  (λ encoder. pure (started cfg stream start_ts paths encoder))
                  (Triple-encoder cfg.compression)
                  (λ encoder. record { at = λ w p. (refl, refl, refl, refl) }))))
