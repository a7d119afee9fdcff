-- ===== src/Archive/Service/Bucket.antt =====
-- src/archive/mod.rs: the bucket of the open segment.
use focl.Base.{
  Bool-cases, true, false, Option, none, some, ◌≡◌, ap, ==_iff, subst, refl, inl, inr, arith,
  Result, ok, err,
}
use focl.Base.Int.{ℤ, pos, negsuc, eq_ℤ}
use focl.Archive.Types.{updates}
use focl.Archive.Layout.{aligned_epoch, segment_paths}
use focl.Archive.World.{World, M}
use focl.Archive.Triple.{Post, Triple}
use focl.Archive.Writer.{SegmentWriter, new}
use focl.Archive.Service.{
  ArchiveService, Kit, Act, ◌>>=◌, set_writer, needs_rotate, rotate_to, ensure_updates_writer,
  on_files, close, lift, emit,
}
use focl.Archive.Writer.Opened.{IsNew, new-IsNew}

-- A result comes with `Q`.
abbrev pub OnOk :
    {A : Type 0} → (A → ArchiveService → Type 0) → Result A × (ArchiveService × World) → Type 0
OnOk Q (ok a, (s, w)) = Q a s
OnOk Q (err e, _) = Unit {0}

pub record Ensures {A : Type 0} (act : Act A) (Q : A → ArchiveService → Type 0) : Type 0 where
  pub at : (state : ArchiveService × World) → OnOk Q (act state)

after-OnOk :
    {A B : Type 0} (Q : B → ArchiveService → Type 0) (r : Result A) (state : ArchiveService × World)
    (next : A → Act B)
    → ((a : A) → (r ≡ ok a) → Ensures (next a) Q)
    → OnOk Q (◌>>=◌ (λ _. (r, state)) next state)
after-OnOk Q (ok a) state next k = (k a refl).at state
after-OnOk Q (err e) state next k = tt

Ensures-bind :
    {A B : Type 0} {Q : B → ArchiveService → Type 0} (act : Act A) (next : A → Act B)
    → ((a : A) → Ensures (next a) Q)
    → Ensures (act >>= next) Q
Ensures-bind {Q} act next k = record {
  at = λ state. after-OnOk Q (act state).0 (act state).1 next (λ a _. k a);
}

-- The result of an action on files that always gives a value with `R`.
given :
    {A : Type 0} (R : A → Type 0) (a : A) (r : Result A) (w : World)
    → Post (λ b _. R b) (λ _. Unit {0}) (r, w)
    → r ≡ ok a
    → R a
given R a (ok b) w p e = let same : b ≡ a = ground arith in subst R same p
given R a (err m) w p e = absurd (ground arith)

Ensures-on_files :
    {A B : Type 0} {Q : B → ArchiveService → Type 0} (R : A → Type 0) (m : M A) (next : A → Act B)
    → Triple (λ _. Unit {0}) m (λ a _. R a) (λ _. Unit {0})
    → ((a : A) → R a → Ensures (next a) Q)
    → Ensures (on_files m >>= next) Q
Ensures-on_files {Q} R m next t k = record {
  at = λ state.
      after-OnOk Q (m state.1).0 (state.0, (m state.1).1) next
        (λ a e. k a (given R a (m state.1).0 (m state.1).1 (t.at state.1 tt) e));
}

-- The open segment is that of the bucket.
abbrev pub OpenAt : ℤ → Unit {0} → ArchiveService → Type 0
OpenAt bucket _ s = (w : SegmentWriter) × (s.updates_writer ≡ some w) × (w.start_ts ≡ bucket)

rotate_to-Ensures :
    (kit : Kit) (now bucket : ℤ) (s : ArchiveService)
    → Ensures (rotate_to kit now bucket s) (OpenAt bucket)
unfolding rotate_to
rotate_to-Ensures kit now bucket s = Ensures-bind (close kit now s.updates_writer) _ (λ _.
    Ensures-bind (lift (segment_paths kit.timestamp_opt s.cfg updates now)) _ (λ paths.
      Ensures-bind (emit _) _ (λ _.
        Ensures-on_files (IsNew s.cfg updates bucket paths) (new s.cfg updates bucket paths)
          (λ writer. set_writer (some writer)) (new-IsNew s.cfg updates bucket paths)
          (λ w (k : IsNew s.cfg updates bucket paths w). record { at = λ state. (w, refl, k.2) }))))

pub eq_ℤ→eq : (a b : ℤ) → eq_ℤ a b ≡ true → a ≡ b
eq_ℤ→eq (pos a) (pos b) h = ap pos ((==_iff a b).0 h)
eq_ℤ→eq (pos a) (negsuc b) h = absurd (ground arith)
eq_ℤ→eq (negsuc a) (pos b) h = absurd (ground arith)
eq_ℤ→eq (negsuc a) (negsuc b) h = ap negsuc ((==_iff a b).0 h)

kept-OpenAt :
    (bucket : ℤ) (writer : Option SegmentWriter) (s : ArchiveService)
    → s.updates_writer ≡ writer
    → needs_rotate bucket writer ≡ false
    → OpenAt bucket tt s
kept-OpenAt bucket none s e h = absurd (ground arith)
kept-OpenAt bucket (some w) s e h = (w, e, eq_ℤ→eq w.start_ts bucket (ground arith))

-- When `ensure_updates_writer` succeeds, whatever was open before and whichever calls fail, a segment is
-- open, and it starts at the bucket of the timestamp that the call was given.
pub ensure_updates_writer-OpenAt :
    (kit : Kit) (now : ℤ) (s : ArchiveService) (world : World) (bucket : ℤ)
    → aligned_epoch now s.cfg.updates_interval_secs ≡ ok bucket
    → OnOk (OpenAt bucket) (ensure_updates_writer kit now (s, world))
unfolding ensure_updates_writer
ensure_updates_writer-OpenAt kit now s world bucket h =
    elim (Bool-cases (needs_rotate bucket s.updates_writer)) [
      | inl e ↦
          rw (h, ensure_updates_writer, e) ((rotate_to-Ensures kit now bucket s).at (s, world))
      | inr e ↦ rw (h, ensure_updates_writer, e) (kept-OpenAt bucket s.updates_writer s refl e)
    ]
