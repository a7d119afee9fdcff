-- ===== src/Archive/Service/Ticks.antt =====
-- src/archive/mod.rs: what a tick leaves, and the tick after it in the same buckets.
use focl.Base.{
  Bool, Bool-cases, true, false, Option, none, some, ◌≡◌, ==_iff, ◌∙◌, ap, refl, subst, sym, not,
  inl, inr, arith, Result, ok, err,
}
use focl.Base.Int.{ℤ, pos, negsuc, eq_ℤ}
use focl.Config.{ArchiveConfig}
use focl.Archive.Layout.{aligned_epoch}
use focl.Archive.World.{World}
use focl.Archive.Service.{
  ArchiveService, Kit, Act, ◌>>=◌, ◌>>◌, act_if, lift, rotate_to, ensure_updates_writer,
  needs_rotate,
}
use focl.Archive.Service.Bucket.{OnOk, OpenAt, eq_ℤ→eq, ensure_updates_writer-OpenAt}
use focl.Archive.Service.Rounds.{snap, tick_ribs, tick, is_due, set_last_rib_bucket}
use focl.Archive.Service.Steps.{
  From, From-both, From-bind, From-act_if, From-fields, From-weaken, From-lift_ok,
}
use focl.Archive.Service.Kept.{cfg-With, apart, ensure-With, snap-Apart}

-- The open segment is that of the bucket `bu`, and the last snapshot that of `br`.
abbrev pub Ticked : ArchiveConfig → ℤ → ℤ → ArchiveService → Type 0
Ticked c bu br s = (s.cfg ≡ c) × OpenAt bu tt s × (s.last_rib_bucket ≡ some br)

not_due : (br : ℤ) (last : Option ℤ) → is_due br last ≡ false → last ≡ some br
not_due br none h = absurd (ground arith)
not_due br (some l) h = ap some (eq_ℤ→eq l br (ground arith))

OpenAt-same :
    (bu : ℤ) (s t : ArchiveService)
    → OpenAt bu tt s
    → t.updates_writer ≡ s.updates_writer
    → OpenAt bu tt t
OpenAt-same bu s t (w, e, at) h = (w, h ∙ e, at)

-- `tick_ribs` of the fields that it reads.
abbrev ribs_of : Kit → ℤ → ArchiveService → Act (Unit {0})
ribs_of kit now s = lift (aligned_epoch now s.cfg.ribs_interval_secs) >>= λ bucket.
    act_if (is_due bucket s.last_rib_bucket) (snap kit now s >> set_last_rib_bucket (some bucket))

tick_ribs-Ticked :
    (c : ArchiveConfig) (kit : Kit) (now bu br : ℤ)
    → aligned_epoch now c.ribs_interval_secs ≡ ok br
    → From (λ s. (s.cfg ≡ c) × OpenAt bu tt s) (tick_ribs kit now) (λ _. Ticked c bu br)
unfolding tick_ribs
tick_ribs-Ticked c kit now bu br h = From-fields (ribs_of kit now) (λ s p.
    From-lift_ok (aligned_epoch now s.cfg.ribs_interval_secs) br
      (λ bucket.
        act_if (is_due bucket s.last_rib_bucket)
          (snap kit now s >> set_last_rib_bucket (some bucket)))
      (rw (p.0) h)
      (From-act_if (is_due br s.last_rib_bucket) (snap kit now s >> set_last_rib_bucket (some br))
        (λ _.
          From-bind (snap kit now s) (λ _. set_last_rib_bucket (some br))
            (From-weaken (λ t e. apart s s t (refl, refl) e) (snap-Apart s kit now s))
            (λ _. record { at = λ t w q. (q.0 ∙ p.0, OpenAt-same bu s t p.1 q.1, refl) }))
        (λ e. record {
          at = λ t w same.
              subst (Ticked c bu br) (sym same) (p.0, p.1, not_due br s.last_rib_bucket e);
        })))

ensure-Ticked :
    (kit : Kit) (now bu : ℤ) (s : ArchiveService)
    → aligned_epoch now s.cfg.updates_interval_secs ≡ ok bu
    → From (λ t. t ≡ s) (ensure_updates_writer kit now) (λ _ t. (t.cfg ≡ s.cfg) × OpenAt bu tt t)
ensure-Ticked kit now bu s h =
    From-both (From-weaken (λ t e. cfg-With s.cfg s t refl e) (ensure-With s.cfg kit now))
      (record { at = λ t w e. ensure_updates_writer-OpenAt kit now t w bu (rw (e) h) })

tick-Ticked :
    (kit : Kit) (now bu br : ℤ) (s : ArchiveService)
    → aligned_epoch now s.cfg.updates_interval_secs ≡ ok bu
    → aligned_epoch now s.cfg.ribs_interval_secs ≡ ok br
    → From
        (λ t. t ≡ s)
        (ensure_updates_writer kit now >> tick_ribs kit now)
        (λ _. Ticked s.cfg bu br)
tick-Ticked kit now bu br s h k =
    From-bind (ensure_updates_writer kit now) (λ _. tick_ribs kit now)
      (ensure-Ticked kit now bu s h) (λ _. tick_ribs-Ticked s.cfg kit now bu br k)

eq_ℤ_refl : (a : ℤ) → eq_ℤ a a ≡ true
eq_ℤ_refl (pos a) = (==_iff a a).1 refl
eq_ℤ_refl (negsuc a) = (==_iff a a).1 refl

open_needs :
    (bu : ℤ) (s : ArchiveService) → OpenAt bu tt s → needs_rotate bu s.updates_writer ≡ false
open_needs bu s (w, e, at) = rw (e, at) (ap not (eq_ℤ_refl bu))

module _ (s : ArchiveService) (w : World) where
  lift_then :
      (r : Result ℤ) (a : ℤ) (next : ℤ → Act (Unit {0}))
      → r ≡ ok a
      → next a (s, w) ≡ (ok tt, (s, w))
      → (lift r >>= next) (s, w) ≡ (ok tt, (s, w))
  lift_then (ok b) a next e h = let same : b ≡ a = ground arith in rw (same) h
  lift_then (err m) a next e h = absurd (ground arith)

  skipped : (b : Bool) (act : Act (Unit {0})) → b ≡ false → act_if b act (s, w) ≡ (ok tt, (s, w))
  skipped true act h = absurd (ground arith)
  skipped false act h = refl

  both_idle :
      (x y : Act (Unit {0}))
      → x (s, w) ≡ (ok tt, (s, w))
      → y (s, w) ≡ (ok tt, (s, w))
      → (x >> y) (s, w) ≡ (ok tt, (s, w))
  both_idle x y h k = subst (λ r. ◌>>=◌ (λ _. r) (λ _. y) (s, w) ≡ (ok tt, (s, w))) (sym h) k

  idle_if :
      (b : Bool) (act : Act (Unit {0}))
      → act (s, w) ≡ (ok tt, (s, w))
      → act_if b act (s, w) ≡ (ok tt, (s, w))
  idle_if true act h = h
  idle_if false act h = refl

-- `ensure_updates_writer` in the bucket of the open segment.
pub ensure_idle :
    (kit : Kit) (now bu : ℤ) (s : ArchiveService) (w : World)
    → aligned_epoch now s.cfg.updates_interval_secs ≡ ok bu
    → OpenAt bu tt s
    → ensure_updates_writer kit now (s, w) ≡ (ok tt, (s, w))
unfolding ensure_updates_writer
ensure_idle kit now bu s w u o =
    lift_then s w (aligned_epoch now s.cfg.updates_interval_secs) bu
      (λ bucket. act_if (needs_rotate bucket s.updates_writer) (rotate_to kit now bucket s)) u
      (skipped s w (needs_rotate bu s.updates_writer) (rotate_to kit now bu s) (open_needs bu s o))

-- A tick of a service that has served the two buckets.
idle :
    (kit : Kit) (later bu br : ℤ) (s : ArchiveService) (w : World)
    → aligned_epoch later s.cfg.updates_interval_secs ≡ ok bu
    → aligned_epoch later s.cfg.ribs_interval_secs ≡ ok br
    → OpenAt bu tt s
    → s.last_rib_bucket ≡ some br
    → tick kit later (s, w) ≡ (ok tt, (s, w))
unfolding tick tick_ribs
idle kit later bu br s w u r o last =
    idle_if s w s.cfg.enabled (ensure_updates_writer kit later >> tick_ribs kit later) (
      both_idle s w (ensure_updates_writer kit later) (tick_ribs kit later)
        (ensure_idle kit later bu s w u o)
        (lift_then s w (aligned_epoch later s.cfg.ribs_interval_secs) br
          (λ bucket.
            act_if (is_due bucket s.last_rib_bucket)
              (snap kit later s >> set_last_rib_bucket (some bucket)))
          r
          (skipped s w (is_due br s.last_rib_bucket)
            (snap kit later s >> set_last_rib_bucket (some br))
            (rw (last) (ap not (eq_ℤ_refl br))))))

ended :
    (Q : Unit {0} → ArchiveService → Type 0) (out : Result (Unit {0}) × (ArchiveService × World))
    (s' : ArchiveService) (w' : World)
    → out ≡ (ok tt, (s', w'))
    → OnOk Q out
    → Q tt s'
ended Q out s' w' e h = subst (OnOk Q) e h

-- After a tick that succeeds, a further tick in the same two buckets succeeds and does nothing: no call on
-- the files, no event, no segment opened, closed or queued.
pub tick-again :
    (kit : Kit) (now later bu br : ℤ) (s s' : ArchiveService) (w w' : World)
    → aligned_epoch now s.cfg.updates_interval_secs ≡ ok bu
    → aligned_epoch later s.cfg.updates_interval_secs ≡ ok bu
    → aligned_epoch now s.cfg.ribs_interval_secs ≡ ok br
    → aligned_epoch later s.cfg.ribs_interval_secs ≡ ok br
    → tick kit now (s, w) ≡ (ok tt, (s', w'))
    → tick kit later (s', w') ≡ (ok tt, (s', w'))
unfolding tick
tick-again kit now later bu br s s' w w' u u' r r' run = elim (Bool-cases s.cfg.enabled) [
  | inl e ↦
      let ran : (ensure_updates_writer kit now >> tick_ribs kit now) (s, w) ≡ (ok tt, (s', w')) =
        subst
          (λ b.
            act_if b (ensure_updates_writer kit now >> tick_ribs kit now) (s, w)
            ≡ (ok tt, (s', w')))
          e run in
      let (c, o, last) : Ticked s.cfg bu br s' =
        ended (λ _. Ticked s.cfg bu br)
          ((ensure_updates_writer kit now >> tick_ribs kit now) (s, w)) s' w' ran
          ((tick-Ticked kit now bu br s u r).at s w refl) in
      idle kit later bu br s' w' (rw (c) u') (rw (c) r') o last
  | inr e ↦
      let stayed : (s, w) ≡ (s', w') =
        ap (λ out. out.1)
          (subst
            (λ b.
              act_if b (ensure_updates_writer kit now >> tick_ribs kit now) (s, w)
              ≡ (ok tt, (s', w')))
            e run) in
      skipped s' w' s'.cfg.enabled (ensure_updates_writer kit later >> tick_ribs kit later)
        (ap (λ st. st.0.cfg.enabled) (sym stayed) ∙ e)
]
