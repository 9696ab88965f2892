-- ===== src/Farm/Members.antt =====
-- `forEach`, `PruneImages`, `Done` and `Status` of buildfarm.go, which ask every member of the farm.
pub mod Visits
use buildfarm.Base.{List, [], ◌∷◌, ◌++◌, Bool, false, Option, none, some, if◌then◌else◌, Bytes}
use buildfarm.Base.Map.{Map, insert}
use buildfarm.Base.Result.{Error, wrapf, Result, ok, err}
use buildfarm.Types.{ImageBuilder, PruneImageOptions, PruneImageReport, Call}
use buildfarm.Farm.{Builders}

-- `ErrorOrNil()`
abbrev pub error_or_nil : (List Error → Error) → List Error → Option Error
error_or_nil join [] = none
error_or_nil join (e ∷ es) = some (join (e ∷ es))

-- What a function that `forEach` calls returns, and what it has written by then.
pub record Outcome (A : Type 0) : Type 0 where
  pub written : A
  pub stop : Bool
  pub error : Option Error

abbrev pub member_error : Bytes → Option Error → List Error → List Error
member_error name none es = es
member_error name (some e) es = es ++ wrapf "%s: %w" (name ∷ []) e ∷ []

module _ {W A : Type 0} (fn : Bytes → ImageBuilder W → A → Call W (Outcome A)) where
  -- The loop of `forEach`, with what `fn` writes and the errors so far.
  unfoldable pub for_each : Builders W → A → List Error → Call W (A × List Error)
  for_each [] a es w = ((a, es), w)
  for_each ((name, b) ∷ bs) a es w =
      let (o, w1) = fn name b a w in
      let es1 = member_error b.name o.error es in
      let rest = for_each bs o.written es1 w1 in if o.stop then ((o.written, es1), w1) else rest

abbrev pub Reports : Type 0
Reports = Map PruneImageReport

abbrev pub keep_report : Bytes → Result PruneImageReport → Reports → Outcome Reports
keep_report name (err e) reports = record { written = reports; stop = false; error = some e }
keep_report name (ok r) reports = record {
  written = insert name (record { image_ids = r.image_ids; image_names = [] }) reports;
  stop = false;
  error = none;
}

module _ {W : Type 0} (join : List Error → Error) where
  abbrev pub prune_member :
      PruneImageOptions → Bytes → ImageBuilder W → Reports → Call W (Outcome Reports)
  prune_member options name b reports w =
      let (r, w1) = b.prune_images options w in (keep_report name r reports, w1)

  -- `PruneImages`
  unfoldable pub prune_images : Builders W → PruneImageOptions → Call W (Reports × Option Error)
  unfolding for_each
  prune_images bs options w =
      let ((reports, es), w1) = for_each (prune_member options) bs [] [] w in
      ((reports, error_or_nil join es), w1)

  abbrev pub finish_member : Bytes → ImageBuilder W → Unit {0} → Call W (Outcome (Unit {0}))
  finish_member name b u w =
      let (e, w1) = b.done w in (record { written = u; stop = false; error = e }, w1)

  -- `Done`
  unfoldable pub farm_done : Builders W → Call W (Option Error)
  unfolding for_each
  farm_done bs w =
      let ((u, es), w1) = for_each finish_member bs tt [] w in (error_or_nil join es, w1)

abbrev pub group_error : Option Error → List Error → List Error
group_error none es = es
group_error (some e) es = es ++ e ∷ []

module _ {W : Type 0} (join : List Error → Error) where
  -- The goroutines of `Status`.
  unfoldable pub poll :
      Builders W → Map (Option Error) → List Error → Call W (Map (Option Error) × List Error)
  poll [] m es w = ((m, es), w)
  poll ((name, b) ∷ bs) m es w =
      let (e, w1) = b.status w in poll bs (insert b.name e m) (group_error e es) w1

  -- `Status`
  unfoldable pub farm_status : Builders W → Call W (Map (Option Error) × Option Error)
  unfolding poll
  farm_status bs w = let ((m, es), w1) = poll bs [] [] w in ((m, error_or_nil join es), w1)
