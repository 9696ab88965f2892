-- ===== src/Command/Prune/Losses.antt =====
-- What `pruneCmd` prints when a builder fails.
use mathlib.Core.List.{append_assoc, map-append}
use buildfarm.Base.{
  List, [], ◌∷◌, ◌++◌, map, codes, All, Option, some, ap, sym, ◌∙◌, none, Bytes, ◌≡◌, ◌≢◌, refl,
}
use buildfarm.Base.Map.{lookup, keys}
use buildfarm.Base.Sort.{IsNodup}
use buildfarm.Base.Result.{Error, ok}
use buildfarm.Types.{PruneImageOptions}
use buildfarm.Farm.{Builders}
use buildfarm.Command.Status.Ready.{error_or_nil-none, some-ne-none}
use buildfarm.Farm.Members.{Reports, prune_images, error_or_nil, member_error}
use buildfarm.Farm.Members.Visits.{
  Pruned, failure_of, prunes, prune_errors, last_kept, prune_images-reports, prune_images-IsNodup,
}
use buildfarm.Farm.Open.{OpenFarm}
use buildfarm.Command.{Settings, Globals, Outside, get_farm, named_farm}
use buildfarm.Command.Opening.{on_farm-opened}
use buildfarm.Command.Prune.{image_lines, report_lines, print_reports, run_prune, prune_cmd}

abbrev with_key : Bytes → Bytes → Bytes × Bytes
with_key key x = (key, x)

-- Every image that the reports have, with the key of its report: by report, and in each the names
-- before the IDs.
pub removed : Reports → List (Bytes × Bytes)
removed [] = []
removed ((key, r) ∷ rest) = map (with_key key) (r.image_names ++ r.image_ids) ++ removed rest

-- A line "key: image" for each.
pub removal_lines : List (Bytes × Bytes) → Bytes
removal_lines [] = []
removal_lines ((key, x) ∷ rest) = (key ++ codes ": " ++ x ++ b'\n' ∷ []) ++ removal_lines rest

removal_lines-append :
    (l m : List (Bytes × Bytes)) → removal_lines (l ++ m) ≡ removal_lines l ++ removal_lines m
unfolding removal_lines
removal_lines-append [] m = refl
removal_lines-append ((key, x) ∷ l) m =
    let line = key ++ codes ": " ++ x ++ b'\n' ∷ [] in
    ap (λ t. line ++ t) (removal_lines-append l m)
    ∙ sym (append_assoc line (removal_lines l) (removal_lines m))

removal_lines-image_lines :
    (key : Bytes) (xs : List Bytes) → image_lines key xs ≡ removal_lines (map (with_key key) xs)
unfolding image_lines removal_lines
removal_lines-image_lines key [] = refl
removal_lines-image_lines key (x ∷ xs) =
    ap (λ t. (key ++ codes ": " ++ x ++ b'\n' ∷ []) ++ t) (removal_lines-image_lines key xs)

report_lines-removed : (m : Reports) → report_lines m ≡ removal_lines (removed m)
unfolding report_lines removed removal_lines
report_lines-removed [] = refl
report_lines-removed ((key, r) ∷ rest) =
    let names = map (with_key key) r.image_names in
    let ids = map (with_key key) r.image_ids in
    rw
      (
        removal_lines-image_lines key r.image_names,
        removal_lines-image_lines key r.image_ids,
        report_lines-removed rest,
        map-append (with_key key) r.image_names r.image_ids,
        append_assoc names ids (removed rest),
        removal_lines-append names (ids ++ removed rest),
        removal_lines-append ids (removed rest),
      )
      refl

-- No builder has failed to prune.
abbrev pub AllPruned : List Pruned → Type 0
AllPruned ps = All (λ p. failure_of p.answer ≡ none) ps

append-ne-nil : (es : List Error) (e : Error) → es ++ e ∷ [] ≢ []
append-ne-nil [] e h = cc
append-ne-nil (x ∷ es) e h = cc

member_error-nil :
    (name : Bytes) (e : Option Error) (es : List Error)
    → member_error name e es ≡ []
    → (e ≡ none) × (es ≡ [])
member_error-nil name none es h = (refl, h)
member_error-nil name (some e) es h = absurd (append-ne-nil es _ h)

prune_errors-pruned : (ps : List Pruned) → AllPruned ps → prune_errors ps [] ≡ []
prune_errors-pruned [] h = refl
prune_errors-pruned (p ∷ ps) h = rw h.0 (prune_errors-pruned ps h.1)

pruned-prune_errors :
    (ps : List Pruned) (es : List Error) → prune_errors ps es ≡ [] → (es ≡ []) × AllPruned ps
pruned-prune_errors [] es h = (h, tt)
pruned-prune_errors (p ∷ ps) es h =
    let (e, all) = pruned-prune_errors ps (member_error p.name (failure_of p.answer) es) h in
    let (q, k) = member_error-nil p.name (failure_of p.answer) es e in (k, (q, all))

module _ {W : Type 0} (outside : Outside W) where
  -- The output has a line for each image of the reports, which are those of the builders.
  pub record Printed (bs : Builders W) (options : PruneImageOptions) (v : W) (printed : Bytes)
      : Type 0 where
    pub reports : Reports
    pub nodup : IsNodup (keys reports)
    pub of_builders :
        (k : Bytes)
        → lookup k reports ≡ last_kept k (prunes outside.connections.join options bs v).0
    pub lines : printed ≡ removal_lines (removed reports)

  print-cases :
      (bs : Builders W) (options : PruneImageOptions) (v : W) (m : Reports) (e : Option Error)
      → IsNodup (keys m)
      → ((k : Bytes) → lookup k m ≡ last_kept k (prunes outside.connections.join options bs v).0)
      → let ps = (prunes outside.connections.join options bs v).0 in
        let r = print_reports m e in
        e ≡ error_or_nil outside.connections.join (prune_errors ps [])
        → (¬ AllPruned ps → (r.0 ≡ []) × (r.1 ≢ none))
          × (AllPruned ps → (r.1 ≡ none) × Printed bs options v r.0)
  print-cases bs options v m none d found q =
      let ps = (prunes outside.connections.join options bs v).0 in
      let no_errors = error_or_nil-none outside.connections.join (prune_errors ps []) q in
      let (_, all) = pruned-prune_errors ps [] no_errors in
      (
        λ some_failed. absurd (some_failed all),
        λ _. (
          refl,
          record { reports = m; nodup = d; of_builders = found; lines = report_lines-removed m },
        ),
      )
  print-cases bs options v m (some x) d found q = (
    λ _. (refl, λ k. some-ne-none k),
    λ all. absurd (
        some-ne-none (
          q
          ∙ ap (error_or_nil outside.connections.join)
              (prune_errors-pruned (prunes outside.connections.join options bs v).0 all))),
  )

  -- Once the farm is open, `prune` has every builder prune. If none fails, it prints a line for each
  -- image of their reports, with the key of the report, of which there is one for each key; if one
  -- fails, the others have pruned as well, but the command prints nothing of it and fails.
  pub prune_cmd-printed :
      (args : List Bytes) (options : PruneImageOptions) (s : Settings) (g : Globals W)
      (f : OpenFarm W) (w v : W)
      → get_farm outside (named_farm args s) g w ≡ (ok f, v)
      → let (ran, after) = prune_cmd outside args options s g w in
        let (ps, pruned) = prunes outside.connections.join options f.builders v in
        (after ≡ pruned)
        × (¬ AllPruned ps → (ran.printed ≡ []) × (ran.error ≢ none))
        × (AllPruned ps → (ran.error ≡ none) × Printed f.builders options v ran.printed)
  unfolding prune_cmd
  prune_cmd-printed args options s g f w v h =
      let join = outside.connections.join in
      let (found, errors, world) = prune_images-reports join options f.builders v in
      let r = prune_images join f.builders options v in
      let (fails, works) =
        print-cases f.builders options v r.0.0 r.0.1
          (prune_images-IsNodup join options f.builders v) found errors in
      rw (on_farm-opened outside (named_farm args s) g (run_prune outside options) f w v h)
        (world, fails, works)
