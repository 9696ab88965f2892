-- ===== src/Farm/Build/Group/Order.antt =====
-- Whatever turns the goroutines of `Build` take, they leave behind what they would leave one after the
-- other, in the order in which they called their builders.
use mathlib.Core.Path.{subst}
use mathlib.Core.List.Permᴰ
use mathlib.Core.List.{Permᴰ}
use buildfarm.Base.{ℕ, List, [], ◌++◌, Bytes, ◌≡◌, refl, sym, ap, ◌∙◌}
use buildfarm.Base.Map.{Map, lookup, keys}
use buildfarm.Base.Removal.{Permᴰ-IsNodup}
use buildfarm.Base.Sort.{IsNodup}
use buildfarm.Types.{BuildOptions}
use buildfarm.Farm.{Assignment}
use buildfarm.Farm.Assign.{or_else}
use buildfarm.Farm.Build.{Uses, Job, Progress, no_progress, run_builds}
use buildfarm.Farm.Build.Runs.{
  Run, runs, run_builds-runs, run_errors, errors-store_all, lookup-store_all, platforms_of,
  platforms-runs,
}
use buildfarm.Farm.Build.Group.{Group, Turns, started, IsDone}
use buildfarm.Farm.Build.Group.History.{History, History-Turns}
use buildfarm.Farm.Build.Group.Reports.{platforms_of-Permᴰ, last_report-Permᴰ, run_errors-Permᴰ}

keys-Permᴰ : {s t : Assignment} → Permᴰ s t → Permᴰ (keys s) (keys t)
keys-Permᴰ Permᴰ.nil = Permᴰ.nil
keys-Permᴰ (Permᴰ.cons e p) = Permᴰ.cons (ap (λ x. x.0) e) (keys-Permᴰ p)
keys-Permᴰ (Permᴰ.swap e f) = Permᴰ.swap (ap (λ x. x.0) e) (ap (λ x. x.0) f)
keys-Permᴰ (Permᴰ.trans p q) = Permᴰ.trans (keys-Permᴰ p) (keys-Permᴰ q)

module _ {W : Type 0} (uses : Uses W) (files : List Bytes) (options : BuildOptions)
    (jobs : Map (Job W)) where
  nothing_yet :
      (schedule : Assignment) (w : W)
      → History uses files options jobs schedule w (started uses schedule w)
  nothing_yet schedule w = record {
    called = [];
    written = [];
    order = Permᴰ.refl schedule;
    outcomes = Permᴰ.nil;
    world = refl;
    progress = refl;
  }

  -- The platforms of what was written are distinct.
  written_once :
      (called schedule : Assignment) (w : W) {written : List (Run W)}
      → IsNodup (keys schedule)
      → Permᴰ called schedule
      → Permᴰ written (runs uses files options jobs called w).0
      → IsNodup (platforms_of uses files options written)
  written_once called schedule w d order outcomes =
      Permᴰ-IsNodup (Permᴰ.symm (platforms_of-Permᴰ uses files options outcomes)) (
        subst IsNodup (sym (platforms-runs uses files options jobs called w))
          (Permᴰ-IsNodup (keys-Permᴰ (Permᴰ.symm order)) d))

  -- What a group leaves behind that has run one goroutine after the other, in the order `called`.
  abbrev pub in_turn : Assignment → W → Progress W × W
  in_turn called w = run_builds uses files options jobs called (no_progress uses) w

  -- A group that has done what it would have done one goroutine after the other, in some order.
  pub record InTurn (schedule : Assignment) (w : W) (g : Group W) : Type 0 where
    pub called : Assignment
    pub order : Permᴰ called schedule
    pub world : g.world ≡ (in_turn called w).1
    pub results : (k : Bytes) → lookup k g.progress.results ≡ lookup k (in_turn called w).0.results
    pub errors : Permᴰ g.progress.errors (in_turn called w).0.errors

  -- Whatever turns the goroutines of a build take, when all are done there is an order of the
  -- platforms in which running them one after the other leaves the builders in the same state, gives
  -- each platform the same report, and leaves the same errors, though perhaps not in that order. The
  -- platforms of the schedule are distinct, as the keys of a map are.
  pub Turns-InTurn :
      (schedule : Assignment) (w : W) (g : Group W) (n : ℕ)
      → IsNodup (keys schedule)
      → Turns uses files options jobs g (started uses schedule w) n
      → IsDone g
      → InTurn schedule w g
  Turns-InTurn schedule w g n d ts (no_waiting, no_running) =
      let y = History-Turns uses files options jobs schedule w (nothing_yet schedule w) ts in
      let order =
        Permᴰ.trans (Permᴰ.symm (Permᴰ.append-nil y.called))
          (subst (λ l. Permᴰ (y.called ++ l) schedule) no_waiting y.order) in
      let rs = (runs uses files options jobs y.called w).0 in
      let outcomes =
        Permᴰ.trans (Permᴰ.symm (Permᴰ.append-nil y.written))
          (subst (λ l. Permᴰ (y.written ++ l) rs) no_running y.outcomes) in
      let direct = run_builds-runs uses files options jobs y.called (no_progress uses) w in
      let nodup = written_once y.called schedule w d order outcomes in
      record {
        called = y.called;
        order = order;
        world = sym y.world ∙ sym (ap (λ x. x.1) direct);
        results = λ k.
            ap (λ p. lookup k p.results) y.progress
            ∙ lookup-store_all uses files options y.written (no_progress uses) k
            ∙ ap (λ o. or_else o (lookup k []))
                (last_report-Permᴰ uses files options k outcomes nodup)
            ∙ sym (lookup-store_all uses files options rs (no_progress uses) k)
            ∙ sym (ap (λ x. lookup k x.0.results) direct);
        errors =
            subst (λ l. Permᴰ l (in_turn y.called w).0.errors)
              (sym (
                ap (λ p. p.errors) y.progress
                ∙ errors-store_all uses files options y.written (no_progress uses)))
              (subst (Permᴰ (run_errors uses files options y.written))
                (sym (
                  ap (λ x. x.0.errors) direct
                  ∙ errors-store_all uses files options rs (no_progress uses)))
                (run_errors-Permᴰ uses files options outcomes));
      }
