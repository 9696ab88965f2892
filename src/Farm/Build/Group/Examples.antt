-- ===== src/Farm/Build/Group/Examples.antt =====
-- The theorems on the goroutines of a build, for two that both call before either writes.
use buildfarm.Base.{ℕ, [], ◌∷◌, codes, elem, eqb, refl, some}
use buildfarm.Base.Map.{lookup}
use buildfarm.Base.Result.{foreign, err}
use buildfarm.Base.Removal.{Removes}
use buildfarm.Farm.Examples.{amd64, arm64, plan, image, first, node}
use buildfarm.Farm.Build.Examples.{uses, options, files, half_jobs, job_at}
use buildfarm.Farm.Build.Runs.{Run}
use buildfarm.Farm.Build.Group.{Group, call_builder, write_outcome, Turn, Turns, started, IsDone}
use buildfarm.Farm.Build.Group.Order.{InTurn, Turns-InTurn}

abbrev run_a : Run ℕ
run_a = record {
  platform = amd64;
  name = codes "a";
  answer = some ((job_at amd64 "amd64" first).1, image "1");
}

abbrev run_b : Run ℕ
run_b = record {
  platform = arm64;
  name = codes "b";
  answer = some (
    (job_at arm64 "arm64" (codes "b", node "b" (arm64 ∷ []) [] (err (foreign 5)))).1,
    err (foreign 5),
  );
}

abbrev at_start : Group ℕ
at_start = started uses plan 0

abbrev one_called : Group ℕ
one_called =
    call_builder uses files options half_jobs (arm64, codes "b") ((amd64, codes "a") ∷ []) at_start

abbrev both_called : Group ℕ
both_called = call_builder uses files options half_jobs (amd64, codes "a") [] one_called

abbrev one_written : Group ℕ
one_written = write_outcome uses files options half_jobs run_b (run_a ∷ []) both_called

abbrev at_end : Group ℕ
at_end = write_outcome uses files options half_jobs run_a [] one_written

-- b calls before a, and writes before it.
turns : Turns uses files options half_jobs at_end at_start 4
unfolding call_builder write_outcome lookup eqb
turns = Turns.next (Turn.call (arm64, codes "b") _ (Removes.later Removes.first) refl) (
    Turns.next (Turn.call (amd64, codes "a") [] Removes.first refl) (
      Turns.next (Turn.write run_b (run_a ∷ []) (Removes.later Removes.first) refl)
        (Turns.next (Turn.write run_a [] Removes.first refl) Turns.stop)))

at_end-IsDone : IsDone at_end
unfolding call_builder write_outcome
at_end-IsDone = (refl, refl)

Turns-InTurn_example : InTurn uses files options half_jobs plan 0 at_end
Turns-InTurn_example =
    Turns-InTurn uses files options half_jobs plan 0 at_end 4
      (unfold elem eqb in (refl, (refl, tt))) turns at_end-IsDone
