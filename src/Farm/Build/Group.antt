-- ===== src/Farm/Build/Group.antt =====
-- The goroutines of `Build` of buildfarm.go one by one: each calls its builder and then, under the lock
-- of a map or of the group, writes what came of it. Between the two the others may have their turns.
pub mod Ending
pub mod History
pub mod Reports
pub mod Order
mod Examples
use buildfarm.Base.{ℕ, zero, suc, ◌+◌, ◌*◌, List, [], ◌∷◌, Option, none, some, Bytes, ◌≡◌, length}
use buildfarm.Base.Map.{Map, lookup}
use buildfarm.Base.Removal.{Removes}
use buildfarm.Types.{BuildOptions}
use buildfarm.Farm.{Assignment}
use buildfarm.Farm.Build.{Uses, Job, Progress, no_progress}
use buildfarm.Farm.Build.Runs.{Run, answer_of, store_run}

-- The goroutines that have not called their builders, those that have and have not written, what was
-- written, and the world of the builders.
pub record Group (W : Type 0) : Type 0 where
  pub waiting : Assignment
  pub running : List (Run W)
  pub progress : Progress W
  pub world : W

module _ {W : Type 0} (uses : Uses W) (files : List Bytes) (options : BuildOptions)
    (jobs : Map (Job W)) where
  -- The call of a builder.
  unfoldable pub call_builder : Bytes × Bytes → Assignment → Group W → Group W
  call_builder (platform, name) rest g =
      let (a, w1) = answer_of uses files options platform (lookup name jobs) g.world in
      record g {
        waiting = rest;
        running = record { platform = platform; name = name; answer = a } ∷ g.running;
        world = w1;
      }

  -- The write of its outcome.
  unfoldable pub write_outcome : Run W → List (Run W) → Group W → Group W
  write_outcome q rest g = record g {
    running = rest;
    progress = store_run uses files options q g.progress;
  }

  -- A turn of one of the goroutines.
  pub data Turn (g h : Group W) : Type 0 where
    call :
        (task : Bytes × Bytes) (rest : Assignment)
        → Removes task g.waiting rest
        → h ≡ call_builder task rest g
        → Turn g h
    write :
        (q : Run W) (rest : List (Run W))
        → Removes q g.running rest
        → h ≡ write_outcome q rest g
        → Turn g h

  -- Turns one after the other, counted.
  pub data Turns (h : Group W) : Group W → ℕ → Type 0 where
    stop : Turns h h zero
    next : {f g : Group W} {n : ℕ} → Turn f g → Turns h g n → Turns h f (suc n)

-- The group, when all goroutines have been started.
abbrev pub started : {W : Type 0} → Uses W → Assignment → W → Group W
started uses schedule w = record {
  waiting = schedule;
  running = [];
  progress = no_progress uses;
  world = w;
}

-- What `Wait` waits for.
abbrev pub IsDone : {W : Type 0} → Group W → Type 0
IsDone g = (g.waiting ≡ []) × (g.running ≡ [])

abbrev pub turns_left : {W : Type 0} → Group W → ℕ
turns_left g = 2 * length g.waiting + length g.running
