-- ===== src/Farm/Build/Group/Ending.antt =====
-- The group of goroutines of `Build` ends, after two turns for each platform.
use buildfarm.Base.{ℕ, suc, ◌+◌, ◌*◌, ◌≤◌, List, [], ◌∷◌, Bytes, ◌≡◌, refl, length, arith}
use buildfarm.Base.Map.{Map}
use buildfarm.Base.Removal.{Removes-length}
use buildfarm.Types.{BuildOptions}
use buildfarm.Farm.{Assignment}
use buildfarm.Farm.Build.{Uses, Job}
use buildfarm.Farm.Build.Group.Order.{InTurn}
use buildfarm.Farm.Build.Group.{Group, call_builder, write_outcome, Turn, Turns, IsDone, turns_left}

empty-of_length : {A : Type 0} (l : List A) → length l ≡ 0 → l ≡ []
empty-of_length [] h = refl
empty-of_length (x ∷ l) h = ground arith

module _ {W : Type 0} (uses : Uses W) (files : List Bytes) (options : BuildOptions)
    (jobs : Map (Job W)) where
  turns_left-Turn :
      {g h : Group W} → Turn uses files options jobs g h → turns_left g ≡ suc (turns_left h)
  unfolding call_builder write_outcome
  turns_left-Turn (Turn.call task rest r e) = rw e (omega (arith, Removes-length r))
  turns_left-Turn (Turn.write q rest r e) = rw e (omega (arith, Removes-length r))

  pub turns_left-Turns :
      {h g : Group W} {n : ℕ}
      → Turns uses files options jobs h g n
      → turns_left g ≡ n + turns_left h
  turns_left-Turns Turns.stop = omega arith
  turns_left-Turns (Turns.next t ts) = omega (arith, turns_left-Turn t, turns_left-Turns ts)

  -- What is left of a group that has taken `n` turns: at most two turns of each goroutine have been
  -- taken, and the rest of them lead to an end that is the one of a sequence.
  pub record Finishes (schedule : Assignment) (w : W) (g : Group W) (n : ℕ) : Type 0 where
    pub bound : n ≤ 2 * length schedule
    pub last : Group W
    pub left : ℕ
    pub turns : Turns uses files options jobs last g left
    pub all : n + left ≡ 2 * length schedule
    pub done : IsDone last
    pub in_turn : InTurn uses files options jobs schedule w last
