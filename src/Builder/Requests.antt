-- ===== src/Builder/Requests.antt =====
-- The operations of an `ImageBuilder` of types.go as data, and runs of them.
use buildfarm.Base.{List, [], ◌∷◌, Option, Bytes}
use buildfarm.Base.Result.{Error, Result}
use buildfarm.Types.{
  Info, BuildOptions, BuildReport, PullToFileOptions, PullToLocalOptions, RemoveImageOptions,
  PruneImageOptions, PruneImageReport, ImageBuilder, Call,
}

pub data Request : Type 0 where
  asks_status asks_info asks_native asks_emulated finishes : Request
  builds : Bytes → List Bytes → BuildOptions → Request
  pulls_to_file : PullToFileOptions → Request
  pulls_to_local : PullToLocalOptions → Request
  removes : RemoveImageOptions → Request
  prunes : PruneImageOptions → Request

pub data Answer : Type 0 where
  of_error : Option Error → Answer
  of_info : Result Info → Answer
  of_platforms : Result (List Bytes) → Answer
  of_build : Result BuildReport → Answer
  of_reference : Result Bytes → Answer
  of_prune : Result PruneImageReport → Answer

-- An answer in place of what a call returns.
abbrev answering : {W A : Type 0} → (A → Answer) → Call W A → Call W Answer
answering f call w = let (a, w1) = call w in (f a, w1)

module _ {W : Type 0} (b : ImageBuilder W) where
  -- The call of the method that a request stands for.
  unfoldable pub serve : Request → Call W Answer
  serve asks_status = answering of_error b.status
  serve asks_info = answering of_info b.info
  serve asks_native = answering of_platforms b.native_platforms
  serve asks_emulated = answering of_platforms b.emulated_platforms
  serve finishes = answering of_error b.done
  serve (builds reference files options) = answering of_build (b.build reference files options)
  serve (pulls_to_file o) = answering of_reference (b.pull_to_file o)
  serve (pulls_to_local o) = answering of_reference (b.pull_to_local o)
  serve (removes o) = answering of_error (b.remove_image o)
  serve (prunes o) = answering of_prune (b.prune_images o)

  -- A run: each request with its answer.
  unfoldable pub serve_all : List Request → Call W (List (Request × Answer))
  unfolding serve
  serve_all [] w = ([], w)
  serve_all (q ∷ qs) w =
      let (a, w1) = serve q w in let (rest, w2) = serve_all qs w1 in ((q, a) ∷ rest, w2)
