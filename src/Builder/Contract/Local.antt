-- ===== src/Builder/Contract/Local.antt =====
-- The builder of local.go goes by the abstract machine of the platforms.
use buildfarm.Base.{List, none, some, ◌≡◌, refl, ap}
use buildfarm.Base.Result.{Result, ok, ◌>>=◌}
use buildfarm.Types.{Info}
use buildfarm.Builder.Engine.{Engine, Machine}
use buildfarm.Builder.Local.{
  Fetched, or_platforms_error, local_info, local_native_platforms, local_emulated_platforms,
  local_status, local_build, fetch_once, fetch_info,
}
use buildfarm.Builder.Local.Builder.{LocalWorld, local_builder}
use buildfarm.Builder.Local.Cache.{or_error-bind}
use buildfarm.Builder.Requests.{
  Request, asks_status, asks_info, asks_native, asks_emulated, builds, pulls_to_file,
  pulls_to_local, removes, prunes, finishes, of_platforms, serve,
}
use buildfarm.Builder.Contract.{Known, Move, Refines, Follows, run-Follows}

-- What the cache knows.
abbrev pub info_of : Fetched → Info
info_of f = record {
  native_platforms = f.native_platforms;
  emulated_platforms = f.emulated_platforms;
}

abbrev pub info_fetched : Fetched → Result Info
info_fetched f = or_platforms_error f (info_of f)

abbrev pub known_locally : {W : Type 0} → LocalWorld W → Known
known_locally (none, w) = none
known_locally (some f, w) = some (info_fetched f)

native-fetched :
    (f : Fetched)
    → of_platforms (or_platforms_error f f.native_platforms)
      ≡ of_platforms (info_fetched f >>= λ i. ok i.native_platforms)
native-fetched f = ap of_platforms (or_error-bind f.error (info_of f) (λ i. i.native_platforms))

emulated-fetched :
    (f : Fetched)
    → of_platforms (or_platforms_error f f.emulated_platforms)
      ≡ of_platforms (info_fetched f >>= λ i. ok i.emulated_platforms)
emulated-fetched f = ap of_platforms (or_error-bind f.error (info_of f) (λ i. i.emulated_platforms))

module _ {W : Type 0} (m : Machine W) (engine : Engine W) where
  local_builder-Refines : Refines (local_builder m engine) known_locally
  unfolding serve local_builder local_info local_native_platforms local_emulated_platforms
      local_status local_build fetch_once
  local_builder-Refines asks_info (none, w) = Move.settle _ refl
  local_builder-Refines asks_info (some f, w) = Move.recall _ refl
  local_builder-Refines asks_native (none, w) = Move.settle _ (native-fetched (fetch_info m w).0)
  local_builder-Refines asks_native (some f, w) = Move.recall _ (native-fetched f)
  local_builder-Refines asks_emulated (none, w) =
      Move.settle _ (emulated-fetched (fetch_info m w).0)
  local_builder-Refines asks_emulated (some f, w) = Move.recall _ (emulated-fetched f)
  local_builder-Refines asks_status (none, w) = Move.settle _ tt
  local_builder-Refines asks_status (some f, w) = Move.quiet refl
  local_builder-Refines (builds reference files options) (none, w) = Move.settle _ tt
  local_builder-Refines (builds reference files options) (some f, w) = Move.quiet refl
  local_builder-Refines finishes (none, w) = Move.quiet refl
  local_builder-Refines finishes (some f, w) = Move.quiet refl
  local_builder-Refines (pulls_to_file o) (none, w) = Move.quiet refl
  local_builder-Refines (pulls_to_file o) (some f, w) = Move.quiet refl
  local_builder-Refines (pulls_to_local o) (none, w) = Move.quiet refl
  local_builder-Refines (pulls_to_local o) (some f, w) = Move.quiet refl
  local_builder-Refines (removes o) (none, w) = Move.quiet refl
  local_builder-Refines (removes o) (some f, w) = Move.quiet refl
  local_builder-Refines (prunes o) (none, w) = Move.quiet refl
  local_builder-Refines (prunes o) (some f, w) = Move.quiet refl

  -- Every run of calls of the local builder is a run of the machine that settles the platforms once:
  -- from any state of its cache, one result accounts for all answers of `Info`, `NativePlatforms` and
  -- `EmulatedPlatforms`, whatever calls stand between them, and the cache ends with no other.
  pub local_builder-Follows :
      (qs : List Request) (x : LocalWorld W) → Follows (local_builder m engine) known_locally qs x
  local_builder-Follows = run-Follows (local_builder m engine) known_locally local_builder-Refines
