-- ===== src/Command/Examples.antt =====
-- The theorems on the commands, with two destinations.
use buildfarm.Base.{
  ℕ, List, [], ◌∷◌, true, false, none, Bytes, codes, eqb, ◌||◌, if◌then◌else◌, ◌≡◌, ◌≢◌, refl,
}
use buildfarm.Base.Map.{insert}
use buildfarm.Base.Result.{ok}
use buildfarm.Types.{ImageBuilder, PruneImageOptions}
use buildfarm.Farm.Examples.{node, join, image, amd64, arm64}
use buildfarm.Farm.Build.Examples.{uses, options}
use buildfarm.Farm.Members.Visits.{prunes, polls}
use buildfarm.Farm.Open.{OpenFarm, want_builder, new_farm_with_builders, new_default_farm, new_farm}
use buildfarm.Command.{Settings, Globals, Outside, before, get_farm}
use buildfarm.Command.Nodes.{OnlyDestinations, get_farm-OnlyDestinations}
use buildfarm.Command.Status.{status_cmd}
use buildfarm.Command.Status.Ready.{AllUp, Names, ready_lines, status_cmd-ready}
use buildfarm.Command.Prune.{prune_cmd}
use buildfarm.Command.Prune.Losses.{AllPruned, Printed, prune_cmd-printed}
use buildfarm.Command.Build.{CliOptions, Tools}
use buildfarm.Command.Flags.{Flags}

abbrev builder_of : Bytes → ImageBuilder ℕ
builder_of name = record (node "a" (amd64 ∷ []) (arm64 ∷ []) (image "1")) { name = name }

abbrev outside : Outside ℕ
outside = record {
  connections = record {
    read_custom_config = λ w. (ok (codes "a" ∷ codes "b" ∷ []), w);
    new_remote = λ d w. (ok (builder_of d), w);
    new_local = λ w. (ok (builder_of (codes "(local)")), w);
    join = join;
  };
  default_store_options = λ w. (none, w);
  get_store = λ w. (none, w);
  shutdown_store = λ w. (none, w);
  show_error = λ e. codes "error";
  exit_status = λ e. none;
}

abbrev settings : Settings
settings = record { local = false; farm_name = []; ad_hoc_farm_nodes = [] }

abbrev globals : Globals ℕ
globals = record { has_storage_options = false; has_store = false; farm = none }

abbrev farm : OpenFarm ℕ
farm = record {
  has_store = false;
  builders = (codes "a", builder_of (codes "a")) ∷ (codes "b", builder_of (codes "b")) ∷ [];
}

opens : get_farm outside settings globals 0 ≡ (ok farm, 0)
unfolding get_farm new_farm new_default_farm new_farm_with_builders want_builder insert eqb
opens = refl

get_farm-OnlyDestinations_example : OnlyDestinations outside farm 0
get_farm-OnlyDestinations_example =
    get_farm-OnlyDestinations outside settings globals 0 0 farm refl (
      unfold before get_farm new_farm new_default_farm new_farm_with_builders want_builder insert
        eqb in
      refl)

status_cmd-ready_example :
    ((status_cmd outside [] settings globals 0).1 ≡ (polls join farm.builders 0).1)
    × (AllUp (polls join farm.builders 0).0
        → ((status_cmd outside [] settings globals 0).0.error ≡ none)
          × (l : List Bytes) × Names outside farm.builders l
          × ((status_cmd outside [] settings globals 0).0.printed ≡ ready_lines l))
    × (¬ AllUp (polls join farm.builders 0).0
        → ((status_cmd outside [] settings globals 0).0.error ≢ none)
          × ((status_cmd outside [] settings globals 0).0.printed ≡ []))
status_cmd-ready_example = status_cmd-ready outside [] settings globals farm 0 0 opens

abbrev everything : PruneImageOptions
everything = record { all = true }

prune_cmd-printed_example :
    ((prune_cmd outside [] everything settings globals 0).1
      ≡ (prunes join everything farm.builders 0).1)
    × (¬ AllPruned (prunes join everything farm.builders 0).0
        → ((prune_cmd outside [] everything settings globals 0).0.printed ≡ [])
          × ((prune_cmd outside [] everything settings globals 0).0.error ≢ none))
    × (AllPruned (prunes join everything farm.builders 0).0
        → ((prune_cmd outside [] everything settings globals 0).0.error ≡ none)
          × Printed outside farm.builders everything 0
              (prune_cmd outside [] everything settings globals 0).0.printed)
prune_cmd-printed_example = prune_cmd-printed outside [] everything settings globals farm 0 0 opens

abbrev some_args : List Bytes
some_args = codes "a=1" ∷ codes "b=2=3" ∷ codes "a" ∷ []

abbrev cli : CliOptions
cli = record {
  output = codes "dir:out";
  dockerfiles = [];
  build_options = options;
  platforms = amd64 ∷ arm64 ∷ [];
  build_arg = some_args;
  cache_from = [];
  cache_to = [];
  network = codes "none";
}

abbrev tools : Tools ℕ
tools = record {
  abs = λ path w. (ok (b'/' ∷ path), w);
  parse_named = λ name. ok name;
  discover = λ dir w. (ok (codes "Dockerfile"), w);
  uses = uses;
  range_builders = λ bs. bs;
  range_schedule = λ s. s;
}

-- The command line "build --tag dir:out --platform linux/amd64,linux/arm64".
abbrev given_flags : Flags
given_flags = record {
  is_given = λ name. eqb name (codes "tag") || eqb name (codes "platform");
  string_var = λ name d. if eqb name (codes "tag") then codes "dir:out" else d;
  string_slice_var = λ name d. if eqb name (codes "platform") then amd64 ∷ arm64 ∷ [] else d;
  bool_var = λ name d. d;
  int64_var = λ name d. d;
  uint64_var = λ name d. d;
}
