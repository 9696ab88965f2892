-- ===== src/Builder/Examples.antt =====
-- The theorems on the builders at a machine whose engine always succeeds.
use buildfarm.Base.{ℕ, List, [], ◌∷◌, true, false, none, some, Bytes, codes, eqb, ◌≡◌, refl}
use buildfarm.Base.Map.{insert}
use buildfarm.Base.Result.{foreign, ok, err}
use buildfarm.Types.{
  Info, Platform, BuildOptions, BuildReport, PullToLocalOptions, RemoveImageOptions,
  PruneImageOptions, PruneImageReport, ImageBuilder, ListBuilderOptions,
}
use buildfarm.Farm.Examples.{node, join, image}
use buildfarm.Builder.Podman.{podman_build_options}
use buildfarm.Builder.Engine.{Engine, Machine}
use buildfarm.Builder.Local.{platform_name, local_info, local_build, build_report, fetch_info}
use buildfarm.Builder.Local.Cache.{build-native}
use buildfarm.Builder.FileList.{Copier, Fetched, fetch_all, file_list_build}
use buildfarm.Builder.FileList.Saving
use buildfarm.Builder.FileList.Saving.{file_list_build-ok}
use buildfarm.Builder.FileList.Assembly.{fetch_all-docker}
use buildfarm.Builder.LocalList.{Storage, Images, local_list_build}
use buildfarm.Builder.LocalList.Assembly.{Saved, local_list_build-ok}

abbrev pub engine : Engine ℕ
engine = record {
  config = λ w. (none, w);
  build = λ files o w. (ok (codes "id"), w);
  save = λ id format file w. (none, w);
  exists = λ id w. (ok false, w);
  load = λ file w. (none, w);
  remove = λ id w. (record { exit_code = 0; errors = [] }, w);
  prune = λ all filter w. (ok (record { id = codes "old"; err = none } ∷ []), w);
}

abbrev pub machine : Machine ℕ
machine = record {
  engine_of = λ d. engine;
  temp_file = λ w. (ok (codes "/tmp/1"), w);
  remove_file = λ file w. w;
  default_platform = codes "linux/amd64";
  normalize = λ p. p;
  registered = λ w. (codes "linux/arm64" ∷ [], w);
  join = join;
}

abbrev info : Info
info = record {
  native_platforms = codes "linux/amd64" ∷ [];
  emulated_platforms = codes "linux/arm64" ∷ [];
}

build-native_example :
    (p : Platform) × (info.native_platforms ≡ platform_name p ∷ [])
    × ((files : List Bytes) (o : BuildOptions) (ps : List Platform)
        → local_build machine engine files (record o { platforms = ps }) none 0 ≡ (
            let (_, c1, w1) = local_info machine none 0 in
            let (r, w2) = engine.build files (podman_build_options o p.os p.arch p.variant) w1 in
            (build_report o r, c1, w2)))
build-native_example =
    build-native machine engine none 0 info tt (unfold local_info fetch_info eqb in refl)

abbrev all_images : PruneImageOptions
all_images = record { all = true }

abbrev pruned : PruneImageReport
pruned = record { image_ids = codes "old" ∷ []; image_names = [] }

abbrev the_image : RemoveImageOptions
the_image = record { image_id = codes "id" }

abbrev to_engine : PullToLocalOptions
to_engine = record {
  image_id = codes "id";
  save_format = codes "oci-archive";
  destination = some 3;
}

abbrev pub storage : Storage ℕ
storage = record {
  read_custom_config = λ w. (none, w);
  new_engine = λ w. (ok 3, w);
  shutdown_engine = λ w. w;
  new_runtime = λ w. (none, w);
  shutdown_runtime = λ w. w;
  lookup_list = λ name w. (ok 1, w);
  create_list = λ name w. (ok 1, w);
  inspect = λ list w. (ok (codes "sha256:0" ∷ []), w);
  remove_instance = λ list digest w. (none, w);
  add = λ list ref w. (none, w);
  join = join;
}

abbrev list_options : ListBuilderOptions
list_options = record {
  force_remove_intermediate_containers = false;
  remove_intermediate_containers = false;
  remove_intermediate_images = true;
  prune_images_on_success = false;
  iid_file = [];
}

abbrev report : BuildReport
report = record { image_id = codes "id"; save_format = codes "oci-archive" }

abbrev far : ImageBuilder ℕ
far = node "far" [] [] (image "1")

abbrev two_images : Images ℕ
two_images =
    (report, far)
    ∷ (record report { image_id = codes "other" }, node "(local)" [] [] (image "2"))
    ∷ []

abbrev unreachable : Images ℕ
unreachable = (report, record far { pull_to_local = λ o w. (err (foreign 9), w) }) ∷ []

local_list_build-ok_example :
    (codes "list" ≡ codes "list") × Saved storage (codes "list") list_options two_images
local_list_build-ok_example =
    local_list_build-ok storage (codes "list") list_options two_images two_images 0 (codes "list")
      (unfold local_list_build eqb insert in refl)

abbrev pub copier : Copier ℕ
copier = record {
  policy = λ w. (none, w);
  temp_dir = λ w. (ok (codes "/tmp/2"), w);
  remove_dir = λ dir w. w;
  parse_name = λ name. ok 4;
  make_dir = λ dir w. (none, w);
  temp_file = λ dir w. (ok (codes "/tmp/2/1.tar"), w);
  add = λ ref w. (none, w);
  serialize = λ format w. (ok [], w);
  write_file = λ name bytes w. (none, w);
  copy = λ output input refs format w. (none, w);
  join = join;
}

abbrev nothing_yet : Fetched
nothing_yet = record { refs = []; errors = []; docker = false }

abbrev fetched_one : Fetched
fetched_one = record { refs = (report, 4) ∷ []; errors = []; docker = false }

fetch_all-docker_example : fetched_one.docker ≡ nothing_yet.docker
fetch_all-docker_example =
    fetch_all-docker copier (codes "/tmp/2") ((report, far) ∷ []) nothing_yet fetched_one 0
      (unfold eqb in (refl, tt)) (unfold fetch_all eqb in refl)

file_list_build-ok_example :
    (codes "dir:out" ≡ codes "dir:out") × Saving.Saved copier (codes "out") list_options two_images
file_list_build-ok_example =
    file_list_build-ok copier (codes "out") list_options two_images two_images 0 (codes "dir:out")
      (unfold file_list_build eqb in refl)
