-- ===== src/Builder/Docker/Examples.antt =====
-- The theorems on the docker builder at an engine that builds everything, and small tests.
use buildfarm.Base.{
  if◌then◌else◌, ℕ, [], ◌∷◌, false, true, none, codes, eqb, elem, ◌≡◌, ◌≢◌, ◌↔◌, refl, arith,
}
use buildfarm.Base.Int.{pos, negsuc}
use buildfarm.Base.Result.{foreign, errorf, ok, err, panicked, returned}
use buildfarm.Types.{BuildOptions, BuildReport, Platform}
use buildfarm.Builder.Local.{split_n}
use buildfarm.Builder.Remote.{fetched_platform}
use buildfarm.Builder.Docker.{Docker}
use buildfarm.Builder.Docker.Parsing.{put_labels, limit_of, parse_ulimits}
use buildfarm.Builder.Docker.Numbers.{parse_int64}
use buildfarm.Builder.Docker.Limits.{Limit, IsLimit, limit_value, show_limit, image_request-limits}
use buildfarm.Builder.Docker.Build.{image_options, image_request, docker_build}
use buildfarm.Builder.Docker.Refusals.{HasBuilt, docker_build-no_report, docker_build-no_shm_size}
use buildfarm.Farm.Build.Examples.{options}

abbrev docker : Docker ℕ
docker = record {
  name = codes "d";
  info = λ w. (err (foreign 1), w);
  ping = λ w. (none, w);
  build_image = λ o w. (none, w);
  export_image = λ id file w. (none, w);
  remove_image = λ id w. (none, w);
  prune_images = λ filters w. (ok [], w);
  tar = λ dir w. (ok 5, w);
  close = λ archive w. w;
  create = λ file w. (none, w);
  ram_in_bytes = λ s. if eqb s [] then err (foreign 2) else ok (pos 64);
}

docker_build-no_report_example :
    ((r : BuildReport) → (docker_build docker (codes "x") [] options none 0).0 ≢ returned (ok r))
    × (((docker_build docker (codes "x") [] options none 0).0 ≡ panicked)
        ↔ HasBuilt docker options.context_directory
            (image_request docker (codes "x") [] options (fetched_platform none))
            0)
docker_build-no_report_example = docker_build-no_report docker (codes "x") [] options none 0

docker_build-no_shm_size_example :
    docker_build docker (codes "x") [] options none 0
    ≡ (returned (err (errorf "parsing requested shmsize %q" ([] ∷ []))), 0)
docker_build-no_shm_size_example =
    docker_build-no_shm_size docker (codes "x") [] options none 0 (foreign 2) (unfold eqb in refl)
      refl

abbrev files : Limit
files = record {
  name = codes "nofile";
  soft = record { is_negative = true; first = 1; rest = [] };
  hard = record { is_negative = false; first = 1; rest = 0 ∷ 2 ∷ 4 ∷ [] };
}

files-IsLimit : IsLimit files
files-IsLimit = record {
  name = unfold elem eqb in refl;
  soft = record { first = omega arith; rest = tt; bound = omega arith };
  hard = record {
    first = omega arith;
    rest = (omega arith, (omega arith, (omega arith, tt)));
    bound = omega arith;
  };
}

abbrev limited : BuildOptions
limited = record options { shm_size = codes "64"; ulimit = show_limit files ∷ [] }

abbrev platform : Platform
platform = record { os = codes "linux"; arch = codes "arm64"; variant = [] }

image_request-limits_example :
    (image_options (codes "x") [] limited platform [] (pos 64) (limit_value files ∷ []) 5).ulimits
    ≡ limit_value files ∷ []
image_request-limits_example =
    image_request-limits docker (files ∷ []) (codes "x") [] limited platform
      (image_options (codes "x") [] limited platform [] (pos 64) (limit_value files ∷ [])) 5
      (files-IsLimit, tt) refl
      (unfold image_request parse_ulimits limit_of parse_int64 put_labels split_n elem eqb in refl)

-- A limit whose name is not known is passed on as 0.
unknown_limit :
    parse_ulimits docker (codes "file=7" ∷ [])
    ≡ ok (record { name = codes "file"; soft = pos 0; hard = pos 0 } ∷ [])
unfolding parse_ulimits limit_of elem eqb split_n
unknown_limit = refl

smallest : parse_int64 (codes "-9223372036854775808") ≡ ok (negsuc 9223372036854775807)
unfolding parse_int64
smallest = refl

too_large :
    parse_int64 (codes "9223372036854775808")
    ≡ err (
        errorf "strconv.ParseInt: parsing %q: value out of range"
          (codes "9223372036854775808" ∷ []))
unfolding parse_int64
too_large = refl
