-- ===== src/Farm/Examples.antt =====
-- The theorems on the farm at concrete inputs: a farm of two builders, one of which emulates.
use buildfarm.Base.{
  ℕ, suc, List, [], ◌∷◌, true, none, if◌then◌else◌, Bytes, String, codes, elem, eqb, le_bytes, ◌≡◌,
  ◌≢◌, ◌↔◌, refl,
}
use buildfarm.Base.Map.{lookup, insert}
use buildfarm.Base.Result.{Error, errorf, Result, ok}
use buildfarm.Base.Sort.{sort_strings}
use buildfarm.Types.{BuildReport, ImageBuilder}
use buildfarm.Farm.{Builders, Assignment, schedule_for, native_platforms}
use buildfarm.Farm.Answers.{answers, errors_of, choice}
use buildfarm.Farm.Schedule.{lookup-schedule_for, schedule_for-ok_iff}
use buildfarm.Farm.Platforms.{replies, IsUnion, native_platforms-IsUnion}

-- The world counts the builds.
abbrev pub node : String → List Bytes → List Bytes → Result BuildReport → ImageBuilder ℕ
node name native emulated report = record {
  driver = codes "podman-remote";
  name = codes name;
  status = λ w. (none, w);
  info = λ w. (ok (record { native_platforms = native; emulated_platforms = emulated }), w);
  native_platforms = λ w. (ok native, w);
  emulated_platforms = λ w. (ok emulated, w);
  build = λ r files o w. (report, suc w);
  pull_to_file = λ o w. (ok [], w);
  pull_to_local = λ o w. (ok [], w);
  remove_image = λ o w. (none, w);
  prune_images = λ o w. (ok (record { image_ids = codes name ∷ []; image_names = [] }), w);
  done = λ w. (none, w);
}

abbrev pub amd64 : Bytes
amd64 = codes "linux/amd64"

abbrev pub arm64 : Bytes
arm64 = codes "linux/arm64"

abbrev pub image : String → Result BuildReport
image id = ok (record { image_id = codes id; save_format = codes "oci-archive" })

abbrev pub first : Bytes × ImageBuilder ℕ
first = (codes "a", node "a" (amd64 ∷ []) (arm64 ∷ []) (image "1"))

abbrev pub second : Bytes × ImageBuilder ℕ
second = (codes "b", node "b" (arm64 ∷ []) [] (image "2"))

abbrev pub pair : Builders ℕ
pair = first ∷ second ∷ []

abbrev pub join : List Error → Error
join es = errorf "errors" []

abbrev wanted : List Bytes
wanted = amd64 ∷ arm64 ∷ []

abbrev pub plan : Assignment
plan = (amd64, codes "a") ∷ (arm64, codes "b") ∷ []

lookup-schedule_for_example :
    lookup arm64 plan ≡ (if elem arm64 wanted then choice (answers pair 0).0 arm64 else none)
lookup-schedule_for_example =
    lookup-schedule_for join pair wanted 0 plan (unfold schedule_for lookup insert eqb in refl)
      arm64

schedule_for-ok_iff_example : ((s : Assignment) × ((schedule_for join pair wanted 0).0 ≡ ok s)) ↔ (
    (errors_of (answers pair 0).0 ≡ [])
    × ((p : Bytes) → elem p wanted ≡ true → choice (answers pair 0).0 p ≢ none))
schedule_for-ok_iff_example = schedule_for-ok_iff join pair wanted 0

native_platforms-IsUnion_example :
    IsUnion (replies (λ b. b.native_platforms) pair 0) (amd64 ∷ arm64 ∷ [])
native_platforms-IsUnion_example =
    native_platforms-IsUnion join pair 0 (amd64 ∷ arm64 ∷ [])
      (unfold native_platforms sort_strings elem eqb le_bytes in refl)
