-- ===== src/Builder/FileList.antt =====
-- The list builder of files.go, which saves a manifest list and its images in a directory.
pub mod Assembly
pub mod Fetching
pub mod Saving
use buildfarm.Base.{
  ℕ, List, [], ◌∷◌, ◌++◌, Bool, true, false, ◌||◌, Option, none, some, if◌then◌else◌, Bytes, codes,
  eqb,
}
use buildfarm.Base.Result.{Error, errorf, wrapf, Result, ok, err}
use buildfarm.Types.{
  BuildReport, PullToFileOptions, RemoveImageOptions, ImageBuilder, ListBuilder, ListBuilderOptions,
  Call,
}
use buildfarm.Farm.Build.{same_report, oci_v1_image_manifest, docker_v2_image_manifest}
use buildfarm.Builder.LocalList.{add_error, remove_one, Images}

-- `v1.MediaTypeImageIndex` and `manifest.DockerV2ListMediaType`.
abbrev pub oci_image_index : Bytes
oci_image_index = codes "application/vnd.oci.image.index.v1+json"

abbrev pub docker_v2_list : Bytes
docker_v2_list = codes "application/vnd.docker.distribution.manifest.list.v2+json"

-- The files of the machine, and the calls of containers/image and of libimage; a reference to an
-- image is a number.
pub record Copier (W : Type 0) : Type 0 where
  pub policy : Call W (Option Error)
  pub temp_dir : Call W (Result Bytes)
  pub remove_dir : Bytes → W → W
  pub parse_name : Bytes → Result ℕ
  pub make_dir : Bytes → Call W (Option Error)
  pub temp_file : Bytes → Call W (Result Bytes)
  pub add : ℕ → Call W (Option Error)
  pub serialize : Bytes → Call W (Result Bytes)
  pub write_file : Bytes → Bytes → Call W (Option Error)
  pub copy : ℕ → ℕ → List ℕ → Bytes → Call W (Option Error)
  pub join : List Error → Error

-- What the goroutines write: the references, their errors, and whether the formats are Docker's.
pub record Fetched : Type 0 where
  pub refs : List (BuildReport × ℕ)
  pub errors : List Error
  pub docker : Bool

-- `refs[image] = ref`
unfoldable pub put_ref : BuildReport → ℕ → List (BuildReport × ℕ) → List (BuildReport × ℕ)
unfolding same_report
put_ref image ref [] = (image, ref) ∷ []
put_ref image ref ((q, x) ∷ l) =
    let rest = put_ref image ref l in
    if same_report q image then (image, ref) ∷ l else (q, x) ∷ rest

abbrev pub pull_failure : BuildReport → Error → Error
pull_failure image =
    wrapf "pulling image %q to temporary directory: %w" (image.image_id ∷ image.save_format ∷ [])

module _ {W : Type 0} (c : Copier W) where
  abbrev pub note_reference : BuildReport → Result ℕ → Fetched → Fetched
  note_reference image (ok ref) f = record f { refs = put_ref image ref f.refs }
  note_reference image (err e) f = record f { errors = f.errors ++ pull_failure image e ∷ [] }

  abbrev pub note_file : BuildReport → Result Bytes → Fetched → Fetched
  note_file image (ok reference) f = note_reference image (c.parse_name reference) f
  note_file image (err e) f = record f { errors = f.errors ++ pull_failure image e ∷ [] }

  -- One goroutine.
  abbrev pub fetch : BuildReport → ImageBuilder W → Bytes → Fetched → Call W Fetched
  fetch image b file f w =
      let (r, w1) =
        b.pull_to_file
          (record { image_id = image.image_id; save_format = image.save_format; save_file = file })
          w in
      (
        note_file image r
            (record f { docker = f.docker || eqb image.save_format docker_v2_image_manifest }),
        w1,
      )

  -- The loop that makes the files and starts the goroutines. If a file cannot be made, it returns
  -- once the goroutines that it has started are done.
  unfoldable pub fetch_all : Bytes → Images W → Fetched → Call W (Result Fetched)
  unfolding put_ref
  fetch_all dir [] f w = (ok f, w)
  fetch_all dir ((image, b) ∷ rest) f w =
      let (t, w1) = c.temp_file dir w in
      elim t [
        | err e ↦ (err e, w1)
        | ok file ↦ let (f2, w2) = fetch image b file f w1 in fetch_all dir rest f2 w2
      ]

  -- The removal of intermediate images, of whichever builder.
  unfoldable pub remove_fetched : Images W → List Error → Call W (List Error)
  remove_fetched [] es w = (es, w)
  remove_fetched ((image, b) ∷ rest) es w =
      let (es1, w1) = remove_one image b es w in remove_fetched rest es1 w1

  -- The loop that fills the list; an error ends it.
  unfoldable pub add_refs : List (BuildReport × ℕ) → Call W (Option Error)
  add_refs [] w = (none, w)
  add_refs ((image, ref) ∷ rest) w =
      let (e, w1) = c.add ref w in
      let (r, w2) = add_refs rest w1 in
      elim e [
        | none ↦ (r, w2)
        | some x ↦ (some (wrapf "adding image %q to list: %w" (image.image_id ∷ []) x), w1)
      ]

-- `supplemental`
abbrev pub references : List (BuildReport × ℕ) → List ℕ
references [] = []
references ((image, ref) ∷ rest) = ref ∷ references rest

module _ {W : Type 0} (c : Copier W) (directory : Bytes) (options : ListBuilderOptions) where
  -- What stands behind the copying.
  abbrev pub write_id : Option Error → Call W (Result Bytes)
  write_id (some e) w = (err (wrapf "copying images to dir:%q: %w" (directory ∷ []) e), w)
  write_id none w =
      let (e, w1) =
        if eqb options.iid_file []
        then (none, w)
        else c.write_file options.iid_file (codes "sha256:") w in
      (elim e [ none ↦ ok (codes "dir:" ++ directory) | some x ↦ err x ], w1)

  abbrev pub copy_list : ℕ → ℕ → Fetched → Option Error → Call W (Result Bytes)
  copy_list input output f (some e) w = (err (wrapf "writing temporary manifest list: %w" [] e), w)
  copy_list input output f none w =
      let format = if f.docker then docker_v2_image_manifest else oci_v1_image_manifest in
      let (e, w1) = c.copy output input (references f.refs) format w in write_id e w1

  abbrev pub write_list : ℕ → ℕ → Bytes → Fetched → Result Bytes → Call W (Result Bytes)
  write_list input output dir f (err e) w = (err (wrapf "serializing manifest list: %w" [] e), w)
  write_list input output dir f (ok bytes) w =
      let (e, w1) = c.write_file (dir ++ codes "/manifest.json") bytes w in
      copy_list input output f e w1

  abbrev pub serialize_list : ℕ → ℕ → Bytes → Fetched → Option Error → Call W (Result Bytes)
  serialize_list input output dir f (some e) w = (err e, w)
  serialize_list input output dir f none w =
      let (r, w1) = c.serialize (if f.docker then docker_v2_list else oci_image_index) w in
      write_list input output dir f r w1

  abbrev pub after_removal : ℕ → ℕ → Bytes → Fetched → List Error → Call W (Result Bytes)
  after_removal input output dir f (e ∷ es) w =
      (err (wrapf "removing intermediate images: %w" [] (c.join (e ∷ es))), w)
  after_removal input output dir f [] w =
      let (e, w1) = add_refs c f.refs w in serialize_list input output dir f e w1

  abbrev pub after_fetch : ℕ → ℕ → Bytes → Images W → Fetched → List Error → Call W (Result Bytes)
  after_fetch input output dir order f (e ∷ es) w =
      (err (wrapf "building: %w" [] (c.join (e ∷ es))), w)
  after_fetch input output dir order f [] w =
      let (es, w1) =
        if options.remove_intermediate_images then remove_fetched c order [] w else ([], w) in
      after_removal input output dir f es w1

  abbrev pub after_files : ℕ → ℕ → Bytes → Images W → Result Fetched → Call W (Result Bytes)
  after_files input output dir order (err e) w = (err e, w)
  after_files input output dir order (ok f) w = after_fetch input output dir order f f.errors w

  abbrev pub nothing_fetched : Fetched
  nothing_fetched = record { refs = []; errors = []; docker = false }

  abbrev pub with_output : ℕ → Bytes → Images W → Images W → Result ℕ → Call W (Result Bytes)
  with_output input dir images order (err e) w =
      (err (wrapf "parsing output directory ref %q: %w" ((codes "dir:" ++ directory) ∷ []) e), w)
  with_output input dir images order (ok output) w =
      let (r, w1) = fetch_all c dir images nothing_fetched w in
      after_files input output dir order r w1

  abbrev pub with_directory : ℕ → Bytes → Images W → Images W → Option Error → Call W (Result Bytes)
  with_directory input dir images order (some e) w = (err e, w)
  with_directory input dir images order none w =
      with_output input dir images order (c.parse_name (codes "dir:" ++ directory)) w

  abbrev pub with_input : Bytes → Images W → Images W → Result ℕ → Call W (Result Bytes)
  with_input dir images order (err e) w =
      (err (wrapf "parsing temporary image ref %q: %w" ((codes "dir:" ++ dir) ∷ []) e), w)
  with_input dir images order (ok input) w =
      let (e, w1) = c.make_dir directory w in with_directory input dir images order e w1

  -- With the temporary directory, which is removed at the end.
  abbrev pub with_temp : Images W → Images W → Result Bytes → Call W (Result Bytes)
  with_temp images order (err e) w = (err e, w)
  with_temp images order (ok dir) w =
      let (r, w1) = with_input dir images order (c.parse_name (codes "dir:" ++ dir)) w in
      (r, c.remove_dir dir w1)

  abbrev pub with_policy : Images W → Images W → Option Error → Call W (Result Bytes)
  with_policy images order (some e) w = (err e, w)
  with_policy images order none w = let (t, w1) = c.temp_dir w in with_temp images order t w1

  -- `Build`; the images are a map, which the removal goes over in an order of its own.
  unfoldable pub file_list_build : Images W → Images W → Call W (Result Bytes)
  unfolding fetch_all remove_fetched add_refs
  file_list_build images order w = let (e, w1) = c.policy w in with_policy images order e w1

module _ {W : Type 0} (c : Copier W) (order : Images W → Images W) where
  -- `NewFileListBuilder`; the builder goes over the images a second time in an order of its own.
  unfoldable pub new_file_list_builder :
      Bytes → ListBuilderOptions → Call W (Result (ListBuilder W))
  unfolding file_list_build
  new_file_list_builder directory options w = (
    ok (record { build = λ images. file_list_build c directory options images (order images) }),
    w,
  )
