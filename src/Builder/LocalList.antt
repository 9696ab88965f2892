-- ===== src/Builder/LocalList.antt =====
-- The list builder of local.go, which saves a manifest list in local storage.
pub mod Removal
pub mod Assembly
use buildfarm.Base.{
  ℕ, List, [], ◌∷◌, ◌++◌, Bool, true, false, Option, none, some, if◌then◌else◌, Bytes, eqb,
}
use buildfarm.Base.Map.{Map, insert}
use buildfarm.Base.Result.{Error, errorf, wrapf, Result, ok, err, map_err}
use buildfarm.Types.{
  BuildReport, PullToLocalOptions, RemoveImageOptions, ImageBuilder, ListBuilder,
  ListBuilderOptions, Call,
}
use buildfarm.Farm.Open.{local_image_builder_name}

-- The local engine and libimage's runtime with its manifest lists; an engine and a list are numbers.
pub record Storage (W : Type 0) : Type 0 where
  pub read_custom_config : Call W (Option Error)
  pub new_engine : Call W (Result ℕ)
  pub shutdown_engine : W → W
  pub new_runtime : Call W (Option Error)
  pub shutdown_runtime : W → W
  pub lookup_list : Bytes → Call W (Result ℕ)
  pub create_list : Bytes → Call W (Result ℕ)
  pub inspect : ℕ → Call W (Result (List Bytes))
  pub remove_instance : ℕ → Bytes → Call W (Option Error)
  pub add : ℕ → Bytes → Call W (Option Error)
  pub join : List Error → Error

abbrev pub Images : Type 0 → Type 0
Images W = List (BuildReport × ImageBuilder W)

-- `refs`, and the errors of the goroutines.
pub record Pulled (W : Type 0) : Type 0 where
  pub refs : Map (ImageBuilder W)
  pub errors : List Error

abbrev pub add_error : Option Error → List Error → List Error
add_error none es = es
add_error (some e) es = es ++ e ∷ []

abbrev pub pull_options : ℕ → BuildReport → PullToLocalOptions
pull_options engine image = record {
  image_id = image.image_id;
  save_format = image.save_format;
  destination = some engine;
}

module _ {W : Type 0} where
  abbrev pub nothing_pulled : Pulled W
  nothing_pulled = record { refs = []; errors = [] }

  abbrev pub note_pull : BuildReport → ImageBuilder W → Result Bytes → Pulled W → Pulled W
  note_pull image b (ok ref) p = record p { refs = insert ref b p.refs }
  note_pull image b (err e) p = record p {
    errors =
        p.errors
        ++ wrapf "pulling image %q to local storage: %w" (image.image_id ∷ image.save_format ∷ []) e
          ∷ [];
  }

  -- The goroutines that pull the images.
  unfoldable pub pull_all : ℕ → Images W → Pulled W → Call W (Pulled W)
  pull_all engine [] p w = (p, w)
  pull_all engine ((image, b) ∷ rest) p w =
      let (r, w1) = b.pull_to_local (pull_options engine image) w in
      pull_all engine rest (note_pull image b r p) w1

  abbrev pub remove_one : BuildReport → ImageBuilder W → List Error → Call W (List Error)
  remove_one image b es w =
      let (e, w1) = b.remove_image (record { image_id = image.image_id }) w in (add_error e es, w1)

  -- The goroutines that remove intermediate images, those of the local builder aside.
  unfoldable pub remove_all : Images W → List Error → Call W (List Error)
  remove_all [] es w = (es, w)
  remove_all ((image, b) ∷ rest) es w =
      let (es1, w1) =
        if eqb b.name local_image_builder_name then (es, w) else remove_one image b es w in
      remove_all rest es1 w1

module _ {W : Type 0} (s : Storage W) (name : Bytes) (options : ListBuilderOptions) where
  -- The refusals of `NewPodmanLocalListBuilder`.
  unfoldable pub local_list_error : Call W (Option Error)
  local_list_error w =
      if eqb options.iid_file []
      then (let (e, w1) = s.read_custom_config w in
          (elim e [ none ↦ none | some x ↦ some (wrapf "reading custom config: %w" [] x) ], w1))
      else (some (errorf "local filesystem doesn't use image IDs, --iidfile not supported" []), w)

  abbrev pub create_if : Result ℕ → Call W (Result ℕ)
  create_if (ok list) w = (ok list, w)
  create_if (err e) w =
      let (r, w1) = s.create_list name w in
      (map_err (wrapf "creating manifest list %q: %w" (name ∷ [])) r, w1)

  -- The loop that clears the list; an error ends it.
  unfoldable pub clear_list : ℕ → List Bytes → Call W (Option Error)
  clear_list list [] w = (none, w)
  clear_list list (digest ∷ rest) w =
      let (e, w1) = s.remove_instance list digest w in
      let (e2, w2) = clear_list list rest w1 in
      elim e [
        | none ↦ (e2, w2)
        | some x ↦ (some (wrapf "removing instance %q from list %q: %w" (digest ∷ name ∷ []) x), w1)
      ]

  -- The loop that fills it.
  unfoldable pub fill_list : ℕ → Map (ImageBuilder W) → Call W (Result Bytes)
  fill_list list [] w = (ok name, w)
  fill_list list ((ref, b) ∷ rest) w =
      let (e, w1) = s.add list ref w in
      let (r, w2) = fill_list list rest w1 in
      elim e [
        | none ↦ (r, w2)
        | some x ↦ (err (wrapf "adding image %q to list: %w" (ref ∷ []) x), w1)
      ]

  abbrev pub fill_cleared : ℕ → Map (ImageBuilder W) → Option Error → Call W (Result Bytes)
  fill_cleared list refs (some e) w = (err e, w)
  fill_cleared list refs none w = fill_list list refs w

  abbrev pub clear_inspected :
      ℕ → Map (ImageBuilder W) → Result (List Bytes) → Call W (Result Bytes)
  clear_inspected list refs (err e) w = (err (wrapf "inspecting list %q: %w" (name ∷ []) e), w)
  clear_inspected list refs (ok digests) w =
      let (e, w1) = clear_list list digests w in fill_cleared list refs e w1

  abbrev pub after_removal : ℕ → Map (ImageBuilder W) → List Error → Call W (Result Bytes)
  after_removal list refs (e ∷ es) w =
      (err (wrapf "removing intermediate images: %w" [] (s.join (e ∷ es))), w)
  after_removal list refs [] w = let (r, w1) = s.inspect list w in clear_inspected list refs r w1

  abbrev pub after_pull : ℕ → Images W → Map (ImageBuilder W) → List Error → Call W (Result Bytes)
  after_pull list images refs (e ∷ es) w = (err (wrapf "building: %w" [] (s.join (e ∷ es))), w)
  after_pull list images refs [] w =
      let (es, w1) =
        if options.remove_intermediate_images then remove_all images [] w else ([], w) in
      after_removal list refs es w1

  abbrev pub with_list : ℕ → Images W → Images W → Result ℕ → Call W (Result Bytes)
  with_list engine images order (err e) w = (err e, w)
  with_list engine images order (ok list) w =
      let (p, w1) = pull_all engine images nothing_pulled w in
      after_pull list order p.refs p.errors w1

  -- With the runtime, which is shut down at the end.
  abbrev pub with_runtime : ℕ → Images W → Images W → Option Error → Call W (Result Bytes)
  with_runtime engine images order (some e) w =
      (err (wrapf "initializing local manifest list storage: %w" [] e), w)
  with_runtime engine images order none w =
      let (found, w1) = s.lookup_list name w in
      let (list, w2) = create_if found w1 in
      let (r, w3) = with_list engine images order list w2 in (r, s.shutdown_runtime w3)

  -- With the engine, which is shut down at the end.
  abbrev pub with_engine : Images W → Images W → Result ℕ → Call W (Result Bytes)
  with_engine images order (err e) w = (err (wrapf "initializing local image engine: %w" [] e), w)
  with_engine images order (ok engine) w =
      let (e, w1) = s.new_runtime w in
      let (r, w2) = with_runtime engine images order e w1 in (r, s.shutdown_engine w2)

  -- `Build`; the images are a map, which the removal goes over in an order of its own.
  unfoldable pub local_list_build : Images W → Images W → Call W (Result Bytes)
  unfolding pull_all remove_all clear_list fill_list
  local_list_build images order w =
      let (engine, w1) = s.new_engine w in with_engine images order engine w1

module _ {W : Type 0} (s : Storage W) (order : Images W → Images W) where
  -- The builder, which goes over the images a second time in an order of its own.
  abbrev pub local_list_builder : Bytes → ListBuilderOptions → ListBuilder W
  local_list_builder name options = record {
    build = λ images. local_list_build s name options images (order images);
  }

  abbrev pub with_list_error :
      Bytes → ListBuilderOptions → Option Error → W → Result (ListBuilder W) × W
  with_list_error name options (some e) w = (err e, w)
  with_list_error name options none w = (ok (local_list_builder name options), w)

  -- `NewPodmanLocalListBuilder`
  unfoldable pub new_podman_local_list_builder :
      Bytes → ListBuilderOptions → Call W (Result (ListBuilder W))
  unfolding local_list_error local_list_build
  new_podman_local_list_builder name options w =
      let (e, w1) = local_list_error s name options w in with_list_error name options e w1
