-- ===== src/Builder/Docker/Images.antt =====
-- The operations of docker.go on images that are there.
use buildfarm.Base.{
  ℕ, List, [], ◌∷◌, ◌++◌, Bool, true, false, not, Option, none, some, if◌then◌else◌, Bytes, codes,
  eqb,
}
use buildfarm.Base.Map.{Map}
use buildfarm.Base.Result.{Error, errorf, wrapf, Result, ok, err}
use buildfarm.Types.{
  PullToFileOptions, PullToLocalOptions, RemoveImageOptions, PruneImageOptions, PruneImageReport,
  Call,
}
use buildfarm.Builder.Engine.{Engine, Machine}
use buildfarm.Builder.Remote.{load_error}
use buildfarm.Builder.Docker.{Docker}

module _ {W : Type 0} (d : Docker W) where
  -- `RemoveImage`
  unfoldable pub docker_remove_image : RemoveImageOptions → Call W (Option Error)
  docker_remove_image o w =
      let (e, w1) = d.remove_image o.image_id w in
      (
        elim e [
          | none ↦ none
          | some x ↦ some (
              wrapf "removing intermediate image %q from remote %q: %w" (o.image_id ∷ d.name ∷ [])
                x)
        ],
        w1,
      )

abbrev pub text_of : Bool → Bytes
text_of true = codes "true"
text_of false = codes "false"

abbrev pub prune_filters : Bool → Map (List Bytes)
prune_filters all =
    (codes "force", codes "true" ∷ [])
    ∷ (codes "all", text_of all ∷ [])
    ∷ (codes "dangling", text_of (not all) ∷ [])
    ∷ []

-- The loop of `PruneImages`.
unfoldable pub deleted_ids : List Bytes → List Bytes
deleted_ids [] = []
deleted_ids (x ∷ xs) = let rest = deleted_ids xs in if eqb x [] then rest else x ∷ rest

module _ {W : Type 0} (d : Docker W) where
  abbrev pub deleted_report : Result (List Bytes) → Result PruneImageReport
  deleted_report (err e) = err (wrapf "removing unused images from remote %q: %w" (d.name ∷ []) e)
  deleted_report (ok xs) = ok (record { image_ids = deleted_ids xs; image_names = [] })

  -- `PruneImages`
  unfoldable pub docker_prune_images : PruneImageOptions → Call W (Result PruneImageReport)
  unfolding deleted_ids
  docker_prune_images o w =
      let (r, w1) = d.prune_images (prune_filters o.all) w in (deleted_report r, w1)

module _ {W : Type 0} (d : Docker W) (m : Machine W) where
  -- The file that was made is removed again where there is an error.
  abbrev pub exported : PullToFileOptions → Option Error → Call W (Result Bytes)
  exported o none w = (ok (o.save_format ++ b':' ∷ o.save_file), w)
  exported o (some e) w =
      (err (wrapf "saving image %q: %w" (o.image_id ∷ []) e), m.remove_file o.save_file w)

  abbrev pub export_to : PullToFileOptions → Option Error → Call W (Result Bytes)
  export_to o (some e) w = (err e, w)
  export_to o none w = let (e, w1) = d.export_image o.image_id o.save_file w in exported o e w1

  -- `PullToFile`
  unfoldable pub docker_pull_to_file : PullToFileOptions → Call W (Result Bytes)
  docker_pull_to_file o w = let (e, w1) = d.create o.save_file w in export_to o e w1

  abbrev pub load_exported : Engine W → Bytes → Bytes → Option Error → Call W (Result Bytes)
  load_exported destination id file (some e) w =
      (err (wrapf "saving image %q to temporary file: %w" (id ∷ []) e), w)
  load_exported destination id file none w =
      let (e, w1) = destination.load file w in (load_error id e, w1)

  -- The deferred removal of the file comes last.
  abbrev pub through_export : Engine W → Bytes → Result Bytes → Call W (Result Bytes)
  through_export destination id (err e) w = (err e, w)
  through_export destination id (ok file) w =
      let (e, w1) = d.export_image id file w in
      let (ref, w2) = load_exported destination id file e w1 in (ref, m.remove_file file w2)

  abbrev pub pull_into : Option ℕ → Bytes → Call W (Result Bytes)
  pull_into none id w = (err (errorf "internal error: options.Destination not set" []), w)
  pull_into (some n) id w =
      let (file, w1) = m.temp_file w in through_export (m.engine_of n) id file w1

  -- `PullToLocal`
  unfoldable pub docker_pull_to_local : PullToLocalOptions → Call W (Result Bytes)
  docker_pull_to_local o w = pull_into o.destination o.image_id w
