-- ===== src/Builder/LocalList/Removal.antt =====
-- Which images the list builder removes.
use buildfarm.Base.{ℕ}
use buildfarm.Base.{
  List, [], ◌∷◌, false, if◌then◌else◌, Bytes, eqb, ◌≡◌, ◌≢◌, refl, sym, ◌∙◌, inl, inr, Bool-cases,
}
use buildfarm.Base.Result.{Error, wrapf, ok, err}
use buildfarm.Types.{BuildReport, ImageBuilder, ListBuilderOptions}
use buildfarm.Farm.Open.{local_image_builder_name}
use buildfarm.Builder.LocalList.{
  Storage, Images, Pulled, pull_all, remove_one, remove_all, after_pull, nothing_pulled, with_list,
}

module _ {W : Type 0} where
  -- The images that other builders than the local one have built.
  abbrev pub remote_images : Images W → Images W
  remote_images [] = []
  remote_images ((image, b) ∷ rest) =
      if eqb b.name local_image_builder_name
      then remote_images rest
      else (image, b) ∷ remote_images rest

  remove_all-other :
      (image : BuildReport) (b : ImageBuilder W) (rest : Images W) (es : List Error) (w : W)
      → eqb b.name local_image_builder_name ≡ false
      → remove_all ((image, b) ∷ rest) es w
        ≡ remove_all rest (remove_one image b es w).0 (remove_one image b es w).1
  unfolding remove_all
  remove_all-other image b rest es w e = rw e

  -- The removal goes over exactly the images that other builders than the local one have built.
  pub remove_all-remote_images :
      (images : Images W) (es : List Error) (w : W)
      → remove_all images es w ≡ remove_all (remote_images images) es w
  unfolding remove_all
  remove_all-remote_images [] es w = refl
  remove_all-remote_images ((image, b) ∷ rest) es w =
      elim (Bool-cases (eqb b.name local_image_builder_name)) [
        | inl e ↦ rw e (remove_all-remote_images rest es w)
        | inr e ↦ rw e (
            remove_all-remote_images rest (remove_one image b es w).0 (remove_one image b es w).1
            ∙ sym (remove_all-other image b (remote_images rest) es w e))
      ]

module _ {W : Type 0} (s : Storage W) (name : Bytes) (options : ListBuilderOptions)
    (engine list : ℕ) (images order : Images W) (w : W) where
  abbrev pulled : Pulled W × W
  pulled = pull_all engine images nothing_pulled w

  -- If an image cannot be pulled, nothing is removed and the list is left alone: the errors of all
  -- pulls are returned, and the last thing that has happened is the last pull.
  pub with_list-pull_failure :
      pulled.0.errors ≢ []
      → with_list s name options engine images order (ok list) w
        ≡ (err (wrapf "building: %w" [] (s.join pulled.0.errors)), pulled.1)
  with_list-pull_failure h = by_errors pulled.0.errors h
    where
      by_errors :
          (es : List Error)
          → es ≢ []
          → after_pull s name options list order pulled.0.refs es pulled.1
            ≡ (err (wrapf "building: %w" [] (s.join es)), pulled.1)
      by_errors [] n = absurd (n refl)
      by_errors (e ∷ es) n = refl
