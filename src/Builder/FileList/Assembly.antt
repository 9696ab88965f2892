-- ===== src/Builder/FileList/Assembly.antt =====
-- The formats of the list builder.
use buildfarm.Base.{ℕ, [], ◌∷◌, Bool, false, ◌||◌, Bytes, eqb, ◌≡◌, refl, sym, ap, ◌∙◌, arith, All}
use buildfarm.Base.Result.{Result, ok, err}
use buildfarm.Types.{BuildReport, ImageBuilder}
use buildfarm.Farm.Build.{docker_v2_image_manifest}
use buildfarm.Builder.LocalList.{Images}
use buildfarm.Builder.FileList.{Copier, Fetched, note_reference, note_file, fetch, fetch_all}

module _ {W : Type 0} (c : Copier W) where
  note_file-docker :
      (image : BuildReport) (r : Result Bytes) (f : Fetched)
      → (note_file c image r f).docker ≡ f.docker
  note_file-docker image (err e) f = refl
  note_file-docker image (ok reference) f = by_name (c.parse_name reference)
    where
      by_name : (r : Result ℕ) → (note_reference c image r f).docker ≡ f.docker
      by_name (ok ref) = refl
      by_name (err e) = refl

  fetch-docker :
      (image : BuildReport) (b : ImageBuilder W) (file : Bytes) (f : Fetched) (w : W)
      → eqb image.save_format docker_v2_image_manifest ≡ false
      → (fetch c image b file f w).0.docker ≡ f.docker
  fetch-docker image b file f w h =
      let p : (fetch c image b file f w).0.docker
          ≡ (f.docker || eqb image.save_format docker_v2_image_manifest) =
        note_file-docker image _ _ in
      p ∙ ap (λ x. f.docker || x) h ∙ or_false f.docker
    where
      or_false : (x : Bool) → (x || false) ≡ x
      or_false x = ground arith

  -- The formats are Docker's only if they were, or if a report gives as its save format the media
  -- type of a Docker manifest. The builders give "oci-archive" and "docker-archive".
  pub fetch_all-docker :
      (dir : Bytes) (images : Images W) (f g : Fetched) (w : W)
      → All (λ x. eqb x.0.save_format docker_v2_image_manifest ≡ false) images
      → (fetch_all c dir images f w).0 ≡ ok g
      → g.docker ≡ f.docker
  unfolding fetch_all
  fetch_all-docker dir [] f g w h k = ap (λ x. x.docker) (sym (ok-injective k))
    where
      ok-injective : {x y : Fetched} → ◌≡◌ {A = Result Fetched} (ok x) (ok y) → x ≡ y
      ok-injective e = cc
  fetch_all-docker dir ((image, b) ∷ rest) f g w h k =
      by_file (c.temp_file dir w).0 (λ f2 w2. fetch_all-docker dir rest f2 g w2 h.1) k
    where
      by_file :
          (t : Result Bytes)
          → ((f2 : Fetched) (w2 : W) → (fetch_all c dir rest f2 w2).0 ≡ ok g → g.docker ≡ f2.docker)
          → (elim t as (λ _. Result Fetched × W) [
            | err e ↦ (err e, (c.temp_file dir w).1)
            | ok file ↦
                let (f2, w2) = fetch c image b file f (c.temp_file dir w).1 in
                fetch_all c dir rest f2 w2
          ]).0
            ≡ ok g
          → g.docker ≡ f.docker
      by_file (err e) ih q = cc
      by_file (ok file) ih q =
          ih (fetch c image b file f (c.temp_file dir w).1).0
            (fetch c image b file f (c.temp_file dir w).1).1 q
          ∙ fetch-docker image b file f (c.temp_file dir w).1 h.0
