-- ===== src/Builder/FileList/Saving.antt =====
-- What it takes for the list builder of files.go to succeed.
use buildfarm.Base.{
  ℕ, List, [], ◌∷◌, ◌++◌, Option, none, some, if◌then◌else◌, Bytes, codes, ◌≡◌, refl, sym, All, eqb,
}
use buildfarm.Base.Result.{Error, wrapf, Result, ok, err, ok-injective}
use buildfarm.Types.{BuildReport, ListBuilderOptions}
use buildfarm.Farm.Build.{oci_v1_image_manifest, docker_v2_image_manifest}
use buildfarm.Builder.LocalList.{Images}
use buildfarm.Builder.FileList.{
  Copier, Fetched, docker_v2_list, oci_image_index, fetch_all, add_refs, references, write_id,
  copy_list, write_list, serialize_list, after_removal, after_fetch, after_files, nothing_fetched,
  with_output, with_directory, with_input, with_temp, with_policy, file_list_build,
}
use buildfarm.Builder.FileList.Fetching.{IsFetched, IsFrom, fetch_all-ok, fetch_all-IsFrom}

module _ {W : Type 0} (c : Copier W) where
  -- The list has taken a reference.
  abbrev pub IsListed : BuildReport × ℕ → Type 0
  IsListed x = (v : W) × ((c.add x.1 v).0 ≡ none)

  add_refs-ok :
      (refs : List (BuildReport × ℕ)) (w : W) → (add_refs c refs w).0 ≡ none → All IsListed refs
  unfolding add_refs
  add_refs-ok [] w h = tt
  add_refs-ok ((image, ref) ∷ rest) w h =
      by_added (c.add ref w).0 refl (add_refs-ok rest (c.add ref w).1) h
    where
      by_added :
          (e : Option Error)
          → (c.add ref w).0 ≡ e
          → ((add_refs c rest (c.add ref w).1).0 ≡ none → All IsListed rest)
          → (elim e as (λ _. Option Error × W) [
            | none ↦ ((add_refs c rest (c.add ref w).1).0, (add_refs c rest (c.add ref w).1).1)
            | some x ↦ (
              some (wrapf "adding image %q to list: %w" (image.image_id ∷ []) x),
              (c.add ref w).1,
            )
          ]).0
            ≡ none
          → All IsListed ((image, ref) ∷ rest)
      by_added (some x) q ih k = cc
      by_added none q ih k = ((w, q), ih k)

module _ {W : Type 0} (c : Copier W) (directory : Bytes) (options : ListBuilderOptions) where
  abbrev place : Bytes
  place = codes "dir:" ++ directory

  -- The list has been written beside the images, and everything has been copied.
  pub record Copied (input output : ℕ) (dir : Bytes) (f : Fetched) : Type 0 where
    pub bytes : Bytes
    pub written : (v : W) × ((c.write_file (dir ++ codes "/manifest.json") bytes v).0 ≡ none)
    pub serialized :
        (v : W) × ((c.serialize (if f.docker then docker_v2_list else oci_image_index) v).0
          ≡ ok bytes)
    pub copied :
        (v : W) × ((c.copy output input
            (references f.refs)
            (if f.docker then docker_v2_image_manifest else oci_v1_image_manifest)
            v).0
          ≡ none)

  -- A temporary directory.
  abbrev pub IsTemp : Bytes → Type 0
  IsTemp dir = (v : W) × ((c.temp_dir v).0 ≡ ok dir)

  -- A list that has been saved: every image has been pulled to a file that was made in a temporary
  -- directory and has a reference, each reference is the one that an image was pulled to, the list
  -- has taken it, the list has been written to the temporary directory, and all of it has been copied
  -- to the directory of the list.
  pub record Saved (images : Images W) : Type 0 where
    pub dir : Bytes
    pub made : IsTemp dir
    pub input : ℕ
    pub output : ℕ
    pub fetched : Fetched
    pub from : c.parse_name (codes "dir:" ++ dir) ≡ ok input
    pub to : c.parse_name place ≡ ok output
    pub pulled : All (IsFetched c dir fetched.refs) images
    pub references_of : All (IsFrom c dir images) fetched.refs
    pub added : All (IsListed c) fetched.refs
    pub copied : Copied input output dir fetched

  write_id-ok :
      (e : Option Error) (w : W) (r : Bytes)
      → (write_id c directory options e w).0 ≡ ok r
      → (e ≡ none) × (r ≡ place)
  write_id-ok (some e) w r h = cc
  write_id-ok none w r h = (
    refl,
    by_id
        (if eqb options.iid_file []
          then (none, w)
          else c.write_file options.iid_file (codes "sha256:") w).0
        h,
  )
    where
      by_id :
          (e : Option Error)
          → ◌≡◌ {A = Result Bytes} (elim e [ none ↦ ok place | some x ↦ err x ]) (ok r)
          → r ≡ place
      by_id none k = sym (ok-injective k)
      by_id (some x) k = cc

  copy_list-ok :
      (input output : ℕ) (dir bytes : Bytes) (f : Fetched) (e : Option Error) (v w : W) (r : Bytes)
      → (c.write_file (dir ++ codes "/manifest.json") bytes v).0 ≡ e
      → (u : W)
      → (c.serialize (if f.docker then docker_v2_list else oci_image_index) u).0 ≡ ok bytes
      → (copy_list c directory options input output f e w).0 ≡ ok r
      → (r ≡ place) × Copied input output dir f
  copy_list-ok input output dir bytes f (some e) v w r q u s h = cc
  copy_list-ok input output dir bytes f none v w r q u s h =
      let (copied, n) = write_id-ok _ _ r h in
      (n, record { bytes = bytes; written = (v, q); serialized = (u, s); copied = (w, copied) })

  write_list-ok :
      (input output : ℕ) (dir : Bytes) (f : Fetched) (b : Result Bytes) (v w : W) (r : Bytes)
      → (c.serialize (if f.docker then docker_v2_list else oci_image_index) v).0 ≡ b
      → (write_list c directory options input output dir f b w).0 ≡ ok r
      → (r ≡ place) × Copied input output dir f
  write_list-ok input output dir f (err e) v w r q h = cc
  write_list-ok input output dir f (ok bytes) v w r q h =
      copy_list-ok input output dir bytes f _ w _ r refl v q h

  serialize_list-ok :
      (input output : ℕ) (dir : Bytes) (f : Fetched) (e : Option Error) (w : W) (r : Bytes)
      → (serialize_list c directory options input output dir f e w).0 ≡ ok r
      → (e ≡ none) × (r ≡ place) × Copied input output dir f
  serialize_list-ok input output dir f (some e) w r h = cc
  serialize_list-ok input output dir f none w r h =
      let (n, copied) = write_list-ok input output dir f _ w _ r refl h in (refl, n, copied)

  after_removal-ok :
      (input output : ℕ) (dir : Bytes) (f : Fetched) (es : List Error) (w : W) (r : Bytes)
      → (after_removal c directory options input output dir f es w).0 ≡ ok r
      → (r ≡ place) × All (IsListed c) f.refs × Copied input output dir f
  after_removal-ok input output dir f (e ∷ es) w r h = cc
  after_removal-ok input output dir f [] w r h =
      let (added, n, copied) = serialize_list-ok input output dir f _ _ r h in
      (n, add_refs-ok c f.refs w added, copied)

  after_fetch-ok :
      (input output : ℕ) (dir : Bytes) (order : Images W) (f : Fetched) (es : List Error) (w : W)
      (r : Bytes)
      → (after_fetch c directory options input output dir order f es w).0 ≡ ok r
      → (es ≡ []) × (r ≡ place) × All (IsListed c) f.refs × Copied input output dir f
  after_fetch-ok input output dir order f (e ∷ es) w r h = cc
  after_fetch-ok input output dir order f [] w r h =
      let (n, added, copied) = after_removal-ok input output dir f _ _ r h in
      (refl, n, added, copied)

  after_files-ok :
      (input output : ℕ) (dir : Bytes) (made : IsTemp dir) (images order : Images W)
      (t : Result Fetched) (v w : W) (r : Bytes)
      → (fetch_all c dir images (nothing_fetched c directory options) v).0 ≡ t
      → c.parse_name (codes "dir:" ++ dir) ≡ ok input
      → c.parse_name place ≡ ok output
      → (after_files c directory options input output dir order t w).0 ≡ ok r
      → (r ≡ place) × Saved images
  after_files-ok input output dir made images order (err e) v w r q i o h = cc
  after_files-ok input output dir made images order (ok f) v w r q i o h =
      let (no_errors, n, added, copied) = after_fetch-ok input output dir order f f.errors w r h in
      let (_, pulled, _) =
        fetch_all-ok c dir images (nothing_fetched c directory options) f v q no_errors in
      (
        n,
        record {
          dir = dir;
          made = made;
          input = input;
          output = output;
          fetched = f;
          from = i;
          to = o;
          pulled = pulled;
          references_of = fetch_all-IsFrom c dir images images _ f v (λ x m. m) tt q;
          added = added;
          copied = copied;
        },
      )

  with_output-ok :
      (input : ℕ) (dir : Bytes) (made : IsTemp dir) (images order : Images W) (o : Result ℕ) (w : W)
      (r : Bytes)
      → c.parse_name place ≡ o
      → c.parse_name (codes "dir:" ++ dir) ≡ ok input
      → (with_output c directory options input dir images order o w).0 ≡ ok r
      → (r ≡ place) × Saved images
  with_output-ok input dir made images order (err e) w r q i h = cc
  with_output-ok input dir made images order (ok output) w r q i h =
      after_files-ok input output dir made images order _ w _ r refl i q h

  with_directory-ok :
      (input : ℕ) (dir : Bytes) (made : IsTemp dir) (images order : Images W) (e : Option Error)
      (w : W) (r : Bytes)
      → c.parse_name (codes "dir:" ++ dir) ≡ ok input
      → (with_directory c directory options input dir images order e w).0 ≡ ok r
      → (r ≡ place) × Saved images
  with_directory-ok input dir made images order (some e) w r i h = cc
  with_directory-ok input dir made images order none w r i h =
      with_output-ok input dir made images order _ w r refl i h

  with_input-ok :
      (dir : Bytes) (made : IsTemp dir) (images order : Images W) (i : Result ℕ) (w : W) (r : Bytes)
      → c.parse_name (codes "dir:" ++ dir) ≡ i
      → (with_input c directory options dir images order i w).0 ≡ ok r
      → (r ≡ place) × Saved images
  with_input-ok dir made images order (err e) w r q h = cc
  with_input-ok dir made images order (ok input) w r q h =
      with_directory-ok input dir made images order _ _ r q h

  with_temp-ok :
      (images order : Images W) (t : Result Bytes) (v w : W) (r : Bytes)
      → (c.temp_dir v).0 ≡ t
      → (with_temp c directory options images order t w).0 ≡ ok r
      → (r ≡ place) × Saved images
  with_temp-ok images order (err e) v w r m h = cc
  with_temp-ok images order (ok dir) v w r m h = with_input-ok dir (v, m) images order _ w r refl h

  with_policy-ok :
      (images order : Images W) (e : Option Error) (w : W) (r : Bytes)
      → (with_policy c directory options images order e w).0 ≡ ok r
      → (r ≡ place) × Saved images
  with_policy-ok images order (some e) w r h = cc
  with_policy-ok images order none w r h = with_temp-ok images order _ w _ r refl h

  -- If the list builder of files.go succeeds, it returns the name of its directory; then every
  -- image has been pulled by the builder that has it to a file that was made in a temporary directory,
  -- and has a reference; each reference was read from the name that such a pull of its image has
  -- returned, and has been added to the list; the list has been serialized in one of two formats and
  -- written to the temporary directory, and it has been copied with the references to the directory.
  pub file_list_build-ok :
      (images order : Images W) (w : W) (r : Bytes)
      → (file_list_build c directory options images order w).0 ≡ ok r
      → (r ≡ codes "dir:" ++ directory) × Saved images
  unfolding file_list_build
  file_list_build-ok images order w r h = with_policy-ok images order _ _ r h
