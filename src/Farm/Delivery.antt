-- ===== src/Farm/Delivery.antt =====
-- `Build` of buildfarm.go with the list builders of local.go and files.go.
use buildfarm.Base.{◌++◌, Bool, true, false, Option, none, some, Bytes, codes, ◌≡◌}
use buildfarm.Base.Result.{Result}
use buildfarm.Types.{ListBuilderOptions}
use buildfarm.Farm.Build.{Uses}
use buildfarm.Builder.LocalList.{Storage, Images, new_podman_local_list_builder}
use buildfarm.Builder.LocalList.Assembly.{Saved}
use buildfarm.Builder.FileList.{Copier, new_file_list_builder}
use buildfarm.Builder.FileList.Saving

module _ {W : Type 0} (uses : Uses W) (storage : Storage W) (copier : Copier W)
    (local_order file_order : Images W → Images W) where
  -- What `Build` uses, with the two list builders of the program.
  abbrev pub wired : Uses W
  wired = record uses {
    new_file_list_builder = new_file_list_builder copier file_order;
    new_local_list_builder = new_podman_local_list_builder storage local_order;
  }

  -- Where the list is, by the directory that the reference names and whether there is a store: in
  -- that directory, in local storage, or in a directory that has the name of the reference.
  abbrev pub Delivered :
      Bytes → Option Bytes → Bool → ListBuilderOptions → Bytes → Images W → Type 0
  Delivered reference (some directory) store options name images =
      (name ≡ codes "dir:" ++ directory) × Saving.Saved copier directory options images
  Delivered reference none true options name images =
      (name ≡ reference) × Saved storage reference options images
  Delivered reference none false options name images =
      (name ≡ codes "dir:" ++ reference) × Saving.Saved copier reference options images
