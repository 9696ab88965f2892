-- ===== src/Builder/Local/Requests.antt =====
-- What the local builder does with its images.
use buildfarm.Base.{
  ℕ, List, [], ◌∷◌, Bool, true, false, ◌&&◌, not, Option, none, some, if◌then◌else◌, Bytes, codes,
  elem, eqb, any, ◌≡◌, ◌↔◌, ◌⊎◌, refl, sym, ap, ◌∙◌, arith, inl, inr,
}
use buildfarm.Base.Result.{Error, Result, ok, err}
use buildfarm.Types.{PullToLocalOptions, RemoveImageOptions, PruneImageOptions, PruneImageReport}
use buildfarm.Builder.Engine.{PruneEntry, Engine, Machine}
use buildfarm.Builder.Local.{
  storage_reference, destination_of, load_saved, transfer, unless_present, local_pull_to_local,
  removal_error, local_remove_image, pruned_ids, prune_report, local_prune_images,
}

ok-injective : {A : Type 0} {x y : A} → ◌≡◌ {A = Result A} (ok x) (ok y) → x ≡ y
ok-injective e = cc

-- An entry of a pruning that names an image that has been removed.
abbrev pub has_removed : Bytes → PruneEntry → Bool
has_removed id p = elim p.err [ none ↦ not (eqb p.id []) && eqb p.id id | some e ↦ false ]

elem-pruned_ids :
    (ps : List PruneEntry) (id : Bytes) → elem id (pruned_ids ps) ≡ any (has_removed id) ps
unfolding pruned_ids elem
elem-pruned_ids [] id = refl
elem-pruned_ids (p ∷ ps) id = ground (arith, elem-pruned_ids ps id)

module _ {W : Type 0} (m : Machine W) (engine : Engine W) where
  -- `PruneImages` reports an ID exactly if the engine has an entry with that ID that is not empty
  -- and has no error; and it succeeds exactly if the engine's pruning does.
  pub local_prune_images-elem :
      (o : PruneImageOptions) (w : W) (report : PruneImageReport)
      → (local_prune_images m engine o w).0 ≡ ok report
      → (filter : List Bytes) × (ps : List PruneEntry) × ((engine.prune o.all filter w).0 ≡ ok ps)
        × ((id : Bytes) → elem id report.image_ids ≡ any (has_removed id) ps)
  unfolding local_prune_images
  local_prune_images-elem o w report h =
      let filter = if o.all then codes "dangling=false" else codes "dangling=true" in
      by_answer (engine.prune o.all (filter ∷ []) w).0 refl h
    where
      by_answer :
          (r : Result (List PruneEntry))
          → (engine.prune o.all
              ((if o.all then codes "dangling=false" else codes "dangling=true") ∷ [])
              w).0
            ≡ r
          → prune_report r ≡ ok report
          → (filter : List Bytes) × (ps : List PruneEntry) × ((engine.prune o.all filter w).0
              ≡ ok ps)
            × ((id : Bytes) → elem id report.image_ids ≡ any (has_removed id) ps)
      by_answer (err e) q k = cc
      by_answer (ok ps) q k = (
        _,
        ps,
        q,
        λ id. ap (λ x. elem id x.image_ids) (sym (ok-injective k)) ∙ elem-pruned_ids ps id,
      )

  removal-none_iff :
      (id : Bytes) (code : ℕ) (es : List Error)
      → (removal_error m engine id code es ≡ none) ↔ ((es ≡ []) × (code ≡ 0))
  removal-none_iff id code [] = (λ h. (refl, ground arith), λ p. ground arith)
  removal-none_iff id code (e ∷ []) = (λ h. cc, λ p. cc)
  removal-none_iff id code (e ∷ f ∷ es) = (λ h. cc, λ p. cc)

  -- `RemoveImage` succeeds exactly if the engine reports no error and the exit code 0.
  pub local_remove_image-none_iff :
      (o : RemoveImageOptions) (w : W)
      → ((local_remove_image m engine o w).0 ≡ none) ↔ (
          ((engine.remove o.image_id w).0.errors ≡ [])
          × ((engine.remove o.image_id w).0.exit_code ≡ 0))
  unfolding local_remove_image
  local_remove_image-none_iff o w =
      removal-none_iff o.image_id (engine.remove o.image_id w).0.exit_code
        (engine.remove o.image_id w).0.errors

  -- The saving and the loading of an image by way of a file.
  pub record Transferred (d : Engine W) (o : PullToLocalOptions) : Type 0 where
    pub file : Bytes
    pub before : W
    pub saved : (engine.save o.image_id o.save_format file before).0 ≡ none
    pub loaded : (d.load file (engine.save o.image_id o.save_format file before).1).0 ≡ none

  load_saved-ok :
      (d : Engine W) (o : PullToLocalOptions) (file : Bytes) (e : Option Error) (v : W)
      (reference : Bytes)
      → (load_saved m engine d o file e v).0 ≡ ok reference
      → (e ≡ none) × ((d.load file v).0 ≡ none) × (reference ≡ storage_reference o.image_id)
  load_saved-ok d o file (some e) v reference h = cc
  load_saved-ok d o file none v reference h = by_load (d.load file v).0 refl h
    where
      by_load :
          (l : Option Error)
          → (d.load file v).0 ≡ l
          → ◌≡◌ {A = Result Bytes}
              (elim l [ none ↦ ok (storage_reference o.image_id) | some x ↦ err x ])
              (ok reference)
          → ◌≡◌ {A = Option Error} none none
            × ((d.load file v).0 ≡ none)
            × (reference ≡ storage_reference o.image_id)
      by_load (some x) q k = cc
      by_load none q k = (refl, q, sym (ok-injective k))

  transfer-ok :
      (d : Engine W) (o : PullToLocalOptions) (t : Result Bytes) (v : W) {reference : Bytes}
      → (transfer m engine d o t v).0 ≡ ok reference
      → (reference ≡ storage_reference o.image_id) × Transferred d o
  transfer-ok d o (err e) v h = cc
  transfer-ok d o (ok file) v {reference} h =
      let (e, l, r) =
        load_saved-ok d o file (engine.save o.image_id o.save_format file v).0
          (engine.save o.image_id o.save_format file v).1 reference h in
      (r, record { file = file; before = v; saved = e; loaded = l })

  -- `PullToLocal` succeeds only with the reference of the image in local storage, and only if the
  -- image was at the destination already, or has been saved to a file and loaded from it there.
  pub local_pull_to_local-ok :
      (o : PullToLocalOptions) (w : W) (reference : Bytes)
      → (local_pull_to_local m engine o w).0 ≡ ok reference
      → (reference ≡ storage_reference o.image_id)
        × ((((destination_of m engine o.destination).exists o.image_id w).0 ≡ ok true)
            ⊎ Transferred (destination_of m engine o.destination) o)
  unfolding local_pull_to_local
  local_pull_to_local-ok o w reference h =
      by_present ((destination_of m engine o.destination).exists o.image_id w).0 refl h
    where
      by_present :
          (r : Result Bool)
          → ((destination_of m engine o.destination).exists o.image_id w).0 ≡ r
          → (unless_present m engine
              (destination_of m engine o.destination)
              o
              r
              ((destination_of m engine o.destination).exists o.image_id w).1).0
            ≡ ok reference
          → (reference ≡ storage_reference o.image_id)
            × ((((destination_of m engine o.destination).exists o.image_id w).0 ≡ ok true)
                ⊎ Transferred (destination_of m engine o.destination) o)
      by_present (err e) q k = cc
      by_present (ok true) q k = (sym (ok-injective k), inl q)
      by_present (ok false) q k =
          let (r, t) =
            transfer-ok (destination_of m engine o.destination) o (m.temp_file _).0
              (m.temp_file _).1 k in
          (r, inr t)
