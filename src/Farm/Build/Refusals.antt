-- ===== src/Farm/Build/Refusals.antt =====
-- What `Build` refuses before it does anything.
use buildfarm.Base.{
  List, [], ◌∷◌, Bool, true, ◌||◌, Bytes, eqb, eqb_iff, ◌≡◌, ◌⊎◌, inl, inr, refl, ap, ◌∙◌,
  Bool-cases,
}
use buildfarm.Base.Map.{Map}
use buildfarm.Base.Result.{Error, Result, ok, err, errorf}
use buildfarm.Types.{BuildOptions}
use buildfarm.Farm.{Builders, Assignment}
use buildfarm.Farm.Build.{
  Uses, Job, oci_v1_image_manifest, docker_v2_image_manifest, output_format, make_jobs, build_jobs,
  build_as, build,
}
use buildfarm.Farm.Build.Jobs.{AllKnown, make_jobs-ok_iff}

-- The formats that `Build` knows; the empty one is the default.
abbrev pub KnownFormat : Bytes → Type 0
KnownFormat f = (f ≡ []) ⊎ ((f ≡ oci_v1_image_manifest) ⊎ (f ≡ docker_v2_image_manifest))

output_format-cases :
    (f : Bytes)
    → ((KnownFormat f) × ((g : Bytes) × (output_format f ≡ ok g)))
      ⊎ ((e : Error) × (output_format f ≡ err e))
unfolding output_format
output_format-cases f = elim (Bool-cases (eqb f [] || eqb f oci_v1_image_manifest)) [
  | inl e ↦ inl (either e, (oci_v1_image_manifest, rw e))
  | inr e ↦ elim (Bool-cases (eqb f docker_v2_image_manifest)) [
    | inl d ↦ inl (inr (inr ((eqb_iff f docker_v2_image_manifest).0 d)), (f, rw (e, d)))
    | inr d ↦ inr (errorf "unknown output format %q requested" (f ∷ []), rw (e, d))
  ]
]
  where
    either : (eqb f [] || eqb f oci_v1_image_manifest) ≡ true → KnownFormat f
    either e = elim (Bool-cases (eqb f [])) [
      | inl d ↦ inl ((eqb_iff f []).0 d)
      | inr d ↦ inr (inl ((eqb_iff f oci_v1_image_manifest).0 (rw d at e)))
    ]

module _ {W : Type 0} (uses : Uses W) (builders : Builders W) (reference : Bytes) (has_store : Bool)
    (schedule order : Assignment) (files : List Bytes) (options : BuildOptions) (w : W) where
  -- A build with an unknown output format, or with a builder that is not in the farm, returns an
  -- error and does nothing.
  pub build-refusal :
      ((¬ KnownFormat options.output_format) ⊎ (¬ AllKnown uses builders schedule))
      → (e : Error) × (build uses builders reference has_store schedule order files options w
          ≡ (err e, w))
  unfolding build
  build-refusal h = elim (output_format-cases options.output_format) [
    | inr (e, k) ↦
        (e, ap (λ f. build_as uses builders reference has_store schedule order files options f w) k)
    | inl (known, (f, k)) ↦
        let (e, j) = jobs_refused (make_jobs uses builders schedule []) refl (other known h) in
        (
          e,
          ap (λ f. build_as uses builders reference has_store schedule order files options f w) k
              ∙ ap
                  (λ js.
                    build_jobs uses reference has_store js order files
                      (record options { output_format = f }) w)
                  j,
        )
  ]
    where
      other :
          KnownFormat options.output_format
          → ((¬ KnownFormat options.output_format) ⊎ (¬ AllKnown uses builders schedule))
          → ¬ AllKnown uses builders schedule
      other known (inl n) = absurd (n known)
      other known (inr n) = n

      jobs_refused :
          (js : Result (Map (Job W)))
          → make_jobs uses builders schedule [] ≡ js
          → ¬ AllKnown uses builders schedule
          → (e : Error) × (make_jobs uses builders schedule [] ≡ err e)
      jobs_refused (err e) k n = (e, k)
      jobs_refused (ok jobs) k n =
          absurd (n ((make_jobs-ok_iff uses builders schedule []).0 (jobs, k)))
