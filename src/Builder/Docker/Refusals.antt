-- ===== src/Builder/Docker/Refusals.antt =====
-- What `Build` of docker.go comes to: an error or a panic.
use buildfarm.Base.{
  Bool-cases, ◌==◌, inl, inr, ◌++◌, ℕ, List, [], ◌∷◌, Option, none, some, Bytes, ◌≡◌, ◌≢◌, ◌↔◌,
  refl, sym, ◌∙◌,
}
use buildfarm.Base.Map.{Map, insert}
use buildfarm.Builder.Docker.Parsing.{put_label, put_labels}
use buildfarm.Base.Result.{
  Error, errorf, Result, ok, err, Attempt, panicked, returned, ok-injective,
}
use buildfarm.Types.{BuildOptions, BuildReport}
use buildfarm.Builder.Local.{Fetched, split_n}
use buildfarm.Builder.Remote.{fetched_platform}
use buildfarm.Builder.Docker.{BuildImageOptions, Docker}
use buildfarm.Builder.Docker.Build.{
  image_request, after_build, with_archive, with_request, docker_build,
}

put_label-total :
    (label part xs : Bytes) (m : Map Bytes)
    → (n : Map Bytes) × (put_label label (split_n b'=' 1 part xs) m ≡ ok n)
unfolding split_n
put_label-total label part [] m = (insert part [] m, refl)
put_label-total label part (x ∷ xs) m = elim (Bool-cases (x == b'=')) [
  | inl e ↦ (insert part xs m, rw e refl)
  | inr e ↦ let (n, p) = put_label-total label (part ++ x ∷ []) xs m in (n, rw e p)
]

-- No label is refused.
pub put_labels-total :
    (labels : List Bytes) (m : Map Bytes) → (n : Map Bytes) × (put_labels labels m ≡ ok n)
unfolding put_labels
put_labels-total [] m = (m, refl)
put_labels-total (l ∷ ls) m =
    let (n, p) = put_label-total l [] l m in let (k, q) = put_labels-total ls n in (k, rw p q)

module _ {W : Type 0} (d : Docker W) where
  -- The engine has built the image of a request whose archive was made.
  pub record HasBuilt (dir : Bytes) (r : Result (ℕ → BuildImageOptions)) (w : W) : Type 0 where
    pub request : ℕ → BuildImageOptions
    pub archive : ℕ
    pub parsed : r ≡ ok request
    pub archived : (d.tar dir w).0 ≡ ok archive
    pub built : (d.build_image (request archive) (d.tar dir w).1).0 ≡ none

  abbrev NoReport : Attempt (Result BuildReport) → Type 0
  NoReport a = (r : BuildReport) → a ≢ returned (ok r)

  -- Where the engine is asked to build.
  by_engine :
      (platform : Bytes) (e : Option Error)
      → NoReport (after_build d platform e) × ((after_build d platform e ≡ panicked) ↔ (e ≡ none))
  by_engine platform none = ((λ r h. cc), ((λ h. refl), λ h. refl))
  by_engine platform (some e) = ((λ r h. cc), ((λ h. cc), λ h. cc))

  module _ (dir : Bytes) (w : W) where
    abbrev Verdict : Result (ℕ → BuildImageOptions) → Attempt (Result BuildReport) → Type 0
    Verdict r a = NoReport a × ((a ≡ panicked) ↔ HasBuilt dir r w)

    by_archive :
        (f : ℕ → BuildImageOptions) (a : Result ℕ)
        → (d.tar dir w).0 ≡ a
        → Verdict (ok f) (with_archive d dir f a (d.tar dir w).1).0
    by_archive f (err e) p = ((λ r h. cc), ((λ h. cc), λ b. let q = b.archived in cc))
    by_archive f (ok n) p =
        let (never, iff) = by_engine (f n).platform (d.build_image (f n) (d.tar dir w).1).0 in
        (
          never,
          (
            (λ h. record {
              request = f;
              archive = n;
              parsed = refl;
              archived = p;
              built = iff.0 h;
            }),
            λ b.
                let e = ok-injective b.parsed in
                let k = ok-injective (sym p ∙ b.archived) in iff.1 (rw (e, k) b.built),
          ),
        )

    by_request : (r : Result (ℕ → BuildImageOptions)) → Verdict r (with_request d dir r w).0
    by_request (err e) = ((λ r h. cc), ((λ h. cc), λ b. let q = b.parsed in cc))
    by_request (ok f) = by_archive f (d.tar dir w).0 refl

  -- `Build` never returns a report: it panics where the options parse, the archive is made and the
  -- engine builds the image, and returns an error everywhere else.
  pub docker_build-no_report :
      (reference : Bytes) (files : List Bytes) (o : BuildOptions) (c : Option Fetched) (w : W)
      → let result = (docker_build d reference files o c w).0 in
        ((r : BuildReport) → result ≢ returned (ok r))
        × ((result ≡ panicked)
            ↔ HasBuilt o.context_directory
                (image_request d reference files o (fetched_platform c))
                w)
  unfolding docker_build
  docker_build-no_report reference files o c w =
      by_request o.context_directory w (image_request d reference files o (fetched_platform c))

  -- Where no size of /dev/shm is asked for, as in a build without --shm-size, and `units.RAMInBytes`
  -- refuses the empty text, as it does, `Build` fails before it makes an archive or asks for a build.
  pub docker_build-no_shm_size :
      (reference : Bytes) (files : List Bytes) (o : BuildOptions) (c : Option Fetched) (w : W)
      (e : Error)
      → d.ram_in_bytes [] ≡ err e
      → o.shm_size ≡ []
      → docker_build d reference files o c w
        ≡ (returned (err (errorf "parsing requested shmsize %q" ([] ∷ []))), w)
  unfolding docker_build image_request
  docker_build-no_shm_size reference files o c w e h k =
      let (m, labels) = put_labels-total o.labels [] in rw (labels, k, h) refl
