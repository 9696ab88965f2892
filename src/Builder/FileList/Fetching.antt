-- ===== src/Builder/FileList/Fetching.antt =====
-- The images that the list builder of files.go has pulled to files.
use mathlib.Core.Path.{subst}
use buildfarm.Base.Tests.{if-elim}
use buildfarm.Base.{
  Member, here, there, ℕ, List, [], ◌∷◌, ◌++◌, Bool, true, ◌||◌, Bytes, ◌≡◌, ◌≢◌, refl, ap, ◌∙◌,
  arith, All, any,
}
use buildfarm.Base.Result.{Error, Result, ok, err, ok-injective}
use buildfarm.Types.{BuildReport, ImageBuilder}
use buildfarm.Farm.Build.{same_report}
use buildfarm.Farm.Build.Outcome.{same_report_refl, same_report_trans}
use buildfarm.Builder.LocalList.{Images}
use buildfarm.Builder.FileList.{
  Copier, Fetched, put_ref, note_reference, note_file, fetch, fetch_all,
}

append-ne : (xs : List Error) (e : Error) → xs ++ e ∷ [] ≢ []
append-ne [] e h = cc
append-ne (x ∷ xs) e h = cc

-- Whether there is a reference for an image.
abbrev pub has_ref : BuildReport → List (BuildReport × ℕ) → Bool
has_ref image l = any (λ x. same_report x.0 image) l

has_ref-put_ref :
    (image k : BuildReport) (ref : ℕ) (l : List (BuildReport × ℕ))
    → has_ref k (put_ref image ref l) ≡ (same_report image k || has_ref k l)
unfolding put_ref
has_ref-put_ref image k ref [] = refl
has_ref-put_ref image k ref ((q, x) ∷ l) =
    ground (arith, has_ref-put_ref image k ref l, same_report_trans q image k)

module _ {W : Type 0} (c : Copier W) where
  -- A reference comes from an image that a builder has: a file was made in a directory, the builder
  -- has pulled the image to it, and the name that it returned was read as the reference.
  pub record Pull (dir : Bytes) (image : BuildReport) (b : ImageBuilder W) (ref : ℕ) : Type 0 where
    pub file : Bytes
    pub made : (v : W) × ((c.temp_file dir v).0 ≡ ok file)
    pub name : Bytes
    pub pulled :
        (v : W) × ((b.pull_to_file
            (record {
              image_id = image.image_id;
              save_format = image.save_format;
              save_file = file;
            })
            v).0
          ≡ ok name)
    pub parsed : c.parse_name name ≡ ok ref

  -- An image has been pulled, and has a reference among the ones that go into the list.
  abbrev pub IsFetched : Bytes → List (BuildReport × ℕ) → BuildReport × ImageBuilder W → Type 0
  IsFetched dir refs (image, b) = ((ref : ℕ) × Pull dir image b ref) × (has_ref image refs ≡ true)

  -- A reference in the list is that of the image that it stands for, pulled by the builder that the
  -- image is listed with.
  abbrev pub IsFrom : Bytes → Images W → BuildReport × ℕ → Type 0
  IsFrom dir images (image, ref) =
      (b : ImageBuilder W) × Member (image, b) images × Pull dir image b ref

  put_ref-All :
      (P : BuildReport × ℕ → Type 0) (image : BuildReport) (ref : ℕ) (l : List (BuildReport × ℕ))
      → P (image, ref)
      → All P l
      → All P (put_ref image ref l)
  unfolding put_ref
  put_ref-All P image ref [] p h = (p, tt)
  put_ref-All P image ref ((q, x) ∷ l) p h =
      if-elim (All P) (same_report q image) (λ _. (p, h.1))
        (λ _. (h.0, put_ref-All P image ref l p h.1))

  note_file-All :
      (P : BuildReport × ℕ → Type 0) (image : BuildReport) (r : Result Bytes) (f : Fetched)
      → ((name : Bytes) (ref : ℕ) → r ≡ ok name → c.parse_name name ≡ ok ref → P (image, ref))
      → All P f.refs
      → All P (note_file c image r f).refs
  note_file-All P image (err e) f p h = h
  note_file-All P image (ok name) f p h = by_name (c.parse_name name) refl
    where
      by_name : (x : Result ℕ) → c.parse_name name ≡ x → All P (note_reference c image x f).refs
      by_name (err e) q = h
      by_name (ok ref) q = put_ref-All P image ref f.refs (p name ref refl q) h

  pub fetch_all-IsFrom :
      (dir : Bytes) (all images : Images W) (f g : Fetched) (w : W)
      → ((x : BuildReport × ImageBuilder W) → Member x images → Member x all)
      → All (IsFrom dir all) f.refs
      → (fetch_all c dir images f w).0 ≡ ok g
      → All (IsFrom dir all) g.refs
  unfolding fetch_all
  fetch_all-IsFrom dir all [] f g w k h q =
      subst (λ x. All (IsFrom dir all) x.refs) (ok-injective q) h
  fetch_all-IsFrom dir all ((image, b) ∷ rest) f g w k h q =
      by_file (c.temp_file dir w).0 refl
        (λ f2 w2. fetch_all-IsFrom dir all rest f2 g w2 (λ x m. k x (there m))) q
    where
      v : W
      v = (c.temp_file dir w).1

      by_file :
          (t : Result Bytes)
          → (c.temp_file dir w).0 ≡ t
          → ((f2 : Fetched) (w2 : W)
              → All (IsFrom dir all) f2.refs
              → (fetch_all c dir rest f2 w2).0 ≡ ok g
              → All (IsFrom dir all) g.refs)
          → (elim t as (λ _. Result Fetched × W) [
            | err e ↦ (err e, v)
            | ok file ↦ let (f2, w2) = fetch c image b file f v in fetch_all c dir rest f2 w2
          ]).0
            ≡ ok g
          → All (IsFrom dir all) g.refs
      by_file (err e) m ih i = cc
      by_file (ok file) m ih i =
          ih (fetch c image b file f v).0 (fetch c image b file f v).1
            (note_file-All (IsFrom dir all) image _ _
              (λ name ref p r. (
                b,
                k (image, b) here,
                record { file = file; made = (w, m); name = name; pulled = (v, p); parsed = r },
              ))
              h)
            i

  -- What a goroutine without an error leaves.
  abbrev Noted : BuildReport → Result Bytes → Fetched → Fetched → Type 0
  Noted image r f g =
      (f.errors ≡ [])
      × ((name : Bytes) × (ref : ℕ) × (r ≡ ok name)
          × (c.parse_name name ≡ ok ref)
          × (has_ref image g.refs ≡ true))
      × ((k : BuildReport) → has_ref k f.refs ≡ true → has_ref k g.refs ≡ true)

  note_reference-ok :
      (image : BuildReport) (name : Bytes) (p : Result ℕ) (f : Fetched)
      → c.parse_name name ≡ p
      → (note_reference c image p f).errors ≡ []
      → Noted image (ok name) f (note_reference c image p f)
  note_reference-ok image name (err e) f q h = absurd (append-ne f.errors _ h)
  note_reference-ok image name (ok ref) f q h = (
    h,
    (
      name,
      ref,
      refl,
      q,
      has_ref-put_ref image image ref f.refs ∙ ground (arith, same_report_refl image),
    ),
    λ k e. has_ref-put_ref image k ref f.refs ∙ ground arith,
  )

  note_file-ok :
      (image : BuildReport) (r : Result Bytes) (f : Fetched)
      → (note_file c image r f).errors ≡ []
      → Noted image r f (note_file c image r f)
  note_file-ok image (err e) f h = absurd (append-ne f.errors _ h)
  note_file-ok image (ok name) f h = note_reference-ok image name (c.parse_name name) f refl h

  -- What the loop leaves where it has no error in the end.
  abbrev pub AllNoted : Bytes → Fetched → Images W → Fetched → Type 0
  AllNoted dir f images g =
      (f.errors ≡ [])
      × All (IsFetched dir g.refs) images
      × ((k : BuildReport) → has_ref k f.refs ≡ true → has_ref k g.refs ≡ true)

  pub fetch_all-ok :
      (dir : Bytes) (images : Images W) (f g : Fetched) (w : W)
      → (fetch_all c dir images f w).0 ≡ ok g
      → g.errors ≡ []
      → AllNoted dir f images g
  unfolding fetch_all
  fetch_all-ok dir [] f g w k h =
      subst (AllNoted dir f []) (ok-injective k)
        (ap (λ x. x.errors) (ok-injective k) ∙ h, tt, λ i e. e)
  fetch_all-ok dir ((image, b) ∷ rest) f g w k h =
      by_file (c.temp_file dir w).0 refl (λ f2 w2 q. fetch_all-ok dir rest f2 g w2 q h) k
    where
      v : W
      v = (c.temp_file dir w).1

      by_file :
          (t : Result Bytes)
          → (c.temp_file dir w).0 ≡ t
          → ((f2 : Fetched) (w2 : W)
              → (fetch_all c dir rest f2 w2).0 ≡ ok g
              → AllNoted dir f2 rest g)
          → (elim t as (λ _. Result Fetched × W) [
            | err e ↦ (err e, v)
            | ok file ↦ let (f2, w2) = fetch c image b file f v in fetch_all c dir rest f2 w2
          ]).0
            ≡ ok g
          → AllNoted dir f ((image, b) ∷ rest) g
      by_file (err e) m ih q = cc
      by_file (ok file) m ih q =
          let (e, all, keep) = ih (fetch c image b file f v).0 (fetch c image b file f v).1 q in
          let (e1, (name, ref, pulled, parsed, there_is), kept) = note_file-ok image _ _ e in
          (
            e1,
            (
              (
                (
                  ref,
                  record {
                    file = file;
                    made = (w, m);
                    name = name;
                    pulled = (v, pulled);
                    parsed = parsed;
                  },
                ),
                keep image there_is,
              ),
              all,
            ),
            λ i x. keep i (kept i x),
          )
