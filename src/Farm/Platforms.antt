-- ===== src/Farm/Platforms.antt =====
-- What `NativePlatforms` and `EmulatedPlatforms` return.
use mathlib.Core.Path.{subst}
use buildfarm.Base.{
  List, [], ◌∷◌, Bool, false, ◌||◌, Bytes, elem, eqb_iff, ◌≡◌, refl, sym, ap, ◌∙◌, arith,
  Bool-cases, inl, inr,
}
use buildfarm.Base.Result.{Error, Result, ok, err}
use buildfarm.Base.Sort.{
  IsSorted, IsNodup, sort_strings, sort_strings-IsSorted, sort_strings-IsNodup, elem-sort_strings,
  IsSorted-ext,
}
use buildfarm.Types.{ImageBuilder, Call}
use buildfarm.Farm.{
  Builders, error_or, add_all, Found, find, nothing_found, find_platforms, platforms_result,
  native_platforms, emulated_platforms,
}

elem-add_all :
    (ps set : List Bytes) (p : Bytes) → elem p (add_all ps set) ≡ (elem p ps || elem p set)
unfolding add_all elem
elem-add_all [] set p = refl
elem-add_all (q ∷ ps) set p = elim (Bool-cases (elem q set)) [
  | inl e ↦ rw e (elem-add_all ps set p ∙ ground (arith, eqb_iff q p))
  | inr e ↦ rw e (elem-add_all ps (q ∷ set) p ∙ ground arith)
]

add_all-IsNodup : (ps set : List Bytes) → IsNodup set → IsNodup (add_all ps set)
unfolding add_all
add_all-IsNodup [] set d = d
add_all-IsNodup (q ∷ ps) set d = elim (Bool-cases (elem q set)) [
  | inl e ↦ rw e (add_all-IsNodup ps set d)
  | inr e ↦ rw e (add_all-IsNodup ps (q ∷ set) (e, d))
]

module _ {W : Type 0} (ask : ImageBuilder W → Call W (Result (List Bytes))) where
  -- What the builders answer, one after the other.
  pub replies : Builders W → W → List (Result (List Bytes))
  replies [] w = []
  replies ((name, b) ∷ bs) w = (ask b w).0 ∷ replies bs (ask b w).1

abbrev find_all : List (Result (List Bytes)) → Found → Found
find_all [] f = f
find_all (r ∷ rs) f = find_all rs (find r f)

abbrev lists : Bytes → Result (List Bytes) → Bool
lists p (ok ps) = elem p ps
lists p (err e) = false

abbrev pub any_lists : Bytes → List (Result (List Bytes)) → Bool
any_lists p [] = false
any_lists p (r ∷ rs) = lists p r || any_lists p rs

elem-find_all :
    (rs : List (Result (List Bytes))) (f : Found) (p : Bytes)
    → elem p (find_all rs f).set ≡ (any_lists p rs || elem p f.set)
elem-find_all [] f p = refl
elem-find_all (ok ps ∷ rs) f p =
    elem-find_all rs (find (ok ps) f) p ∙ unfold find in ground (arith, elem-add_all ps f.set p)
elem-find_all (err e ∷ rs) f p = elem-find_all rs (find (err e) f) p ∙ unfold find in refl

find_all-IsNodup :
    (rs : List (Result (List Bytes))) (f : Found) → IsNodup f.set → IsNodup (find_all rs f).set
find_all-IsNodup [] f d = d
find_all-IsNodup (ok ps ∷ rs) f d =
    find_all-IsNodup rs (find (ok ps) f) (unfold find in add_all-IsNodup ps f.set d)
find_all-IsNodup (err e ∷ rs) f d = find_all-IsNodup rs (find (err e) f) (unfold find in d)

-- What a result of `NativePlatforms` or `EmulatedPlatforms` is, given the replies of the builders:
-- sorted, no platform twice, and a platform exactly if a builder listed it.
pub record IsUnion (rs : List (Result (List Bytes))) (l : List Bytes) : Type 0 where
  pub sorted : IsSorted l
  pub nodup : IsNodup l
  pub members : (p : Bytes) → elem p l ≡ any_lists p rs

-- Two such results for the same members are the same list.
pub IsUnion-ext :
    (rs qs : List (Result (List Bytes))) (l k : List Bytes)
    → IsUnion rs l
    → IsUnion qs k
    → ((p : Bytes) → any_lists p rs ≡ any_lists p qs)
    → l ≡ k
IsUnion-ext rs qs l k u v h =
    IsSorted-ext l k u.sorted u.nodup v.sorted v.nodup (λ p. u.members p ∙ h p ∙ sym (v.members p))

platforms_result-IsUnion :
    (join : List Error → Error) (rs : List (Result (List Bytes))) (l : List Bytes)
    → platforms_result join (find_all rs nothing_found) ≡ ok l
    → IsUnion rs l
platforms_result-IsUnion join rs l h = by_errors (find_all rs nothing_found).errors h
  where
    union : IsUnion rs (sort_strings (find_all rs nothing_found).set)
    union = record {
      sorted = sort_strings-IsSorted (find_all rs nothing_found).set;
      nodup =
          sort_strings-IsNodup (find_all rs nothing_found).set
            (find_all-IsNodup rs nothing_found tt);
      members = λ p.
          elem-sort_strings p (find_all rs nothing_found).set
          ∙ elem-find_all rs nothing_found p
          ∙ unfold elem in ground arith;
    }

    by_errors :
        (es : List Error)
        → error_or join es (ok (sort_strings (find_all rs nothing_found).set)) ≡ ok l
        → IsUnion rs l
    by_errors [] k = subst (IsUnion rs) (ok-injective k) union
      where
        ok-injective : {x y : List Bytes} → ◌≡◌ {A = Result (List Bytes)} (ok x) (ok y) → x ≡ y
        ok-injective e = cc
    by_errors (e ∷ es) k = cc

module _ {W : Type 0} (join : List Error → Error) where
  find_platforms-replies :
      (ask : ImageBuilder W → Call W (Result (List Bytes))) (bs : Builders W) (f : Found) (w : W)
      → (find_platforms join ask bs f w).0 ≡ find_all (replies ask bs w) f
  unfolding find_platforms replies
  find_platforms-replies ask [] f w = refl
  find_platforms-replies ask ((name, b) ∷ bs) f w =
      find_platforms-replies ask bs (find (ask b w).0 f) (ask b w).1

  -- `NativePlatforms` returns, sorted and each once, the platforms that some builder lists as
  -- native.
  pub native_platforms-IsUnion :
      (bs : Builders W) (w : W) (l : List Bytes)
      → (native_platforms join bs w).0 ≡ ok l
      → IsUnion (replies (λ b. b.native_platforms) bs w) l
  unfolding native_platforms
  native_platforms-IsUnion bs w l h =
      platforms_result-IsUnion join (replies (λ b. b.native_platforms) bs w) l (
        ap (platforms_result join)
          (sym (find_platforms-replies (λ b. b.native_platforms) bs nothing_found w))
        ∙ h)

  -- `EmulatedPlatforms` likewise, with the platforms that some builder lists as emulated.
  pub emulated_platforms-IsUnion :
      (bs : Builders W) (w : W) (l : List Bytes)
      → (emulated_platforms join bs w).0 ≡ ok l
      → IsUnion (replies (λ b. b.emulated_platforms) bs w) l
  unfolding emulated_platforms
  emulated_platforms-IsUnion bs w l h =
      platforms_result-IsUnion join (replies (λ b. b.emulated_platforms) bs w) l (
        ap (platforms_result join)
          (sym (find_platforms-replies (λ b. b.emulated_platforms) bs nothing_found w))
        ∙ h)
