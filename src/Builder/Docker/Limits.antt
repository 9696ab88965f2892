-- ===== src/Builder/Docker/Limits.antt =====
-- Limits written out and read back by `Build` of docker.go.
use mathlib.Core.Path.{subst}
use mathlib.Core.List.{append-nil, append_assoc}
use buildfarm.Base.Tests.{==_iff, if-elim}
use buildfarm.Base.{
  ap, ◌∙◌, map, ℕ, suc, ◌<◌, List, [], ◌∷◌, ◌++◌, true, false, ◌==◌, All, Bytes, elem, eqb, eqb_iff,
  ◌≡◌, refl, sym, inl, inr, Bool-cases, arith,
}
use buildfarm.Base.Result.{ok, ok-injective, >>=-eq-ok}
use buildfarm.Builder.Local.{split_n}
use buildfarm.Types.{BuildOptions, Platform}
use buildfarm.Builder.Docker.{ULimit, BuildImageOptions, Docker}
use buildfarm.Builder.Docker.Build.{image_request, shm_error}
use buildfarm.Builder.Docker.Numerals.{
  Numeral, IsNumeral, show_digits, show_numeral, numeral_value, parse_int64-numeral,
}
use buildfarm.Builder.Docker.Parsing.{
  size_limits, number_limits, put_labels, limit_of, parse_ulimits, limit_parts,
}

-- No byte of a text is `c`.
abbrev Lacks : ℕ → Bytes → Type 0
Lacks c s = All (λ x. (x == c) ≡ false) s

split_n-whole : (c n : ℕ) (part s : Bytes) → Lacks c s → split_n c (suc n) part s ≡ (part ++ s) ∷ []
unfolding split_n
split_n-whole c n part [] h = ap (λ t. t ∷ []) (sym (append-nil part))
split_n-whole c n part (x ∷ s) h =
    rw h.0
      (split_n-whole c n (part ++ x ∷ []) s h.1 ∙ ap (λ t. t ∷ []) (append_assoc part (x ∷ []) s))

split_n-cut :
    (c n : ℕ) (part s rest : Bytes)
    → Lacks c s
    → split_n c (suc n) part (s ++ c ∷ rest) ≡ (part ++ s) ∷ split_n c n [] rest
unfolding split_n
split_n-cut c n part [] rest h =
    rw ((==_iff c c).1 refl) (ap (λ t. t ∷ split_n c n [] rest) (sym (append-nil part)))
split_n-cut c n part (x ∷ s) rest h = rw h.0 (
    split_n-cut c n (part ++ x ∷ []) s rest h.1
    ∙ ap (λ t. t ∷ split_n c n [] rest) (append_assoc part (x ∷ []) s))

-- A limit: its name, and the numerals of its soft and its hard value.
pub record Limit : Type 0 where
  pub name : Bytes
  pub soft : Numeral
  pub hard : Numeral

pub record IsLimit (l : Limit) : Type 0 where
  pub name : elem l.name number_limits ≡ true
  pub soft : IsNumeral l.soft
  pub hard : IsNumeral l.hard

-- `name=soft:hard`
abbrev pub show_limit : Limit → Bytes
show_limit l = l.name ++ b'=' ∷ (show_numeral l.soft ++ b':' ∷ show_numeral l.hard)

abbrev pub limit_value : Limit → ULimit
limit_value l = record { name = l.name; soft = numeral_value l.soft; hard = numeral_value l.hard }

elem-All : (P : Bytes → Type 0) (a : Bytes) (xs : List Bytes) → elem a xs ≡ true → All P xs → P a
unfolding elem
elem-All P a [] e h = cc
elem-All P a (x ∷ xs) e h = elim (Bool-cases (eqb x a)) [
  | inl p ↦ subst P ((eqb_iff x a).0 p) h.0
  | inr p ↦ elem-All P a xs (rw p at e) h.1
]

-- What is known of the name of a limit that is a number.
abbrev IsName : Bytes → Type 0
IsName name = (elem name size_limits ≡ false) × Lacks b'=' name

number_limit-IsName : (name : Bytes) → elem name number_limits ≡ true → IsName name
unfolding elem eqb
number_limit-IsName name e = elem-All IsName name number_limits e (ground arith)

show_digits-Lacks : (c : ℕ) (ds : List ℕ) → 57 < c → All (λ d. d < 10) ds → Lacks c (show_digits ds)
show_digits-Lacks c [] h k = tt
show_digits-Lacks c (d ∷ ds) h k = (ground (arith, k.0), show_digits-Lacks c ds h k.1)

show_numeral-Lacks : (n : Numeral) → IsNumeral n → Lacks b':' (show_numeral n)
show_numeral-Lacks n h =
    let digits = show_digits-Lacks b':' (n.first ∷ n.rest) (omega arith) (h.first, h.rest) in
    if-elim (Lacks b':') n.is_negative (λ e. (refl, digits)) (λ e. digits)

module _ {W : Type 0} (d : Docker W) where
  limit_parts-show :
      (l : Limit)
      → IsLimit l
      → limit_parts d (show_limit l) (split_n b'=' 1 [] (show_limit l)) ≡ ok (limit_value l)
  unfolding limit_of split_n
  limit_parts-show l h =
      let (other, plain) = number_limit-IsName l.name h.name in
      let soft = show_numeral-Lacks l.soft h.soft in
      rw
        (
          split_n-cut b'=' 0 [] l.name (show_numeral l.soft ++ b':' ∷ show_numeral l.hard) plain,
          split_n-cut b':' 0 [] (show_numeral l.soft) (show_numeral l.hard) soft,
          other,
          h.name,
          parse_int64-numeral l.soft h.soft,
          parse_int64-numeral l.hard h.hard,
        )
        refl

  -- The limits that are numbers are read as they are written: every list of them with soft and hard
  -- values of 64 bits, written as name=soft:hard.
  pub parse_ulimits-show :
      (ls : List Limit)
      → All IsLimit ls
      → parse_ulimits d (map show_limit ls) ≡ ok (map limit_value ls)
  unfolding parse_ulimits
  parse_ulimits-show [] h = refl
  parse_ulimits-show (l ∷ ls) h = rw (limit_parts-show l h.0, parse_ulimits-show ls h.1) refl

  -- If `Build` of docker.go makes its request of options whose limits are numbers with soft and hard
  -- values of 64 bits, written as name=soft:hard, the request for an image has exactly these names and
  -- values, in this order.
  pub image_request-limits :
      (ls : List Limit) (reference : Bytes) (files : List Bytes) (o : BuildOptions) (p : Platform)
      (request : ℕ → BuildImageOptions) (archive : ℕ)
      → All IsLimit ls
      → o.ulimit ≡ map show_limit ls
      → image_request d reference files o p ≡ ok request
      → (request archive).ulimits ≡ map limit_value ls
  unfolding image_request
  image_request-limits ls reference files o p request archive h u q =
      let (labels, _, q1) = >>=-eq-ok (put_labels o.labels []) _ q in
      let (size, _, q2) = >>=-eq-ok (shm_error o.shm_size (d.ram_in_bytes o.shm_size)) _ q1 in
      let (ulimits, parsed, q3) = >>=-eq-ok (parse_ulimits d o.ulimit) _ q2 in
      let read = ap (parse_ulimits d) (sym u) ∙ parsed in
      ap (λ r. (r archive).ulimits) (sym (ok-injective q3))
      ∙ ok-injective (sym read ∙ parse_ulimits-show ls h)
