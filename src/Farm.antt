-- ===== src/Farm.antt =====
-- buildfarm.go: the farm, which asks its builders in parallel. A group of goroutines runs as a
-- sequence, one goroutine after the other, in the order in which the list of builders has them; a
-- theorem over every list is one over every order of completion.
pub mod Assign
pub mod Answers
pub mod Schedule
pub mod Served
pub mod Preference
pub mod Platforms
pub mod Build
pub mod Members
pub mod Open
pub mod Delivery
pub mod Examples
use buildfarm.Base.{List, [], ◌∷◌, ◌++◌, Option, none, some, Bytes, codes, if◌then◌else◌, elem}
use buildfarm.Base.Map.{Map, lookup, insert}
use buildfarm.Base.Result.{Error, errorf, wrapf, Result, ok, err, map_err}
use buildfarm.Base.Sort.{sort_strings}
use buildfarm.Types.{Info, ImageBuilder, Call}

-- A `map[string]ImageBuilder`.
abbrev pub Builders : Type 0 → Type 0
Builders W = Map (ImageBuilder W)

-- `Schedule`
abbrev pub Assignment : Type 0
Assignment = Map Bytes

-- `err = group.Wait().ErrorOrNil()`; what go-multierror makes of a list of errors is a parameter.
abbrev pub error_or {ℓ} : {A : Type ℓ} → (List Error → Error) → List Error → Result A → Result A
error_or join [] r = r
error_or join (e ∷ es) r = err (join (e ∷ es))

-- The maps that `Schedule` fills, and the errors of its goroutines.
pub record Notes : Type 0 where
  pub native : Assignment
  pub emulated : Assignment
  pub errors : List Error

-- `if _, assigned := m[n]; !assigned { m[n] = name }`
unfoldable pub note_one : Bytes → Bytes → Assignment → Assignment
note_one name n m = elim (lookup n m) [ some b ↦ m | none ↦ insert n name m ]

-- `for _, n := range l { if _, assigned := m[n]; !assigned { m[n] = name } }`
unfoldable pub note_first : Bytes → List Bytes → Assignment → Assignment
unfolding note_one
note_first name [] m = m
note_first name (n ∷ ns) m = note_first name ns (note_one name n m)

-- What one goroutine does with the answer of its builder.
unfoldable pub note : Bytes → Result Info → Notes → Notes
unfolding note_first
note name (err e) n = record n { errors = n.errors ++ e ∷ [] }
note name (ok info) n = record n {
  native = note_first name info.native_platforms n.native;
  emulated = note_first name info.emulated_platforms n.emulated;
}

module _ {W : Type 0} where
  unfoldable pub gather : Builders W → Notes → Call W Notes
  unfolding note
  gather [] n w = (n, w)
  gather ((name, b) ∷ bs) n w = let (r, w1) = b.info w in gather bs (note name r n) w1

abbrev pub no_builder : Bytes → Error
no_builder platform =
    errorf "no builder capable of building for platform %q available" (platform ∷ [])

-- The last loop of `Schedule`.
unfoldable pub assign : Notes → List Bytes → Assignment → Result Assignment
assign n [] m = ok m
assign n (platform ∷ ps) m = elim (lookup platform n.native) [
  | some builder ↦ assign n ps (insert platform builder m)
  | none ↦ elim (lookup platform n.emulated) [
    | some builder ↦ assign n ps (insert platform builder m)
    | none ↦ err (no_builder platform)
  ]
]

abbrev pub no_notes : Notes
no_notes = record { native = []; emulated = []; errors = [] }

-- A `map[string]struct{}`, filled by one goroutine.
unfoldable pub add_all : List Bytes → List Bytes → List Bytes
add_all [] set = set
add_all (p ∷ ps) set = add_all ps (if elem p set then set else p ∷ set)

pub record Found : Type 0 where
  pub set : List Bytes
  pub errors : List Error

unfoldable pub find : Result (List Bytes) → Found → Found
unfolding add_all
find (err e) f = record f { errors = f.errors ++ e ∷ [] }
find (ok ps) f = record f { set = add_all ps f.set }

abbrev pub nothing_found : Found
nothing_found = record { set = []; errors = [] }

-- Behind the group: the error, or the sorted keys of the map.
abbrev pub platforms_result : (List Error → Error) → Found → Result (List Bytes)
platforms_result join f = error_or join f.errors (ok (sort_strings f.set))

module _ {W : Type 0} (join : List Error → Error) where
  -- The goroutines of `NativePlatforms` and `EmulatedPlatforms`.
  unfoldable pub find_platforms :
      (ImageBuilder W → Call W (Result (List Bytes))) → Builders W → Found → Call W Found
  unfolding find
  find_platforms ask [] f w = (f, w)
  find_platforms ask ((name, b) ∷ bs) f w =
      let (r, w1) = ask b w in find_platforms ask bs (find r f) w1

  -- `NativePlatforms`
  unfoldable pub native_platforms : Builders W → Call W (Result (List Bytes))
  unfolding find_platforms
  native_platforms bs w =
      let (f, w1) = find_platforms (λ b. b.native_platforms) bs nothing_found w in
      (platforms_result join f, w1)

  -- `EmulatedPlatforms`
  unfoldable pub emulated_platforms : Builders W → Call W (Result (List Bytes))
  unfolding find_platforms
  emulated_platforms bs w =
      let (f, w1) = find_platforms (λ b. b.emulated_platforms) bs nothing_found w in
      (platforms_result join f, w1)

  -- `Schedule` from the second group on.
  unfoldable pub schedule_for : Builders W → List Bytes → Call W (Result Assignment)
  unfolding gather assign
  schedule_for bs platforms w =
      let (n, w1) = gather bs no_notes w in (error_or join n.errors (assign n platforms []), w1)

  abbrev pub schedule_found : Builders W → Result (List Bytes) → Call W (Result Assignment)
  schedule_found bs (ok platforms) w = schedule_for bs platforms w
  schedule_found bs (err e) w =
      (err (wrapf "reading list of available native platforms: %w" [] e), w)

  -- `Schedule`; the builders answer in one order in `NativePlatforms` and in another behind it.
  unfoldable pub schedule : Builders W → Builders W → List Bytes → Call W (Result Assignment)
  unfolding native_platforms schedule_for
  schedule first second [] w = let (r, w1) = native_platforms first w in schedule_found second r w1
  schedule first second (p ∷ ps) w = schedule_for second (p ∷ ps) w
