-- ===== src/Emulation/Elf/Known.antt =====
-- `getKnownELFPlatformHeaders`: the map that the table gives.
use buildfarm.Base.{
  List, [], ◌∷◌, false, Option, none, some, if◌then◌else◌, All, elem, eqb, eqb_iff, Bytes, ◌≡◌, ◌∙◌,
  refl, arith,
}
use buildfarm.Base.Map.{Map, lookup, lookup-insert}
use buildfarm.Base.Result.{Result, ok, err}
use buildfarm.Base.Sort.{IsNodup}
use buildfarm.Emulation.Elf.{ElfPlatform, header, add_platform, known_headers}

abbrev pub names : List ElfPlatform → List Bytes
names [] = []
names (p ∷ ps) = p.platform ∷ names ps

abbrev pub value_of : Result (List Bytes) → Option (List Bytes)
value_of (ok l) = some l
value_of (err e) = none

lookup-add_platform :
    (p : ElfPlatform) (r : Result (List Bytes)) (k : Bytes) (m : Map (List Bytes))
    → lookup k m ≡ none
    → lookup k (add_platform p r m) ≡ (if eqb p.platform k then value_of r else none)
unfolding add_platform
lookup-add_platform p (ok l) k m h = lookup-insert p.platform k l m ∙ ground arith
lookup-add_platform p (err e) k m h = ground arith

lookup-add_platform_ne :
    (p : ElfPlatform) (r : Result (List Bytes)) (k : Bytes) (m : Map (List Bytes))
    → eqb p.platform k ≡ false
    → lookup k (add_platform p r m) ≡ lookup k m
unfolding add_platform
lookup-add_platform_ne p (ok l) k m h = lookup-insert p.platform k l m ∙ ground arith
lookup-add_platform_ne p (err e) k m h = refl

-- A platform that is not in the table keeps what it had.
lookup-known_headers_ne :
    (ps : List ElfPlatform) (k : Bytes) (m : Map (List Bytes))
    → elem k (names ps) ≡ false
    → lookup k (known_headers ps m) ≡ lookup k m
unfolding known_headers elem
lookup-known_headers_ne [] k m h = refl
lookup-known_headers_ne (p ∷ ps) k m h =
    lookup-known_headers_ne ps k (add_platform p (header p) m) (ground arith)
    ∙ lookup-add_platform_ne p (header p) k m (ground arith)

abbrev Absent : Map (List Bytes) → List ElfPlatform → Type 0
Absent m = All (λ p. lookup p.platform m ≡ none)

Absent-add_platform :
    (p : ElfPlatform) (ps : List ElfPlatform) (m : Map (List Bytes))
    → elem p.platform (names ps) ≡ false
    → Absent m ps
    → Absent (add_platform p (header p) m) ps
unfolding elem
Absent-add_platform p [] m h a = tt
Absent-add_platform p (q ∷ ps) m h a = (
  lookup-add_platform_ne p (header p) q.platform m
        (ground (arith, eqb_iff p.platform q.platform, eqb_iff q.platform p.platform))
      ∙ a.0,
  Absent-add_platform p ps m (ground arith) a.1,
)

known-Absent :
    (ps : List ElfPlatform) (m : Map (List Bytes))
    → IsNodup (names ps)
    → Absent m ps
    → All (λ p. lookup p.platform (known_headers ps m) ≡ value_of (header p)) ps
unfolding known_headers
known-Absent [] m d a = tt
known-Absent (p ∷ ps) m d a = (
  lookup-known_headers_ne ps p.platform (add_platform p (header p) m) d.0
      ∙ lookup-add_platform p (header p) p.platform m a.0
      ∙ ground (arith, eqb_iff p.platform p.platform),
  known-Absent ps (add_platform p (header p) m) d.1 (Absent-add_platform p ps m d.0 a.1),
)

Absent-nil : (ps : List ElfPlatform) → Absent [] ps
unfolding lookup
Absent-nil [] = tt
Absent-nil (p ∷ ps) = (refl, Absent-nil ps)

-- In a table that names no platform twice, the map holds for each platform the headers that
-- `header` returns for it, and nothing where `header` fails.
pub known_headers-lookup :
    (ps : List ElfPlatform)
    → IsNodup (names ps)
    → All (λ p. lookup p.platform (known_headers ps []) ≡ value_of (header p)) ps
known_headers-lookup ps d = known-Absent ps [] d (Absent-nil ps)
