-- ===== src/Emulation/Magic.antt =====
-- `magicMatch` of emulation/binfmtmisc_linux.go.
pub mod Match
use buildfarm.Base.{
  ℕ, suc, ◌+◌, List, [], ◌∷◌, Option, none, some, Bool, bit_and, length, get_elem?, leb, ◌==◌,
  if◌then◌else◌, Bytes,
}

-- `m := magic[k]; if len(mask) > k { m &= mask[k] }`
unfoldable pub masked : Bytes → ℕ → ℕ → ℕ
masked mask k m = elim (get_elem? mask k) [ none ↦ m | some a ↦ bit_and m a ]

-- The loop with `i = offset + k`, over the bytes of `magic` that are left; returns `mismatch`.
match_loop : Bytes → ℕ → Bytes → Bytes → ℕ → ℕ → ℕ
unfolding masked
match_loop header offset mask [] k mismatch = mismatch
match_loop header offset mask (m ∷ magic) k mismatch =
    let rest = match_loop header offset mask magic (k + 1) (offset + k + 1) in
    elim (get_elem? header (offset + k)) [
      | none ↦ mismatch
      | some h ↦ if h == masked mask k m then rest else mismatch
    ]

-- The offset is one that `registeredBinfmtMisc` lets through: it is not negative.
unfoldable pub magic_match : Bytes → ℕ → Bytes → Bytes → Bool
unfolding match_loop
magic_match header offset mask magic =
    leb (offset + length magic) (match_loop header offset mask magic 0 0)
