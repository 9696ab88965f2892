-- ===== src/Emulation/Magic/Match.antt =====
-- What `magicMatch` accepts, and where that is not the kernel's rule.
use buildfarm.Base.{
  ℕ, zero, suc, ◌+◌, ◌≤◌, ◌<◌, [], ◌∷◌, some, true, length, get_elem?, leb_iff, ◌==◌, Bytes, ◌≡◌,
  ◌≢◌, ◌↔◌, ◌⊎◌, inl, inr, sym, ap, arith, Bool-cases, Bool-ext, ◌∙◌, Option-cases,
}
use buildfarm.Emulation.Magic.{masked, match_loop, magic_match}

-- From index `k` on, each byte of `magic`, masked, stands in `header` at its place.
abbrev pub Agrees : Bytes → ℕ → Bytes → Bytes → ℕ → Type 0
Agrees header offset mask [] k = Unit
Agrees header offset mask (m ∷ magic) k =
    (get_elem? header (offset + k) ≡ some (masked mask k m))
    × Agrees header offset mask magic (k + 1)

module _ (header : Bytes) (offset : ℕ) (mask : Bytes) where
  loop_hit :
      (m : ℕ) (magic : Bytes) (k e : ℕ)
      → get_elem? header (offset + k) ≡ some (masked mask k m)
      → match_loop header offset mask (m ∷ magic) k e
        ≡ match_loop header offset mask magic (k + 1) (offset + k + 1)
  unfolding match_loop
  loop_hit m magic k e p = ground arith

  loop_miss :
      (m : ℕ) (magic : Bytes) (k e : ℕ)
      → get_elem? header (offset + k) ≢ some (masked mask k m)
      → match_loop header offset mask (m ∷ magic) k e ≡ e
  unfolding match_loop
  loop_miss m magic k e p = ground arith

  hit-cases :
      (m k : ℕ)
      → (get_elem? header (offset + k) ≡ some (masked mask k m))
        ⊎ (get_elem? header (offset + k) ≢ some (masked mask k m))
  hit-cases m k = elim (Option-cases (get_elem? header (offset + k))) [
    | inl e ↦ inr (λ p. cc)
    | inr (b, e) ↦ elim (Bool-cases (b == masked mask k m)) [
      | inl q ↦ inl (ground arith)
      | inr q ↦ inr (λ p. ground arith)
    ]
  ]

  -- Having come as far as index `k`, the loop reaches the end exactly when the rest agrees.
  loop-Agrees :
      (magic : Bytes) (k e : ℕ)
      → e ≡ offset + k
      → (offset + k + length magic ≤ match_loop header offset mask magic k e)
        ↔ Agrees header offset mask magic k
  unfolding match_loop
  loop-Agrees [] k e h = (λ _. tt, λ _. omega arith)
  loop-Agrees (m ∷ magic) k e h =
      let rest = loop-Agrees magic (k + 1) (offset + k + 1) (omega arith) in
      elim (hit-cases m k) [
        | inl p ↦ (
          λ q. (p, rest.0 (omega (arith, loop_hit m magic k e p))),
          λ q. omega (arith, loop_hit m magic k e p, rest.1 q.1),
        )
        | inr p ↦ (λ q. absurd (omega (arith, loop_miss m magic k e p)), λ q. absurd (p q.0))
      ]

  first-Agrees :
      (m : ℕ) (magic : Bytes)
      → (offset + suc (length magic) ≤ match_loop header offset mask (m ∷ magic) 0 0)
        ↔ Agrees header offset mask (m ∷ magic) 0
  first-Agrees m magic =
      let rest = loop-Agrees magic 1 (offset + 0 + 1) (omega arith) in
      elim (hit-cases m 0) [
        | inl p ↦ (
          λ q. (p, rest.0 (omega (arith, loop_hit m magic 0 0 p))),
          λ q. omega (arith, loop_hit m magic 0 0 p, rest.1 q.1),
        )
        | inr p ↦ (λ q. absurd (omega (arith, loop_miss m magic 0 0 p)), λ q. absurd (p q.0))
      ]

-- `magicMatch` holds for a magic that is not empty exactly when every byte of the magic, masked
-- where the mask reaches, stands in the header at the offset plus its index.
pub magic_match_iff :
    (header : Bytes) (offset : ℕ) (mask : Bytes) (m : ℕ) (magic : Bytes)
    → (magic_match header offset mask (m ∷ magic) ≡ true) ↔ Agrees header offset mask (m ∷ magic) 0
unfolding magic_match
magic_match_iff header offset mask m magic =
    let first = first-Agrees header offset mask m magic in
    let test =
      leb_iff (offset + suc (length magic)) (match_loop header offset mask (m ∷ magic) 0 0) in
    (λ h. first.0 (test.0 h), λ a. test.1 (first.1 a))

Agrees-end :
    (header : Bytes) (offset : ℕ) (mask : Bytes) (m : ℕ) (magic : Bytes) (k : ℕ)
    → Agrees header offset mask (m ∷ magic) k
    → (b : ℕ) × (get_elem? header (offset + k + length magic) ≡ some b)
Agrees-end header offset mask m [] k a =
    let e : offset + k + 0 ≡ offset + k = omega arith in (masked mask k m, rw e a.0)
Agrees-end header offset mask m (n ∷ magic) k a =
    let (b, p) = Agrees-end header offset mask n magic (k + 1) a.1 in
    let e : offset + k + suc (length magic) ≡ offset + (k + 1) + length magic = omega arith in
    (b, rw e p)

get_elem?-lt : (xs : Bytes) (i b : ℕ) → get_elem? xs i ≡ some b → i < length xs
get_elem?-lt [] i b h = cc
get_elem?-lt (x ∷ xs) zero b h = omega arith
get_elem?-lt (x ∷ xs) (suc i) b h = omega (arith, get_elem?-lt xs i b h)

-- A header that matches is long enough: the magic ends inside it.
pub magic_match-fits :
    (header : Bytes) (offset : ℕ) (mask : Bytes) (m : ℕ) (magic : Bytes)
    → magic_match header offset mask (m ∷ magic) ≡ true
    → offset + length (m ∷ magic) ≤ length header
magic_match-fits header offset mask m magic h =
    let (b, p) =
      Agrees-end header offset mask m magic 0 ((magic_match_iff header offset mask m magic).0 h) in
    omega (arith, get_elem?-lt header (offset + 0 + length magic) b p)

-- From index `k` on, no byte of the magic has a bit that the mask clears.
abbrev pub WellMasked : Bytes → Bytes → ℕ → Type 0
WellMasked mask [] k = Unit
WellMasked mask (m ∷ magic) k = (masked mask k m ≡ m) × WellMasked mask magic (k + 1)

Agrees-unmasked :
    (header : Bytes) (offset : ℕ) (mask magic : Bytes) (k : ℕ)
    → WellMasked mask magic k
    → Agrees header offset mask magic k ↔ Agrees header offset [] magic k
unfolding masked
Agrees-unmasked header offset mask [] k w = (λ a. a, λ a. a)
Agrees-unmasked header offset mask (m ∷ magic) k w =
    let rest = Agrees-unmasked header offset mask magic (k + 1) w.1 in
    (λ a. (a.0 ∙ ap some w.0, rest.0 a.1), λ a. (a.0 ∙ ap some (sym w.0), rest.1 a.1))

-- The mask is put on the magic and not on the header: where the magic has no bit that the mask
-- clears, `magicMatch` decides as it would with no mask at all.
pub magic_match-no_mask :
    (header : Bytes) (offset : ℕ) (mask : Bytes) (m : ℕ) (magic : Bytes)
    → WellMasked mask (m ∷ magic) 0
    → magic_match header offset mask (m ∷ magic) ≡ magic_match header offset [] (m ∷ magic)
magic_match-no_mask header offset mask m magic w =
    let same = Agrees-unmasked header offset mask (m ∷ magic) 0 w in
    let masking = magic_match_iff header offset mask m magic in
    let plain = magic_match_iff header offset [] m magic in
    Bool-ext _ _ (λ h. plain.1 (same.0 (masking.0 h))) (λ h. masking.1 (same.1 (plain.0 h)))
