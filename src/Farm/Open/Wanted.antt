-- ===== src/Farm/Open/Wanted.antt =====
-- Which builders a farm that is opened has.
use buildfarm.Base.{
  List, [], ◌∷◌, ◌++◌, Bool, true, false, ◌&&◌, ◌||◌, Option, none, some, Bytes, elem, eqb, eqb_iff,
  ◌≡◌, ◌≢◌, inl, inr, refl, sym, ap, ◌∙◌, arith, Bool-cases,
}
use buildfarm.Base.Map.{keys, elem-keys-insert}
use buildfarm.Base.Result.{Error, Result, ok, err}
use buildfarm.Types.{ImageBuilder, Call}
use buildfarm.Farm.{Builders, error_or}
use buildfarm.Farm.Open.{
  local_image_builder_name, OpenFarm, Connections, want_builder, Opened, add_builder, open_if,
  connect, some_builders, nothing_opened, connect_all, new_farm_with_builders, new_ad_hoc_farm,
}

module _ {W : Type 0} where
  -- A connection that leaves no error has added its builder.
  open_if-keys :
      (wanted : Bool) (name : Bytes) (new : Call W (Result (ImageBuilder W))) (o : Opened W) (w : W)
      → (open_if wanted name new o w).0.errors ≡ []
      → (o.errors ≡ [])
        × ((k : Bytes)
            → elem k (keys (open_if wanted name new o w).0.builders)
              ≡ ((wanted && eqb name k) || elem k (keys o.builders)))
  open_if-keys false name new o w h = (h, λ k. refl)
  open_if-keys true name new o w h = by_result (new w).0 h
    where
      ends : (xs : List Error) (e : Error) → (xs ++ e ∷ []) ≢ []
      ends [] e h = cc
      ends (x ∷ xs) e h = cc

      by_result :
          (r : Result (ImageBuilder W))
          → (add_builder name r o).errors ≡ []
          → (o.errors ≡ [])
            × ((k : Bytes)
                → elem k (keys (add_builder name r o).builders)
                  ≡ (eqb name k || elem k (keys o.builders)))
      by_result (err e) q = absurd (ends o.errors e q)
      by_result (ok b) q = (q, λ k. elem-keys-insert name k b o.builders)

-- The builders that are asked for: all where there is no list, else those that are listed.
pub is_asked_for : Option (List Bytes) → Bytes → Bool
is_asked_for none name = true
is_asked_for (some names) name = elem name names

want_builder-is_asked_for :
    (want : Option (List Bytes)) (name : Bytes) → want_builder want name ≡ is_asked_for want name
unfolding want_builder is_asked_for
want_builder-is_asked_for none name = refl
want_builder-is_asked_for (some names) name = refl

module _ {W : Type 0} (c : Connections W) (want : Option (List Bytes)) where
  connect-keys :
      (dests : List Bytes) (o : Opened W) (w : W)
      → (connect c want dests o w).0.errors ≡ []
      → (o.errors ≡ [])
        × ((k : Bytes)
            → elem k (keys (connect c want dests o w).0.builders)
              ≡ ((want_builder want k && elem k dests) || elem k (keys o.builders)))
  unfolding connect elem
  connect-keys [] o w h = (h, λ k. ground arith)
  connect-keys (dest ∷ dests) o w h =
      let one = open_if (want_builder want dest) dest (c.new_remote dest) o w in
      let (e, rest) = connect-keys dests one.0 one.1 h in
      let (e1, first) = open_if-keys (want_builder want dest) dest (c.new_remote dest) o w e in
      (e1, λ k. rest k ∙ step k (first k))
    where
      step :
          (k : Bytes) {b : Bool}
          → b ≡ ((want_builder want dest && eqb dest k) || elem k (keys o.builders))
          → ((want_builder want k && elem k dests) || b)
            ≡ ((want_builder want k && (eqb dest k || elem k dests)) || elem k (keys o.builders))
      step k p = elim (Bool-cases (eqb dest k)) [
        | inl e ↦ ground (arith, ap (want_builder want) ((eqb_iff dest k).0 e))
        | inr e ↦ ground arith
      ]

  -- The builders of a farm: those of the destinations that are wanted, and the local one, under the
  -- empty name, if there is local storage and "(local)" is wanted.
  abbrev pub expects : Bool → List Bytes → Bytes → Bool
  expects has_store dests k =
      (is_asked_for want k && elem k dests)
      || ((has_store && is_asked_for want local_image_builder_name) && eqb [] k)

  some_builders-ok :
      (has_store : Bool) (es : List Error) (bs : Builders W) (f : OpenFarm W)
      → error_or c.join es (some_builders c has_store bs) ≡ ok f
      → (es ≡ []) × (f.builders ≡ bs) × (f.has_store ≡ has_store) × (bs ≢ [])
  some_builders-ok has_store (e ∷ es) bs f h = cc
  some_builders-ok has_store [] [] f h = cc
  some_builders-ok has_store [] (b ∷ bs) f h =
      let e = ok-injective h in
      (refl, ap (λ x. x.builders) (sym e), ap (λ x. x.has_store) (sym e), λ x. cc)
    where
      ok-injective : {x y : OpenFarm W} → ◌≡◌ {A = Result (OpenFarm W)} (ok x) (ok y) → x ≡ y
      ok-injective h = cc

  connect_all-keys :
      (has_store : Bool) (dests : List Bytes) (w : W) (f : OpenFarm W)
      → (connect_all c want has_store (ok dests) w).0 ≡ ok f
      → (k : Bytes) → elem k (keys f.builders) ≡ expects has_store dests k
  connect_all-keys has_store dests w f h k =
      let first = connect c want dests (nothing_opened c) w in
      let (e, p, _, _) = some_builders-ok has_store _ _ f h in
      let (e1, local) =
        open_if-keys (has_store && want_builder want local_image_builder_name) [] c.new_local
          first.0 first.1 e in
      let (_, remote) = connect-keys dests (nothing_opened c) w e1 in
      ap (λ b. elem k (keys b)) p
      ∙ local k
      ∙ unfold elem in
        ground (
          arith,
          remote k,
          want_builder-is_asked_for want k,
          want_builder-is_asked_for want local_image_builder_name,
        )

module _ {W : Type 0} (c : Connections W) (has_store : Bool) (w : W) (f : OpenFarm W) where
  -- A farm that is opened has the builders of exactly those destinations of the configuration that
  -- are asked for, and under the empty name the local one exactly if there is local storage and
  -- "(local)" is asked for; without a list all builders are asked for.
  pub open-keys :
      (want : Option (List Bytes))
      → (new_farm_with_builders c want has_store w).0 ≡ ok f
      → (dests : List Bytes) × ((c.read_custom_config w).0 ≡ ok dests)
        × ((k : Bytes) → elem k (keys f.builders) ≡ expects c want has_store dests k)
  unfolding new_farm_with_builders
  open-keys want h = by_config (c.read_custom_config w).0 refl h
    where
      by_config :
          (r : Result (List Bytes))
          → (c.read_custom_config w).0 ≡ r
          → (connect_all c want has_store r (c.read_custom_config w).1).0 ≡ ok f
          → (dests : List Bytes) × ((c.read_custom_config w).0 ≡ ok dests)
            × ((k : Bytes) → elem k (keys f.builders) ≡ expects c want has_store dests k)
      by_config (err e) q k = cc
      by_config (ok dests) q k = (dests, q, connect_all-keys c want has_store dests _ f k)

  -- An ad hoc farm has no local builder unless "(local)" is among the names that it is made with:
  -- the empty name does not bring it in, unless it is a destination of the configuration.
  pub open-ad_hoc_local :
      (destinations : List Bytes)
      → (new_ad_hoc_farm c destinations has_store w).0 ≡ ok f
      → elem local_image_builder_name destinations ≡ false
      → ((dests : List Bytes) → (c.read_custom_config w).0 ≡ ok dests → elem [] dests ≡ false)
      → elem [] (keys f.builders) ≡ false
  unfolding new_ad_hoc_farm is_asked_for
  open-ad_hoc_local destinations h absent unnamed =
      let (dests, r, keep) = open-keys (some destinations) h in
      keep [] ∙ ground (arith, unnamed dests r, absent)
