-- ===== src/Cell/Domains/Rails.antt =====
-- Which rail the types of the table have (tools/x402-bridge/cell-domains.ts).
use semantos_edge.Base.{
  ℕ, ◌≡◌, refl, sym, ◌∙◌, inl, inr, Bool, true, false, ◌&&◌, ◌||◌, not, some, List, [], ◌∷◌, arith,
  ok, thrown, Bool-cases,
}
use semantos_edge.Base.Map.{Str, str_eq, str_eq_iff, get, get-put, get-put_self}
use mathlib.Core.Path.{subst}
use semantos_edge.Templog.Text.{codes, to_hex}
use semantos_edge.Cell.Wire.{type_hash}
use semantos_edge.Cell.Domains.{
  rail, by_type_hash, domain_for_type, all_on, assert_relay_rail_consistent,
}

-- The texts of a list are different from each other.
unfoldable pub among : Str → List Str → Bool
among t [] = false
among t (u ∷ us) = str_eq u t || among t us

unfoldable pub different : List Str → Bool
unfolding among
different [] = true
different (t ∷ ts) = not (among t ts) && different ts

module _ (sha256 : List ℕ → List ℕ) where
  -- The keys of the table.
  abbrev pub keys : List (Str × ℕ) → List Str
  keys [] = []
  keys ((name, flag) ∷ rest) = to_hex (type_hash sha256 name) ∷ keys rest

  abbrev pub is_known : List ℕ → Bool
  is_known type = among (to_hex type) (keys rail)

  get-by_type_hash_other :
      (k : Str) (rs m : List (Str × ℕ))
      → among k (keys rs) ≡ false
      → get k (by_type_hash sha256 rs m) ≡ get k m
  unfolding by_type_hash among
  get-by_type_hash_other k [] m h = refl
  get-by_type_hash_other k ((name, flag) ∷ rest) m h =
      let other : str_eq (to_hex (type_hash sha256 name)) k ≡ false = ground arith in
      let later : among k (keys rest) ≡ false = ground arith in
      get-by_type_hash_other k rest _ later
      ∙ get-put (to_hex (type_hash sha256 name)) k flag m
      ∙ rw other refl

  get-by_type_hash :
      (name : Str) (flag : ℕ) (rs m : List (Str × ℕ))
      → different (keys rs) ≡ true
      → get name rs ≡ some flag
      → get (to_hex (type_hash sha256 name)) (by_type_hash sha256 rs m) ≡ some flag
  unfolding by_type_hash different get
  get-by_type_hash name flag [] m d h = absurd (cc h)
  get-by_type_hash name flag ((n, f) ∷ rest) m d h =
      let apart : among (to_hex (type_hash sha256 n)) (keys rest) ≡ false = ground arith in
      let rest_apart : different (keys rest) ≡ true = ground arith in
      elim (Bool-cases (str_eq n name)) [
        | inl e ↦
            let found : get name ((n, f) ∷ rest) ≡ some f = rw e refl in
            subst
              (λ x.
                get (to_hex (type_hash sha256 x)) (by_type_hash sha256 ((n, f) ∷ rest) m)
                ≡ some flag)
              ((str_eq_iff n name).0 e)
              (get-by_type_hash_other _ rest _ apart ∙ get-put_self _ f m ∙ sym found ∙ h)
        | inr e ↦
            let found : get name ((n, f) ∷ rest) ≡ get name rest = rw e refl in
            get-by_type_hash name flag rest _ rest_apart (sym found ∙ h)
      ]

  -- Where the types of the table have different hashes, the hash of each gives the flag that the table
  -- has for it.
  pub domain_for_type-rail :
      (name : Str) (flag : ℕ)
      → different (keys rail) ≡ true
      → get name rail ≡ some flag
      → domain_for_type sha256 (type_hash sha256 name) ≡ ok flag
  unfolding domain_for_type
  domain_for_type-rail name flag d h =
      rw (get-by_type_hash name flag rail [] d h, domain_for_type) refl

  -- A hash that no type of the table has makes the lookup throw.
  pub domain_for_type-unknown :
      (type : List ℕ)
      → among (to_hex type) (keys rail) ≡ false
      → domain_for_type sha256 type ≡ thrown
  unfolding domain_for_type get
  domain_for_type-unknown type h =
      rw (get-by_type_hash_other (to_hex type) rail [] h, domain_for_type) refl

  -- Where the types of the table have different hashes, the check passes that the capability cert and
  -- the cells that it authorises have one flag.
  pub assert_relay_rail_consistent-ok :
      different (keys rail) ≡ true → assert_relay_rail_consistent sha256 ≡ ok tt
  unfolding assert_relay_rail_consistent all_on get str_eq
  assert_relay_rail_consistent-ok d =
      rw
        (
          domain_for_type-rail (codes "cellmesh.capability.v0") _ d refl,
          domain_for_type-rail (codes "cellmesh.forward.v0") _ d refl,
          domain_for_type-rail (codes "cellmesh.forward.v1") _ d refl,
          domain_for_type-rail (codes "cellmesh.forward.v2") _ d refl,
          domain_for_type-rail (codes "cellmesh.routing.cont.v0") _ d refl,
        )
        refl
