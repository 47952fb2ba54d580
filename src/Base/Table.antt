-- ===== src/Base/Table.antt =====
-- Association lists with one entry for each key, whose entries satisfy a predicate.
use httpkvdb.Base.Tests.{Eq, Bool-cases}
use httpkvdb.Base.Lists.{All}
use httpkvdb.Base.Dict.{
  Dict, lookup, insert, delete, delete_if, IsMap, IsMap-insert, IsMap-delete, IsMap-delete_if,
}
use mathlib.Core.Path.{◌≡◌, subst}
use mathlib.Core.Logic.{inl, inr}
use mathlib.Core.Bool.{Bool}
use mathlib.Core.Option.{none, some}
use mathlib.Core.List.{[], ◌∷◌}

module _ {K V : Type 0} (P : K → V → Type 0) where
  abbrev pub Entries : Dict K V → Type 0
  Entries m = All (λ entry. P entry.0 entry.1) m

  abbrev pub IsTable : Dict K V → Type 0
  IsTable m = IsMap m × Entries m

  Entries-delete_if : (p : V → Bool) (m : Dict K V) → Entries m → Entries (delete_if p m)
  unfolding delete_if
  Entries-delete_if p [] h = tt
  Entries-delete_if p ((k, v) ∷ m) h = elim (Bool-cases (p v)) [
    | inl y ↦ rw y (Entries-delete_if p m h.1)
    | inr n ↦ rw n (h.0, Entries-delete_if p m h.1)
  ]

  pub IsTable-delete_if : (p : V → Bool) (m : Dict K V) → IsTable m → IsTable (delete_if p m)
  IsTable-delete_if p m h = (IsMap-delete_if p m h.0, Entries-delete_if p m h.1)

  module _ ⦃e : Eq K⦄ where
    Entries-insert : (m : Dict K V) (k : K) (v : V) → Entries m → P k v → Entries (insert m k v)
    unfolding insert
    Entries-insert [] k v h new = (new, tt)
    Entries-insert ((j, w) ∷ m) k v h new = elim (Bool-cases (e.beq j k)) [
      | inl y ↦ rw y (new, h.1)
      | inr n ↦ rw n (h.0, Entries-insert m k v h.1 new)
    ]

    Entries-delete : (m : Dict K V) (k : K) → Entries m → Entries (delete m k)
    unfolding delete
    Entries-delete [] k h = tt
    Entries-delete ((j, w) ∷ m) k h = elim (Bool-cases (e.beq j k)) [
      | inl y ↦ rw y (Entries-delete m k h.1)
      | inr n ↦ rw n (h.0, Entries-delete m k h.1)
    ]

    Entries-lookup : (m : Dict K V) (k : K) (v : V) → Entries m → lookup m k ≡ some v → P k v
    unfolding lookup
    Entries-lookup [] k v h l = absurd (none_found l)
      where
        none_found : none ≡ some v → ⊥
        none_found p = cc
    Entries-lookup ((j, w) ∷ m) k v h l = elim (Bool-cases (e.beq j k)) [
      | inl y ↦
          subst (λ x. P x v) ((e.beq_iff j k).0 y) (subst (λ x. P j x) (some-inj (rw y at l)) h.0)
      | inr n ↦ Entries-lookup m k v h.1 (rw n at l)
    ]
      where
        some-inj : {a b : V} → some a ≡ some b → a ≡ b
        some-inj p = cc

    pub IsTable-insert : (m : Dict K V) (k : K) (v : V) → IsTable m → P k v → IsTable (insert m k v)
    IsTable-insert m k v h new = (IsMap-insert m k v h.0, Entries-insert m k v h.1 new)

    pub IsTable-delete : (m : Dict K V) (k : K) → IsTable m → IsTable (delete m k)
    IsTable-delete m k h = (IsMap-delete m k h.0, Entries-delete m k h.1)

    pub IsTable-lookup : (m : Dict K V) (k : K) (v : V) → IsTable m → lookup m k ≡ some v → P k v
    IsTable-lookup m k v h = Entries-lookup m k v h.1
