-- ===== src/Base/Dict.antt =====
-- Go's map as the list of its entries, in the order of iteration (which Go leaves open).
use Prim.Native.Nat.{◌+◌}
use httpkvdb.Base.Lists.{length}
use httpkvdb.Base.Tests.{Eq, if◌then◌else◌, Bool-cases}
use mathlib.Core.Path.{◌≡◌, refl, sym, ap, subst}
use mathlib.Core.Logic.{◌≢◌, inl, inr}
use mathlib.Core.Bool.{Bool, true, false}
use mathlib.Core.Option.{Option, none, some}
use mathlib.Core.List.{List, [], ◌∷◌}
use native.Mathlib.Omega.{arith}

abbrev pub Dict {ℓ κ} : Type ℓ → Type κ → Type (ℓ ⊔ κ)
Dict K V = List (K × V)

module _ {ℓ κ} {K : Type ℓ} {V : Type κ} ⦃e : Eq K⦄ where
  -- v, ok := m[k]
  unfoldable pub lookup : Dict K V → K → Option V
  lookup [] k = none
  lookup ((j, v) ∷ m) k = if e.beq j k then some v else lookup m k

  -- m[k] = v
  unfoldable pub insert : Dict K V → K → V → Dict K V
  insert [] k v = (k, v) ∷ []
  insert ((j, w) ∷ m) k v = if e.beq j k then (k, v) ∷ m else (j, w) ∷ insert m k v

  -- delete(m, k)
  unfoldable pub delete : Dict K V → K → Dict K V
  delete [] k = []
  delete ((j, w) ∷ m) k = let rest = delete m k in if e.beq j k then rest else (j, w) ∷ rest

  -- _, ok := m[k]
  unfoldable pub member : Dict K V → K → Bool
  unfolding lookup
  member m k = elim (lookup m k) [ none ↦ false | some v ↦ true ]

  pub lookup-insert :
      (m : Dict K V) (k : K) (v : V) (j : K)
      → lookup (insert m k v) j ≡ (if e.beq k j then some v else lookup m j)
  unfolding lookup insert
  lookup-insert [] k v j = refl
  lookup-insert ((i, w) ∷ m) k v j =
      ground (arith, e.beq_iff k j, e.beq_iff i k, e.beq_iff i j, lookup-insert m k v j)

  pub lookup-delete :
      (m : Dict K V) (k j : K) → lookup (delete m k) j ≡ (if e.beq k j then none else lookup m j)
  unfolding lookup delete
  lookup-delete [] k j = ground arith
  lookup-delete ((i, w) ∷ m) k j =
      ground (arith, e.beq_iff k j, e.beq_iff i k, e.beq_iff i j, lookup-delete m k j)

  -- The last of two values under one key stays.
  pub insert-insert : (m : Dict K V) (k : K) (v w : V) → insert (insert m k v) k w ≡ insert m k w
  unfolding insert
  insert-insert [] k v w = rw ((e.beq_iff k k).1 refl) refl
  insert-insert ((j, u) ∷ m) k v w = elim (Bool-cases (e.beq j k)) [
    | inl y ↦ rw (y, (e.beq_iff k k).1 refl) refl
    | inr n ↦ rw (n, n) (ap (λ x. (j, u) ∷ x) (insert-insert m k v w))
  ]

  pub length-insert :
      (m : Dict K V) (k : K) (v : V) → lookup m k ≡ none → length (insert m k v) ≡ length m + 1
  unfolding insert lookup
  length-insert [] k v h = refl
  length-insert ((j, u) ∷ m) k v h = ground (arith, length-insert m k v)

-- for k, v := range m { if p(k, v) { delete(m, k) } }
module _ {ℓ κ} {K : Type ℓ} {V : Type κ} where
  unfoldable pub delete_if : (V → Bool) → Dict K V → Dict K V
  delete_if p [] = []
  delete_if p ((k, v) ∷ m) = let rest = delete_if p m in if p v then rest else (k, v) ∷ rest

  -- for _, v := range m { if p(v) { return true } }
  unfoldable pub any_value : (V → Bool) → Dict K V → Bool
  any_value p [] = false
  any_value p ((k, v) ∷ m) = if p v then true else any_value p m

  pub any_value-delete_if : (p : V → Bool) (m : Dict K V) → any_value p (delete_if p m) ≡ false
  unfolding any_value delete_if
  any_value-delete_if p [] = refl
  any_value-delete_if p ((k, v) ∷ m) = ground (arith, any_value-delete_if p m)

  -- A Go map has one entry for each key.
  abbrev pub Fresh : K → Dict K V → Type ℓ
  Fresh k [] = Unit {ℓ}
  Fresh k ((j, v) ∷ m) = (j ≢ k) × Fresh k m

  abbrev pub IsMap : Dict K V → Type ℓ
  IsMap [] = Unit {ℓ}
  IsMap ((k, v) ∷ m) = Fresh k m × IsMap m

  pub Fresh-delete_if : (p : V → Bool) (k : K) (m : Dict K V) → Fresh k m → Fresh k (delete_if p m)
  unfolding delete_if
  Fresh-delete_if p k [] h = tt
  Fresh-delete_if p k ((j, v) ∷ m) h = elim (Bool-cases (p v)) [
    | inl y ↦ rw y (Fresh-delete_if p k m h.1)
    | inr n ↦ rw n (h.0, Fresh-delete_if p k m h.1)
  ]

  pub IsMap-delete_if : (p : V → Bool) (m : Dict K V) → IsMap m → IsMap (delete_if p m)
  unfolding delete_if
  IsMap-delete_if p [] h = tt
  IsMap-delete_if p ((k, v) ∷ m) h = elim (Bool-cases (p v)) [
    | inl y ↦ rw y (IsMap-delete_if p m h.1)
    | inr n ↦ rw n (Fresh-delete_if p k m h.0, IsMap-delete_if p m h.1)
  ]

module _ {ℓ κ} {K : Type ℓ} {V : Type κ} ⦃e : Eq K⦄ where
  pub lookup-Fresh : (k : K) (m : Dict K V) → Fresh k m → lookup m k ≡ none
  unfolding lookup
  lookup-Fresh k [] h = refl
  lookup-Fresh k ((j, v) ∷ m) h = elim (Bool-cases (e.beq j k)) [
    | inl y ↦ absurd (h.0 ((e.beq_iff j k).0 y))
    | inr n ↦ rw n (lookup-Fresh k m h.1)
  ]

  pub Fresh-insert : (j k : K) (v : V) (m : Dict K V) → k ≢ j → Fresh j m → Fresh j (insert m k v)
  unfolding insert
  Fresh-insert j k v [] n h = (n, tt)
  Fresh-insert j k v ((i, w) ∷ m) n h = elim (Bool-cases (e.beq i k)) [
    | inl y ↦ rw y (n, h.1)
    | inr d ↦ rw d (h.0, Fresh-insert j k v m n h.1)
  ]

  pub IsMap-insert : (m : Dict K V) (k : K) (v : V) → IsMap m → IsMap (insert m k v)
  unfolding insert
  IsMap-insert [] k v h = (tt, tt)
  IsMap-insert ((j, w) ∷ m) k v h = elim (Bool-cases (e.beq j k)) [
    | inl y ↦ rw y (subst_key ((e.beq_iff j k).0 y) h.0, h.1)
    | inr n ↦ rw n (Fresh-insert j k v m (λ p. ne_of_false n p) h.0, IsMap-insert m k v h.1)
  ]
    where
      subst_key : {a b : K} → a ≡ b → Fresh a m → Fresh b m
      subst_key p f = subst (λ x. Fresh x m) p f

      ne_of_false : e.beq j k ≡ false → k ≡ j → ⊥
      ne_of_false n p = cc (n, (e.beq_iff j k).1 (sym p))

-- What is left under a key after the values that satisfy `p` are gone.
abbrev pub unless {ℓ} : {V : Type ℓ} → (V → Bool) → Option V → Option V
unless p none = none
unless p (some v) = if p v then none else some v

module _ {ℓ κ} {K : Type ℓ} {V : Type κ} ⦃e : Eq K⦄ where
  pub lookup-delete_if :
      (p : V → Bool) (m : Dict K V) (k : K)
      → IsMap m
      → lookup (delete_if p m) k ≡ unless p (lookup m k)
  unfolding lookup delete_if
  lookup-delete_if p [] k h = refl
  lookup-delete_if p ((j, v) ∷ m) k h =
      ground
        (arith, e.beq_iff j k, lookup-delete_if p m k h.1, λ (same : j ≡ k). lookup-Fresh j m h.0)

  Fresh-delete : (j k : K) (m : Dict K V) → Fresh j m → Fresh j (delete m k)
  unfolding delete
  Fresh-delete j k [] h = tt
  Fresh-delete j k ((i, w) ∷ m) h = elim (Bool-cases (e.beq i k)) [
    | inl y ↦ rw y (Fresh-delete j k m h.1)
    | inr d ↦ rw d (h.0, Fresh-delete j k m h.1)
  ]

  pub IsMap-delete : (m : Dict K V) (k : K) → IsMap m → IsMap (delete m k)
  unfolding delete
  IsMap-delete [] k h = tt
  IsMap-delete ((j, w) ∷ m) k h = elim (Bool-cases (e.beq j k)) [
    | inl y ↦ rw y (IsMap-delete m k h.1)
    | inr n ↦ rw n (Fresh-delete j k m h.0, IsMap-delete m k h.1)
  ]
