-- ===== src/Tx/Same.antt =====
-- Tables of operations that are the same Go map, and the digest of the operations in them.
use httpkvdb.Base.{
  ◌≡◌, ◌≢◌, refl, sym, ◌∙◌, ap, Bool, true, false, not, none, some, List, [], ◌∷◌, map, arith, inl,
  inr, Bool-cases,
}
use mathlib.Core.Path.{subst}
use httpkvdb.Base.Int.{ℤ, pos, negsuc, ltb_ℤ, eq_ℤ, eq_ℤ_iff, int_eq}
use httpkvdb.Base.Bytes.{bytes_key}
use httpkvdb.Base.Dict.{
  Dict, lookup, insert, delete, IsMap, Fresh, lookup-Fresh, lookup-insert, lookup-delete,
  IsMap-insert, IsMap-delete,
}
use httpkvdb.Golang.Crypto.{Std}
use httpkvdb.Golang.Sort.{insert_sorted, sort}
use httpkvdb.Model.{Transaction, TxOperation}
use httpkvdb.Tx.Digest.{digest, digest_lines}

abbrev pub Ops : Type 0
Ops = Dict ℤ TxOperation

-- Two tables of operations are the same Go map.
pub record SameMap (m m' : Ops) : Type 0 where
  pub once : IsMap m
  pub once' : IsMap m'
  pub same : (seq : ℤ) → lookup m seq ≡ lookup m' seq

module _ {A : Type 0} (lt : A → A → Bool)
    (trans : (a b c : A) → lt a b ≡ true → lt b c ≡ true → lt a c ≡ true)
    (either : (a b : A) → a ≢ b → lt a b ≡ not (lt b a)) where
  insert_sorted_comm :
      (a b : A) (xs : List A)
      → a ≢ b
      → insert_sorted lt a (insert_sorted lt b xs) ≡ insert_sorted lt b (insert_sorted lt a xs)
  unfolding insert_sorted
  insert_sorted_comm a b [] apart = ground (arith, either a b apart)
  insert_sorted_comm a b (x ∷ xs) apart =
      ground (arith, either a b apart, trans x a b, trans x b a, insert_sorted_comm a b xs apart)

ltb_ℤ-trans : (a b c : ℤ) → ltb_ℤ a b ≡ true → ltb_ℤ b c ≡ true → ltb_ℤ a c ≡ true
ltb_ℤ-trans a b c h k = ground arith

ltb_ℤ-either : (a b : ℤ) → a ≢ b → ltb_ℤ a b ≡ not (ltb_ℤ b a)
ltb_ℤ-either (pos a) (pos b) h = grind arith
ltb_ℤ-either (pos a) (negsuc b) h = ground arith
ltb_ℤ-either (negsuc a) (pos b) h = ground arith
ltb_ℤ-either (negsuc a) (negsuc b) h = grind arith

abbrev keys : Ops → List ℤ
keys m = map (λ entry. entry.0) m

delete-Fresh : (k : ℤ) (m : Ops) → Fresh k m → delete m k ≡ m
unfolding delete
delete-Fresh k [] h = refl
delete-Fresh k ((j, v) ∷ m) h = ground (arith, delete-Fresh k m h.1, h.0, eq_ℤ_iff j k)

none-empty : (m : Ops) → ((k : ℤ) → lookup m k ≡ none) → m ≡ []
unfolding lookup
none-empty [] h = refl
none-empty ((k, op) ∷ m) h = ground (arith, h k, eq_ℤ_iff k k)

-- Take a number out of a table: its sorted numbers are the others with it.
sort-delete :
    (m : Ops) (k : ℤ) (op : TxOperation)
    → IsMap m
    → lookup m k ≡ some op
    → sort ltb_ℤ (keys m) ≡ insert_sorted ltb_ℤ k (sort ltb_ℤ (keys (delete m k)))
unfolding sort delete lookup
sort-delete [] k op once there = absurd (clash there)
  where
    clash : none ≡ some op → ⊥
    clash p = cc
sort-delete ((j, v) ∷ m) k op once there = elim (Bool-cases (eq_ℤ j k)) [
  | inl y ↦
      let same = (eq_ℤ_iff j k).0 y in
      let gone : delete m k ≡ m = delete-Fresh k m (subst (λ x. Fresh x m) same once.0) in
      rw (y, gone) (ap (λ x. insert_sorted ltb_ℤ x (sort ltb_ℤ (keys m))) same)
  | inr n ↦ rw n (
      ap (insert_sorted ltb_ℤ j) (sort-delete m k op once.1 (rw n at there))
      ∙ insert_sorted_comm ltb_ℤ ltb_ℤ-trans ltb_ℤ-either j k _ (λ p. differ n p))
]
  where
    differ : eq_ℤ j k ≡ false → j ≡ k → ⊥
    differ n p = cc (n, (eq_ℤ_iff j k).1 p)

-- The same map has the same numbers.
sort-same : (m m' : Ops) → SameMap m m' → sort ltb_ℤ (keys m) ≡ sort ltb_ℤ (keys m')
unfolding sort lookup
sort-same [] m' same = ap (λ x. sort ltb_ℤ (keys x)) (sym (none-empty m' (λ k. sym (same.same k))))
sort-same ((k, op) ∷ m) m' same =
    ap (insert_sorted ltb_ℤ k) (sort-same m (delete m' k) rest)
    ∙ sym (sort-delete m' k op same.once' (sym (same.same k) ∙ first))
  where
    first : lookup ((k, op) ∷ m) k ≡ some op
    first = rw ((eq_ℤ_iff k k).1 refl) refl

    rest : SameMap m (delete m' k)
    rest = record {
      once = same.once.1;
      once' = IsMap-delete m' k same.once';
      same = λ seq. ground (
        arith,
        lookup-delete m' k seq,
        same.same seq,
        lookup-Fresh k m same.once.0,
        eq_ℤ_iff k seq,
      );
    }

digest_lines-same :
    (m m' : Ops) (seqs : List ℤ)
    → ((seq : ℤ) → lookup m seq ≡ lookup m' seq)
    → digest_lines m seqs ≡ digest_lines m' seqs
unfolding digest_lines
digest_lines-same m m' [] same = refl
digest_lines-same m m' (seq ∷ seqs) same = rw (same seq, digest_lines-same m m' seqs same) refl

abbrev pub with_ops : Ops → Transaction → Transaction
with_ops ops t = record t { ops = ops }

pub digest-same :
    (std : Std) (t : Transaction) (m m' : Ops)
    → SameMap m m'
    → digest std (with_ops m t) ≡ digest std (with_ops m' t)
unfolding digest
digest-same std t m m' same =
    rw (sort-same m m' same, digest_lines-same m m' (sort ltb_ℤ (keys m')) same.same) refl

-- Two operations with different numbers, put into a table in either order.
pub inserts-SameMap :
    (m : Ops) (j k : ℤ) (x y : TxOperation)
    → j ≢ k
    → IsMap m
    → SameMap (insert (insert m j x) k y) (insert (insert m k y) j x)
inserts-SameMap m j k x y apart once = record {
  once = IsMap-insert (insert m j x) k y (IsMap-insert m j x once);
  once' = IsMap-insert (insert m k y) j x (IsMap-insert m k y once);
  same = λ seq. ground (
    arith,
    lookup-insert (insert m j x) k y seq,
    lookup-insert m j x seq,
    lookup-insert (insert m k y) j x seq,
    lookup-insert m k y seq,
    eq_ℤ_iff j seq,
    eq_ℤ_iff k seq,
  );
}
