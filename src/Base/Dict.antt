-- ===== src/Base/Dict.antt =====
-- Python's dict as an association list in insertion order: an assignment to a present key keeps
-- its place. `sum_by` adds a figure over all values, for accounting statements.
pub mod Count
use Prim.Native.Nat.{ℕ, suc, ◌≤◌}
use mathlib.Core.Path.{◌≡◌, refl, sym, ◌∙◌, subst}
use mathlib.Core.Bool.{Bool, false}
use mathlib.Core.List.{List, [], ◌∷◌}
use mathlib.Core.Option.{Option, none, some}
use mathlib.Core.Logic.{◌⊎◌, inl, inr}
use native.Mathlib.Omega.{arith}
use adx_agentic_payment.Base.Tests.{
  if◌then◌else◌, Eq, ◌==◌, ==_iff, ==_refl, ==_sym, some_inj, is_none, Bool-cases,
}
use adx_agentic_payment.Base.Lists.{length, All}
use adx_agentic_payment.Base.Int.{ℤ, pos, ◌+ℤ◌, ◌≤ℤ◌, int_laws, add_nothing_right}
use mathlib.Core.Bool.{not}

pub record Dict {ℓ κ} (K : Type κ) (V : Type ℓ) : Type (ℓ ⊔ κ) where
  pub entries : List (K × V)

module _ {ℓ κ} {K : Type κ} {V : Type ℓ} where
  abbrev pub values_of : List (K × V) → List V
  values_of [] = []
  values_of ((k, v) ∷ m) = v ∷ values_of m

  -- `d.values()` and `len(d)`.
  abbrev pub values : Dict K V → List V
  values d = values_of d.entries

  abbrev pub size : Dict K V → ℕ
  size d = length d.entries

  abbrev sum_entries : (V → ℤ) → List (K × V) → ℤ
  sum_entries f [] = pos 0
  sum_entries f ((k, v) ∷ m) = f v +ℤ sum_entries f m

  abbrev pub sum_by : (V → ℤ) → Dict K V → ℤ
  sum_by f d = sum_entries f d.entries

abbrev pub empty {ℓ κ} : {K : Type κ} {V : Type ℓ} → Dict K V
empty = record { entries = [] }

module _ {ℓ κ} {K : Type κ} {V : Type ℓ} ⦃e : Eq K⦄ where
  unfoldable pub find_in : List (K × V) → K → Option V
  find_in [] k = none
  find_in ((j, v) ∷ m) k = if j == k then some v else find_in m k

  put_in : List (K × V) → K → V → List (K × V)
  put_in [] k v = (k, v) ∷ []
  put_in ((j, w) ∷ m) k v = let rest = put_in m k v in if j == k then (j, v) ∷ m else (j, w) ∷ rest

  drop_in : List (K × V) → K → List (K × V)
  drop_in [] k = []
  drop_in ((j, w) ∷ m) k = let rest = drop_in m k in if j == k then rest else (j, w) ∷ rest

  -- `d.get(k)`, `k in d`, `d[k] = v`, `del d[k]`.
  unfoldable pub get : Dict K V → K → Option V
  unfolding find_in
  get d k = find_in d.entries k

  abbrev pub has : Dict K V → K → Bool
  has d k = not (is_none (get d k))

  unfoldable pub put : Dict K V → K → V → Dict K V
  unfolding put_in
  put d k v = record { entries = put_in d.entries k v }

  unfoldable pub del : Dict K V → K → Dict K V
  unfolding drop_in
  del d k = record { entries = drop_in d.entries k }

  find_in-put_in :
      (m : List (K × V)) (k j : K) (v : V)
      → find_in (put_in m k v) j ≡ (if k == j then some v else find_in m j)
  unfolding find_in put_in
  find_in-put_in [] k j v = refl
  find_in-put_in ((i, w) ∷ m) k j v =
      ground (arith, ==_iff k j, ==_iff i k, ==_iff i j, find_in-put_in m k j v)

  find_in-drop_in :
      (m : List (K × V)) (k j : K)
      → find_in (drop_in m k) j ≡ (if k == j then none else find_in m j)
  unfolding find_in drop_in
  find_in-drop_in [] k j = ground arith
  find_in-drop_in ((i, w) ∷ m) k j =
      ground (arith, ==_iff k j, ==_iff i k, ==_iff i j, find_in-drop_in m k j)

  pub get-put :
      (d : Dict K V) (k j : K) (v : V) → get (put d k v) j ≡ (if k == j then some v else get d j)
  unfolding get put
  get-put d k j v = find_in-put_in d.entries k j v

  pub get-del : (d : Dict K V) (k j : K) → get (del d k) j ≡ (if k == j then none else get d j)
  unfolding get del
  get-del d k j = find_in-drop_in d.entries k j

  -- What is found after an assignment was assigned, or was there under another key.
  pub get-put_cases :
      (d : Dict K V) (k j : K) (v w : V)
      → get (put d k v) j ≡ some w
      → ((k ≡ j) × (v ≡ w)) ⊎ (((k == j) ≡ false) × (get d j ≡ some w))
  get-put_cases d k j v w h = elim (Bool-cases (k == j)) [
    | inl same ↦ inl ((==_iff k j).0 same, some_inj (rw (get-put d k j v, same) at h))
    | inr other ↦ inr (other, rw (get-put d k j v, other) at h)
  ]

  pub get-empty : (k : K) → get (empty {V = V}) k ≡ none
  unfolding get
  get-empty k = refl

  sum_entries-put_in_new :
      (f : V → ℤ) (m : List (K × V)) (k : K) (v : V)
      → find_in m k ≡ none
      → sum_entries f (put_in m k v) ≡ sum_entries f m +ℤ f v
  unfolding find_in put_in
  sum_entries-put_in_new f [] k v h = omega int_laws
  sum_entries-put_in_new f ((i, w) ∷ m) k v h = grind (int_laws, sum_entries-put_in_new f m k v)

  sum_entries-put_in :
      (f : V → ℤ) (m : List (K × V)) (k : K) (v old : V)
      → find_in m k ≡ some old
      → sum_entries f (put_in m k v) +ℤ f old ≡ sum_entries f m +ℤ f v
  unfolding find_in put_in
  sum_entries-put_in f [] k v old h = cc
  sum_entries-put_in f ((i, w) ∷ m) k v old h = grind (int_laws, sum_entries-put_in f m k v old)

  -- A new key adds its figure; a present key exchanges the old figure for the new one.
  pub sum_by-put_new :
      (f : V → ℤ) (d : Dict K V) (k : K) (v : V)
      → get d k ≡ none
      → sum_by f (put d k v) ≡ sum_by f d +ℤ f v
  unfolding get put
  sum_by-put_new f d k v h = sum_entries-put_in_new f d.entries k v h

  pub sum_by-put :
      (f : V → ℤ) (d : Dict K V) (k : K) (v old : V)
      → get d k ≡ some old
      → sum_by f (put d k v) +ℤ f old ≡ sum_by f d +ℤ f v
  unfolding get put
  sum_by-put f d k v old h = sum_entries-put_in f d.entries k v old h

module _ {ℓ κ} {K : Type κ} {V : Type ℓ} ⦃e : Eq K⦄ where
  -- No key is listed twice, as in every dict that is built by `put` and `del`.
  abbrev pub DistinctKeys : List (K × V) → Type ℓ
  DistinctKeys [] = Unit
  DistinctKeys ((k, v) ∷ m) = (find_in m k ≡ none) × DistinctKeys m

  abbrev pub IsDistinct : Dict K V → Type ℓ
  IsDistinct d = DistinctKeys d.entries

  put_in-DistinctKeys :
      (m : List (K × V)) (k : K) (v : V) → DistinctKeys m → DistinctKeys (put_in m k v)
  unfolding put_in find_in
  put_in-DistinctKeys [] k v h = (refl, tt)
  put_in-DistinctKeys ((j, w) ∷ m) k v h = elim (Bool-cases (j == k)) [
    | inl same ↦ rw same h
    | inr other ↦
        rw other (find_in-put_in m k j v ∙ rw (==_sym j k other) h.0, put_in-DistinctKeys m k v h.1)
  ]

  pub put-IsDistinct : (d : Dict K V) (k : K) (v : V) → IsDistinct d → IsDistinct (put d k v)
  unfolding put
  put-IsDistinct d k v h = put_in-DistinctKeys d.entries k v h

  drop_in-DistinctKeys : (m : List (K × V)) (k : K) → DistinctKeys m → DistinctKeys (drop_in m k)
  unfolding drop_in
  drop_in-DistinctKeys [] k h = tt
  drop_in-DistinctKeys ((j, w) ∷ m) k h = elim (Bool-cases (j == k)) [
    | inl same ↦ rw same (drop_in-DistinctKeys m k h.1)
    | inr other ↦
        rw other (find_in-drop_in m k j ∙ rw (==_sym j k other) h.0, drop_in-DistinctKeys m k h.1)
  ]

  pub del-IsDistinct : (d : Dict K V) (k : K) → IsDistinct d → IsDistinct (del d k)
  unfolding del
  del-IsDistinct d k h = drop_in-DistinctKeys d.entries k h

  length-put_in : (m : List (K × V)) (k : K) (v : V) → length (put_in m k v) ≤ suc (length m)
  unfolding put_in
  length-put_in [] k v = omega arith
  length-put_in ((j, w) ∷ m) k v = ground (arith, length-put_in m k v)

  length-drop_in : (m : List (K × V)) (k : K) → length (drop_in m k) ≤ length m
  unfolding drop_in
  length-drop_in [] k = omega arith
  length-drop_in ((j, w) ∷ m) k = ground (arith, length-drop_in m k)

  drop_in-shorter :
      (m : List (K × V)) (k : K) (v : V)
      → find_in m k ≡ some v
      → suc (length (drop_in m k)) ≤ length m
  unfolding drop_in find_in
  drop_in-shorter [] k v h = cc
  drop_in-shorter ((j, w) ∷ m) k v h = elim (Bool-cases (j == k)) [
    | inl same ↦ rw (same, length) (omega (arith, length-drop_in m k))
    | inr other ↦ rw (other, length) (omega (arith, drop_in-shorter m k v (rw other at h)))
  ]

  -- `len(d)` after an assignment and after the removal of a key that is there.
  pub size-put : (d : Dict K V) (k : K) (v : V) → size (put d k v) ≤ suc (size d)
  unfolding put
  size-put d k v = length-put_in d.entries k v

  pub size-del : (d : Dict K V) (k : K) (v : V) → get d k ≡ some v → suc (size (del d k)) ≤ size d
  unfolding get del
  size-del d k v h = drop_in-shorter d.entries k v h

  -- A key that is not found differs from every listed key.
  pub find_in-none :
      (m : List (K × V)) (k : K) → find_in m k ≡ none → All (λ x. (x.0 == k) ≡ false) m
  unfolding find_in
  find_in-none [] k h = tt
  find_in-none ((j, v) ∷ m) k h = elim (Bool-cases (j == k)) [
    | inl same ↦ cc (rw same at h)
    | inr other ↦ (other, find_in-none m k (rw other at h))
  ]

  listed :
      (m : List (K × V)) (k : K) (v : V) (l : List (K × V))
      → All (λ x. (x.0 == k) ≡ false) l
      → All (λ x. find_in m x.0 ≡ some x.1) l
      → All (λ x. find_in ((k, v) ∷ m) x.0 ≡ some x.1) l
  unfolding find_in
  listed m k v [] h g = tt
  listed m k v (x ∷ l) h g = (rw (==_sym x.0 k h.0) g.0, listed m k v l h.1 g.1)

  find_in-entries : (m : List (K × V)) → DistinctKeys m → All (λ x. find_in m x.0 ≡ some x.1) m
  unfolding find_in
  find_in-entries [] h = tt
  find_in-entries ((k, v) ∷ m) h =
      (rw (==_refl k) refl, listed m k v m (find_in-none m k h.0) (find_in-entries m h.1))

  -- Every listed entry is found under its key.
  pub get-entries : (d : Dict K V) → IsDistinct d → All (λ x. get d x.0 ≡ some x.1) d.entries
  unfolding get
  get-entries d h = find_in-entries d.entries h

  put_in-All {μ} :
      (P : V → Type μ) (m : List (K × V)) (k : K) (v : V)
      → P v
      → All P (values_of m)
      → All P (values_of (put_in m k v))
  unfolding put_in
  put_in-All P [] k v p h = (p, tt)
  put_in-All P ((j, w) ∷ m) k v p h = elim (Bool-cases (j == k)) [
    | inl same ↦ rw same (p, h.1)
    | inr other ↦ rw other (h.0, put_in-All P m k v p h.1)
  ]

  pub put-All {μ} :
      (P : V → Type μ) (d : Dict K V) (k : K) (v : V)
      → P v
      → All P (values d)
      → All P (values (put d k v))
  unfolding put
  put-All P d k v p h = put_in-All P d.entries k v p h

  find_in-All {μ} :
      (P : V → Type μ) (m : List (K × V)) (k : K) (v : V)
      → All P (values_of m)
      → find_in m k ≡ some v
      → P v
  unfolding find_in
  find_in-All P [] k v h e = cc
  find_in-All P ((j, w) ∷ m) k v h e = elim (Bool-cases (j == k)) [
    | inl same ↦ subst P (some_inj (rw same at e)) h.0
    | inr other ↦ find_in-All P m k v h.1 (rw other at e)
  ]

  pub get-All {μ} :
      (P : V → Type μ) (d : Dict K V) (k : K) (v : V) → All P (values d) → get d k ≡ some v → P v
  unfolding get
  get-All P d k v h e = find_in-All P d.entries k v h e

  put_in-All_entries {μ} :
      (P : K × V → Type μ) (m : List (K × V)) (k : K) (v : V)
      → P (k, v)
      → All P m
      → All P (put_in m k v)
  unfolding put_in
  put_in-All_entries P [] k v p h = (p, tt)
  put_in-All_entries P ((j, w) ∷ m) k v p h = elim (Bool-cases (j == k)) [
    | inl e ↦ rw e (subst (λ x. P (x, v)) (sym ((==_iff j k).0 e)) p, h.1)
    | inr e ↦ rw e (h.0, put_in-All_entries P m k v p h.1)
  ]

  find_in-All_entries {μ} :
      (P : K × V → Type μ) (m : List (K × V)) (k : K) (v : V)
      → All P m
      → find_in m k ≡ some v
      → P (k, v)
  unfolding find_in
  find_in-All_entries P [] k v h e = cc
  find_in-All_entries P ((j, w) ∷ m) k v h e = elim (Bool-cases (j == k)) [
    | inl f ↦
        subst (λ x. P (x, v)) ((==_iff j k).0 f)
          (subst (λ x. P (j, x)) (some_inj (rw (f, find_in) at e)) h.0)
    | inr f ↦ find_in-All_entries P m k v h.1 (rw (f, find_in) at e)
  ]

  -- A predicate on keys with their values.
  pub put-All_entries {μ} :
      (P : K × V → Type μ) (d : Dict K V) (k : K) (v : V)
      → P (k, v)
      → All P d.entries
      → All P (put d k v).entries
  unfolding put
  put-All_entries P d k v p h = put_in-All_entries P d.entries k v p h

  pub get-All_entries {μ} :
      (P : K × V → Type μ) (d : Dict K V) (k : K) (v : V)
      → All P d.entries
      → get d k ≡ some v
      → P (k, v)
  unfolding get
  get-All_entries P d k v h e = find_in-All_entries P d.entries k v h e

  sum_entries_nonneg :
      (f : V → ℤ) (m : List (K × V))
      → All (λ x. pos 0 ≤ℤ f x) (values_of m)
      → pos 0 ≤ℤ sum_entries f m
  sum_entries_nonneg f [] h = omega arith
  sum_entries_nonneg f ((j, w) ∷ m) h = omega (int_laws, sum_entries_nonneg f m h.1)

  find_in-le-sum :
      (f : V → ℤ) (m : List (K × V)) (k : K) (v : V)
      → All (λ x. pos 0 ≤ℤ f x) (values_of m)
      → find_in m k ≡ some v
      → f v ≤ℤ sum_entries f m
  unfolding find_in
  find_in-le-sum f [] k v h e = cc
  find_in-le-sum f ((j, w) ∷ m) k v h e = elim (Bool-cases (j == k)) [
    | inl same ↦
        let p : w ≡ v = some_inj (rw same at e) in
        rw (← p) (omega (int_laws, sum_entries_nonneg f m h.1))
    | inr other ↦ omega (int_laws, find_in-le-sum f m k v h.1 (rw other at e))
  ]

  -- A figure that is never negative is at most its sum.
  pub get-le-sum_by :
      (f : V → ℤ) (d : Dict K V) (k : K) (v : V)
      → All (λ x. pos 0 ≤ℤ f x) (values d)
      → get d k ≡ some v
      → f v ≤ℤ sum_by f d
  unfolding get
  get-le-sum_by f d k v h e = find_in-le-sum f d.entries k v h e

  entries-values {μ} :
      (P : V → Type μ) (m l : List (K × V))
      → ((k : K) (v : V) → find_in m k ≡ some v → P v)
      → All (λ x. find_in m x.0 ≡ some x.1) l
      → All P (values_of l)
  entries-values P m [] h g = tt
  entries-values P m ((k, v) ∷ l) h g = (h k v g.0, entries-values P m l h g.1)

  -- What holds of every value that is found holds of all values.
  pub values-All {μ} :
      (P : V → Type μ) (d : Dict K V)
      → IsDistinct d
      → ((k : K) (v : V) → get d k ≡ some v → P v)
      → All P (values d)
  unfolding get
  values-All P d distinct h =
      entries-values P d.entries d.entries h (find_in-entries d.entries distinct)

module _ {ℓ κ} {K : Type κ} {V : Type ℓ} (f : V → ℤ) where
  sum_entries_zero :
      (m : List (K × V)) → All (λ v. f v ≡ pos 0) (values_of m) → sum_entries f m ≡ pos 0
  sum_entries_zero [] h = refl
  sum_entries_zero ((k, v) ∷ m) h = rw (h.0, sum_entries_zero m h.1) (add_nothing_right (pos 0))

  pub sum_by_zero : (d : Dict K V) → All (λ v. f v ≡ pos 0) (values d) → sum_by f d ≡ pos 0
  sum_by_zero d h = sum_entries_zero d.entries h

pub ruleset dict_laws = (get-empty, get-put, get-del)
