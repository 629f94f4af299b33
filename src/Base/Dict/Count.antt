-- ===== src/Base/Dict/Count.antt =====
-- How many values of a dict pass a test, after an assignment.
use Prim.Native.Nat.{◌+◌}
use mathlib.Core.Path.{◌≡◌, refl, ap, sym, ◌∙◌}
use mathlib.Core.Bool.{Bool}
use mathlib.Core.List.{List, [], ◌∷◌}
use mathlib.Core.Option.{none, some}
use mathlib.Core.Logic.{inl, inr}
use native.Mathlib.Omega.{arith}
use adx_agentic_payment.Base.Tests.{Eq, ◌==◌, Bool-cases, some_inj, if◌then◌else◌}
use adx_agentic_payment.Base.Lists.{select, length}
use adx_agentic_payment.Base.Dict.{Dict}
use adx_agentic_payment.Base.Dict

-- The values that pass a test.
abbrev pub selected {ℓ κ} : {K : Type κ} {V : Type ℓ} → (V → Bool) → Dict K V → List V
selected p d = select p (Dict.values d)

module _ {ℓ κ} {K : Type κ} {V : Type ℓ} ⦃e : Eq K⦄ (p : V → Bool) where
  count-put_in_new :
      (m : List (K × V)) (k : K) (v : V)
      → Dict.find_in m k ≡ none
      → length (select p (Dict.values_of (Dict.put_in m k v)))
        ≡ length (select p (Dict.values_of m)) + (if p v then 1 else 0)
  unfolding Dict.find_in Dict.put_in
  count-put_in_new [] k v h = elim (Bool-cases (p v)) [
    | inl holds ↦ rw holds refl
    | inr fails ↦ rw fails refl
  ]
  count-put_in_new ((j, w) ∷ m) k v h = elim (Bool-cases (j == k)) [
    | inl same ↦ cc (rw (same, Dict.find_in) at h)
    | inr other ↦
        let ih = count-put_in_new m k v (rw (other, Dict.find_in) at h) in
        elim (Bool-cases (p w)) [
          | inl holds ↦ rw (other, holds) (omega (arith, ih))
          | inr fails ↦ rw (other, fails) ih
        ]
  ]

  count-put_in_same :
      (m : List (K × V)) (k : K) (v old : V)
      → Dict.find_in m k ≡ some old
      → p v ≡ p old
      → length (select p (Dict.values_of (Dict.put_in m k v)))
        ≡ length (select p (Dict.values_of m))
  unfolding Dict.find_in Dict.put_in
  count-put_in_same [] k v old h q = cc
  count-put_in_same ((j, w) ∷ m) k v old h q = elim (Bool-cases (j == k)) [
    | inl same ↦
        let eq : w ≡ old = some_inj (rw same at h) in
        let test : p v ≡ p w = q ∙ ap p (sym eq) in
        elim (Bool-cases (p w)) [
          | inl holds ↦ rw (same, test ∙ holds, holds) refl
          | inr fails ↦ rw (same, test ∙ fails, fails) refl
        ]
    | inr other ↦
        let ih = count-put_in_same m k v old (rw (other, Dict.find_in) at h) q in
        elim (Bool-cases (p w)) [
          | inl holds ↦ rw (other, holds) (omega (arith, ih))
          | inr fails ↦ rw (other, fails) ih
        ]
  ]

  pub count-put_new :
      (d : Dict K V) (k : K) (v : V)
      → Dict.get d k ≡ none
      → length (selected p (Dict.put d k v)) ≡ length (selected p d) + (if p v then 1 else 0)
  unfolding Dict.get Dict.put
  count-put_new d k v h = count-put_in_new d.entries k v h

  pub count-put_same :
      (d : Dict K V) (k : K) (v old : V)
      → Dict.get d k ≡ some old
      → p v ≡ p old
      → length (selected p (Dict.put d k v)) ≡ length (selected p d)
  unfolding Dict.get Dict.put
  count-put_same d k v old h q = count-put_in_same d.entries k v old h q
