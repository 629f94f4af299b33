-- ===== src/Game/AgentMarket/Claims.antt =====
-- What `_claim_results` does to the claims: the listed claims are stored, the stored ones are kept.
use adx_agentic_payment.Base.{
  String, false, ◌≡◌, refl, sym, ◌∙◌, ==_refl, ap, ◌⊎◌, inl, inr, Option, none, some, List, [], ◌∷◌,
  All, Bool-cases, Option-cases, Result-cases, err_inj, All-imp, Eq, ◌==◌, string_eq, ==_iff, ok,
  err, refuted_false, some_inj,
}
use mathlib.Core.Path.{subst}
use adx_agentic_payment.Base.Dict
use adx_agentic_payment.Base.Dict.{Dict}
use adx_agentic_payment.Game.AgentMarket.Terms.{AgentMarketError, is_key_error}
use adx_agentic_payment.Game.AgentMarket.State.{
  Claim, Claim-discrete, other_claim, AgentDrivenMarket, collect_claims, put_claims, claim_results,
}

-- Every entry is still there.
abbrev pub Keeps {ℓ κ} : {K : Type κ} {V : Type ℓ} ⦃e : Eq K⦄ → Dict K V → Dict K V → Type (ℓ ⊔ κ)
Keeps {K = K} {V = V} d d' = (k : K) (v : V) → Dict.get d k ≡ some v → Dict.get d' k ≡ some v

pub record Claimed (claims : List (String × Claim)) (d d' : Dict String Claim) : Type 0 where
  pub keeps : Keeps d d'
  pub lists : All (λ x. Dict.get d' x.0 ≡ some x.1) claims

-- A claim that may be stored: the dict has none on its result, or the same.
abbrev Agrees : Dict String Claim → Dict String Claim → Type 0
Agrees d p = (k : String) (c e : Claim) → Dict.get p k ≡ some c → Dict.get d k ≡ some e → e ≡ c

other_claim-none : (o : Option Claim) (c e : Claim) → other_claim o c ≡ false → o ≡ some e → e ≡ c
unfolding Claim-discrete
other_claim-none none c e h q = cc
other_claim-none (some d) c e h q = sym (some_inj q) ∙ refuted_false (Claim-discrete d c) h

record Collected (l : List (String × Claim)) (d p p' : Dict String Claim) : Type 0 where
  keeps : Keeps p p'
  agrees : Agrees d p'
  lists : All (λ x. Dict.get p' x.0 ≡ some x.1) l
  distinct : Dict.IsDistinct p'

get-put_same :
    (p : Dict String Claim) (id : String) (c : Claim) → Dict.get (Dict.put p id c) id ≡ some c
get-put_same p id c = rw (Dict.get-put p id id c, ==_refl id) refl

put-Keeps :
    (p : Dict String Claim) (id : String) (c : Claim)
    → other_claim (Dict.get p id) c ≡ false
    → Keeps p (Dict.put p id c)
put-Keeps p id c one k v g = elim (Bool-cases (id == k)) [
  | inl same ↦
      let at_id = subst (λ x. Dict.get p x ≡ some v) (sym ((==_iff id k).0 same)) g in
      rw (Dict.get-put p id k c, same)
        (ap some (sym (other_claim-none (Dict.get p id) c v one at_id)))
  | inr other ↦ rw (Dict.get-put p id k c, other) g
]

put-Agrees :
    (d p : Dict String Claim) (id : String) (c : Claim)
    → Agrees d p
    → other_claim (Dict.get d id) c ≡ false
    → Agrees d (Dict.put p id c)
put-Agrees d p id c a same k x e h g = elim (Dict.get-put_cases p id k c x h) [
  | inl (there, eq) ↦
      other_claim-none (Dict.get d id) c e same (subst (λ x. Dict.get d x ≡ some e) (sym there) g)
      ∙ eq
  | inr (away, old) ↦ a k x e old g
]

collect_claims-Collected :
    (l : List (String × Claim)) (d p p' : Dict String Claim)
    → Agrees d p
    → Dict.IsDistinct p
    → collect_claims d l p ≡ ok p'
    → Collected l d p p'
collect_claims-Collected [] d p p' a u h =
    let same : p ≡ p' = cc in
    subst (λ x. Collected [] d p x) same
      (record { keeps = λ k v g. g; agrees = a; lists = tt; distinct = u })
collect_claims-Collected ((id, c) ∷ l) d p p' a u h =
    elim (Bool-cases (other_claim (Dict.get p id) c)) [
      | inl several ↦ cc (rw several at h)
      | inr one ↦ elim (Bool-cases (other_claim (Dict.get d id) c)) [
        | inl other ↦ cc (rw (one, other) at h)
        | inr same ↦
            let rest =
              collect_claims-Collected l d (Dict.put p id c) p' (put-Agrees d p id c a same)
                (Dict.put-IsDistinct p id c u) (rw (one, same) at h) in
            record {
              keeps = λ k v g. rest.keeps k v (put-Keeps p id c one k v g);
              agrees = rest.agrees;
              lists = (rest.keeps id c (get-put_same p id c), rest.lists);
              distinct = rest.distinct;
            }
      ]
    ]

put_claims-new :
    (l : List (String × Claim)) (d : Dict String Claim) (k : String)
    → Dict.find_in l k ≡ none
    → Dict.get (put_claims l d) k ≡ Dict.get d k
unfolding Dict.find_in
put_claims-new [] d k h = refl
put_claims-new ((j, w) ∷ l) d k h = elim (Bool-cases (j == k)) [
  | inl same ↦ cc (rw same at h)
  | inr other ↦
      put_claims-new l (Dict.put d j w) k (rw other at h) ∙ rw (Dict.get-put d j k w, other) refl
]

put_claims-listed :
    (l : List (String × Claim)) (d : Dict String Claim) (k : String) (v : Claim)
    → Dict.DistinctKeys l
    → Dict.find_in l k ≡ some v
    → Dict.get (put_claims l d) k ≡ some v
unfolding Dict.find_in
put_claims-listed [] d k v u h = cc
put_claims-listed ((j, w) ∷ l) d k v u h = elim (Bool-cases (j == k)) [
  | inl same ↦
      put_claims-new l (Dict.put d j w) k
        (subst (λ x. Dict.find_in l x ≡ none) ((==_iff j k).0 same) u.0)
      ∙ rw (Dict.get-put d j k w, same) (rw same at h)
  | inr other ↦ put_claims-listed l (Dict.put d j w) k v u.1 (rw other at h)
]

put_claims-Keeps :
    (d p : Dict String Claim) → Agrees d p → Dict.IsDistinct p → Keeps d (put_claims p.entries d)
unfolding Dict.get
put_claims-Keeps d p a u k v h = elim (Option-cases (Dict.find_in p.entries k)) [
  | inl out ↦ put_claims-new p.entries d k out ∙ h
  | inr (c, in_) ↦ put_claims-listed p.entries d k v u (in_ ∙ ap some (sym (a k c v in_ h)))
]

put_claims-found :
    (d p : Dict String Claim)
    → Dict.IsDistinct p
    → (x : String × Claim) → Dict.get p x.0 ≡ some x.1
    → Dict.get (put_claims p.entries d) x.0 ≡ some x.1
unfolding Dict.get
put_claims-found d p u x h = put_claims-listed p.entries d x.0 x.1 u h

collect_claims-err :
    (d : Dict String Claim) (l : List (String × Claim)) (p : Dict String Claim)
    (e : AgentMarketError)
    → collect_claims d l p ≡ err e
    → is_key_error e ≡ false
collect_claims-err d [] p e h = cc
collect_claims-err d ((id, c) ∷ l) p e h = elim (Bool-cases (other_claim (Dict.get p id) c)) [
  | inl several ↦ subst (λ x. is_key_error x ≡ false) (err_inj (rw several at h)) refl
  | inr one ↦ elim (Bool-cases (other_claim (Dict.get d id) c)) [
    | inl other ↦ subst (λ x. is_key_error x ≡ false) (err_inj (rw (one, other) at h)) refl
    | inr same ↦ collect_claims-err d l (Dict.put p id c) e (rw (one, same) at h)
  ]
]

-- A call of `_claim_results` either stores its claims, or raises and changes nothing.
pub claim_results-Claimed :
    (l : List (String × Claim)) (m : AgentDrivenMarket)
    → ((d : Dict String Claim) × Claimed l m.result_claims d
        × (claim_results l m ≡ (ok tt, record m { result_claims = d })))
      ⊎ ((e : AgentMarketError) × (is_key_error e ≡ false) × (claim_results l m ≡ (err e, m)))
unfolding claim_results
claim_results-Claimed l m = elim (Result-cases (collect_claims m.result_claims l Dict.empty)) [
  | inr (e, raised) ↦
      inr (e, collect_claims-err m.result_claims l Dict.empty e raised, rw raised refl)
  | inl (p, done) ↦
      let c =
        collect_claims-Collected l m.result_claims Dict.empty p
          (λ k x y h g. cc (rw (Dict.get-empty {V = Claim} k) at h)) tt done in
      let kept = put_claims-Keeps m.result_claims p c.agrees c.distinct in
      inl (
        put_claims p.entries m.result_claims,
        record {
          keeps = kept;
          lists = All-imp (put_claims-found m.result_claims p c.distinct) l c.lists;
        },
        rw done refl,
      )
]
