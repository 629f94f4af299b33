-- ===== src/Gateway/RateLimit/Window.antt =====
-- What the limiter guarantees over any sequence of checks whose times do not decrease.
use adx_agentic_payment.Base.{
  ℕ, suc, ◌+◌, ◌≤◌, String, string_eq, true, false, ◌≡◌, refl, sym, ap, ◌∙◌, ◌⊎◌, inl, inr, Option,
  none, some, List, [], ◌∷◌, ◌++◌, leb, ltb, length, is_nil, ◌==◌, ==_iff, if◌then◌else◌, ok, err,
  Bool-cases, Option-cases, arith,
}
use mathlib.Core.Path.{subst}
use adx_agentic_payment.Base.Dict
use adx_agentic_payment.Base.Dict.{Dict}
use adx_agentic_payment.Gateway.RateLimit.{
  RateError, SlidingWindowRateLimiter, drop_expired, purge, window, admit, purged, check,
  retry_error,
}

-- The times within the window that ends at `now`.
abbrev pub count_recent : ℕ → ℕ → List ℕ → ℕ
count_recent window now [] = 0
count_recent window now (t ∷ ts) =
    let rest = count_recent window now ts in if ltb now (t + window) then suc rest else rest

module _ (w : ℕ) where
  pub count_recent-le : (now : ℕ) (ts : List ℕ) → count_recent w now ts ≤ length ts
  count_recent-le now [] = omega arith
  count_recent-le now (t ∷ ts) = ground (arith, count_recent-le now ts)

  pub count_recent-append :
      (now : ℕ) (ts us : List ℕ)
      → count_recent w now (ts ++ us) ≡ count_recent w now ts + count_recent w now us
  count_recent-append now [] us = omega arith
  count_recent-append now (t ∷ ts) us = ground (arith, count_recent-append now ts us)

  -- What is dropped has left the window, now and later.
  drop_expired-count :
      (now later : ℕ) (ts : List ℕ)
      → now ≤ later
      → count_recent w later (drop_expired w now ts) ≡ count_recent w later ts
  drop_expired-count now later [] h = refl
  drop_expired-count now later (t ∷ ts) h = ground (arith, h, drop_expired-count now later ts h)

  length-drop_expired : (now : ℕ) (ts : List ℕ) → length (drop_expired w now ts) ≤ length ts
  length-drop_expired now [] = omega arith
  length-drop_expired now (t ∷ ts) = ground (arith, length-drop_expired now ts)

  pub length-purge : (now : ℕ) (m : List (String × List ℕ)) → length (purge w now m) ≤ length m
  length-purge now [] = omega arith
  length-purge now ((k, b) ∷ m) = ground (arith, length-purge now m)

  pub purge-DistinctKeys :
      (now : ℕ) (m : List (String × List ℕ))
      → Dict.DistinctKeys m
      → Dict.DistinctKeys (purge w now m)
  purge-DistinctKeys now [] h = tt
  purge-DistinctKeys now ((k, b) ∷ m) h = elim (Bool-cases (is_nil (drop_expired w now b))) [
    | inl gone ↦ rw gone (purge-DistinctKeys now m h.1)
    | inr left ↦ rw left h
  ]

abbrev pub or_empty : Option (List ℕ) → List ℕ
or_empty none = []
or_empty (some b) = b

-- The bucket of a key, empty when there is none.
abbrev pub bucket_of : Dict String (List ℕ) → String → List ℕ
bucket_of d k = or_empty (Dict.get d k)

nil_of : (ts : List ℕ) → is_nil ts ≡ true → ts ≡ []
nil_of [] h = refl
nil_of (t ∷ ts) h = cc

module _ (w now : ℕ) where
  purge-bucket :
      (m : List (String × List ℕ)) (k : String)
      → Dict.DistinctKeys m
      → (or_empty (Dict.find_in (purge w now m) k) ≡ or_empty (Dict.find_in m k))
        ⊎ (or_empty (Dict.find_in (purge w now m) k)
            ≡ drop_expired w now (or_empty (Dict.find_in m k)))
  unfolding Dict.find_in
  purge-bucket [] k h = inl refl
  purge-bucket ((j, b) ∷ m) k h = elim (Bool-cases (is_nil (drop_expired w now b))) [
    | inl gone ↦ elim (Bool-cases (j == k)) [
      | inl same ↦
          let out : Dict.find_in m k ≡ none =
            subst (λ x. Dict.find_in m x ≡ none) ((==_iff j k).0 same) h.0 in
          let nothing : or_empty (Dict.find_in (purge w now m) k) ≡ [] =
            elim (purge-bucket m k h.1) [
              | inl e ↦ e ∙ ap or_empty out
              | inr e ↦ e ∙ ap (λ o. drop_expired w now (or_empty o)) out
            ] in
          rw (gone, same) (inr (nothing ∙ sym (nil_of (drop_expired w now b) gone)))
      | inr other ↦ rw (gone, other) (purge-bucket m k h.1)
    ]
    | inr left ↦ elim (Bool-cases (j == k)) [
      | inl same ↦ rw (left, same, Dict.find_in) (inr refl)
      | inr other ↦ rw (left, other, Dict.find_in) (inl refl)
    ]
  ]

get-del_other :
    (d : Dict String (List ℕ)) (key k : String)
    → (key == k) ≡ false
    → Dict.get (Dict.del d key) k ≡ Dict.get d k
get-del_other d key k other = rw (Dict.get-del d key k, other) refl

-- A bucket that may have lost times which have left the window by `now`.
pub record Shrinks (w now : ℕ) (b b' : List ℕ) : Type 0 where
  pub shorter : length b' ≤ length b
  pub counts : (later : ℕ) → now ≤ later → count_recent w later b' ≡ count_recent w later b

module _ (w now : ℕ) where
  Shrinks-refl : (b : List ℕ) → Shrinks w now b b
  Shrinks-refl b = record { shorter = omega arith; counts = λ later h. refl }

  Shrinks-trans : (a b c : List ℕ) → Shrinks w now a b → Shrinks w now b c → Shrinks w now a c
  Shrinks-trans a b c h g = record {
    shorter = omega (arith, h.shorter, g.shorter);
    counts = λ later t. g.counts later t ∙ h.counts later t;
  }

  drop_expired-Shrinks : (b : List ℕ) → Shrinks w now b (drop_expired w now b)
  drop_expired-Shrinks b = record {
    shorter = length-drop_expired w now b;
    counts = λ later h. drop_expired-count w now later b h;
  }

  same-Shrinks : (b b' : List ℕ) → b' ≡ b → Shrinks w now b b'
  same-Shrinks b b' e = subst (Shrinks w now b) (sym e) (Shrinks-refl b)

  dropped-Shrinks : (b b' : List ℕ) → b' ≡ drop_expired w now b → Shrinks w now b b'
  dropped-Shrinks b b' e = subst (Shrinks w now b) (sym e) (drop_expired-Shrinks b)

-- The buckets before a check's own bucket is put back at the end, and that bucket.
pub record Prepared (w now : ℕ) (d : Dict String (List ℕ)) (key : String)
    (others : Dict String (List ℕ)) (bucket : List ℕ) : Type 0 where
  pub distinct : Dict.IsDistinct others
  pub kept : (k : String) → (key == k) ≡ false → Shrinks w now (bucket_of d k) (bucket_of others k)
  pub own : Shrinks w now (bucket_of d key) bucket

module _ (second : ℕ) where
  abbrev pub Checked :
      SlidingWindowRateLimiter → String → ℕ → Dict String (List ℕ) → List ℕ → Type 0
  Checked l key now others bucket =
      (Dict.size others + 1 ≤ l.max_keys)
      × Prepared (window second l) now l.buckets key others bucket

  pub data Effect (l : SlidingWindowRateLimiter) (key : String) (now : ℕ) : Type 0 where
    full :
        (e : RateError)
        → check second key now l ≡ (err e, record l { buckets = purged second l now })
        → Effect l key now
    refused :
        (others : Dict String (List ℕ)) (bucket : List ℕ) (e : RateError)
        → Checked l key now others bucket
        → check second key now l ≡ (err e, record l { buckets = Dict.put others key bucket })
        → Effect l key now
    taken :
        (others : Dict String (List ℕ)) (bucket : List ℕ)
        → Checked l key now others bucket
        → suc (length bucket) ≤ l.attempts
        → check second key now l
          ≡ (ok tt, record l { buckets = Dict.put others key (bucket ++ now ∷ []) })
        → Effect l key now

  module _ (l : SlidingWindowRateLimiter) (now : ℕ) where
    pub purged-bucket :
        (k : String)
        → Dict.IsDistinct l.buckets
        → Shrinks (window second l) now (bucket_of l.buckets k) (bucket_of (purged second l now) k)
    unfolding Dict.get
    purged-bucket k h = elim (purge-bucket (window second l) now l.buckets.entries k h) [
      | inl e ↦
          same-Shrinks (window second l) now (bucket_of l.buckets k)
            (bucket_of (purged second l now) k) e
      | inr e ↦
          dropped-Shrinks (window second l) now (bucket_of l.buckets k)
            (bucket_of (purged second l now) k) e
    ]

    admit-Effect :
        (key : String) (others : Dict String (List ℕ)) (bucket : List ℕ)
        → Checked l key now others bucket
        → check second key now l ≡ admit second l key now others bucket
        → Effect l key now
    admit-Effect key others bucket c e = elim (Bool-cases (leb l.attempts (length bucket))) [
      | inl spent ↦
          Effect.refused others bucket (retry_error second l now bucket) c (e ∙ rw spent refl)
      | inr left ↦ Effect.taken others bucket c (ground (arith, left)) (e ∙ rw left refl)
    ]

    pub check-Effect :
        (key : String)
        → Dict.IsDistinct l.buckets
        → Dict.size l.buckets ≤ l.max_keys
        → Effect l key now
    unfolding check
    check-Effect key distinct small =
        let d : Dict String (List ℕ) = purged second l now in
        let d_distinct : Dict.IsDistinct d =
          purge-DistinctKeys (window second l) now l.buckets.entries distinct in
        let d_small : Dict.size d ≤ l.max_keys =
          omega (arith, small, length-purge (window second l) now l.buckets.entries) in
        elim (Option-cases (Dict.get d key)) [
          | inl new ↦ elim (Bool-cases (leb l.max_keys (Dict.size d))) [
            | inl crowded ↦
                Effect.full (RateError.rate_limit_exceeded l.window_seconds)
                  (rw (new, crowded) refl)
            | inr room ↦
                admit-Effect key d []
                  (
                    ground (arith, room),
                    record {
                      distinct = d_distinct;
                      kept = λ k other. purged-bucket k distinct;
                      own =
                          subst (Shrinks (window second l) now (bucket_of l.buckets key))
                            (ap or_empty new) (purged-bucket key distinct);
                    },
                  )
                  (rw (new, room) refl)
          ]
          | inr (b, old) ↦
              admit-Effect key (Dict.del d key) (drop_expired (window second l) now b)
                (
                  omega (arith, d_small, Dict.size-del d key b old),
                  record {
                    distinct = Dict.del-IsDistinct d key d_distinct;
                    kept = λ k other.
                        subst (Shrinks (window second l) now (bucket_of l.buckets k))
                          (ap or_empty (sym (get-del_other d key k other)))
                          (purged-bucket k distinct);
                    own =
                        Shrinks-trans (window second l) now (bucket_of l.buckets key) b
                          (drop_expired (window second l) now b)
                          (subst (Shrinks (window second l) now (bucket_of l.buckets key))
                            (ap or_empty old) (purged-bucket key distinct))
                          (drop_expired-Shrinks (window second l) now b);
                  },
                )
                (rw old refl)
        ]
