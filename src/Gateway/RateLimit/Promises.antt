-- ===== src/Gateway/RateLimit/Promises.antt =====
-- Sequences of checks, each with its key and time, on one limiter.
pub mod Tests
use adx_agentic_payment.Base.{
  ℕ, zero, suc, ◌+◌, ◌*◌, ◌≤◌, String, string_eq, Bool, true, false, ◌≡◌, refl, sym, ap, ◌∙◌, ◌⊎◌,
  inl, inr, Option, none, some, List, [], ◌∷◌, ◌++◌, length, length-append, ◌==◌, ==_iff, ==_refl,
  if◌then◌else◌, Result, ok, err, Bool-cases, arith,
}
use mathlib.Core.Path.{subst}
use adx_agentic_payment.Base.Dict
use adx_agentic_payment.Base.Dict.{Dict}
use adx_agentic_payment.Gateway.RateLimit.{
  RateError, SlidingWindowRateLimiter, new_limiter, window, purged, check,
}
use adx_agentic_payment.Gateway.RateLimit.Window.{
  count_recent, count_recent-le, count_recent-append, bucket_of, Shrinks, Prepared, Effect,
  check-Effect, purged-bucket, purge-DistinctKeys, length-purge,
}

-- The limiter with the times of the accepted checks of each key.
pub record Watched : Type 0 where
  pub limiter : SlidingWindowRateLimiter
  pub accepted : String → List ℕ

abbrev pub note : String → ℕ → (String → List ℕ) → String → List ℕ
note key now h k = if key == k then now ∷ h k else h k

abbrev pub noted : Result RateError (Unit {0}) → String → ℕ → (String → List ℕ) → String → List ℕ
noted (ok u) key now h = note key now h
noted (err e) key now h = h

module _ (second : ℕ) where
  abbrev pub watch : String → ℕ → Watched → Watched
  watch key now s = record {
    limiter = (check second key now s.limiter).1;
    accepted = noted (check second key now s.limiter).0 key now s.accepted;
  }

  unfoldable pub run : List (String × ℕ) → Watched → Watched
  run [] s = s
  run ((key, now) ∷ calls) s = run calls (watch key now s)

-- Times that do not decrease, from one time to another.
abbrev pub Ordered : ℕ → List (String × ℕ) → ℕ → Type 0
Ordered first [] last = first ≤ last
Ordered first ((key, now) ∷ calls) last = (first ≤ now) × Ordered now calls last

abbrev pub new_watched : ℕ → ℕ → ℕ → Watched
new_watched attempts seconds max_keys = record {
  limiter = new_limiter attempts seconds max_keys;
  accepted = λ k. [];
}

-- The invariant: the limits do not change, the buckets keep within them, and the times of a key that are
-- in the window are in its bucket.
record IsTracked (w attempts seconds max_keys now : ℕ) (s : Watched) : Type 0 where
  limits :
      (s.limiter.attempts ≡ attempts)
      × (s.limiter.window_seconds ≡ seconds)
      × (s.limiter.max_keys ≡ max_keys)
  distinct : Dict.IsDistinct s.limiter.buckets
  keys : Dict.size s.limiter.buckets ≤ max_keys
  each : (k : String) → length (bucket_of s.limiter.buckets k) ≤ attempts
  tracks :
      (k : String) (later : ℕ)
      → now ≤ later
      → count_recent w later (s.accepted k) ≤ count_recent w later (bucket_of s.limiter.buckets k)

bucket_of-put :
    (d : Dict String (List ℕ)) (key k : String) (b : List ℕ)
    → bucket_of (Dict.put d key b) k ≡ (if key == k then b else bucket_of d k)
bucket_of-put d key k b = elim (Bool-cases (key == k)) [
  | inl same ↦ rw (Dict.get-put d key k b, same) refl
  | inr other ↦ rw (Dict.get-put d key k b, other) refl
]

module _ (second attempts seconds max_keys : ℕ) where
  abbrev Tracked : ℕ → Watched → Type 0
  Tracked = IsTracked (seconds * second) attempts seconds max_keys

  put-Tracked :
      (last now : ℕ) (s : Watched) (key : String) (others : Dict String (List ℕ))
      (bucket b : List ℕ) (h : String → List ℕ)
      → Tracked last s
      → last ≤ now
      → Dict.size others + 1 ≤ max_keys
      → Prepared (seconds * second) now s.limiter.buckets key others bucket
      → length b ≤ attempts
      → ((k : String) → (key == k) ≡ false → h k ≡ s.accepted k)
      → ((later : ℕ)
          → now ≤ later
          → count_recent (seconds * second) later (h key) ≤ count_recent (seconds * second) later b)
      → Tracked now
          (record { limiter = record s.limiter { buckets = Dict.put others key b }; accepted = h })
  put-Tracked last now s key others bucket b h t order room p fits same counts = record {
    limits = t.limits;
    distinct = Dict.put-IsDistinct others key b p.distinct;
    keys = omega (arith, room, Dict.size-put others key b);
    each = λ k. elim (Bool-cases (key == k)) [
      | inl here ↦ rw (bucket_of-put others key k b, here) fits
      | inr away ↦
          rw (bucket_of-put others key k b, away) (omega (arith, (p.kept k away).shorter, t.each k))
    ];
    tracks = λ k later after. elim (Bool-cases (key == k)) [
      | inl here ↦
          rw (bucket_of-put others key k b, here)
            (subst
              (λ x.
                count_recent (seconds * second) later (h x)
                ≤ count_recent (seconds * second) later b)
              ((==_iff key k).0 here) (counts later after))
      | inr away ↦
          rw (bucket_of-put others key k b, away, same k away)
            (omega (
              arith,
              (p.kept k away).counts later after,
              t.tracks k later (omega (arith, order, after)),
            ))
    ];
  }

  full-Tracked :
      (last now : ℕ) (s : Watched)
      → Tracked last s
      → last ≤ now
      → Tracked now (record {
        limiter = record s.limiter { buckets = purged second s.limiter now };
        accepted = s.accepted;
      })
  full-Tracked last now s t order =
      let shrinks : (k : String)
          → Shrinks (seconds * second) now (bucket_of s.limiter.buckets k)
              (bucket_of (purged second s.limiter now) k) =
        λ k.
          subst
            (λ x.
              Shrinks (x * second) now (bucket_of s.limiter.buckets k)
                (bucket_of (purged second s.limiter now) k))
            t.limits.1 (purged-bucket second s.limiter now k t.distinct) in
      record {
        limits = t.limits;
        distinct =
            purge-DistinctKeys (window second s.limiter) now s.limiter.buckets.entries t.distinct;
        keys =
            omega
              (arith, t.keys, length-purge (window second s.limiter) now s.limiter.buckets.entries);
        each = λ k. omega (arith, (shrinks k).shorter, t.each k);
        tracks = λ k later after.
            omega (
              arith,
              (shrinks k).counts later after,
              t.tracks k later (omega (arith, order, after)),
            );
      }

  abbrev After :
      ℕ → Watched → String → Result RateError (Unit {0}) × SlidingWindowRateLimiter → Type 0
  After now s key r =
      Tracked now (record { limiter = r.1; accepted = noted r.0 key now s.accepted })

  watch-Tracked :
      (last now : ℕ) (s : Watched) (key : String)
      → Tracked last s
      → last ≤ now
      → Tracked now (watch second key now s)
  watch-Tracked last now s key t order =
      elim (check-Effect second s.limiter now key t.distinct
        (subst (λ x. Dict.size s.limiter.buckets ≤ x) (sym t.limits.2) t.keys)) [
          | Effect.full e eq ↦ subst (After now s key) (sym eq) (full-Tracked last now s t order)
          | Effect.refused others bucket e (room, p0) eq ↦
              let p =
                subst (λ x. Prepared (x * second) now s.limiter.buckets key others bucket)
                  t.limits.1 p0 in
              subst (After now s key) (sym eq) (
                put-Tracked last now s key others bucket bucket s.accepted t order
                  (subst (λ x. Dict.size others + 1 ≤ x) t.limits.2 room) p
                  (omega (arith, p.own.shorter, t.each key)) (λ k away. refl)
                  (λ later after. omega (
                    arith,
                    p.own.counts later after,
                    t.tracks key later (omega (arith, order, after)),
                  )))
          | Effect.taken others bucket (room, p0) left eq ↦
              let p =
                subst (λ x. Prepared (x * second) now s.limiter.buckets key others bucket)
                  t.limits.1 p0 in
              subst (After now s key) (sym eq) (
                put-Tracked last now s key others bucket (bucket ++ now ∷ [])
                  (note key now s.accepted) t order
                  (subst (λ x. Dict.size others + 1 ≤ x) t.limits.2 room) p
                  (omega (arith, left, t.limits.0, length-append bucket (now ∷ [])))
                  (λ k away. rw away refl)
                  (λ later after.
                    rw (==_refl key, count_recent-append (seconds * second) later bucket (now ∷ []))
                      (ground (
                        arith,
                        p.own.counts later after,
                        t.tracks key later (omega (arith, order, after)),
                      ))))
        ]

  -- A check that is accepted has found fewer than the allowed attempts in the window.
  accepted_few :
      (last now : ℕ) (s : Watched) (key : String)
      → Tracked last s
      → last ≤ now
      → (check second key now s.limiter).0 ≡ ok tt
      → suc (count_recent (seconds * second) now (s.accepted key)) ≤ attempts
  accepted_few last now s key t order yes_ =
      elim (check-Effect second s.limiter now key t.distinct
        (subst (λ x. Dict.size s.limiter.buckets ≤ x) (sym t.limits.2) t.keys)) [
          | Effect.full e eq ↦ cc (ap (λ r. r.0) eq, yes_)
          | Effect.refused others bucket e c eq ↦ cc (ap (λ r. r.0) eq, yes_)
          | Effect.taken others bucket (room, p0) left eq ↦
              let p =
                subst (λ x. Prepared (x * second) now s.limiter.buckets key others bucket)
                  t.limits.1 p0 in
              omega (
                arith,
                left,
                t.limits.0,
                order,
                count_recent-le (seconds * second) now bucket,
                p.own.counts now (omega arith),
                t.tracks key now order,
              )
        ]

  run-Tracked :
      (calls : List (String × ℕ)) (first last : ℕ) (s : Watched)
      → Tracked first s
      → Ordered first calls last
      → (end : ℕ) × (end ≤ last) × Tracked end (run second calls s)
  unfolding run
  run-Tracked [] first last s t order = (first, order, t)
  run-Tracked ((key, now) ∷ calls) first last s t order =
      run-Tracked calls now last (watch second key now s) (watch-Tracked first now s key t order.0)
        order.1

  new-Tracked : Tracked 0 (new_watched attempts seconds max_keys)
  new-Tracked = record {
    limits = (refl, refl, refl);
    distinct = tt;
    keys = omega arith;
    each = λ k. rw (Dict.get-empty {V = List ℕ} k) (omega arith);
    tracks = λ k later after. omega arith;
  }

  -- After checks on a new limiter whose times do not decrease, there are at most `max_keys` buckets of at most
  -- `attempts` times each, and when a further check of a key is accepted, fewer than `attempts` checks of that
  -- key were accepted within the window that ends then.
  pub limiter_holds :
      (calls : List (String × ℕ)) (key : String) (now : ℕ)
      → Ordered 0 calls now
      → (Dict.size (run second calls (new_watched attempts seconds max_keys)).limiter.buckets
          ≤ max_keys)
        × (length (
              bucket_of
                (run second calls (new_watched attempts seconds max_keys)).limiter.buckets
                key)
            ≤ attempts)
        × ((check second key now
                (run second calls (new_watched attempts seconds max_keys)).limiter).0
              ≡ ok tt
            → suc (
                count_recent
                  (seconds * second)
                  now
                  ((run second calls (new_watched attempts seconds max_keys)).accepted key))
              ≤ attempts)
  limiter_holds calls key now order =
      let (end, before, t) =
        run-Tracked calls 0 now (new_watched attempts seconds max_keys) new-Tracked order in
      (
        t.keys,
        t.each key,
        accepted_few end now (run second calls (new_watched attempts seconds max_keys)) key t
            before,
      )
