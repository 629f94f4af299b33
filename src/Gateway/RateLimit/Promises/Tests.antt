-- ===== src/Gateway/RateLimit/Promises/Tests.antt =====
-- A limiter of one attempt in ten seconds with two keys, and a tick for each second.
use adx_agentic_payment.Base.{
  ℕ, suc, ◌*◌, ◌≤◌, String, string_eq, ◌≡◌, refl, List, [], ◌∷◌, length, ok, err, arith,
}
use adx_agentic_payment.Base.Dict
use adx_agentic_payment.Gateway.RateLimit.{RateError, check}
use adx_agentic_payment.Gateway.RateLimit.Window.{count_recent, bucket_of}
use adx_agentic_payment.Gateway.RateLimit.Promises.{Watched, new_watched, run, limiter_holds}

abbrev calls : List (String × ℕ)
calls = ("a", 0) ∷ ("b", 5) ∷ ("a", 6) ∷ []

abbrev after_calls : Watched
after_calls = run 1 calls (new_watched 1 10 2)

limiter_holds_example :
    (Dict.size after_calls.limiter.buckets ≤ 2)
    × (length (bucket_of after_calls.limiter.buckets "b") ≤ 1)
    × ((check 1 "b" 15 after_calls.limiter).0 ≡ ok tt
        → suc (count_recent (10 * 1) 15 (after_calls.accepted "b")) ≤ 1)
limiter_holds_example =
    limiter_holds 1 1 10 2 calls "b" 15 (omega arith, (omega arith, (omega arith, omega arith)))

-- The refused check of "a" has put its bucket behind that of "b", so "a" is not purged when its time has
-- left the window, and a third key is refused.
third_key_refused : (check 1 "c" 11 after_calls.limiter).0 ≡ err (RateError.rate_limit_exceeded 10)
unfolding check run Dict.get Dict.find_in Dict.put Dict.del
third_key_refused = refl

third_key_accepted :
    (check 1 "c" 11 (run 1 (("a", 0) ∷ ("b", 5) ∷ []) (new_watched 1 10 2)).limiter).0 ≡ ok tt
unfolding check run Dict.get Dict.find_in Dict.put Dict.del
third_key_accepted = refl
