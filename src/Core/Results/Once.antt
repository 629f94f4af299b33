-- ===== src/Core/Results/Once.antt =====
-- The authoritative results of tasks, over any calls.
use adx_agentic_payment.Base.{
  ℕ, String, Bool, true, not, ◌&&◌, Option, none, some, List, [], ◌∷◌, take, select, zero, suc, any,
  ◌==◌, ==_iff, ==_false, refl, sym, ◌≢◌, ◌⊎◌, nat_eq, string_eq, All, All-imp, ◌≡◌, ap, ◌∙◌, inl,
  inr, Bool-cases, Option-cases,
}
use adx_agentic_payment.Base.Dict
use adx_agentic_payment.Base.Dict.{Dict}
use adx_agentic_payment.Base.Sort.{sort_by, sort_by-All}
use adx_agentic_payment.Payments.Models.{Datetime, incomparable, at_most}
use mathlib.Core.Path.{subst}
use adx_agentic_payment.Core.Results.Ids.{Authored, default_id-unused}
use adx_agentic_payment.Core.Results.{
  incomparable_deadline, default_record, accepted_record, finished, TaskStatus, status_after,
  default_id, create_timeout_result, ArenaCore, ArenaTaskRecord, ArenaResultRecord, AgentTaskResult,
  terminal, internal_id, timed_out_state, accepted_state, replay, late_for_task, late_for_deadline,
  accept_result, first_time, submit_result, expired, due_first, time_out_all, finalize_expired,
}

-- Tasks are stored under their own ids.
abbrev pub IsFiled : String × ArenaTaskRecord → Type 0
IsFiled e = e.1.task.task_id ≡ e.0

take-All {ℓ κ} : {A : Type ℓ} (P : A → Type κ) (n : ℕ) (xs : List A) → All P xs → All P (take n xs)
take-All P zero xs h = tt
take-All P (suc n) [] h = tt
take-All P (suc n) (x ∷ xs) h = (h.0, take-All P n xs h.1)

select-All_both {ℓ κ} :
    {A : Type ℓ} (P : A → Type κ) (q : A → Bool) (xs : List A)
    → All P xs
    → All (λ x. P x × (q x ≡ true)) (select q xs)
select-All_both P q [] h = tt
select-All_both P q (x ∷ xs) h = elim (Bool-cases (q x)) [
  | inl e ↦ rw e ((h.0, e), select-All_both P q xs h.1)
  | inr e ↦ rw e (select-All_both P q xs h.1)
]

-- A call of the runtime, or of the finalizer.
pub data Op : Type 0 where
  submits : AgentTaskResult → Bool → Option String → Datetime → Op
  finalizes : ℕ → Datetime → Op

module _ (digest : String → String) (hash_of : AgentTaskResult → String)
    (rejects : AgentTaskResult → Bool) where
  -- The repository after a call, whether it returned or raised.
  unfoldable pub apply : Op → ArenaCore → ArenaCore
  apply (submits r replaced policy now) s =
      (submit_result digest hash_of rejects r replaced policy now s).1
  apply (finalizes limit now) s = (finalize_expired digest hash_of rejects limit now s).1

  unfoldable pub run : List Op → ArenaCore → ArenaCore
  run [] s = s
  run (op ∷ ops) s = run ops (apply op s)

module _ (digest : String → String) (hash_of : AgentTaskResult → String)
    (rejects : AgentTaskResult → Bool)
    (digest_injective : (x y : String) → digest x ≡ digest y → x ≡ y) where
  -- What a call keeps: the filing, and the results that tasks have, with their records.
  record Keeps (s s' : ArenaCore) : Type 0 where
    filed : All IsFiled s'.tasks.entries
    authored : Authored digest hash_of rejects s'
    kept :
        (t id : String)
        → Dict.get s.result_by_task t ≡ some id
        → Dict.get s'.result_by_task t ≡ some id
    recorded :
        (t id : String) (r : ArenaResultRecord)
        → Dict.get s.result_by_task t ≡ some id
        → Dict.get s.results id ≡ some r
        → Dict.get s'.results id ≡ some r

  -- A result for a task that has none.
  assigned :
      (s : ArenaCore) (j v : String)
      → Dict.get s.result_by_task j ≡ none
      → (t id : String) → Dict.get s.result_by_task t ≡ some id
      → Dict.get (Dict.put s.result_by_task j v) t ≡ some id
  assigned s j v fresh t id h = elim (Bool-cases (j == t)) [
    | inl e ↦ let same = ap (Dict.get s.result_by_task) ((==_iff j t).0 e) in cc (fresh, same, h)
    | inr e ↦ Dict.get-put s.result_by_task j t v ∙ rw e h
  ]

  -- A record that is stored under another id.
  stored_apart :
      (d : Dict String ArenaResultRecord) (j id : String) (q r : ArenaResultRecord)
      → j ≢ id
      → Dict.get d id ≡ some r
      → Dict.get (Dict.put d j q) id ≡ some r
  stored_apart d j id q r apart h = Dict.get-put d j id q ∙ rw (==_false j id apart) h

  time_out-Authored :
      (s : ArenaCore) (j : String)
      → Authored digest hash_of rejects s
      → (t id : String)
      → Dict.get (Dict.put s.result_by_task j (default_id digest hash_of rejects j)) t ≡ some id
      → (id ≡ default_id digest hash_of rejects t)
        ⊎ ((r : AgentTaskResult) × (id ≡ internal_id digest hash_of rejects r))
  time_out-Authored s j a t id h =
      elim (Dict.get-put_cases s.result_by_task j t (default_id digest hash_of rejects j) id h) [
        | inl (here, v) ↦ inl (sym v ∙ ap (default_id digest hash_of rejects) here)
        | inr (away, old) ↦ a t id old
      ]

  unchanged :
      (s s' : ArenaCore)
      → s'.tasks ≡ s.tasks
      → s'.results ≡ s.results
      → s'.result_by_task ≡ s.result_by_task
      → All IsFiled s.tasks.entries
      → Authored digest hash_of rejects s
      → Keeps s s'
  unchanged s s' tasks results by_task f a = record {
    filed = subst (λ d. All IsFiled d.entries) (sym tasks) f;
    authored = λ t id h. a t id (ap (λ d. Dict.get d t) (sym by_task) ∙ h);
    kept = λ t id h. ap (λ d. Dict.get d t) by_task ∙ h;
    recorded = λ t id r h e. ap (λ d. Dict.get d id) results ∙ e;
  }

  accepted-Keeps :
      (t : ArenaTaskRecord) (r : AgentTaskResult) (replaced : Bool) (policy : Option String)
      (now : Datetime) (s : ArenaCore)
      → All IsFiled s.tasks.entries
      → t.task.task_id ≡ r.task_id
      → Authored digest hash_of rejects s
      → Dict.get s.result_by_task r.task_id ≡ none
      → Dict.get s.results (internal_id digest hash_of rejects r) ≡ none
      → Keeps s (accepted_state digest hash_of rejects t r replaced policy now s)
  accepted-Keeps t r replaced policy now s f e a fresh new = record {
    filed =
        Dict.put-All_entries IsFiled s.tasks r.task_id (finished t (status_after r.status) now) e f;
    authored = λ x id h.
        elim (Dict.get-put_cases s.result_by_task r.task_id x (internal_id digest hash_of rejects r)
          id h) [ inl (here, v) ↦ inr (r, sym v) | inr (away, old) ↦ a x id old ];
    kept = assigned s r.task_id (internal_id digest hash_of rejects r) fresh;
    recorded = λ x id q h there.
        stored_apart s.results (internal_id digest hash_of rejects r) id
          (accepted_record digest hash_of rejects r replaced policy now) q
          (λ same. cc (new, ap (Dict.get s.results) same, there)) there;
  }

  -- Timing out a task that had no result in a state `o` keeps the results that `o` had.
  time_out-Keeps :
      (k : String) (t : ArenaTaskRecord) (now : Datetime) (o s : ArenaCore)
      → t.task.task_id ≡ k
      → Dict.get o.result_by_task t.task.task_id ≡ none
      → Authored digest hash_of rejects o
      → Keeps o s
      → Keeps o (timed_out_state digest hash_of rejects k t now s)
  time_out-Keeps k t now o s e fresh a h = record {
    filed = Dict.put-All_entries IsFiled s.tasks k (finished t TaskStatus.defaulted now) e h.filed;
    authored = time_out-Authored s t.task.task_id h.authored;
    kept = λ x id has. elim (Bool-cases (t.task.task_id == x)) [
      | inl same ↦
          let at_x = ap (Dict.get o.result_by_task) ((==_iff t.task.task_id x).0 same) in
          cc (fresh, at_x, has)
      | inr other ↦
          Dict.get-put s.result_by_task t.task.task_id x
            (default_id digest hash_of rejects t.task.task_id)
          ∙ rw other (h.kept x id has)
    ];
    recorded = λ x id r has there.
        stored_apart s.results (default_id digest hash_of rejects t.task.task_id) id
          (default_record digest hash_of rejects t.task.task_id now) r
          (default_id-unused digest hash_of rejects digest_injective o t.task.task_id x id a fresh
            has)
          (h.recorded x id r has there);
  }

  first_time-Keeps :
      (t : ArenaTaskRecord) (r : AgentTaskResult) (replaced : Bool) (policy : Option String)
      (now : Datetime) (s : ArenaCore)
      → All IsFiled s.tasks.entries
      → t.task.task_id ≡ r.task_id
      → Authored digest hash_of rejects s
      → Dict.get s.results (internal_id digest hash_of rejects r) ≡ none
      → Keeps s (first_time digest hash_of rejects t r replaced policy now s).1
  unfolding first_time late_for_task late_for_deadline accept_result create_timeout_result
  first_time-Keeps t r replaced policy now s f e a new =
      elim (Option-cases (Dict.get s.result_by_task r.task_id)) [
        | inr (id, has) ↦ rw has (unchanged s _ refl refl refl f a)
        | inl fresh ↦ elim (Bool-cases (terminal t.status)) [
          | inl done ↦ rw (fresh, done) (unchanged s _ refl refl refl f a)
          | inr going ↦ elim (Bool-cases (incomparable now t.task.deadline_at)) [
            | inl mixed ↦ rw (fresh, going, mixed) (unchanged s _ refl refl refl f a)
            | inr like ↦ elim (Bool-cases (at_most t.task.deadline_at now)) [
              | inl over ↦
                  let k =
                    time_out-Keeps r.task_id t now s s e (ap (Dict.get s.result_by_task) e ∙ fresh)
                      a (unchanged s s refl refl refl f a) in
                  rw (fresh, going, like, over)
                    (record {
                      filed = k.filed;
                      authored = k.authored;
                      kept = k.kept;
                      recorded = k.recorded;
                    })
              | inr early ↦
                  let k = accepted-Keeps t r replaced policy now s f e a fresh new in
                  rw (fresh, going, like, early)
                    (record {
                      filed = k.filed;
                      authored = k.authored;
                      kept = k.kept;
                      recorded = k.recorded;
                    })
            ]
          ]
        ]
      ]

  replay-Keeps :
      (existing : ArenaResultRecord) (t : ArenaTaskRecord) (r : AgentTaskResult) (now : Datetime)
      (s : ArenaCore)
      → All IsFiled s.tasks.entries
      → Authored digest hash_of rejects s
      → Keeps s (replay digest hash_of rejects existing t r now s).1
  unfolding replay
  replay-Keeps existing t r now s f a = elim (Bool-cases (existing.result.task_id == r.task_id)) [
    | inr other ↦ rw other (unchanged s _ refl refl refl f a)
    | inl same ↦ elim (Bool-cases (existing.result_hash == hash_of r)) [
      | inr changed ↦ rw (same, changed) (unchanged s _ refl refl refl f a)
      | inl equal ↦ rw (same, equal) (unchanged s _ refl refl refl f a)
    ]
  ]

  submit_result-Keeps :
      (r : AgentTaskResult) (replaced : Bool) (policy : Option String) (now : Datetime)
      (s : ArenaCore)
      → All IsFiled s.tasks.entries
      → Authored digest hash_of rejects s
      → Keeps s (submit_result digest hash_of rejects r replaced policy now s).1
  unfolding submit_result
  submit_result-Keeps r replaced policy now s f a = elim (Bool-cases (not now.aware)) [
    | inl naive ↦ rw naive (unchanged s _ refl refl refl f a)
    | inr aware ↦ elim (Bool-cases (rejects r)) [
      | inl bad ↦ rw (aware, bad) (unchanged s _ refl refl refl f a)
      | inr good ↦ elim (Option-cases (Dict.get s.tasks r.task_id)) [
        | inl gone ↦ rw (aware, good, gone) (unchanged s _ refl refl refl f a)
        | inr (t, found) ↦
            let own = Dict.get-All_entries IsFiled s.tasks r.task_id t f found in
            elim (Option-cases (Dict.get s.results (internal_id digest hash_of rejects r))) [
              | inl new ↦
                  rw (aware, good, found, new)
                    (first_time-Keeps t r replaced policy now s f own a new)
              | inr (e, known) ↦ rw (aware, good, found, known) (replay-Keeps e t r now s f a)
            ]
      ]
    ]
  ]

  -- Timing out tasks that had no result in a state `o` keeps the results that `o` had.
  time_out_all-Keeps :
      (es : List (String × ArenaTaskRecord)) (now : Datetime) (o s : ArenaCore)
      → All (λ e. IsFiled e × (Dict.get o.result_by_task e.1.task.task_id ≡ none)) es
      → Authored digest hash_of rejects o
      → Keeps o s
      → Keeps o (time_out_all digest hash_of rejects es now s)
  unfolding time_out_all
  time_out_all-Keeps [] now o s h a k = k
  time_out_all-Keeps ((j, t) ∷ rest) now o s h a k =
      time_out_all-Keeps rest now o (timed_out_state digest hash_of rejects j t now s) h.1 a
        (time_out-Keeps j t now o s h.0.0 h.0.1 a k)

  unassigned :
      (s : ArenaCore) (now : Datetime) (e : String × ArenaTaskRecord)
      → expired digest hash_of rejects s now e ≡ true
      → Dict.get s.result_by_task e.1.task.task_id ≡ none
  unassigned s now e h = elim (Option-cases (Dict.get s.result_by_task e.1.task.task_id)) [
    | inl fresh ↦ fresh
    | inr (id, has) ↦ elim (Bool-cases (terminal e.1.status)) [
      | inl done ↦ cc (rw done at h)
      | inr going ↦ elim (Bool-cases (at_most e.1.task.deadline_at now)) [
        | inl over ↦ cc (rw (going, over, has) at h)
        | inr early ↦ cc (rw (going, early) at h)
      ]
    ]
  ]

  finalize_expired-Keeps :
      (limit : ℕ) (now : Datetime) (s : ArenaCore)
      → All IsFiled s.tasks.entries
      → Authored digest hash_of rejects s
      → Keeps s (finalize_expired digest hash_of rejects limit now s).1
  unfolding finalize_expired
  finalize_expired-Keeps limit now s f a = elim (Bool-cases (not (limit == 0) && not now.aware)) [
    | inl naive ↦ rw naive (unchanged s _ refl refl refl f a)
    | inr clock ↦
        elim (Bool-cases (
          not (limit == 0)
          && any (incomparable_deadline digest hash_of rejects now) (Dict.values s.tasks))) [
            | inl mixed ↦ rw (clock, mixed) (unchanged s _ refl refl refl f a)
            | inr like ↦
                rw (clock, like)
                  (time_out_all-Keeps
                    (take limit (
                      sort_by (due_first digest hash_of rejects)
                        (select (expired digest hash_of rejects s now) s.tasks.entries)))
                    now s s
                    (take-All Ready limit
                      (sort_by (due_first digest hash_of rejects)
                        (select (expired digest hash_of rejects s now) s.tasks.entries))
                      (sort_by-All (due_first digest hash_of rejects) Ready
                        (select (expired digest hash_of rejects s now) s.tasks.entries)
                        (All-imp (λ e h. (h.0, unassigned s now e h.1))
                          (select (expired digest hash_of rejects s now) s.tasks.entries)
                          (select-All_both IsFiled (expired digest hash_of rejects s now)
                            s.tasks.entries f))))
                    a (unchanged s s refl refl refl f a))
          ]
  ]
    where
      Ready : String × ArenaTaskRecord → Type 0
      Ready e = IsFiled e × (Dict.get s.result_by_task e.1.task.task_id ≡ none)

  apply-Keeps :
      (op : Op) (s : ArenaCore)
      → All IsFiled s.tasks.entries
      → Authored digest hash_of rejects s
      → Keeps s (apply digest hash_of rejects op s)
  unfolding apply
  apply-Keeps (submits r replaced policy now) s f a =
      submit_result-Keeps r replaced policy now s f a
  apply-Keeps (finalizes limit now) s f a = finalize_expired-Keeps limit now s f a

  -- The facts that the calls rely on, after any of them.
  pub run-Authored :
      (ops : List Op) (s : ArenaCore)
      → All IsFiled s.tasks.entries
      → Authored digest hash_of rejects s
      → All IsFiled (run digest hash_of rejects ops s).tasks.entries
        × Authored digest hash_of rejects (run digest hash_of rejects ops s)
  unfolding run
  run-Authored [] s f a = (f, a)
  run-Authored (op ∷ ops) s f a =
      let k = apply-Keeps op s f a in
      run-Authored ops (apply digest hash_of rejects op s) k.filed k.authored

  -- When every task is stored under its own id, every authoritative id is that of its task's time-out or
  -- of an accepted result, and the digests of different texts differ: a task that has an authoritative
  -- result keeps it, and the record that is stored for it is the same, through any submissions and
  -- finalizations, whatever they return or raise.
  pub run-once :
      (ops : List Op) (s : ArenaCore) (t id : String) (r : ArenaResultRecord)
      → All IsFiled s.tasks.entries
      → Authored digest hash_of rejects s
      → Dict.get s.result_by_task t ≡ some id
      → Dict.get s.results id ≡ some r
      → (Dict.get (run digest hash_of rejects ops s).result_by_task t ≡ some id)
        × (Dict.get (run digest hash_of rejects ops s).results id ≡ some r)
  unfolding run
  run-once [] s t id r f a h there = (h, there)
  run-once (op ∷ ops) s t id r f a h there =
      let k = apply-Keeps op s f a in
      run-once ops (apply digest hash_of rejects op s) t id r k.filed k.authored (k.kept t id h)
        (k.recorded t id r h there)
