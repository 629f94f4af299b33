-- ===== src/Core/Results/Tests.antt =====
-- A task whose result comes in time, and later calls.
use adx_agentic_payment.Base.{
  ℕ, String, string_eq, Bool, true, false, none, some, List, [], ◌∷◌, ◌≡◌, refl, All,
}
use adx_agentic_payment.Base.Dict
use adx_agentic_payment.Payments.Models.{Datetime}
use adx_agentic_payment.Core.Results.{
  TaskStatus, RuntimeStatus, AgentTaskResult, ArenaTaskRecord, ArenaCore, ArenaResultRecord,
  accepted_record, submit_result,
}
use adx_agentic_payment.Core.Results.Once.{
  IsFiled, Op, submits, finalizes, apply, run, run-Authored, run-once,
}
use adx_agentic_payment.Core.Results.Ids.{Authored}

abbrev at : ℕ → Datetime
at n = record { instant = n; aware = true }

abbrev queued_task : ArenaTaskRecord
queued_task = record {
  task = record { task_id = "t"; deadline_at = at 5 };
  status = TaskStatus.queued;
  created_at = at 1;
  leased_by = none;
  lease_expires_at = none;
  completed_at = none;
}

abbrev core : ArenaCore
core = record {
  tasks = record { entries = ("t", queued_task) ∷ [] };
  results = Dict.empty;
  result_by_task = Dict.empty;
  events = [];
}

abbrev answer : String → AgentTaskResult
answer id = record {
  result_id = id;
  task_id = "t";
  status = RuntimeStatus.succeeded;
  action = some "pass";
}

abbrev same_text : String → String
same_text s = s

abbrev hash_of : AgentTaskResult → String
hash_of r = elim r.action [ none ↦ r.result_id | some a ↦ a ]

abbrev rejects_none : AgentTaskResult → Bool
rejects_none r = false

abbrev answered : ArenaCore
answered = run same_text hash_of rejects_none (submits (answer "r1") false none (at 2) ∷ []) core

abbrev later : List Op
later =
    submits (answer "r2") false none (at 3)
    ∷ submits (record (answer "r1") { action = some "fold" }) false none (at 4)
    ∷ finalizes 9 (at 8)
    ∷ []

answered_first : Dict.get answered.result_by_task "t" ≡ some "runtime:r1"
unfolding run apply submit_result Dict.get Dict.put Dict.find_in
answered_first = refl

-- The record of the first answer.
abbrev first_record : ArenaResultRecord
first_record = accepted_record same_text hash_of rejects_none (answer "r1") false none (at 2)

first_recorded : Dict.get answered.results "runtime:r1" ≡ some first_record
unfolding run apply submit_result Dict.get Dict.put Dict.find_in
first_recorded = refl

-- The facts hold of the repository without results, and so after the first answer.
answered_facts :
    All IsFiled answered.tasks.entries × Authored same_text hash_of rejects_none answered
answered_facts =
    run-Authored same_text hash_of rejects_none (λ x y e. e)
      (submits (answer "r1") false none (at 2) ∷ []) core (refl, tt)
      (λ t id h. cc (Dict.get-empty {V = String} t, h))

run-once_example :
    (Dict.get (run same_text hash_of rejects_none later answered).result_by_task "t"
      ≡ some "runtime:r1")
    × (Dict.get (run same_text hash_of rejects_none later answered).results "runtime:r1"
        ≡ some first_record)
run-once_example =
    run-once same_text hash_of rejects_none (λ x y e. e) later answered "t" "runtime:r1"
      first_record answered_facts.0 answered_facts.1 answered_first first_recorded
