-- ===== src/Core/Results/Ids.antt =====
-- The ids under which results are stored: those of accepted results, and those of timed-out tasks.
use adx_agentic_payment.Base.{
  ℕ, String, Bool, string_eq, none, some, arith, ◌≡◌, ◌≢◌, ◌⊎◌, sym, ap, ◌∙◌, inl, inr,
}
use Prim.Native.String.{◌++◌ as appended}
use Prim.Native.Char.{code}
use text.Mathlib.TextLemmas.{append_cancel_left, cons-append}
use adx_agentic_payment.Base.Dict
use adx_agentic_payment.Core.Results.{ArenaCore, AgentTaskResult, default_id, internal_id}

initial_code : String → ℕ
initial_code String.[] = 0
initial_code (String.◌∷◌ c s) = code c

default-runtime : (x y : String) → appended "default:" x ≢ appended "runtime:" y
unfolding initial_code
default-runtime x y h =
    let same : 100 ≡ 114 =
      ap initial_code (sym (cons-append "d" "efault:" x) ∙ h ∙ cons-append "r" "untime:" y) in
    omega (arith, same)

module _ (digest : String → String) (hash_of : AgentTaskResult → String)
    (rejects : AgentTaskResult → Bool) where
  -- A task's authoritative id is the one of its time-out, or the id of some accepted result.
  abbrev pub Authored : ArenaCore → Type 0
  Authored s =
      (t id : String)
      → Dict.get s.result_by_task t ≡ some id
      → (id ≡ default_id digest hash_of rejects t)
        ⊎ ((r : AgentTaskResult) × (id ≡ internal_id digest hash_of rejects r))

  -- The time-out id of a task without a result is nobody's authoritative id.
  pub default_id-unused :
      (digest_injective : (x y : String) → digest x ≡ digest y → x ≡ y) (s : ArenaCore)
      (j t id : String)
      → Authored s
      → Dict.get s.result_by_task j ≡ none
      → Dict.get s.result_by_task t ≡ some id
      → default_id digest hash_of rejects j ≢ id
  default_id-unused digest_injective s j t id a fresh has same = elim (a t id has) [
    | inl timed_out ↦
        let eq : j ≡ t =
          digest_injective j t
            (append_cancel_left "default:" (digest j) (digest t) (same ∙ timed_out)) in
        cc (fresh, has, ap (Dict.get s.result_by_task) eq)
    | inr (r, accepted) ↦ default-runtime (digest j) (digest r.result_id) (same ∙ accepted)
  ]
