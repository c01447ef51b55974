-- ===== src/Saga.antt =====
-- `executeSaga` and `compensate` of src/common/services/saga.service.ts. What the steps work on is any
-- type, and an action or a compensation says what it leaves behind and whether it fails; one that
-- exceeds the timeout is one that fails, and what it still does afterwards is not modelled.
pub mod Rollback
mod Tests
use peerx_backend.Common.{
  Option, none, some, List, [], ◌∷◌, ◌++◌, String, Bool, true, false, text_keys,
}
use peerx_backend.Common.JsMap.{JsMap, get, set}
use peerx_backend.Common.Outcome.{Outcome, throws, returns}

-- `stepResults.get(name)` may be undefined.
pub record SagaStep {ℓ} (W : Type ℓ) (E : Type ℓ) (R : Type ℓ) : Type ℓ where
  pub name : String
  pub action : W → W × Outcome E R
  pub compensation : Option (Option R → W → W × Outcome E (Unit {0}))

-- Times and the number of steps are left out.
pub record SagaResult {ℓ} (E : Type ℓ) : Type ℓ where
  pub success : Bool
  pub completed_steps : List String
  pub failed_step : Option String
  pub error : Option E
  pub compensated_steps : List String

abbrev pub note_if {ℓ} : {E : Type ℓ} → Outcome E (Unit {0}) → String → List String → List String
note_if (returns u) name names = name ∷ names
note_if (throws e) name names = names

module _ {ℓ} {W E R : Type ℓ} where
  -- Over the completed steps, the latest first; a compensation that fails does not stop the others.
  unfoldable pub compensate : JsMap String R → List (SagaStep W E R) → W → W × List String
  compensate results [] w = (w, [])
  compensate results (s ∷ done) w = elim s.compensation [
    | none ↦ compensate results done w
    | some undo ↦
        let (undone, outcome) = undo (get s.name results) w in
        let (end, names) = compensate results done undone in (end, note_if outcome s.name names)
  ]

  -- `completed` are the names of the steps done, in order; `done` the steps, the latest first.
  unfoldable pub execute_from :
      JsMap String R
      → List String
      → List (SagaStep W E R)
      → List (SagaStep W E R)
      → W
      → W × SagaResult E
  execute_from results completed done [] w = (
    w,
    record {
      success = true;
      completed_steps = completed;
      failed_step = none;
      error = none;
      compensated_steps = [];
    },
  )
  execute_from results completed done (s ∷ steps) w = elim (s.action w).1 [
    | returns r ↦
        execute_from (set s.name r results) (completed ++ s.name ∷ []) (s ∷ done) steps
          (s.action w).0
    | throws e ↦
        let (end, names) = compensate results done (s.action w).0 in
        (
          end,
          record {
            success = false;
            completed_steps = completed;
            failed_step = some s.name;
            error = some e;
            compensated_steps = names;
          },
        )
  ]

  unfoldable pub execute_saga : List (SagaStep W E R) → W → W × SagaResult E
  execute_saga steps w = execute_from [] [] [] steps w
