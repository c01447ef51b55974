-- ===== src/Saga/Tests.antt =====
-- Runs of src/common/services/saga.service.ts, and its theorem at a concrete input.
use peerx_backend.Common.{
  ℕ, ◌+◌, ◌-◌, ◌≡◌, refl, arith, some, List, [], ◌∷◌, String, text_keys, ne_of_same,
}
use peerx_backend.Common.JsMap.{get, set}
use peerx_backend.Common.Outcome.{throws, returns}
use peerx_backend.Saga.{SagaStep, compensate, execute_from, execute_saga}
use peerx_backend.Saga.Rollback.{IsUndone, execute_saga-rolled_back}

running : Unit {0}
unfolding compensate execute_from execute_saga get set
running = tt

-- Counting up and down again; a step that fails.
abbrev counts : String → SagaStep ℕ String ℕ
counts name = record {
  name = name;
  action = λ w. (w + 1, returns w);
  compensation = some (λ r w. (w - 1, returns tt));
}

abbrev fails : SagaStep ℕ String ℕ
fails = record {
  name = "c";
  action = λ w. (w, throws "no");
  compensation = some (λ r w. (w, returns tt));
}

abbrev saga : List (SagaStep ℕ String ℕ)
saga = counts "a" ∷ counts "b" ∷ fails ∷ []

reverse_order : (execute_saga saga 5).1.compensated_steps ≡ "b" ∷ "a" ∷ []
unfolding running
reverse_order = refl

counts-IsUndone : (name : String) → IsUndone (counts name)
counts-IsUndone name = record {
  undo = λ r w. (w - 1, returns tt);
  defined = refl;
  failing = λ w e h. cc;
  undoes = λ w r h. ground arith;
}

fails-IsUndone : IsUndone fails
fails-IsUndone = record {
  undo = λ r w. (w, returns tt);
  defined = refl;
  failing = λ w e h. refl;
  undoes = λ w r h. cc;
}

execute_saga-rolled_back_example : (execute_saga saga 5).0 ≡ 5
execute_saga-rolled_back_example =
    execute_saga-rolled_back saga 5
      (counts-IsUndone "a", (counts-IsUndone "b", (fails-IsUndone, tt)))
      (
        (ne_of_same "a" "b" refl, (ne_of_same "a" "c" refl, tt)),
        ((ne_of_same "b" "c" refl, tt), (tt, tt)),
      )
      (unfold running in refl)
