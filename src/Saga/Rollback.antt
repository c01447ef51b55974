-- ===== src/Saga/Rollback.antt =====
-- Rollback in src/common/services/saga.service.ts: a saga that fails leaves everything as it was, if
-- every step has a compensation that undoes it.
use peerx_backend.Common.{
  ◌≡◌, ◌≢◌, refl, sym, ◌∙◌, inl, inr, Option-cases, false, Option, some, List, [], ◌∷◌, ◌++◌,
  String, All, arith, text_keys,
}
use peerx_backend.Common.JsMap.{JsMap, get, set, get-set_self, get-set_ne}
use peerx_backend.Common.Outcome.{Outcome, Outcome-cases, throws, returns}
use peerx_backend.Saga.{SagaStep, compensate, execute_from, execute_saga}

module _ {ℓ} {W E R : Type ℓ} where
  -- An action that fails has no effect, and the compensation takes back one that succeeds.
  pub record IsUndone (s : SagaStep W E R) : Type ℓ where
    pub undo : Option R → W → W × Outcome E (Unit {0})
    pub defined : s.compensation ≡ some undo
    pub failing : (w : W) (e : E) → (s.action w).1 ≡ throws e → (s.action w).0 ≡ w
    pub undoes :
        (w : W) (r : R)
        → (s.action w).1 ≡ returns r
        → undo (some r) (s.action w).0 ≡ (w, returns tt)

  -- No later step has the name of an earlier one.
  abbrev pub OwnNames : List (SagaStep W E R) → Type 0
  OwnNames [] = Unit
  OwnNames (s ∷ steps) = All (λ t. s.name ≢ t.name) steps × OwnNames steps

  compensate-set :
      (results : JsMap String R) (name : String) (r : R) (done : List (SagaStep W E R)) (w : W)
      → All (λ t. name ≢ t.name) done
      → compensate (set name r results) done w ≡ compensate results done w
  unfolding compensate
  compensate-set results name r [] w a = refl
  compensate-set results name r (s ∷ done) w a = elim (Option-cases s.compensation) [
    | inl missing ↦ rw missing (compensate-set results name r done w a.1)
    | inr (undo, given) ↦
        rw
          (
            given,
            get-set_ne name s.name r results a.0,
            compensate-set results name r done (undo (get s.name results) w).0 a.1,
          )
          refl
  ]

  -- No step has the name of one that is done.
  abbrev pub AreFresh : List (SagaStep W E R) → List (SagaStep W E R) → Type 0
  AreFresh done steps = All (λ t. All (λ d. t.name ≢ d.name) done) steps

  AreFresh-cons :
      (s : SagaStep W E R) (done steps : List (SagaStep W E R))
      → All (λ t. s.name ≢ t.name) steps
      → AreFresh done steps
      → AreFresh (s ∷ done) steps
  AreFresh-cons s done [] h f = tt
  AreFresh-cons s done (t ∷ steps) h f =
      (((λ e. h.0 (sym e)), f.0), AreFresh-cons s done steps h.1 f.1)

  -- Undoing the latest step, then the ones before it.
  compensate-latest :
      (results : JsMap String R) (s : SagaStep W E R) (done : List (SagaStep W E R)) (w : W) (r : R)
      → IsUndone s
      → (s.action w).1 ≡ returns r
      → All (λ d. s.name ≢ d.name) done
      → (compensate (set s.name r results) (s ∷ done) (s.action w).0).0
        ≡ (compensate results done w).0
  unfolding compensate
  compensate-latest results s done w r u e f =
      rw
        (
          u.defined,
          get-set_self s.name r results,
          u.undoes w r e,
          compensate-set results s.name r done w f,
        )
        refl

  execute_from-rolled_back :
      (results : JsMap String R) (completed : List String) (done steps : List (SagaStep W E R))
      (w start : W)
      → All IsUndone steps
      → OwnNames steps
      → AreFresh done steps
      → (compensate results done w).0 ≡ start
      → (execute_from results completed done steps w).1.success ≡ false
      → (execute_from results completed done steps w).0 ≡ start
  unfolding execute_from
  execute_from-rolled_back results completed done [] w start u n f c h = cc
  execute_from-rolled_back results completed done (s ∷ steps) w start u n f c h =
      elim (Outcome-cases (s.action w).1) [
        | inl (r, e) ↦
            let rest =
              execute_from-rolled_back (set s.name r results) (completed ++ s.name ∷ []) (s ∷ done)
                steps (s.action w).0 start u.1 n.1 (AreFresh-cons s done steps n.0 f.1)
                (compensate-latest results s done w r u.0 e f.0 ∙ c) in
            rw (execute_from, e) (rest (ground arith))
        | inr (x, e) ↦ rw (execute_from, e, u.0.failing w x e) c
      ]

  -- A saga of steps with different names, each with a compensation that undoes its action and an
  -- action without effect where it fails, leaves everything as it was when it does not succeed.
  pub execute_saga-rolled_back :
      (steps : List (SagaStep W E R)) (w : W)
      → All IsUndone steps
      → OwnNames steps
      → (execute_saga steps w).1.success ≡ false
      → (execute_saga steps w).0 ≡ w
  unfolding execute_saga compensate
  execute_saga-rolled_back steps w u n h =
      execute_from-rolled_back [] [] [] steps w w u n (none_done steps) refl h
    where
      none_done : (ts : List (SagaStep W E R)) → AreFresh [] ts
      none_done [] = tt
      none_done (t ∷ ts) = (tt, none_done ts)
