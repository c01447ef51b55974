-- ===== src/Messages/Ordering/Ascending.antt =====
-- The order of the messages in a partition of src/queue/message-ordering.service.ts: adding, removing
-- and sorting.
use peerx_backend.Common.{
  ℕ, ◌+◌, ◌≤◌, ◌<◌, ◌≡◌, refl, some, List, [], ◌∷◌, ◌++◌, String, arith, ◌==◌, text_keys, nat_keys,
  Bool-cases, Option-cases, subst, inl, inr,
}
use peerx_backend.Messages.Ordering.{Message, sort_messages, remove_first}

module _ {ℓ} {D : Type ℓ} where
  -- Sequence numbers rise strictly, from above one bound and up to another.
  abbrev pub Ascending : ℕ → List (Message D) → ℕ → Type 0
  Ascending low [] high = low ≤ high
  Ascending low (m ∷ ms) high = (low < m.sequence_number) × Ascending m.sequence_number ms high

  pub Ascending-append :
      (low : ℕ) (ms : List (Message D)) (high : ℕ) (m : Message D)
      → Ascending low ms high
      → m.sequence_number ≡ high + 1
      → Ascending low (ms ++ m ∷ []) m.sequence_number
  Ascending-append low [] high m a e = (omega arith, omega arith)
  Ascending-append low (x ∷ xs) high m a e =
      (a.0, Ascending-append x.sequence_number xs high m a.1 e)

  Ascending-lower :
      (low lower : ℕ) (ms : List (Message D)) (high : ℕ)
      → lower ≤ low
      → Ascending low ms high
      → Ascending lower ms high
  Ascending-lower low lower [] high h a = omega arith
  Ascending-lower low lower (m ∷ ms) high h a = (omega (arith, a.0), a.1)

  pub sort_of_Ascending :
      (low : ℕ) (ms : List (Message D)) (high : ℕ) → Ascending low ms high → sort_messages ms ≡ ms
  sort_of_Ascending low [] high a = refl
  sort_of_Ascending low (m ∷ []) high a = refl
  sort_of_Ascending low (m ∷ n ∷ ms) high a =
      rw (sort_of_Ascending m.sequence_number (n ∷ ms) high a.1) (ground (arith, a.1.0))

  pub remove_first-Ascending :
      (message : String) (low : ℕ) (ms rest : List (Message D)) (high : ℕ)
      → remove_first message ms ≡ some rest
      → Ascending low ms high
      → Ascending low rest high
  remove_first-Ascending message low [] rest high e a = cc
  remove_first-Ascending message low (m ∷ ms) rest high e a =
      elim (Bool-cases (m.message_id == message)) [
        | inl h ↦
            let same : ms ≡ rest = ground arith in
            subst (λ r. Ascending low r high) same
              (Ascending-lower m.sequence_number low ms high (omega (arith, a.0)) a.1)
        | inr h ↦ elim (Option-cases (remove_first message ms)) [
          | inl none_left ↦ ground arith
          | inr (r, left) ↦
              let same : m ∷ r ≡ rest = ground arith in
              subst (λ q. Ascending low q high) same
                (a.0, remove_first-Ascending message m.sequence_number ms r high left a.1)
        ]
      ]
