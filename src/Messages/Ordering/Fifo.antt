-- ===== src/Messages/Ordering/Fifo.antt =====
-- src/queue/message-ordering.service.ts as queues: sequences of calls, and what a call shows of each
-- partition.
use mathlib.Core.Option.{some-injective}
use peerx_backend.Common.{
  ℕ, ◌+◌, ◌≤◌, ◌≡◌, ◌≢◌, refl, ◌∙◌, Bool, true, Option, none, some, List, [], ◌∷◌, ◌++◌, String,
  arith, text_keys, nat_keys, Option-cases, subst, inl, inr, All,
}
use peerx_backend.Common.JsMap.{JsMap, get, set, get-set_self, get-set_ne}
use peerx_backend.Messages.Ordering.{
  Message, Partition, Ordering, or_zero, get_partition_id, new_partition, with_message,
  increment_sequence, add_to, add_message, remove_message, mark_partition_processing,
  get_next_message, head_of, clear_partition, cleanup_empty_partitions,
}
use peerx_backend.Messages.Ordering.Ascending.{Ascending, Ascending-append, sort_of_Ascending}
use peerx_backend.Messages.Ordering.Invariant.{
  held, IsOrdered, add_message-IsOrdered, remove_message-IsOrdered,
  mark_partition_processing-IsOrdered, clear_partition-IsOrdered,
  cleanup_empty_partitions-IsOrdered,
}

module _ {ℓ} {D : Type ℓ} where
  pub data Step (s : Ordering D) : Ordering D → Type ℓ where
    adds :
        (now : ℕ) (queue key message : String) (payload : D)
        → Step s (add_message now queue key message payload s).0
    removes : (queue key message : String) → Step s (remove_message queue key message s).0
    marks :
        (now : ℕ) (queue key : String) (processing : Bool)
        → Step s (mark_partition_processing now queue key processing s)
    clears : (queue key : String) → Step s (clear_partition queue key s).0
    cleans : Step s (cleanup_empty_partitions s).0
    configures : (enabled : Bool) → Step s (record s { enabled = enabled })

  -- The states that calls lead to from a new service.
  pub data IsReached : Ordering D → Type ℓ where
    begins :
        (enabled : Bool)
        → IsReached record { enabled = enabled; partitions = []; sequence_numbers = [] }
    follows : {s t : Ordering D} → IsReached s → Step s t → IsReached t

  Step-IsOrdered : {s t : Ordering D} → Step s t → IsOrdered s → IsOrdered t
  Step-IsOrdered {s} (adds now queue key message payload) o =
      add_message-IsOrdered now queue key message payload s o
  Step-IsOrdered {s} (removes queue key message) o = remove_message-IsOrdered queue key message s o
  Step-IsOrdered {s} (marks now queue key processing) o =
      mark_partition_processing-IsOrdered now queue key processing s o
  Step-IsOrdered {s} (clears queue key) o = clear_partition-IsOrdered queue key s o
  Step-IsOrdered {s} cleans o = cleanup_empty_partitions-IsOrdered s o
  Step-IsOrdered (configures enabled) o = record { ordered = o.ordered }

  IsReached-IsOrdered : (s : Ordering D) → IsReached s → IsOrdered s
  unfolding get
  IsReached-IsOrdered s (begins enabled) = record { ordered = λ id. omega arith }
  IsReached-IsOrdered s (follows r step) = Step-IsOrdered step (IsReached-IsOrdered _ r)

  -- What a queue and key hold.
  abbrev pub queued : String → Ordering D → List (Message D)
  queued id s = held (get id s.partitions)

  -- A new message is behind the others of its partition, and the other partitions and their counters
  -- are the same.
  pub record IsAppended (now : ℕ) (id message : String) (payload : D) (s : Ordering D)
      (result : Ordering D × ℕ) : Type ℓ where
    pub appended :
        queued id result.0
        ≡ queued id s
          ++ (record {
            message_id = message;
            payload = payload;
            timestamp = now;
            sequence_number = result.1;
          })
            ∷ []
    pub others : (j : String) → id ≢ j → get j result.0.partitions ≡ get j s.partitions
    pub counters :
        (j : String) → id ≢ j → get j result.0.sequence_numbers ≡ get j s.sequence_numbers

  add_to-IsAppended :
      (now : ℕ) (id message : String) (payload : D) (p : Partition D) (numbers : JsMap String ℕ)
      (s : Ordering D)
      → queued id s ≡ p.messages
      → ((j : String) → id ≢ j → get j numbers ≡ get j s.sequence_numbers)
      → Ascending 0 p.messages (or_zero (get id numbers))
      → IsAppended now id message payload s (add_to now id message payload p numbers s)
  unfolding increment_sequence
  add_to-IsAppended now id message payload p numbers s same other a =
      let next = or_zero (get id numbers) + 1 in
      let m : Message D = record {
        message_id = message;
        payload = payload;
        timestamp = now;
        sequence_number = next;
      } in
      let longer = Ascending-append 0 p.messages (or_zero (get id numbers)) m a refl in
      record {
        appended =
            rw
              (
                get-set_self id (with_message p m) s.partitions,
                sort_of_Ascending 0 (p.messages ++ m ∷ []) next longer,
                same,
              )
              refl;
        others = λ j apart. get-set_ne id j (with_message p m) s.partitions apart;
        counters = λ j apart. get-set_ne id j next numbers apart ∙ other j apart;
      }

  -- In every state that calls lead to, `addMessage` with ordering enabled puts the message, under the
  -- number it returns, behind all those of its partition, and leaves the row and the counter of every
  -- other partition as they are.
  pub add_message-IsAppended :
      (now : ℕ) (queue key message : String) (payload : D) (s : Ordering D)
      → IsReached s
      → s.enabled ≡ true
      → IsAppended now
          (get_partition_id queue key)
          message
          payload
          s
          (add_message now queue key message payload s)
  unfolding add_message
  add_message-IsAppended now queue key message payload s r on =
      let id = get_partition_id queue key in
      let o = IsReached-IsOrdered s r in
      elim (Option-cases (get id s.partitions)) [
        | inl missing ↦
            let numbers = set id 0 s.sequence_numbers in
            let p : Partition D = new_partition queue key in
            let same : add_to now id message payload p numbers s
                ≡ add_message now queue key message payload s =
              ground arith in
            subst (IsAppended now id message payload s) same (
              add_to-IsAppended now id message payload p numbers s (rw missing refl)
                (λ j apart. get-set_ne id j 0 s.sequence_numbers apart)
                (rw (get-set_self id 0 s.sequence_numbers) (omega arith)))
        | inr (p, found) ↦
            let numbers = s.sequence_numbers in
            let same : add_to now id message payload p numbers s
                ≡ add_message now queue key message payload s =
              ground arith in
            subst (IsAppended now id message payload s) same (
              add_to-IsAppended now id message payload p numbers s (rw found refl) (λ j apart. refl)
                (subst (λ e. Ascending 0 (held e) (or_zero (get id numbers))) found (o.ordered id)))
      ]

  Ascending-AllAbove :
      (n low : ℕ) (ms : List (Message D)) (high : ℕ)
      → n ≤ low
      → Ascending low ms high
      → All (λ m. n ≤ m.sequence_number) ms
  Ascending-AllAbove n low [] high h a = tt
  Ascending-AllAbove n low (m ∷ ms) high h a =
      (omega (arith, a.0), Ascending-AllAbove n m.sequence_number ms high (omega (arith, a.0)) a.1)

  first_of : List (Message D) → Option (Message D)
  first_of [] = none
  first_of (m ∷ ms) = some m

  first_of-AllAbove :
      (ms : List (Message D)) (high : ℕ) (m : Message D)
      → first_of ms ≡ some m
      → Ascending 0 ms high
      → All (λ x. m.sequence_number ≤ x.sequence_number) ms
  unfolding first_of
  first_of-AllAbove [] high m e a = cc
  first_of-AllAbove (x ∷ xs) high m e a =
      let same : x ≡ m = some-injective x m e in
      subst (λ y. All (λ z. y.sequence_number ≤ z.sequence_number) (x ∷ xs)) same
        (
          omega arith,
          Ascending-AllAbove x.sequence_number x.sequence_number xs high (omega arith) a.1,
        )

  head_of-first_of :
      (p : Partition D) (m : Message D) → head_of p ≡ some m → first_of p.messages ≡ some m
  unfolding first_of
  head_of-first_of p m e = ground arith

  -- In every state that calls lead to, the message that `getNextMessage` returns has the lowest
  -- sequence number of its partition.
  pub get_next_message-AllAbove :
      (queue key : String) (s : Ordering D) (m : Message D)
      → IsReached s
      → get_next_message queue key s ≡ some m
      → All (λ x. m.sequence_number ≤ x.sequence_number) (queued (get_partition_id queue key) s)
  unfolding get_next_message
  get_next_message-AllAbove queue key s m r e =
      let id = get_partition_id queue key in
      elim (Option-cases (get id s.partitions)) [
        | inl missing ↦ rw missing tt
        | inr (p, found) ↦ rw found (
            first_of-AllAbove p.messages (or_zero (get id s.sequence_numbers)) m
              (head_of-first_of p m (ground arith))
              (subst (λ o. Ascending 0 (held o) (or_zero (get id s.sequence_numbers))) found
                ((IsReached-IsOrdered s r).ordered id)))
      ]
