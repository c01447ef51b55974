-- ===== src/Messages/Ordering/Invariant.antt =====
-- The operations of src/queue/message-ordering.service.ts keep every partition in the order of its
-- sequence numbers and below its counter.
use peerx_backend.Common.{
  ℕ, ◌+◌, ◌≡◌, ◌≢◌, refl, Bool, Option, none, some, List, [], ◌∷◌, ◌++◌, String, arith, ◌==◌,
  text_keys, nat_keys, Bool-cases, Option-cases, subst, inl, inr, if_both, ne_of_same,
}
use peerx_backend.Common.JsMap.{
  JsMap, get, set, delete, get-set_self, get-set_ne, get-delete_self, get-delete_ne,
}
use peerx_backend.Messages.Ordering.{
  Message, Partition, Ordering, or_zero, get_partition_id, new_partition, with_message,
  increment_sequence, add_to, add_message, remove_first, remove_message, mark_partition_processing,
  clear_partition, drop_partition, cleanup_from, cleanup_empty_partitions, is_idle,
}
use peerx_backend.Messages.Ordering.Ascending.{
  Ascending, Ascending-append, sort_of_Ascending, remove_first-Ascending,
}

module _ {ℓ} {D : Type ℓ} where
  abbrev pub held : Option (Partition D) → List (Message D)
  held none = []
  held (some p) = p.messages

  -- Every partition, and an empty one where there is none, is ascending up to its counter.
  pub record IsOrdered (s : Ordering D) : Type 0 where
    pub ordered :
        (id : String)
        → Ascending 0 (held (get id s.partitions)) (or_zero (get id s.sequence_numbers))

  -- A partition and the counters are written; the other counters stay.
  written-IsOrdered :
      (id : String) (p : Partition D) (numbers : JsMap String ℕ) (s : Ordering D)
      → ((j : String) → id ≢ j → get j numbers ≡ get j s.sequence_numbers)
      → IsOrdered s
      → Ascending 0 p.messages (or_zero (get id numbers))
      → IsOrdered record s { partitions = set id p s.partitions; sequence_numbers = numbers }
  written-IsOrdered id p numbers s others o a = record {
    ordered = λ j. elim (Bool-cases (id == j)) [
      | inl h ↦
          let same : id ≡ j = (text_keys.same_iff id j).0 h in
          subst (λ k. Ascending 0 (held (get k (set id p s.partitions))) (or_zero (get k numbers)))
            same (rw (get-set_self id p s.partitions) a)
      | inr h ↦
          let apart = ne_of_same id j h in
          rw (get-set_ne id j p s.partitions apart, others j apart) (o.ordered j)
    ];
  }

  add_to-IsOrdered :
      (now : ℕ) (id message : String) (payload : D) (p : Partition D) (numbers : JsMap String ℕ)
      (s : Ordering D)
      → ((j : String) → id ≢ j → get j numbers ≡ get j s.sequence_numbers)
      → IsOrdered s
      → Ascending 0 p.messages (or_zero (get id numbers))
      → IsOrdered (add_to now id message payload p numbers s).0
  unfolding increment_sequence
  add_to-IsOrdered now id message payload p numbers s others o a =
      let next = or_zero (get id numbers) + 1 in
      let m : Message D = record {
        message_id = message;
        payload = payload;
        timestamp = now;
        sequence_number = next;
      } in
      let longer = Ascending-append 0 p.messages (or_zero (get id numbers)) m a refl in
      written-IsOrdered id (with_message p m) (set id next numbers) s
        (λ j apart. rw (get-set_ne id j next numbers apart) (others j apart)) o
        (rw (get-set_self id next numbers, sort_of_Ascending 0 (p.messages ++ m ∷ []) next longer)
          longer)

  pub add_message-IsOrdered :
      (now : ℕ) (queue key message : String) (payload : D) (s : Ordering D)
      → IsOrdered s
      → IsOrdered (add_message now queue key message payload s).0
  unfolding add_message
  add_message-IsOrdered now queue key message payload s o =
      let id = get_partition_id queue key in
      if_both (λ (r : Ordering D × ℕ). IsOrdered r.0) s.enabled
        (elim (Option-cases (get id s.partitions)) [
          | inl missing ↦ rw missing (
              add_to-IsOrdered now id message payload (new_partition queue key)
                (set id 0 s.sequence_numbers) s
                (λ j apart. get-set_ne id j 0 s.sequence_numbers apart) o
                (rw (get-set_self id 0 s.sequence_numbers) (omega arith)))
          | inr (p, found) ↦ rw found (
              add_to-IsOrdered now id message payload p s.sequence_numbers s (λ j apart. refl) o
                (subst (λ e. Ascending 0 (held e) (or_zero (get id s.sequence_numbers))) found
                  (o.ordered id)))
        ])
        o

  -- An operation that writes back the partition it has found, with messages that are as well ordered.
  rewritten-IsOrdered :
      (id : String) (p q : Partition D) (s : Ordering D)
      → get id s.partitions ≡ some p
      → ((high : ℕ) → Ascending 0 p.messages high → Ascending 0 q.messages high)
      → IsOrdered s
      → IsOrdered record s { partitions = set id q s.partitions }
  rewritten-IsOrdered id p q s found k o =
      written-IsOrdered id q s.sequence_numbers s (λ j apart. refl) o
        (k (or_zero (get id s.sequence_numbers)) (
          subst (λ e. Ascending 0 (held e) (or_zero (get id s.sequence_numbers))) found
            (o.ordered id)))

  pub remove_message-IsOrdered :
      (queue key message : String) (s : Ordering D)
      → IsOrdered s
      → IsOrdered (remove_message queue key message s).0
  unfolding remove_message
  remove_message-IsOrdered queue key message s o =
      let id = get_partition_id queue key in
      elim (Option-cases (get id s.partitions)) [
        | inl missing ↦ rw (remove_message, missing) o
        | inr (p, found) ↦ elim (Option-cases (remove_first message p.messages)) [
          | inl missing ↦ rw (remove_message, found, missing) o
          | inr (rest, left) ↦
              rw (remove_message, found, left)
                (rewritten-IsOrdered id p (record p { messages = rest }) s found
                  (λ high a. remove_first-Ascending message 0 p.messages rest high left a) o)
        ]
      ]

  pub mark_partition_processing-IsOrdered :
      (now : ℕ) (queue key : String) (processing : Bool) (s : Ordering D)
      → IsOrdered s
      → IsOrdered (mark_partition_processing now queue key processing s)
  unfolding mark_partition_processing
  mark_partition_processing-IsOrdered now queue key processing s o =
      elim (Option-cases (get (get_partition_id queue key) s.partitions)) [
        | inl missing ↦ rw (mark_partition_processing, missing) o
        | inr (p, found) ↦
            rw (mark_partition_processing, found)
              (rewritten-IsOrdered _ p _ s found (λ high a. a) o)
      ]

  pub clear_partition-IsOrdered :
      (queue key : String) (s : Ordering D)
      → IsOrdered s
      → IsOrdered (clear_partition queue key s).0
  unfolding clear_partition
  clear_partition-IsOrdered queue key s o =
      let id = get_partition_id queue key in
      elim (Option-cases (get id s.partitions)) [
        | inl missing ↦ rw (clear_partition, missing) o
        | inr (p, found) ↦
            rw (clear_partition, found)
              (written-IsOrdered id (record p { messages = [] }) (set id 0 s.sequence_numbers) s
                (λ j apart. get-set_ne id j 0 s.sequence_numbers apart) o (omega arith))
      ]

  drop_partition-IsOrdered :
      (id : String) (s : Ordering D) → IsOrdered s → IsOrdered (drop_partition id s)
  unfolding drop_partition
  drop_partition-IsOrdered id s o = record {
    ordered = λ j. elim (Bool-cases (id == j)) [
      | inl h ↦
          let same : id ≡ j = (text_keys.same_iff id j).0 h in
          subst
            (λ k.
              Ascending 0 (held (get k (delete id s.partitions)))
                (or_zero (get k (delete id s.sequence_numbers))))
            same (rw (get-delete_self id s.partitions) (omega arith))
      | inr h ↦
          let apart = ne_of_same id j h in
          rw (get-delete_ne id j s.partitions apart, get-delete_ne id j s.sequence_numbers apart)
            (o.ordered j)
    ];
  }

  cleanup_from-IsOrdered :
      (entries : JsMap String (Partition D)) (s : Ordering D)
      → IsOrdered s
      → IsOrdered (cleanup_from entries s).0
  unfolding cleanup_from
  cleanup_from-IsOrdered [] s o = o
  cleanup_from-IsOrdered ((id, p) ∷ rest) s o = elim (Bool-cases (is_idle p)) [
    | inl h ↦
        rw h (cleanup_from-IsOrdered rest (drop_partition id s) (drop_partition-IsOrdered id s o))
    | inr h ↦ rw h (cleanup_from-IsOrdered rest s o)
  ]

  pub cleanup_empty_partitions-IsOrdered :
      (s : Ordering D) → IsOrdered s → IsOrdered (cleanup_empty_partitions s).0
  unfolding cleanup_empty_partitions
  cleanup_empty_partitions-IsOrdered s o = cleanup_from-IsOrdered s.partitions s o
