-- ===== src/Messages/Ordering.antt =====
-- src/queue/message-ordering.service.ts, with `MessageOrderingPartition` of
-- src/queue/horizontal-scaling.config.ts. The payload of a message is any type; `enabled` is the
-- configuration's `ordering.enabled`.
pub mod Ascending
pub mod Invariant
pub mod Fifo
use peerx_backend.Common.{
  ℕ, suc, ◌+◌, Bool, true, false, not, ◌&&◌, Option, none, some, List, [], ◌∷◌, ◌++◌, String,
  if◌then◌else◌, leb, ◌==◌, nat_keys, text_keys, length, sum_of, count_if, with_colon,
}
use peerx_backend.Common.JsMap.{JsMap, get, set, delete, values}

pub record Message {ℓ} (D : Type ℓ) : Type ℓ where
  pub message_id : String
  pub payload : D
  pub timestamp : ℕ
  pub sequence_number : ℕ

pub record Partition {ℓ} (D : Type ℓ) : Type ℓ where
  pub partition_key : String
  pub queue_name : String
  pub messages : List (Message D)
  pub is_processing : Bool
  pub last_processed_at : Option ℕ

pub record Ordering {ℓ} (D : Type ℓ) : Type ℓ where
  pub enabled : Bool
  pub partitions : JsMap String (Partition D)
  pub sequence_numbers : JsMap String ℕ

abbrev pub get_partition_id : String → String → String
get_partition_id queue key = with_colon queue key

-- `sequenceNumbers.get(id) || 0`.
abbrev pub or_zero : Option ℕ → ℕ
or_zero none = 0
or_zero (some n) = n

unfoldable pub increment_sequence : String → JsMap String ℕ → JsMap String ℕ × ℕ
increment_sequence id numbers =
    let next = or_zero (get id numbers) + 1 in (set id next numbers, next)

module _ {ℓ} {D : Type ℓ} where
  -- `sort((a, b) => a.sequenceNumber - b.sequenceNumber)`, which is stable.
  abbrev pub insert_message : Message D → List (Message D) → List (Message D)
  insert_message m [] = m ∷ []
  insert_message m (x ∷ xs) =
      if leb m.sequence_number x.sequence_number then m ∷ x ∷ xs else x ∷ insert_message m xs

  abbrev pub sort_messages : List (Message D) → List (Message D)
  sort_messages [] = []
  sort_messages (m ∷ ms) = insert_message m (sort_messages ms)

  abbrev pub new_partition : String → String → Partition D
  new_partition queue key = record {
    partition_key = key;
    queue_name = queue;
    messages = [];
    is_processing = false;
    last_processed_at = none;
  }

  abbrev pub with_message : Partition D → Message D → Partition D
  with_message p m = record p { messages = sort_messages (p.messages ++ m ∷ []) }

  -- The message goes to the partition that is there, or to a new one with its counter at 0.
  abbrev pub add_to :
      ℕ → String → String → D → Partition D → JsMap String ℕ → Ordering D → Ordering D × ℕ
  add_to now id message payload p numbers s =
      let (counted, number) = increment_sequence id numbers in
      let m : Message D = record {
        message_id = message;
        payload = payload;
        timestamp = now;
        sequence_number = number;
      } in
      (
        record s {
          partitions = set id (with_message p m) s.partitions;
          sequence_numbers = counted;
        },
        number,
      )

  -- The result is the sequence number, which the source returns with the partition key it was given.
  unfoldable pub add_message : ℕ → String → String → String → D → Ordering D → Ordering D × ℕ
  add_message now queue key message payload s =
      let id = get_partition_id queue key in
      if s.enabled
      then (elim (get id s.partitions) [
        | some p ↦ add_to now id message payload p s.sequence_numbers s
        | none ↦
            add_to now id message payload (new_partition queue key) (set id 0 s.sequence_numbers) s
      ])
      else (s, 0)

  abbrev pub head_of : Partition D → Option (Message D)
  head_of p = if p.is_processing then none else elim p.messages [ [] ↦ none | m ∷ ms ↦ some m ]

  unfoldable pub get_next_message : String → String → Ordering D → Option (Message D)
  get_next_message queue key s =
      if s.enabled
      then (elim (get (get_partition_id queue key) s.partitions) [
        | none ↦ none
        | some p ↦ head_of p
      ])
      else none

  unfoldable pub mark_partition_processing : ℕ → String → String → Bool → Ordering D → Ordering D
  mark_partition_processing now queue key processing s =
      let id = get_partition_id queue key in
      elim (get id s.partitions) [
        | none ↦ s
        | some p ↦ record s {
          partitions =
              set id
                (record p {
                  is_processing = processing;
                  last_processed_at = if processing then some now else p.last_processed_at;
                })
                s.partitions;
        }
      ]

  -- `findIndex` and `splice`: the first message with the identifier goes.
  abbrev pub remove_first : String → List (Message D) → Option (List (Message D))
  remove_first message [] = none
  remove_first message (m ∷ ms) =
      if m.message_id == message
      then some ms
      else elim (remove_first message ms) [ none ↦ none | some rest ↦ some (m ∷ rest) ]

  unfoldable pub remove_message : String → String → String → Ordering D → Ordering D × Bool
  remove_message queue key message s =
      let id = get_partition_id queue key in
      elim (get id s.partitions) [
        | none ↦ (s, false)
        | some p ↦ elim (remove_first message p.messages) [
          | none ↦ (s, false)
          | some rest ↦
              (record s { partitions = set id (record p { messages = rest }) s.partitions }, true)
        ]
      ]

  unfoldable pub clear_partition : String → String → Ordering D → Ordering D × Bool
  clear_partition queue key s =
      let id = get_partition_id queue key in
      elim (get id s.partitions) [
        | none ↦ (s, false)
        | some p ↦ (
          record s {
            partitions = set id (record p { messages = [] }) s.partitions;
            sequence_numbers = set id 0 s.sequence_numbers;
          },
          true,
        )
      ]

  abbrev pub is_idle : Partition D → Bool
  is_idle p = leb (length p.messages) 0 && not p.is_processing

  unfoldable pub drop_partition : String → Ordering D → Ordering D
  drop_partition id s = record s {
    partitions = delete id s.partitions;
    sequence_numbers = delete id s.sequence_numbers;
  }

  -- The loop deletes only the entry it stands on, so it sees the entries as they were.
  unfoldable pub cleanup_from : JsMap String (Partition D) → Ordering D → Ordering D × ℕ
  cleanup_from [] s = (s, 0)
  cleanup_from ((id, p) ∷ rest) s =
      let dropped = cleanup_from rest (drop_partition id s) in
      let kept = cleanup_from rest s in if is_idle p then (dropped.0, suc dropped.1) else kept

  unfoldable pub cleanup_empty_partitions : Ordering D → Ordering D × ℕ
  cleanup_empty_partitions s = cleanup_from s.partitions s

  abbrev pub is_partition_processing : String → String → Ordering D → Bool
  is_partition_processing queue key s = elim (get (get_partition_id queue key) s.partitions) [
    | none ↦ false
    | some p ↦ p.is_processing
  ]

  abbrev pub get_partition_count : String → Ordering D → ℕ
  get_partition_count queue s = count_if (λ p. p.queue_name == queue) (values s.partitions)

  abbrev pub get_total_message_count : Ordering D → ℕ
  get_total_message_count s = sum_of (λ p. length p.messages) (values s.partitions)
