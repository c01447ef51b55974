-- ===== src/Messages/Tests.antt =====
-- Runs of src/queue/message-ordering.service.ts, message-deduplication.service.ts and
-- exponential-backoff.service.ts, and their theorems at concrete inputs.
use peerx_backend.Common.{
  ℕ, zero, suc, ◌+◌, ◌/◌, ◌≤◌, ◌≡◌, refl, arith, map, any, ◌==◌, length, ne_of_same, true, some, [],
  ◌∷◌, String, All, text_keys,
}
use peerx_backend.Common.JsMap.{get, set, delete}
use peerx_backend.Orders.Order.{Ratio}
use peerx_backend.Messages.Backoff.{
  BackoffResult, capped_delay, calculate_retry_delay, IsBounded, calculate_retry_delay-IsBounded,
}
use peerx_backend.Messages.Backoff
use peerx_backend.Messages.Ordering.{
  Message, Ordering, add_message, increment_sequence, get_next_message, get_partition_id,
  remove_message, clear_partition,
}
use peerx_backend.Messages.Ordering.Fifo.{
  IsReached as IsOrderReached, begins as starts, follows as goes_on, adds, queued, IsAppended,
  add_message-IsAppended, get_next_message-AllAbove,
}
use peerx_backend.Messages.Deduplication.{
  Deduplication, is_duplicate, register_message, unregister_message, cleanup_oldest_entries,
  remove_entries, by_age, insert_entry, cleanup_expired_entries, expire_from,
}
use peerx_backend.Messages.Deduplication.Tables.{IsReached, registers, configures}
use peerx_backend.Messages.Deduplication.Bound.{is_duplicate-any, IsReached-IsBounded}

ordering : Unit {0}
unfolding add_message increment_sequence get_next_message remove_message clear_partition get set
ordering = tt

abbrev fresh : Ordering ℕ
fresh = record { enabled = true; partitions = []; sequence_numbers = [] }

abbrev one : Ordering ℕ
one = (add_message 5 "orders" "u1" "m1" 7 fresh).0

abbrev two : Ordering ℕ
two = (add_message 6 "orders" "u1" "m2" 8 one).0

abbrev first : Message ℕ
first = record { message_id = "m1"; payload = 7; timestamp = 5; sequence_number = 1 }

first_in_first_out : get_next_message "orders" "u1" two ≡ some first
unfolding ordering
first_in_first_out = refl

next_after_removal :
    get_next_message "orders" "u1" (remove_message "orders" "u1" "m1" two).0
    ≡ some (record { message_id = "m2"; payload = 8; timestamp = 6; sequence_number = 2 })
unfolding ordering
next_after_removal = refl

-- Two queues with a colon in a name or key share a partition.
shared_partition : get_next_message "a" "b:c" (add_message 5 "a:b" "c" "m1" 7 fresh).0 ≡ some first
unfolding ordering
shared_partition = refl

two-IsReached : IsOrderReached two
two-IsReached =
    goes_on (goes_on (starts true) (adds 5 "orders" "u1" "m1" 7)) (adds 6 "orders" "u1" "m2" 8)

add_message-IsAppended_example :
    IsAppended 9
      (get_partition_id "orders" "u1")
      "m3"
      4
      two
      (add_message 9 "orders" "u1" "m3" 4 two)
add_message-IsAppended_example =
    add_message-IsAppended 9 "orders" "u1" "m3" 4 two two-IsReached (unfold ordering in refl)

get_next_message-AllAbove_example :
    All (λ m. 1 ≤ m.sequence_number) (queued (get_partition_id "orders" "u1") two)
get_next_message-AllAbove_example =
    get_next_message-AllAbove "orders" "u1" two first two-IsReached (unfold ordering in refl)

-- A digest and a rounded tenth, for the runs.
abbrev digest : ℕ → String
digest zero = "zero"
digest (suc n) = "more"

abbrev tenth_up : ℕ → ℕ
tenth_up n = (n + 9) / 10

deduplicating : Unit {0}
unfolding register_message unregister_message cleanup_oldest_entries remove_entries by_age
    insert_entry is_duplicate cleanup_expired_entries expire_from get set delete
deduplicating = tt

abbrev empty_cache : Deduplication
empty_cache = record {
  enabled = true;
  window_ms = 100;
  max_deduplication_entries = 1;
  deduplication_cache = [];
  message_fingerprints = [];
}

abbrev seen : Deduplication
seen = register_message digest tenth_up 5 "a" 0 empty_cache

abbrev replaced : Deduplication
replaced = register_message digest tenth_up 6 "b" 4 seen

-- The entry above the limit drives out the oldest one.
oldest_removed : map (λ e. e.0) replaced.deduplication_cache ≡ "b" ∷ []
unfolding deduplicating
oldest_removed = refl

-- The limit is lowered to 0 afterwards: the entry stays.
abbrev lowered : Deduplication
lowered = record replaced { max_deduplication_entries = 0 }

lowered-IsReached : IsReached digest tenth_up 1 lowered
unfolding deduplicating
lowered-IsReached =
    IsReached.follows
      (IsReached.follows
        (IsReached.follows (IsReached.begins true 100 1 (omega arith)) (registers 5 "a" 0)
          (omega arith))
        (registers 6 "b" 4) (omega arith))
      (configures true 100 0) (omega arith)

is_duplicate-any_example :
    is_duplicate digest "c" 2 lowered ≡ any (λ e. e.1 == digest 2) lowered.message_fingerprints
is_duplicate-any_example =
    is_duplicate-any digest tenth_up 1 "c" 2 lowered lowered-IsReached
      (unfold deduplicating in refl) (ne_of_same (digest 2) "" refl)

IsReached-IsBounded_example : length lowered.deduplication_cache ≤ 1
IsReached-IsBounded_example =
    IsReached-IsBounded digest tenth_up 1 (λ n h. omega (arith, h)) lowered lowered-IsReached

abbrev half : Ratio
half = record { num = 1; den = 2 }

fourth_delay : (calculate_retry_delay 3 Backoff.critical half).delay ≡ 8400
unfolding calculate_retry_delay capped_delay
fourth_delay = refl

calculate_retry_delay-IsBounded_example :
    IsBounded 2 Backoff.high (calculate_retry_delay 2 Backoff.high half)
calculate_retry_delay-IsBounded_example =
    calculate_retry_delay-IsBounded 2 Backoff.high half (omega arith) (omega arith)
