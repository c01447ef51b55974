-- ===== src/Messages/Deduplication/Bound.antt =====
-- src/queue/message-deduplication.service.ts: what counts as a duplicate, and how many entries there are.
use peerx_backend.Common.{
  ℕ, zero, suc, ◌≤◌, ◌≡◌, ◌≢◌, refl, subst, true, false, not, ◌&&◌, ◌||◌, [], ◌∷◌, String, arith,
  All, All-map, if_both, leb, ltb, ◌==◌, text_keys, length, any, Bool-cases, inl, inr,
}
use peerx_backend.Common.JsMap.{
  JsMap, get, has, Distinct, length-set_le, length-delete_le, length-delete_lt,
}
use peerx_backend.Messages.Deduplication.{
  DeduplicationEntry, Deduplication, is_duplicate, known_as, unregister_message, remove_entries,
  by_age, insert_entry, cleanup_oldest_entries, stored, register_message, expire_from,
  cleanup_expired_entries, clear_all,
}
use peerx_backend.Messages.Deduplication.Tables.{
  IsReached, IsReached-IsConsistent, begins, follows, Step, registers, unregisters, expires, clears,
  configures,
}

any_others :
    (print id : String) (m : JsMap String String)
    → has id m ≡ false
    → any (λ e. e.1 == print && not (e.0 == id)) m ≡ any (λ e. e.1 == print) m
unfolding has
any_others print id [] h = refl
any_others print id ((k, v) ∷ m) h = ground (arith, any_others print id m)

known_as-any :
    (print id : String) (m : JsMap String String)
    → Distinct m
    → print ≢ ""
    → (known_as print (get id m) || any (λ e. e.1 == print && not (e.0 == id)) m)
      ≡ any (λ e. e.1 == print) m
unfolding get has
known_as-any print id [] d h = refl
known_as-any print id ((k, v) ∷ m) d h = elim (Bool-cases (k == id)) [
  | inl e ↦
      let same : k ≡ id = (text_keys.same_iff k id).0 e in
      let absent : has id m ≡ false = subst (λ j. has j m ≡ false) same d.0 in
      rw (e, any_others print id m absent)
        (ground (arith, text_keys.same_iff v print, text_keys.same_iff v ""))
  | inr e ↦ rw e (ground (arith, known_as-any print id m d.1 h))
]

-- In every state that calls lead to, with deduplication enabled: `isDuplicate` holds exactly of the
-- payloads whose fingerprint, if it is not the empty text, is in the table, under whichever message.
pub is_duplicate-any {ℓ} :
    {D : Type ℓ} (generate_fingerprint : D → String) (tenth : ℕ → ℕ) (bound : ℕ) (id : String)
    (payload : D) (s : Deduplication)
    → IsReached generate_fingerprint tenth bound s
    → s.enabled ≡ true
    → generate_fingerprint payload ≢ ""
    → is_duplicate generate_fingerprint id payload s
      ≡ any (λ e. e.1 == generate_fingerprint payload) s.message_fingerprints
unfolding is_duplicate
is_duplicate-any generate_fingerprint tenth bound id payload s r on h =
    let c = IsReached-IsConsistent generate_fingerprint tenth bound s r in
    rw (on, known_as-any (generate_fingerprint payload) id s.message_fingerprints c.distinct h) refl

-- At most `bound` entries, and a limit of at most as many.
pub record IsBounded (bound : ℕ) (s : Deduplication) : Type 0 where
  pub size : length s.deduplication_cache ≤ bound
  pub limit : s.max_deduplication_entries ≤ bound

unregister_message-IsBounded :
    (bound : ℕ) (id : String) (s : Deduplication)
    → IsBounded bound s
    → IsBounded bound (unregister_message id s)
unfolding unregister_message
unregister_message-IsBounded bound id s b = record {
  size = omega (arith, length-delete_le id s.deduplication_cache, b.size);
  limit = b.limit;
}

remove_entries-IsBounded :
    (bound n : ℕ) (es : JsMap String DeduplicationEntry) (s : Deduplication)
    → IsBounded bound s
    → IsBounded bound (remove_entries n es s)
unfolding remove_entries
remove_entries-IsBounded bound zero es s b = b
remove_entries-IsBounded bound (suc n) [] s b = b
remove_entries-IsBounded bound (suc n) (e ∷ es) s b =
    remove_entries-IsBounded bound n es (unregister_message e.0 s)
      (unregister_message-IsBounded bound e.0 s b)

expire_from-IsBounded :
    (bound now : ℕ) (es : JsMap String DeduplicationEntry) (s : Deduplication)
    → IsBounded bound s
    → IsBounded bound (expire_from now es s)
unfolding expire_from
expire_from-IsBounded bound now [] s b = b
expire_from-IsBounded bound now (e ∷ es) s b = expire_from-IsBounded bound now es _ (
    if_both (IsBounded bound) (leb e.1.expires_at now) (unregister_message-IsBounded bound e.0 s b)
      b)

insert_entry-All :
    (P : String × DeduplicationEntry → Type 0) (e : String × DeduplicationEntry)
    (es : JsMap String DeduplicationEntry)
    → P e
    → All P es
    → All P (insert_entry e es)
unfolding insert_entry
insert_entry-All P e [] p a = (p, tt)
insert_entry-All P e (f ∷ fs) p a =
    if_both (All P) (leb e.1.timestamp f.1.timestamp) (p, a) (a.0, insert_entry-All P e fs p a.1)

by_age-All :
    (P : String × DeduplicationEntry → Type 0) (es : JsMap String DeduplicationEntry)
    → All P es
    → All P (by_age es)
unfolding by_age
by_age-All P [] a = tt
by_age-All P (e ∷ es) a = insert_entry-All P e (by_age es) a.0 (by_age-All P es a.1)

length-insert_entry :
    (e : String × DeduplicationEntry) (es : JsMap String DeduplicationEntry)
    → length (insert_entry e es) ≡ suc (length es)
unfolding insert_entry
length-insert_entry e [] = refl
length-insert_entry e (f ∷ fs) = ground (arith, length-insert_entry e fs)

length-by_age : (es : JsMap String DeduplicationEntry) → length (by_age es) ≡ length es
unfolding by_age
length-by_age [] = refl
length-by_age (e ∷ es) = omega (arith, length-insert_entry e (by_age es), length-by_age es)

entries_are_in : (m : JsMap String DeduplicationEntry) → All (λ e. has e.0 m ≡ true) m
unfolding has
entries_are_in [] = tt
entries_are_in ((k, v) ∷ m) =
    (ground (arith, text_keys.same_iff k k), All-map (λ e h. ground (arith)) m (entries_are_in m))

-- Removing at least one of the entries that are there makes room for one more.
first_removed :
    (bound n : ℕ) (es : JsMap String DeduplicationEntry) (s : Deduplication)
    → 1 ≤ n
    → 1 ≤ length es
    → All (λ e. has e.0 s.deduplication_cache ≡ true) es
    → length s.deduplication_cache ≤ suc bound
    → s.max_deduplication_entries ≤ bound
    → IsBounded bound (remove_entries n es s)
unfolding remove_entries unregister_message
first_removed bound zero es s h l a k m = ground arith
first_removed bound (suc n) [] s h l a k m = ground arith
first_removed bound (suc n) (e ∷ es) s h l a k m =
    remove_entries-IsBounded bound n es (unregister_message e.0 s)
      record { size = omega (arith, length-delete_lt e.0 s.deduplication_cache a.0, k); limit = m }

module _ {ℓ} {D : Type ℓ} (generate_fingerprint : D → String) (tenth : ℕ → ℕ) (bound : ℕ)
    (some_removed : (n : ℕ) → 1 ≤ n → 1 ≤ tenth n) where
  register_message-IsBounded :
      (now : ℕ) (id : String) (payload : D) (s : Deduplication)
      → IsBounded bound s
      → IsBounded bound (register_message generate_fingerprint tenth now id payload s)
  unfolding register_message cleanup_oldest_entries
  register_message-IsBounded now id payload s b =
      let t = stored now id (generate_fingerprint payload) s in
      let m = t.deduplication_cache in
      let grown : length m ≤ suc bound =
        omega (arith, length-set_le id _ s.deduplication_cache, b.size) in
      if_both (IsBounded bound) s.enabled
        (elim (Bool-cases (ltb s.max_deduplication_entries (length m))) [
          | inl over ↦
              let present : 1 ≤ length m = ground arith in
              rw over (
                first_removed bound (tenth (length m)) (by_age m) t
                  (some_removed (length m) present) (omega (arith, length-by_age m, present))
                  (by_age-All (λ e. has e.0 m ≡ true) m (entries_are_in m)) grown b.limit)
          | inr fits ↦ rw fits record { size = ground (arith, b.limit); limit = b.limit }
        ])
        b

  Step-IsBounded :
      {s t : Deduplication}
      → Step generate_fingerprint tenth s t
      → t.max_deduplication_entries ≤ bound
      → IsBounded bound s
      → IsBounded bound t
  unfolding cleanup_expired_entries clear_all
  Step-IsBounded {s} (registers now id payload) h b = register_message-IsBounded now id payload s b
  Step-IsBounded {s} (unregisters id) h b = unregister_message-IsBounded bound id s b
  Step-IsBounded {s} (expires now) h b =
      if_both (IsBounded bound) s.enabled
        (expire_from-IsBounded bound now s.deduplication_cache s b) b
  Step-IsBounded clears h b = record { size = omega arith; limit = b.limit }
  Step-IsBounded (configures enabled window_ms most) h b = record { size = b.size; limit = h }

  -- In every state that calls lead to, changes of the configuration included, if the rounded tenth of
  -- a positive number is positive and no limit that was configured so far is above a bound: the cache
  -- has no more entries than the bound.
  pub IsReached-IsBounded :
      (s : Deduplication)
      → IsReached generate_fingerprint tenth bound s
      → length s.deduplication_cache ≤ bound
  IsReached-IsBounded s r = (bounded s r).size
    where
      bounded :
          (u : Deduplication) → IsReached generate_fingerprint tenth bound u → IsBounded bound u
      bounded u (begins enabled window_ms most within) = record {
        size = omega arith;
        limit = within;
      }
      bounded u (follows before step within) = Step-IsBounded step within (bounded _ before)
