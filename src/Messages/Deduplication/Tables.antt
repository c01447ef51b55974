-- ===== src/Messages/Deduplication/Tables.antt =====
-- The cache and the table of fingerprints of src/queue/message-deduplication.service.ts agree.
use peerx_backend.Common.{
  ℕ, ◌≤◌, zero, suc, ◌≡◌, refl, subst, Bool, Option, none, some, [], ◌∷◌, String, if_both, leb, ltb,
  ◌==◌, text_keys, length, Bool-cases, ne_of_same, inl, inr,
}
use peerx_backend.Common.JsMap.{
  JsMap, get, delete, get-set_self, get-set_ne, get-delete_self, get-delete_ne, Distinct,
  set-Distinct, delete-Distinct,
}
use peerx_backend.Messages.Deduplication.{
  DeduplicationEntry, Deduplication, unregister_message, remove_entries, by_age,
  cleanup_oldest_entries, stored, register_message, expire_from, cleanup_expired_entries, clear_all,
}

abbrev pub print_of : Option DeduplicationEntry → Option String
print_of none = none
print_of (some e) = some e.fingerprint

-- The table of fingerprints has one entry for a message, the fingerprint of its cache entry.
pub record IsConsistent (s : Deduplication) : Type 0 where
  pub agree :
      (id : String) → get id s.message_fingerprints ≡ print_of (get id s.deduplication_cache)
  pub distinct : Distinct s.message_fingerprints

pub unregister_message-IsConsistent :
    (id : String) (s : Deduplication) → IsConsistent s → IsConsistent (unregister_message id s)
unfolding unregister_message
unregister_message-IsConsistent id s c = record {
  agree = λ j. elim (Bool-cases (id == j)) [
    | inl h ↦
        subst
          (λ k.
            get k (delete id s.message_fingerprints)
            ≡ print_of (get k (delete id s.deduplication_cache)))
          ((text_keys.same_iff id j).0 h)
          (rw (get-delete_self id s.message_fingerprints, get-delete_self id s.deduplication_cache)
            refl)
    | inr h ↦
        let apart = ne_of_same id j h in
        rw
          (
            get-delete_ne id j s.message_fingerprints apart,
            get-delete_ne id j s.deduplication_cache apart,
          )
          (c.agree j)
  ];
  distinct = delete-Distinct id s.message_fingerprints c.distinct;
}

stored-IsConsistent :
    (now : ℕ) (id print : String) (s : Deduplication)
    → IsConsistent s
    → IsConsistent (stored now id print s)
stored-IsConsistent now id print s c = record {
  agree = λ j. elim (Bool-cases (id == j)) [
    | inl h ↦
        subst
          (λ k.
            get k (stored now id print s).message_fingerprints
            ≡ print_of (get k (stored now id print s).deduplication_cache))
          ((text_keys.same_iff id j).0 h)
          (rw
            (get-set_self id print s.message_fingerprints, get-set_self id _ s.deduplication_cache)
            refl)
    | inr h ↦
        let apart = ne_of_same id j h in
        rw
          (
            get-set_ne id j print s.message_fingerprints apart,
            get-set_ne id j _ s.deduplication_cache apart,
          )
          (c.agree j)
  ];
  distinct = set-Distinct id print s.message_fingerprints c.distinct;
}

remove_entries-IsConsistent :
    (n : ℕ) (es : JsMap String DeduplicationEntry) (s : Deduplication)
    → IsConsistent s
    → IsConsistent (remove_entries n es s)
unfolding remove_entries
remove_entries-IsConsistent zero es s c = c
remove_entries-IsConsistent (suc n) [] s c = c
remove_entries-IsConsistent (suc n) (e ∷ es) s c =
    remove_entries-IsConsistent n es (unregister_message e.0 s)
      (unregister_message-IsConsistent e.0 s c)

expire_from-IsConsistent :
    (now : ℕ) (es : JsMap String DeduplicationEntry) (s : Deduplication)
    → IsConsistent s
    → IsConsistent (expire_from now es s)
unfolding expire_from
expire_from-IsConsistent now [] s c = c
expire_from-IsConsistent now (e ∷ es) s c =
    expire_from-IsConsistent now es _
      (if_both IsConsistent (leb e.1.expires_at now) (unregister_message-IsConsistent e.0 s c) c)

module _ {ℓ} {D : Type ℓ} (generate_fingerprint : D → String) (tenth : ℕ → ℕ) where
  pub register_message-IsConsistent :
      (now : ℕ) (id : String) (payload : D) (s : Deduplication)
      → IsConsistent s
      → IsConsistent (register_message generate_fingerprint tenth now id payload s)
  unfolding register_message cleanup_oldest_entries
  register_message-IsConsistent now id payload s c =
      let t = stored now id (generate_fingerprint payload) s in
      let d = stored-IsConsistent now id (generate_fingerprint payload) s c in
      if_both IsConsistent s.enabled
        (if_both IsConsistent (ltb s.max_deduplication_entries (length t.deduplication_cache))
          (remove_entries-IsConsistent (tenth (length t.deduplication_cache))
            (by_age t.deduplication_cache) t d)
          d)
        c

  -- The calls of the service; `updateConfig` sets the settings.
  pub data Step (s : Deduplication) : Deduplication → Type ℓ where
    registers :
        (now : ℕ) (id : String) (payload : D)
        → Step s (register_message generate_fingerprint tenth now id payload s)
    unregisters : (id : String) → Step s (unregister_message id s)
    expires : (now : ℕ) → Step s (cleanup_expired_entries now s)
    clears : Step s (clear_all s)
    configures :
        (enabled : Bool) (window_ms most : ℕ)
        → Step s (record s {
          enabled = enabled;
          window_ms = window_ms;
          max_deduplication_entries = most;
        })

  Step-IsConsistent : {s t : Deduplication} → Step s t → IsConsistent s → IsConsistent t
  unfolding cleanup_expired_entries clear_all get
  Step-IsConsistent {s} (registers now id payload) c =
      register_message-IsConsistent now id payload s c
  Step-IsConsistent {s} (unregisters id) c = unregister_message-IsConsistent id s c
  Step-IsConsistent {s} (expires now) c =
      if_both IsConsistent s.enabled (expire_from-IsConsistent now s.deduplication_cache s c) c
  Step-IsConsistent clears c = record { agree = λ id. refl; distinct = tt }
  Step-IsConsistent (configures enabled window_ms most) c = record {
    agree = c.agree;
    distinct = c.distinct;
  }

  -- The states that calls lead to from a new service, with a bound on the limits configured.
  pub data IsReached (bound : ℕ) : Deduplication → Type ℓ where
    begins :
        (enabled : Bool) (window_ms most : ℕ)
        → most ≤ bound
        → IsReached bound record {
          enabled = enabled;
          window_ms = window_ms;
          max_deduplication_entries = most;
          deduplication_cache = [];
          message_fingerprints = [];
        }
    follows :
        {s t : Deduplication}
        → IsReached bound s
        → Step s t
        → t.max_deduplication_entries ≤ bound
        → IsReached bound t

  pub IsReached-IsConsistent : (bound : ℕ) (s : Deduplication) → IsReached bound s → IsConsistent s
  unfolding get
  IsReached-IsConsistent bound s (begins enabled window_ms most within) = record {
    agree = λ id. refl;
    distinct = tt;
  }
  IsReached-IsConsistent bound s (follows r step within) =
      Step-IsConsistent step (IsReached-IsConsistent bound _ r)
