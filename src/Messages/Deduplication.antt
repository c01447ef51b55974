-- ===== src/Messages/Deduplication.antt =====
-- src/queue/message-deduplication.service.ts, with `DeduplicationEntry` of
-- src/queue/horizontal-scaling.config.ts. The digest of a payload and `Math.ceil(n * 0.1)`, which is
-- computed in floating point, are parameters.
pub mod Tables
pub mod Bound
use peerx_backend.Common.{
  ℕ, zero, suc, ◌+◌, Bool, true, false, not, ◌&&◌, ◌||◌, Option, none, some, List, [], ◌∷◌, String,
  if◌then◌else◌, leb, ltb, ◌==◌, text_keys, length, any,
}
use peerx_backend.Common.JsMap.{JsMap, get, set, delete}

pub record DeduplicationEntry : Type 0 where
  pub message_id : String
  pub fingerprint : String
  pub timestamp : ℕ
  pub expires_at : ℕ

pub record Deduplication : Type 0 where
  pub enabled : Bool
  pub window_ms : ℕ
  pub max_deduplication_entries : ℕ
  pub deduplication_cache : JsMap String DeduplicationEntry
  pub message_fingerprints : JsMap String String

abbrev pub known_as : String → Option String → Bool
known_as print none = false
known_as print (some old) = not (old == "") && old == print

unfoldable pub is_duplicate {ℓ} : {D : Type ℓ} → (D → String) → String → D → Deduplication → Bool
is_duplicate generate_fingerprint message payload s =
    let print = generate_fingerprint payload in
    s.enabled
    && (known_as print (get message s.message_fingerprints)
        || any (λ e. e.1 == print && not (e.0 == message)) s.message_fingerprints)

unfoldable pub unregister_message : String → Deduplication → Deduplication
unregister_message message s = record s {
  deduplication_cache = delete message s.deduplication_cache;
  message_fingerprints = delete message s.message_fingerprints;
}

-- `entries.sort((a, b) => a[1].timestamp - b[1].timestamp)`, which is stable.
unfoldable pub insert_entry :
    String × DeduplicationEntry → JsMap String DeduplicationEntry → JsMap String DeduplicationEntry
insert_entry e [] = e ∷ []
insert_entry e (f ∷ fs) =
    if leb e.1.timestamp f.1.timestamp then e ∷ f ∷ fs else f ∷ insert_entry e fs

unfoldable pub by_age : JsMap String DeduplicationEntry → JsMap String DeduplicationEntry
by_age [] = []
by_age (e ∷ es) = insert_entry e (by_age es)

-- The loop over the first `removeCount` entries.
unfoldable pub remove_entries : ℕ → JsMap String DeduplicationEntry → Deduplication → Deduplication
remove_entries zero es s = s
remove_entries (suc n) [] s = s
remove_entries (suc n) (e ∷ es) s = remove_entries n es (unregister_message e.0 s)

unfoldable pub cleanup_oldest_entries : (ℕ → ℕ) → Deduplication → Deduplication
cleanup_oldest_entries tenth s =
    remove_entries (tenth (length s.deduplication_cache)) (by_age s.deduplication_cache) s

abbrev pub stored : ℕ → String → String → Deduplication → Deduplication
stored now message print s = record s {
  deduplication_cache =
      set message
        (record {
          message_id = message;
          fingerprint = print;
          timestamp = now;
          expires_at = now + s.window_ms;
        })
        s.deduplication_cache;
  message_fingerprints = set message print s.message_fingerprints;
}

unfoldable pub register_message {ℓ} :
    {D : Type ℓ} → (D → String) → (ℕ → ℕ) → ℕ → String → D → Deduplication → Deduplication
register_message generate_fingerprint tenth now message payload s =
    let t = stored now message (generate_fingerprint payload) s in
    if s.enabled
    then if ltb s.max_deduplication_entries (length t.deduplication_cache)
      then cleanup_oldest_entries tenth t
      else t
    else s

-- The loop deletes only the entry it stands on, so it sees the entries as they were.
unfoldable pub expire_from : ℕ → JsMap String DeduplicationEntry → Deduplication → Deduplication
expire_from now [] s = s
expire_from now (e ∷ es) s =
    expire_from now es (if leb e.1.expires_at now then unregister_message e.0 s else s)

unfoldable pub cleanup_expired_entries : ℕ → Deduplication → Deduplication
cleanup_expired_entries now s = if s.enabled then expire_from now s.deduplication_cache s else s

unfoldable pub clear_all : Deduplication → Deduplication
clear_all s = record s { deduplication_cache = []; message_fingerprints = [] }
