-- ===== src/Net/Messages/Laws.antt =====
-- The messages of src/net/mod.rs are read back from their bytes.
use coaly.Prelude.{
  ℕ, ◌+◌, ◌≤◌, ◌^◌, ◌≡◌, refl, ap, ◌∙◌, List, [], ◌∷◌, ◌++◌, append_assoc, arith, length, IsU64,
}
use coaly.Net.Outcome.{ok, panic, ◌>>=◌}
use coaly.Net.Serializable.{Serializable, bytes_u64, deserialize_u8}
use coaly.Net.Serializable.Laws.{IsLawful, slice_from-append}
use coaly.Net.Serializable.Values.{IsText, string-IsLawful, deserialize_string-panics}
use coaly.Net.Messages.Contents.{IsOriginator, IsRecordData, originator-IsLawful, data-IsLawful}
use coaly.Net.Messages.{
  Message, client_notification, record_notification, disconnect_notification, shutdown_request,
  shutdown_response, client_notif_id, record_notif_id, disconnect_notif_id, shutdown_req_id,
  shutdown_resp_id, message, message_size, serialize_message, deserialize_message, message_content,
  typed,
}

-- What can be sent.
abbrev pub IsMessage : Message → Type 0
IsMessage (client_notification o) = IsOriginator o
IsMessage (record_notification r) = IsRecordData r
IsMessage disconnect_notification = Unit {0}
IsMessage (shutdown_request k) = IsText k
IsMessage shutdown_response = Unit {0}

unfoldable pub bytes_message : Message → List ℕ
bytes_message (client_notification o) = client_notif_id ∷ originator-IsLawful.encoding o
bytes_message (record_notification r) = record_notif_id ∷ data-IsLawful.encoding r
bytes_message disconnect_notification = disconnect_notif_id ∷ []
bytes_message (shutdown_request k) = shutdown_req_id ∷ string-IsLawful.encoding k
bytes_message shutdown_response = shutdown_resp_id ∷ []

typed_appends :
    {T : Type 0} {s : Serializable T} {P : T → Type 0} (f : IsLawful s P) (id : ℕ) (v : T)
    (buffer : List ℕ)
    → P v
    → typed s id v buffer ≡ (buffer ++ id ∷ f.encoding v, 1 + s.serialized_size v)
typed_appends {s = s} f id v buffer h =
    ap (λ x. (x.0, 1 + x.1)) (f.appends v (buffer ++ id ∷ []) h)
    ∙ ap (λ l. (l, 1 + s.serialized_size v)) (append_assoc buffer (id ∷ []) (f.encoding v))

pub message_appends :
    (m : Message) (buffer : List ℕ)
    → IsMessage m
    → serialize_message m buffer ≡ (buffer ++ bytes_message m, message_size m)
unfolding serialize_message bytes_message message_size
message_appends (client_notification o) buffer h =
    typed_appends originator-IsLawful client_notif_id o buffer h
message_appends (record_notification r) buffer h =
    typed_appends data-IsLawful record_notif_id r buffer h
message_appends disconnect_notification buffer h = refl
message_appends (shutdown_request k) buffer h =
    typed_appends string-IsLawful shutdown_req_id k buffer h
message_appends shutdown_response buffer h = refl

pub message_sized : (m : Message) → IsMessage m → length (bytes_message m) ≡ message_size m
unfolding bytes_message message_size
message_sized (client_notification o) h = omega (arith, originator-IsLawful.sized o h)
message_sized (record_notification r) h = omega (arith, data-IsLawful.sized r h)
message_sized disconnect_notification h = refl
message_sized (shutdown_request k) h = omega (arith, string-IsLawful.sized k h)
message_sized shutdown_response h = refl

-- Behind its type, the content of a message decides.
pub deserialize_typed :
    (id : ℕ) (rest : List ℕ) → deserialize_message (id ∷ rest) ≡ message_content id rest
unfolding deserialize_message deserialize_u8
deserialize_typed id rest = rw (slice_from-append 1 (id ∷ []) rest refl, ◌>>=◌) refl

-- A message is read back from its bytes, whatever follows them.
pub message_reads :
    (m : Message) (rest : List ℕ)
    → IsMessage m
    → deserialize_message (bytes_message m ++ rest) ≡ ok m
unfolding bytes_message
message_reads (client_notification o) rest h =
    deserialize_typed client_notif_id (originator-IsLawful.encoding o ++ rest)
    ∙ rw (originator-IsLawful.reads o rest h, ◌>>=◌) refl
message_reads (record_notification r) rest h =
    deserialize_typed record_notif_id (data-IsLawful.encoding r ++ rest)
    ∙ rw (data-IsLawful.reads r rest h, ◌>>=◌) refl
message_reads disconnect_notification rest h = deserialize_typed disconnect_notif_id rest
message_reads (shutdown_request k) rest h =
    deserialize_typed shutdown_req_id (string-IsLawful.encoding k ++ rest)
    ∙ rw (string-IsLawful.reads k rest h, ◌>>=◌) refl
message_reads shutdown_response rest h = deserialize_typed shutdown_resp_id rest

-- Each message that the types of Rust allow is appended to a buffer in as many bytes as are
-- announced, and is read back from them, whatever follows.
pub message-IsLawful : IsLawful message IsMessage
message-IsLawful = record {
  encoding = bytes_message;
  appends = message_appends;
  sized = message_sized;
  reads = message_reads;
}

-- Reading a shutdown request whose key claims a length near the largest number panics.
pub deserialize_message-panics :
    (n : ℕ) (rest : List ℕ)
    → IsU64 n
    → 2 ^ 64 ≤ n + 8
    → deserialize_message (shutdown_req_id ∷ bytes_u64 n ++ rest) ≡ panic
deserialize_message-panics n rest h large =
    deserialize_typed shutdown_req_id (bytes_u64 n ++ rest)
    ∙ rw (deserialize_string-panics n rest h large, ◌>>=◌) refl
