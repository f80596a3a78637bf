-- ===== src/Net/Buffers/Frames.antt =====
-- What a send buffer of src/net/buffer.rs holds after a message was stored.
use coaly.Prelude.{
  ℕ, ◌+◌, ◌<◌, ◌^◌, ◌≡◌, refl, sym, ap, ◌∙◌, List, [], ◌∷◌, ◌++◌, append_assoc, arith, length, take,
  IsU32,
}
use coaly.Net.Serializable.{bytes_u32, bytes_u64}
use coaly.Net.Messages.{
  Message, client_notification, record_notification, disconnect_notification, shutdown_request,
  shutdown_response, message_size, serialize_message,
}
use coaly.Net.Messages.Laws.{IsMessage, bytes_message, message_appends}
use coaly.Net.Buffers.{SendBuffer, new_send, clear, framed, payload_of, next_nr, store}

-- The protocol information stands in front.
pub record IsSend (b : SendBuffer) : Type 0 where
  pub info : IsU32 b.protocol_info
  pub front : take 4 b.buffer ≡ bytes_u32 b.protocol_info

-- The sequence number that a message is sent with: only records and disconnections count.
abbrev pub number_of : SendBuffer → Message → ℕ
number_of b (record_notification r) = next_nr b
number_of b disconnect_notification = next_nr b
number_of b _ = 0

-- Header and payload.
abbrev pub frame : SendBuffer → ℕ → Message → List ℕ
frame b nr m = take 4 b.buffer ++ (bytes_u64 nr ++ (bytes_u32 (message_size m) ++ bytes_message m))

framed_bytes :
    (b : SendBuffer) (nr size : ℕ) (bytes : List ℕ)
    → framed b nr size ++ bytes ≡ take 4 b.buffer ++ (bytes_u64 nr ++ (bytes_u32 size ++ bytes))
framed_bytes b nr size bytes =
    append_assoc (take 4 b.buffer ++ bytes_u64 nr) (bytes_u32 size) bytes
    ∙ append_assoc (take 4 b.buffer) (bytes_u64 nr) (bytes_u32 size ++ bytes)

payload_small : (n : ℕ) → 1 + n < 2 ^ 32 → payload_of n ≡ 1 + n
payload_small n h = omega arith

-- The serialization of a message behind a header.
with_payload :
    (b : SendBuffer) (nr n : ℕ) (m : Message)
    → IsMessage m
    → n ≡ message_size m
    → (serialize_message m (framed b nr n)).0 ≡ frame b nr m
with_payload b nr n m h e =
    ap (λ x. x.0) (message_appends m (framed b nr n) h)
    ∙ framed_bytes b nr n (bytes_message m)
    ∙ ap (λ k. take 4 b.buffer ++ (bytes_u64 nr ++ (bytes_u32 k ++ bytes_message m))) e

-- A message is stored as its serialization behind the header.
pub store-frame :
    (b : SendBuffer) (m : Message)
    → IsMessage m
    → message_size m < 2 ^ 32
    → (store b m).buffer ≡ frame b (number_of b m) m
unfolding store serialize_message message_size
store-frame b (client_notification o) h short =
    with_payload b 0 _ (client_notification o) h (payload_small _ short)
store-frame b (record_notification r) h short =
    with_payload b (next_nr b) _ (record_notification r) h (payload_small _ short)
store-frame b disconnect_notification h short =
    with_payload b (next_nr b) 1 disconnect_notification h refl
store-frame b (shutdown_request k) h short =
    with_payload b 0 _ (shutdown_request k) h (payload_small _ short)
store-frame b shutdown_response h short = with_payload b 0 1 shutdown_response h refl

take-append_four : (xs ys : List ℕ) → length xs ≡ 4 → take 4 (xs ++ ys) ≡ xs
take-append_four [] ys e = absurd (omega arith)
take-append_four (a ∷ []) ys e = absurd (omega arith)
take-append_four (a ∷ b ∷ []) ys e = absurd (omega arith)
take-append_four (a ∷ b ∷ c ∷ []) ys e = absurd (omega arith)
take-append_four (a ∷ b ∷ c ∷ d ∷ []) ys e = refl
take-append_four (a ∷ b ∷ c ∷ d ∷ x ∷ xs) ys e = absurd (omega arith)

pub new_send-IsSend : (info : ℕ) → IsU32 info → IsSend (new_send info)
unfolding new_send
new_send-IsSend info h = record { info = h; front = refl }

take_four : (xs : List ℕ) → take 4 (take 4 xs) ≡ take 4 xs
take_four [] = refl
take_four (a ∷ []) = refl
take_four (a ∷ b ∷ []) = refl
take_four (a ∷ b ∷ c ∷ []) = refl
take_four (a ∷ b ∷ c ∷ d ∷ xs) = refl

pub clear-IsSend : (b : SendBuffer) → IsSend b → IsSend (clear b)
unfolding clear
clear-IsSend b h = record { info = h.info; front = take_four b.buffer ∙ h.front }

store-protocol_info : (b : SendBuffer) (m : Message) → (store b m).protocol_info ≡ b.protocol_info
unfolding store
store-protocol_info b (client_notification o) = refl
store-protocol_info b (record_notification r) = refl
store-protocol_info b disconnect_notification = refl
store-protocol_info b (shutdown_request k) = refl
store-protocol_info b shutdown_response = refl

-- Storing a message keeps the protocol information in front.
pub store-IsSend :
    (b : SendBuffer) (m : Message)
    → IsSend b
    → IsMessage m
    → message_size m < 2 ^ 32
    → IsSend (store b m)
store-IsSend b m h w short =
    let same = store-protocol_info b m in
    record {
      info = rw same h.info;
      front =
          ap (take 4) (store-frame b m w short)
          ∙ take-append_four (take 4 b.buffer) _ (ap length h.front)
          ∙ h.front
          ∙ ap bytes_u32 (sym same);
    }
