-- ===== src/Net/Buffers.antt =====
-- src/net/buffer.rs: the buffers in which messages are sent and received. A message has its
-- protocol information in bytes 0 to 3, its sequence number in bytes 4 to 11, the size of its
-- payload in bytes 12 to 15, and its payload behind them.
pub mod Frames
pub mod Transfer
use coaly.Prelude.{
  ℕ, ◌+◌, ◌-◌, ◌%◌, ◌^◌, List, [], ◌∷◌, ◌++◌, ltb, ◌==◌, not, if◌then◌else◌, length, take,
}
use coaly.Prelude.Texts.{Text}
use coaly.Net.Outcome.{
  Outcome, ok, err, msg_too_short, msg_size_mismatch, ◌>>=◌, slice_from, value_or,
}
use coaly.Net.Serializable.{Serializable, u32, u64, string}
use coaly.Net.Messages.{
  OriginatorInfo, RecordData, Message, client_notification, record_notification,
  disconnect_notification, shutdown_request, shutdown_response, originator, record_data, message,
  typed, client_notif_id, record_notif_id, disconnect_notif_id, shutdown_req_id, shutdown_resp_id,
}

pub record SendBuffer : Type 0 where
  pub protocol_info : ℕ
  pub buffer : List ℕ
  pub sequence_nr : ℕ

unfoldable pub new_send : ℕ → SendBuffer
new_send protocol_info = record {
  protocol_info = protocol_info;
  buffer = (u32.serialize_to protocol_info []).0;
  sequence_nr = 0;
}

unfoldable pub clear : SendBuffer → SendBuffer
clear b = record b { sequence_nr = 0; buffer = take 4 b.buffer }

-- The buffer, cut behind the protocol information, with a sequence number and a payload size.
abbrev pub framed : SendBuffer → ℕ → ℕ → List ℕ
framed b sequence_nr payload_size =
    let (buffer1, n) = u64.serialize_to sequence_nr (take 4 b.buffer) in
    (u32.serialize_to payload_size buffer1).0

-- `1 + size as u32`
abbrev pub payload_of : ℕ → ℕ
payload_of size = (1 + size % 2 ^ 32) % 2 ^ 32

unfoldable pub store_client_notification : SendBuffer → OriginatorInfo → SendBuffer
store_client_notification b orig_info =
    let payload_size = payload_of (originator.serialized_size orig_info) in
    record b { buffer = (typed originator client_notif_id orig_info (framed b 0 payload_size)).0 }

-- `sequence_nr += 1` on a `u64`
abbrev pub next_nr : SendBuffer → ℕ
next_nr b = (b.sequence_nr + 1) % 2 ^ 64

unfoldable pub store_record_notification : SendBuffer → RecordData → SendBuffer
store_record_notification b rec =
    let payload_size = payload_of (record_data.serialized_size rec) in
    record b {
      sequence_nr = next_nr b;
      buffer = (typed record_data record_notif_id rec (framed b (next_nr b) payload_size)).0;
    }

unfoldable pub store_disconnect_notification : SendBuffer → SendBuffer
store_disconnect_notification b = record b {
  sequence_nr = next_nr b;
  buffer = framed b (next_nr b) 1 ++ disconnect_notif_id ∷ [];
}

unfoldable pub store_shutdown_request : SendBuffer → Text → SendBuffer
store_shutdown_request b k =
    let payload_size = payload_of (string.serialized_size k) in
    record b { buffer = (typed string shutdown_req_id k (framed b 0 payload_size)).0 }

unfoldable pub store_shutdown_response : SendBuffer → SendBuffer
store_shutdown_response b = record b { buffer = framed b 0 1 ++ shutdown_resp_id ∷ [] }

-- The function that stores a message.
unfoldable pub store : SendBuffer → Message → SendBuffer
unfolding store_client_notification store_record_notification store_disconnect_notification
    store_shutdown_request store_shutdown_response
store b (client_notification orig_info) = store_client_notification b orig_info
store b (record_notification rec) = store_record_notification b rec
store b disconnect_notification = store_disconnect_notification b
store b (shutdown_request k) = store_shutdown_request b k
store b shutdown_response = store_shutdown_response b

-- The buffer that receives holds what was received, and behind it what was there before.
pub record ReceiveBuffer : Type 0 where
  pub buffer : List ℕ

unfoldable pub protocol_info : ReceiveBuffer → Outcome ℕ
protocol_info r = value_or (u32.deserialize_from r.buffer) 0

unfoldable pub sequence_nr : ReceiveBuffer → Outcome ℕ
sequence_nr r = do rest ← slice_from 4 r.buffer; value_or (u64.deserialize_from rest) 0

unfoldable pub payload_size : ReceiveBuffer → Outcome ℕ
payload_size r = do rest ← slice_from 12 r.buffer; value_or (u32.deserialize_from rest) 0

abbrev sized_message : ReceiveBuffer → ℕ → ℕ → Outcome Message
sized_message r bytes_received size =
    if not (size == bytes_received - 16)
    then err (msg_size_mismatch bytes_received size)
    else (do payload ← slice_from 16 r.buffer; message.deserialize_from payload)

unfoldable pub received_message : ReceiveBuffer → ℕ → Outcome Message
unfolding payload_size
received_message r bytes_received =
    if ltb bytes_received 17
    then err msg_too_short
    else (do size ← payload_size r; sized_message r bytes_received size)
