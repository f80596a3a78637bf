-- ===== src/Net/Buffers/Transfer.antt =====
-- What is stored in a send buffer of src/net/buffer.rs is received.
use coaly.Prelude.{
  ℕ, ◌+◌, ◌-◌, ◌<◌, ◌≤◌, ◌^◌, ◌≡◌, refl, sym, ap, ◌∙◌, true, false, List, ◌++◌, append_assoc, arith,
  length, take, ltb, length-append, ◌==◌, IsU32, IsU64,
}
use coaly.Net.Outcome.{ok, err, ◌>>=◌, slice_from, value_or, msg_size_mismatch}
use coaly.Net.Serializable.{bytes_u32, bytes_u64, deserialize_u32}
use coaly.Net.Serializable.Laws.{slice_from-append}
use coaly.Net.Serializable.Numbers.{u32_reads, u64_reads}
use coaly.Net.Messages.{Message, message_size, deserialize_message}
use coaly.Net.Messages.Laws.{IsMessage, bytes_message, message_sized, message_reads}
use coaly.Net.Buffers.{
  SendBuffer, store, ReceiveBuffer, protocol_info, sequence_nr, payload_size, received_message,
}
use coaly.Net.Buffers.Frames.{IsSend, number_of, store-frame}

-- A buffer that begins with these parts of a message.
module _ (front payload : List ℕ) (nr size : ℕ) (four : length front ≡ 4) (nr_small : IsU64 nr)
    (size_small : IsU32 size) where
  abbrev incoming : ReceiveBuffer
  incoming = record { buffer = front ++ (bytes_u64 nr ++ (bytes_u32 size ++ payload)) }

  sequence_nr-incoming : sequence_nr incoming ≡ ok nr
  unfolding sequence_nr
  sequence_nr-incoming =
      rw (slice_from-append 4 front (bytes_u64 nr ++ (bytes_u32 size ++ payload)) (sym four), ◌>>=◌)
        (rw (u64_reads _ nr (bytes_u32 size ++ payload) nr_small) refl)

  slice_twelve : slice_from 12 incoming.buffer ≡ ok (bytes_u32 size ++ payload)
  slice_twelve =
      ap (slice_from 12) (sym (append_assoc front (bytes_u64 nr) (bytes_u32 size ++ payload)))
      ∙ slice_from-append 12 (front ++ bytes_u64 nr) (bytes_u32 size ++ payload)
          (omega (arith, length-append front (bytes_u64 nr)))

  payload_size-incoming : payload_size incoming ≡ ok size
  unfolding payload_size
  payload_size-incoming = rw (slice_twelve, ◌>>=◌) (rw (u32_reads size payload size_small) refl)

  slice_sixteen : slice_from 16 incoming.buffer ≡ ok payload
  slice_sixteen =
      ap (slice_from 16) (
        sym (append_assoc front (bytes_u64 nr) (bytes_u32 size ++ payload))
        ∙ sym (append_assoc (front ++ bytes_u64 nr) (bytes_u32 size) payload))
      ∙ slice_from-append 16 ((front ++ bytes_u64 nr) ++ bytes_u32 size) payload (
          omega (
            arith,
            length-append front (bytes_u64 nr),
            length-append (front ++ bytes_u64 nr) (bytes_u32 size),
          ))

  received_message-incoming :
      (n : ℕ) → 17 ≤ n → size ≡ n - 16 → received_message incoming n ≡ deserialize_message payload
  unfolding received_message
  received_message-incoming n long e =
      let enough : ltb n 17 ≡ false = ground arith in
      let same : (size == n - 16) ≡ true = ground arith in
      rw (enough, payload_size-incoming, ◌>>=◌) (rw same (rw (slice_sixteen, ◌>>=◌) refl))

  received_message-mismatch :
      (n : ℕ)
      → 17 ≤ n
      → ¬ (size ≡ n - 16)
      → received_message incoming n ≡ err (msg_size_mismatch n size)
  unfolding received_message
  received_message-mismatch n long e =
      let enough : ltb n 17 ≡ false = ground arith in
      let differs : (size == n - 16) ≡ false = ground arith in
      rw (enough, payload_size-incoming, ◌>>=◌) (rw differs refl)

message_size-pos : (m : Message) → 1 ≤ message_size m
unfolding message_size
message_size-pos m = ground arith

number_small : (b : SendBuffer) (m : Message) → IsU64 (number_of b m)
number_small b m = ground arith

module _ (b : SendBuffer) (m : Message) (stale : List ℕ) (h : IsSend b) (w : IsMessage m)
    (short : message_size m < 2 ^ 32) where
  -- The receiving buffer: the bytes that were sent, and behind them what was there before.
  abbrev pub arrived : ReceiveBuffer
  arrived = record { buffer = (store b m).buffer ++ stale }

  arrived_bytes :
      arrived.buffer
      ≡ take 4 b.buffer
        ++ (bytes_u64 (number_of b m) ++ (bytes_u32 (message_size m) ++ (bytes_message m ++ stale)))
  arrived_bytes =
      ap (λ l. l ++ stale) (store-frame b m w short)
      ∙ append_assoc (take 4 b.buffer)
          (bytes_u64 (number_of b m) ++ (bytes_u32 (message_size m) ++ bytes_message m)) stale
      ∙ ap (λ l. take 4 b.buffer ++ l)
          (append_assoc (bytes_u64 (number_of b m)) (bytes_u32 (message_size m) ++ bytes_message m)
              stale
            ∙ ap (λ l. bytes_u64 (number_of b m) ++ l)
                (append_assoc (bytes_u32 (message_size m)) (bytes_message m) stale))

  four : length (take 4 b.buffer) ≡ 4
  four = ap length h.front

  pub sent_length : length (store b m).buffer ≡ 16 + message_size m
  sent_length =
      ap length (store-frame b m w short)
      ∙ omega (
        arith,
        four,
        length-append (take 4 b.buffer)
            (bytes_u64 (number_of b m) ++ (bytes_u32 (message_size m) ++ bytes_message m)),
        message_sized m w,
      )

  -- A message that is stored in a send buffer that begins with its protocol information, and
  -- arrives in front of whatever the receiving buffer held before, is the message that is received,
  -- if the number of bytes sent is reported, the message has less than 2 ^ 32 bytes, the level of
  -- its record, if it has one, is no group, and its values are in their types' ranges: numbers of
  -- 32 or 64 bits, texts in valid encoding whose length and 8 fit 64 bits, and a map sorted by its
  -- keys.
  pub received_message-store : received_message arrived (length (store b m).buffer) ≡ ok m
  received_message-store =
      ap (λ l. received_message (record { buffer = l }) (length (store b m).buffer)) arrived_bytes
      ∙ received_message-incoming (take 4 b.buffer) (bytes_message m ++ stale) (number_of b m)
          (message_size m) four (number_small b m) short (length (store b m).buffer)
          (omega (arith, sent_length, message_size-pos m)) (omega (arith, sent_length))
      ∙ message_reads m stale w

  -- Where a message is stored in a send buffer and received as for its round trip, under the same
  -- conditions, but another number of bytes is reported, of at least 17, the message is refused,
  -- with both sizes.
  pub received_message-store_mismatch :
      (n : ℕ)
      → 17 ≤ n
      → ¬ (n ≡ length (store b m).buffer)
      → received_message arrived n ≡ err (msg_size_mismatch n (message_size m))
  received_message-store_mismatch n long e =
      ap (λ l. received_message (record { buffer = l }) n) arrived_bytes
      ∙ received_message-mismatch (take 4 b.buffer) (bytes_message m ++ stale) (number_of b m)
          (message_size m) four (number_small b m) short n long
          (λ s. e (omega (arith, sent_length)))

  -- The receiver reads the protocol information of the sender and the number of the message.
  pub header-store :
      (protocol_info arrived ≡ ok b.protocol_info) × (sequence_nr arrived ≡ ok (number_of b m))
  unfolding protocol_info
  header-store =
      let rest =
        bytes_u64 (number_of b m) ++ (bytes_u32 (message_size m) ++ (bytes_message m ++ stale)) in
      (
        ap (λ l. value_or (deserialize_u32 l) 0) (arrived_bytes ∙ ap (λ l. l ++ rest) h.front)
            ∙ ap (λ o. value_or o 0) (u32_reads b.protocol_info rest h.info),
        ap (λ l. sequence_nr (record { buffer = l })) arrived_bytes
            ∙ sequence_nr-incoming (take 4 b.buffer) (bytes_message m ++ stale) (number_of b m)
                (message_size m) four (number_small b m) short,
      )
