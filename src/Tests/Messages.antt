-- ===== src/Tests/Messages.antt =====
-- The messages of src/net at concrete inputs.
use coaly.Prelude.{◌+◌, ◌≡◌, refl, ap, ◌∙◌, arith, length, [], ◌∷◌, ◌++◌, none, some}
use coaly.Prelude.Texts.{codes, Text, text_lt}
use coaly.Record.{RecordTrigger, RecordLevelId, is_group}
use coaly.Record.Data.{CommonRecordData}
use coaly.Net.Outcome.{ok, err, panic, msg_size_mismatch}
use coaly.Net.Utf8.{is_utf8}
use coaly.Net.Serializable.{option_size, bytes_u32, bytes_u64, deserialize_map}
use coaly.Net.Serializable.Maps.{bytes_entries, IsMap, map_reads}
use coaly.Net.Serializable.Values.{IsText}
use coaly.Net.Messages.{
  Message, OriginatorInfo, client_notification, record_notification, shutdown_req_id, message_size,
  deserialize_message, record_fields,
}
use coaly.Net.Messages.Contents.{IsRecord}
use coaly.Net.Messages.Laws.{IsMessage, deserialize_message-panics}
use coaly.Net.Buffers.{SendBuffer, store, received_message}
use coaly.Net.Buffers.Frames.{IsSend}
use coaly.Net.Buffers.Transfer.{
  arrived, sent_length, received_message-store, received_message-store_mismatch,
}

abbrev name : Text
name = b'n' ∷ []

abbrev value : Text
value = codes "vw"

name-IsText : IsText name
unfolding is_utf8
name-IsText = record { valid = refl; short = omega arith }

value-IsText : IsText value
unfolding is_utf8
value-IsText = record { valid = refl; short = omega arith }

abbrev sender : OriginatorInfo
sender = record {
  process_id = 4711;
  process_name = name;
  application_id = 3;
  application_name = value;
  host_name = name;
  ip_address = value;
  env_vars = (name, value) ∷ (value, name) ∷ [];
}

vars-IsMap : IsMap sender.env_vars
unfolding text_lt
vars-IsMap = record {
  ascending = (tt, ((refl, tt), tt));
  texts = (name-IsText, (value-IsText, (value-IsText, (name-IsText, tt))));
  short = omega arith;
}

abbrev notice : Message
notice = client_notification sender

notice-IsMessage : IsMessage notice
notice-IsMessage = record {
  process = omega arith;
  process_text = name-IsText;
  application = omega arith;
  application_text = value-IsText;
  host = name-IsText;
  ip = value-IsText;
  vars = vars-IsMap;
}

abbrev logged : CommonRecordData
logged = record {
  thread_id = 7;
  thread_name = name;
  ts_secs = 1000;
  ts_nano_secs = 999;
  level = RecordLevelId.warning;
  trigger = RecordTrigger.message;
  line_nr = some 12;
  message_text = some value;
  observer_name = none;
  observer_value = none;
  observer_id = 0;
}

abbrev report : Message
report = record_notification (record { common = logged; source_fn = name })

logged-IsRecord : IsRecord logged
unfolding is_group
logged-IsRecord = record {
  thread = omega arith;
  thread_text = name-IsText;
  secs = omega arith;
  nanos = omega arith;
  single = refl;
  line = omega arith;
  message = value-IsText;
  name = tt;
  value = tt;
  observer = omega arith;
}

report-IsMessage : IsMessage report
report-IsMessage = record { common = logged-IsRecord; file = name-IsText }

-- The buffer of a client that has sent one record.
abbrev used : SendBuffer
used = record {
  protocol_info = 0x0100_0000;
  buffer = bytes_u32 0x0100_0000 ++ 0 ∷ 1 ∷ 2 ∷ [];
  sequence_nr = 1;
}

used-IsSend : IsSend used
used-IsSend = record { info = omega arith; front = refl }

report_size : message_size report ≡ 73
unfolding message_size record_fields option_size
report_size = refl

sent : length (store used report).buffer ≡ 89
sent =
    sent_length used report [] used-IsSend report-IsMessage (omega (arith, report_size))
    ∙ ap (λ n. 16 + n) report_size

received_message-store_example :
    received_message
      (arrived used report (9 ∷ 9 ∷ []) used-IsSend report-IsMessage (omega (arith, report_size)))
      (length (store used report).buffer)
    ≡ ok report
received_message-store_example =
    received_message-store used report (9 ∷ 9 ∷ []) used-IsSend report-IsMessage
      (omega (arith, report_size))

-- One byte less is reported than was sent.
received_message-store_mismatch_example :
    received_message
      (arrived used report [] used-IsSend report-IsMessage (omega (arith, report_size)))
      88
    ≡ err (msg_size_mismatch 88 73)
unfolding message_size record_fields option_size
received_message-store_mismatch_example =
    received_message-store_mismatch used report [] used-IsSend report-IsMessage
      (omega (arith, report_size)) 88 (omega arith) (λ e. omega (arith, e, sent))

two_entries_read :
    deserialize_map ((bytes_u64 2 ++ bytes_entries sender.env_vars) ++ 5 ∷ []) ≡ ok sender.env_vars
two_entries_read = map_reads sender.env_vars (5 ∷ []) vars-IsMap

-- The key of this request claims a length of 2 ^ 64 - 1.
deserialize_message-panics_example :
    deserialize_message (shutdown_req_id ∷ bytes_u64 0xffff_ffff_ffff_ffff ++ b'k' ∷ []) ≡ panic
deserialize_message-panics_example =
    deserialize_message-panics 0xffff_ffff_ffff_ffff (b'k' ∷ []) (omega arith) (omega arith)
