-- ===== src/Net/Messages.antt =====
-- The messages of src/net/mod.rs and what they carry: the originator of src/record/originator.rs
-- and the records of src/record/recorddata.rs, with their serialization.
pub mod Contents
pub mod Laws
use coaly.Prelude.{ℕ, ◌+◌, Option, List, [], ◌∷◌, ◌++◌, ◌==◌, if◌then◌else◌}
use coaly.Prelude.Texts.{Text, TextMap, insert}
use coaly.Record.{
  RecordLevelId, RecordTrigger, level_value, level_from, trigger_value, trigger_from,
}
use coaly.Record.Data.{CommonRecordData}
use coaly.Net.Outcome.{Outcome, ok, err, deser_err, Subject, ◌>>=◌, slice_from}
use coaly.Net.Serializable.{Serializable, u8, u32, u64, i64, string, option, text_map, both, struct}

pub record OriginatorInfo : Type 0 where
  pub process_id : ℕ
  pub process_name : Text
  pub application_id : ℕ
  pub application_name : Text
  pub host_name : Text
  pub ip_address : Text
  pub env_vars : TextMap Text

unfoldable pub new_originator : ℕ → Text → Text → Text → OriginatorInfo
new_originator pid pname host ip = record {
  process_id = pid;
  process_name = pname;
  application_id = 0;
  application_name = [];
  host_name = host;
  ip_address = ip;
  env_vars = [];
}

unfoldable pub add_env_var : OriginatorInfo → Text → Text → OriginatorInfo
add_env_var o name value = record o { env_vars = insert name value o.env_vars }

-- The fields in the order in which they are sent.
abbrev pub OriginatorFields : Type 0
OriginatorFields = ℕ × (Text × (ℕ × (Text × (Text × (Text × TextMap Text)))))

unfoldable pub originator_fields : OriginatorInfo → OriginatorFields
originator_fields o = (
  o.process_id,
  (
    o.process_name,
    (o.application_id, (o.application_name, (o.host_name, (o.ip_address, o.env_vars)))),
  ),
)

unfoldable pub build_originator : OriginatorFields → OriginatorInfo
build_originator (pid, (pname, (app_id, (app_name, (host, (ip, vars)))))) = record {
  process_id = pid;
  process_name = pname;
  application_id = app_id;
  application_name = app_name;
  host_name = host;
  ip_address = ip;
  env_vars = vars;
}

abbrev pub originator : Serializable OriginatorInfo
originator =
    struct originator_fields build_originator
      (both u32 (both string (both u32 (both string (both string (both string text_map))))))

abbrev pub RecordFields : Type 0
RecordFields =
    ℕ
    × (Text
        × (ℕ × (ℕ × (ℕ × (ℕ × (Option ℕ × (Option Text × (Option Text × (Option Text × ℕ)))))))))

-- Level and trigger are sent as their numbers.
unfoldable pub record_fields : CommonRecordData → RecordFields
record_fields r = (
  r.thread_id,
  (
    r.thread_name,
    (
      r.ts_secs,
      (
        r.ts_nano_secs,
        (
          level_value r.level,
          (
            trigger_value r.trigger,
            (r.line_nr, (r.message_text, (r.observer_name, (r.observer_value, r.observer_id)))),
          ),
        ),
      ),
    ),
  ),
)

unfoldable pub build_record : RecordFields → CommonRecordData
build_record
      (id, (name, (secs, (nanos, (level, (trigger, (line, (msg, (oname, (ovalue, oid)))))))))) =
    record {
      thread_id = id;
      thread_name = name;
      ts_secs = secs;
      ts_nano_secs = nanos;
      level = level_from level;
      trigger = trigger_from trigger;
      line_nr = line;
      message_text = msg;
      observer_name = oname;
      observer_value = ovalue;
      observer_id = oid;
    }

abbrev pub common_data : Serializable CommonRecordData
common_data = struct record_fields build_record (
    both u64 (
      both string (
        both i64 (
          both u32 (
            both u32 (
              both u32 (
                both (option u32)
                  (both (option string) (both (option string) (both (option string) u64))))))))))

-- `RemoteRecordData`, which a message is read back as. A client sends its `LocalRecordData` in the
-- same form.
pub record RecordData : Type 0 where
  pub common : CommonRecordData
  pub source_fn : Text

abbrev pub data_fields : RecordData → CommonRecordData × Text
data_fields r = (r.common, r.source_fn)

abbrev pub build_data : CommonRecordData × Text → RecordData
build_data (c, f) = record { common = c; source_fn = f }

abbrev pub record_data : Serializable RecordData
record_data = struct data_fields build_data (both common_data string)

pub data Message : Type 0 where
  client_notification : OriginatorInfo → Message
  record_notification : RecordData → Message
  disconnect_notification : Message
  shutdown_request : Text → Message
  shutdown_response : Message

abbrev pub client_notif_id : ℕ
client_notif_id = 11

abbrev pub record_notif_id : ℕ
record_notif_id = 12

abbrev pub disconnect_notif_id : ℕ
disconnect_notif_id = 13

abbrev pub shutdown_req_id : ℕ
shutdown_req_id = 21

abbrev pub shutdown_resp_id : ℕ
shutdown_resp_id = 31

unfoldable pub message_size : Message → ℕ
message_size (client_notification orig_info) = 1 + originator.serialized_size orig_info
message_size (record_notification rec) = 1 + record_data.serialized_size rec
message_size disconnect_notification = 1
message_size (shutdown_request k) = 1 + string.serialized_size k
message_size shutdown_response = 1

-- The type, and behind it the content.
abbrev pub typed : {T : Type 0} → Serializable T → ℕ → T → List ℕ → List ℕ × ℕ
typed s id v buffer = let (buffer1, n) = s.serialize_to v (buffer ++ id ∷ []) in (buffer1, 1 + n)

unfoldable pub serialize_message : Message → List ℕ → List ℕ × ℕ
serialize_message (client_notification orig_info) buffer =
    typed originator client_notif_id orig_info buffer
serialize_message (record_notification rec) buffer = typed record_data record_notif_id rec buffer
serialize_message disconnect_notification buffer = (buffer ++ disconnect_notif_id ∷ [], 1)
serialize_message (shutdown_request k) buffer = typed string shutdown_req_id k buffer
serialize_message shutdown_response buffer = (buffer ++ shutdown_resp_id ∷ [], 1)

-- The message in `rest`, behind the type.
abbrev pub message_content : ℕ → List ℕ → Outcome Message
message_content msg_type rest =
    if msg_type == record_notif_id
    then (do rec ← record_data.deserialize_from rest; ok (record_notification rec))
    else if msg_type == client_notif_id
    then (do orig_info ← originator.deserialize_from rest; ok (client_notification orig_info))
    else if msg_type == shutdown_req_id
    then (do k ← string.deserialize_from rest; ok (shutdown_request k))
    else if msg_type == shutdown_resp_id
    then ok shutdown_response
    else if msg_type == disconnect_notif_id
    then ok disconnect_notification
    else err (deser_err Subject.message)

unfoldable pub deserialize_message : List ℕ → Outcome Message
deserialize_message buffer = do
  msg_type ← u8.deserialize_from buffer
  rest ← slice_from 1 buffer
  message_content msg_type rest

abbrev pub message : Serializable Message
message = record {
  serialized_size = message_size;
  serialize_to = serialize_message;
  deserialize_from = deserialize_message;
}
