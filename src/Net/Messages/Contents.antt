-- ===== src/Net/Messages/Contents.antt =====
-- Originators of src/record/originator.rs and records of src/record/recorddata.rs are read back from
-- their bytes.
use coaly.Prelude.{◌≡◌, refl, false, arith, IsU32, IsU64}
use coaly.Record.{RecordLevelId, RecordTrigger, level_value, trigger_value, is_group}
use coaly.Record.Levels.{level_from-level_value, trigger_from-trigger_value}
use coaly.Record.Data.{CommonRecordData}
use coaly.Net.Serializable.Laws.{IsLawful, both-IsLawful, struct-IsLawful}
use coaly.Net.Serializable.Numbers.{u32-IsLawful, u64-IsLawful, i64-IsLawful}
use coaly.Net.Serializable.Values.{IsText, IsOption, string-IsLawful, option-IsLawful}
use coaly.Net.Serializable.Maps.{IsMap, map-IsLawful}
use coaly.Net.Messages.{
  OriginatorInfo, originator, originator_fields, build_originator, record_fields, build_record,
  common_data, RecordData, data_fields, build_data, record_data,
}

-- What the types of Rust promise of an originator.
pub record IsOriginator (o : OriginatorInfo) : Type 0 where
  pub process : IsU32 o.process_id
  pub process_text : IsText o.process_name
  pub application : IsU32 o.application_id
  pub application_text : IsText o.application_name
  pub host : IsText o.host_name
  pub ip : IsText o.ip_address
  pub vars : IsMap o.env_vars

-- What they promise of a record, and that its level is no group.
pub record IsRecord (r : CommonRecordData) : Type 0 where
  pub thread : IsU64 r.thread_id
  pub thread_text : IsText r.thread_name
  pub secs : IsU64 r.ts_secs
  pub nanos : IsU32 r.ts_nano_secs
  pub single : is_group r.level ≡ false
  pub line : IsOption IsU32 r.line_nr
  pub message : IsOption IsText r.message_text
  pub name : IsOption IsText r.observer_name
  pub value : IsOption IsText r.observer_value
  pub observer : IsU64 r.observer_id

pub record IsRecordData (r : RecordData) : Type 0 where
  pub common : IsRecord r.common
  pub file : IsText r.source_fn

pub originator_built :
    (o : OriginatorInfo) → IsOriginator o → build_originator (originator_fields o) ≡ o
unfolding build_originator originator_fields
originator_built o h = refl

pub originator_valid :
    (o : OriginatorInfo)
    → IsOriginator o
    → let (pid, (pname, (app_id, (app_name, (host, (ip, vars)))))) = originator_fields o in
      IsU32 pid
      × (IsText pname
          × (IsU32 app_id × (IsText app_name × (IsText host × (IsText ip × IsMap vars)))))
unfolding originator_fields
originator_valid o h =
    (h.process, (h.process_text, (h.application, (h.application_text, (h.host, (h.ip, h.vars))))))

abbrev pub originator-IsLawful : IsLawful originator IsOriginator
originator-IsLawful =
    struct-IsLawful originator_fields build_originator IsOriginator
      (both-IsLawful u32-IsLawful (
        both-IsLawful string-IsLawful (
          both-IsLawful u32-IsLawful (
            both-IsLawful string-IsLawful
              (both-IsLawful string-IsLawful (both-IsLawful string-IsLawful map-IsLawful))))))
      originator_valid originator_built

level_value-lt : (l : RecordLevelId) → IsU32 (level_value l)
unfolding level_value
level_value-lt l = ground arith

trigger_value-lt : (t : RecordTrigger) → IsU32 (trigger_value t)
unfolding trigger_value
trigger_value-lt t = ground arith

pub record_built : (r : CommonRecordData) → IsRecord r → build_record (record_fields r) ≡ r
unfolding build_record record_fields
record_built r h = λ i. record r {
  level = level_from-level_value r.level h.single i;
  trigger = trigger_from-trigger_value r.trigger i;
}

pub record_valid :
    (r : CommonRecordData)
    → IsRecord r
    → let (id, (name, (secs, (nanos, (level, (trigger, (line, (msg, (oname, (ovalue, oid)))))))))) =
        record_fields r in
      IsU64 id
      × (IsText name
          × (IsU64 secs
              × (IsU32 nanos
                  × (IsU32 level
                      × (IsU32 trigger
                          × (IsOption IsU32 line
                              × (IsOption IsText msg
                                  × (IsOption IsText oname
                                      × (IsOption IsText ovalue × IsU64 oid)))))))))
unfolding record_fields
record_valid r h = (
  h.thread,
  (
    h.thread_text,
    (
      h.secs,
      (
        h.nanos,
        (
          level_value-lt r.level,
          (trigger_value-lt r.trigger, (h.line, (h.message, (h.name, (h.value, h.observer))))),
        ),
      ),
    ),
  ),
)

abbrev pub record-IsLawful : IsLawful common_data IsRecord
record-IsLawful =
    struct-IsLawful record_fields build_record IsRecord
      (both-IsLawful u64-IsLawful (
        both-IsLawful string-IsLawful (
          both-IsLawful i64-IsLawful (
            both-IsLawful u32-IsLawful (
              both-IsLawful u32-IsLawful (
                both-IsLawful u32-IsLawful (
                  both-IsLawful (option-IsLawful u32-IsLawful) (
                    both-IsLawful (option-IsLawful string-IsLawful) (
                      both-IsLawful (option-IsLawful string-IsLawful)
                        (both-IsLawful (option-IsLawful string-IsLawful) u64-IsLawful))))))))))
      record_valid record_built

abbrev pub data-IsLawful : IsLawful record_data IsRecordData
data-IsLawful =
    struct-IsLawful data_fields build_data IsRecordData
      (both-IsLawful record-IsLawful string-IsLawful) (λ r h. (h.common, h.file)) (λ r h. refl)
