-- ===== src/Net/Serializable/Numbers.antt =====
-- The numbers of src/net/serializable.rs are read back from their bytes.
use coaly.Prelude.{
  ℕ, ◌^◌, ◌≡◌, refl, ap, false, List, [], ◌∷◌, ◌++◌, arith, length, ltb, IsU32, IsU64, IsByte,
}
use coaly.Net.Outcome.{ok, Subject}
use coaly.Net.Serializable.{
  u8, u32, u64, i64, bytes_u32, bytes_u64, from_bytes, deserialize_u8, deserialize_u32,
  deserialize_u64,
}
use coaly.Net.Serializable.Laws.{IsLawful}

from_bytes-bytes_u32 : (v : ℕ) → IsU32 v → from_bytes (2 ^ 32) 0 (bytes_u32 v) ≡ v
from_bytes-bytes_u32 v h = omega arith

from_bytes-bytes_u64 : (v : ℕ) → IsU64 v → from_bytes (2 ^ 64) 0 (bytes_u64 v) ≡ v
from_bytes-bytes_u64 v h = omega arith

pub u32_reads : (v : ℕ) (rest : List ℕ) → IsU32 v → deserialize_u32 (bytes_u32 v ++ rest) ≡ ok v
unfolding deserialize_u32
u32_reads v rest h =
    let long : ltb (length (bytes_u32 v ++ rest)) 4 ≡ false = ground arith in
    rw long (ap ok (from_bytes-bytes_u32 v h))

pub u64_reads :
    (name : Subject) (v : ℕ) (rest : List ℕ)
    → IsU64 v
    → deserialize_u64 name (bytes_u64 v ++ rest) ≡ ok v
unfolding deserialize_u64
u64_reads name v rest h =
    let long : ltb (length (bytes_u64 v ++ rest)) 8 ≡ false = ground arith in
    rw long (ap ok (from_bytes-bytes_u64 v h))

abbrev pub u8-IsLawful : IsLawful u8 IsByte
unfolding deserialize_u8
u8-IsLawful = record {
  encoding = λ v. v ∷ [];
  appends = λ v buffer h. refl;
  sized = λ v h. refl;
  reads = λ v rest h. refl;
}

abbrev pub u32-IsLawful : IsLawful u32 IsU32
u32-IsLawful = record {
  encoding = bytes_u32;
  appends = λ v buffer h. refl;
  sized = λ v h. refl;
  reads = u32_reads;
}

abbrev pub u64-IsLawful : IsLawful u64 IsU64
u64-IsLawful = record {
  encoding = bytes_u64;
  appends = λ v buffer h. refl;
  sized = λ v h. refl;
  reads = u64_reads Subject.u64;
}

abbrev pub i64-IsLawful : IsLawful i64 IsU64
i64-IsLawful = record {
  encoding = bytes_u64;
  appends = λ v buffer h. refl;
  sized = λ v h. refl;
  reads = u64_reads Subject.ui64;
}
