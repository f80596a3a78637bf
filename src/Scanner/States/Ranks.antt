-- ===== src/Scanner/States/Ranks.antt =====
-- The ranks of the states of the TOML scanner.
use coaly.Prelude.{ℕ, ◌<◌, ◌≤◌, Bool, true, false, ◌≡◌, ◌⊎◌, refl, arith, ◌&&◌, if◌then◌else◌}
use coaly.Scanner.{ScannerStateId}
use coaly.Scanner.States.{Memory, activate}
use coaly.Scanner.States.Allowed.{
  rank, entry_rank, is_called, is_caller, read_before, counts, descends,
}

pub rank-le : (id : ScannerStateId) (m : Memory) → rank id m ≤ 3
unfolding rank entry_rank
rank-le id m = ground arith

pub entry_rank-le : (id : ScannerStateId) → entry_rank id ≤ 3
unfolding entry_rank
entry_rank-le id = ground arith

pub rank-activate : (id : ScannerStateId) (m : Memory) → rank id (activate id m) ≡ entry_rank id
unfolding rank entry_rank activate
rank-activate id m = ground arith

pub read_before-activate :
    (id : ScannerStateId) (m : Memory)
    → read_before id (activate id m) ≡ (if counts id then 1 else 0)
unfolding read_before activate counts
read_before-activate id m = ground arith

pub caller_rank : (id : ScannerStateId) (m : Memory) → is_caller id ≡ true → rank id m ≤ 2
unfolding rank entry_rank is_caller
caller_rank id m h = ground arith

pub caller-called : (id : ScannerStateId) → is_caller id ≡ true → is_called id ≡ false
unfolding is_caller is_called
caller-called id h = ground arith

pub caller_before : (id : ScannerStateId) (m : Memory) → is_caller id ≡ true → read_before id m ≡ 0
unfolding is_caller read_before
caller_before id m h = ground arith

-- How far a result gives characters back.
pub back_cases :
    (id next : ScannerStateId) (m : Memory) (c : ℕ)
    → descends id m c next ≡ true
    → (c ≡ 0) ⊎ ((c ≡ 1) × (entry_rank next < rank id m) × (counts next ≡ false))
back_cases id next m c h = grind arith

pub and_true : (a b : Bool) → (a && b) ≡ true → (a ≡ true) × (b ≡ true)
and_true true true h = (refl, refl)
and_true true false h = cc
and_true false b h = cc
