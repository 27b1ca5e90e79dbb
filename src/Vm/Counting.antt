-- ===== src/Vm/Counting.antt =====
-- vm/counting_vm: the state machine that counts the blocks it executes. A block is a string of bytes.
-- Its xdr codec is xdrpp's, a parameter.
pub mod Loading
use cs244b_fp.Prelude.{
  ℕ, zero, suc, ◌+◌, ◌%◌, ◌^◌, ◌≡◌, refl, Bool, true, false, ◌&&◌, Option, none, some, List, [],
  ◌∷◌, ◌==◌,
}
use cs244b_fp.Vm.Control.{VmType}

pub record CountingVm : Type 0 where
  pub state : ℕ
  pub last_committed_state : ℕ

unfoldable pub clean_vm : CountingVm
clean_vm = record { state = 0; last_committed_state = 0 }

-- `opaque_vec<>(n)`: `n` bytes of zero.
unfoldable pub zero_bytes : ℕ → List ℕ
zero_bytes zero = []
zero_bytes (suc n) = 0 ∷ zero_bytes n

-- `state` is a `uint64_t`.
unfoldable pub propose : CountingVm → List ℕ × CountingVm
unfolding zero_bytes
propose m = let m' = record m { state = (m.state + 1) % 2 ^ 64 } in (zero_bytes m'.state, m')

unfoldable pub exec_block : List ℕ → CountingVm → CountingVm
exec_block blk m = record m { state = (m.state + 1) % 2 ^ 64 }

-- Only a message is printed.
unfoldable pub log_block : Option (List ℕ) → CountingVm → CountingVm
log_block id m = m

unfoldable pub rewind_to_last_commit : CountingVm → CountingVm
rewind_to_last_commit m = record m { state = m.last_committed_state }

unfoldable pub same_bytes : List ℕ → List ℕ → Bool
same_bytes [] [] = true
same_bytes [] (y ∷ ys) = false
same_bytes (x ∷ xs) [] = false
same_bytes (x ∷ xs) (y ∷ ys) = (x == y) && same_bytes xs ys

unfoldable pub same_block_id : Option (List ℕ) → Option (List ℕ) → Bool
unfolding same_bytes
same_block_id none none = true
same_block_id none (some y) = false
same_block_id (some x) none = false
same_block_id (some x) (some y) = same_bytes x y

abbrev pub has_value : Option (List ℕ) → Bool
has_value none = false
has_value (some _) = true

module _ (xdr_from_opaque : List ℕ → Option (List ℕ)) (xdr_to_opaque : List ℕ → List ℕ) where
  abbrev pub counting_vm : VmType
  counting_vm = record {
    Block = List ℕ;
    BlockId = Option (List ℕ);
    State = CountingVm;
    nonempty_block_id = λ b. some b;
    empty_block_id = none;
    has_value = has_value;
    same_id = same_block_id;
    xdr_from_opaque = xdr_from_opaque;
    xdr_to_opaque = xdr_to_opaque;
    exec_block = exec_block;
    propose = propose;
    log_block = log_block;
    rewind_to_last_commit = rewind_to_last_commit;
  }

-- What the thread calls.
pub data Call : Type 0 where
  executes : List ℕ → Call
  logs : Option (List ℕ) → Call
  proposes rewinds : Call

unfoldable pub call : Call → CountingVm → CountingVm
unfolding exec_block log_block propose rewind_to_last_commit
call (executes b) m = exec_block b m
call (logs i) m = log_block i m
call proposes m = (propose m).1
call rewinds m = rewind_to_last_commit m

unfoldable pub calls : List Call → CountingVm → CountingVm
unfolding call
calls [] m = m
calls (c ∷ cs) m = calls cs (call c m)

pub calls-last_committed :
    (cs : List Call) (m : CountingVm) → (calls cs m).last_committed_state ≡ m.last_committed_state
unfolding calls call exec_block log_block propose rewind_to_last_commit
calls-last_committed [] m = refl
calls-last_committed (executes b ∷ cs) m = calls-last_committed cs (exec_block b m)
calls-last_committed (logs i ∷ cs) m = calls-last_committed cs m
calls-last_committed (proposes ∷ cs) m = calls-last_committed cs (propose m).1
calls-last_committed (rewinds ∷ cs) m = calls-last_committed cs (rewind_to_last_commit m)

-- The commitments that are logged are forgotten: whatever a clean machine has executed and logged, a
-- rewind takes it back to zero.
pub rewind_to_last_commit-zero :
    (cs : List Call) → (rewind_to_last_commit (calls cs clean_vm)).state ≡ 0
unfolding rewind_to_last_commit clean_vm
rewind_to_last_commit-zero cs = calls-last_committed cs clean_vm
