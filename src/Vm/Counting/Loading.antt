-- ===== src/Vm/Counting/Loading.antt =====
-- `CountingVM::init_from_disk`, with the bytes of a block's identifier and `load_vm_block` of lmdb.h:
-- the blocks that the index lists are executed again. `load_block` is a parameter, like xdrpp's codec.
use cs244b_fp.Prelude.{
  ℕ, ◌≡◌, refl, sym, ap, ◌∙◌, ◌≢◌, Bool, true, false, Option, none, some, List, [], ◌∷◌, Result, ok,
  err, or_fail, ◌>>=◌, ok_injective, first-ok, if◌then◌else◌, not, invalid_dbi, block_load_failed,
  xdr_failed,
}
use cs244b_fp.Config.{Hash}
use cs244b_fp.Wire.{HotstuffBlockWire}
use cs244b_fp.Storage.Index.Layouts.{data_dbi, Lmdb, Layout}
use cs244b_fp.Storage.Index.{Index, get_hs_hash_and_vm_data}
use cs244b_fp.Vm.Counting.{
  CountingVm, clean_vm, exec_block, log_block, rewind_to_last_commit, Call, calls,
  calls-last_committed,
}

unfoldable pub serialize_id : (List ℕ → List ℕ) → Option (List ℕ) → List ℕ
serialize_id xdr_to_opaque none = []
serialize_id xdr_to_opaque (some value) = xdr_to_opaque value

unfoldable pub parse_id : (List ℕ → Option (List ℕ)) → List ℕ → Result (Option (List ℕ))
parse_id xdr_from_opaque [] = ok none
parse_id xdr_from_opaque (b ∷ bytes) = do
  value ← or_fail (xdr_from_opaque (b ∷ bytes)) xdr_failed
  ok (some value)

-- An identifier is read back, where the codec reads what it writes and always writes a length.
pub parse-serialize_id :
    (xdr_from_opaque : List ℕ → Option (List ℕ)) (xdr_to_opaque : List ℕ → List ℕ)
    → ((v : List ℕ) → xdr_from_opaque (xdr_to_opaque v) ≡ some v)
    → ((v : List ℕ) → xdr_to_opaque v ≢ [])
    → (id : Option (List ℕ)) → parse_id xdr_from_opaque (serialize_id xdr_to_opaque id) ≡ ok id
unfolding serialize_id parse_id
parse-serialize_id from_opaque to_opaque reads writes none = refl
parse-serialize_id from_opaque to_opaque reads writes (some v) =
    parsed (to_opaque v) (writes v) (reads v)
  where
    parsed :
        (bytes : List ℕ)
        → bytes ≢ []
        → from_opaque bytes ≡ some v
        → parse_id from_opaque bytes ≡ ok (some v)
    parsed [] nonempty e = absurd (nonempty refl)
    parsed (b ∷ bytes) nonempty e = ap (λ r. or_fail r xdr_failed >>= λ w. ok (some w)) e

module _ (xdr_from_opaque : List ℕ → Option (List ℕ)) (load_block : Hash → Option HotstuffBlockWire)
    (lmdb : Lmdb) (layout : Layout) where
  unfoldable pub load_vm_block : Hash → Result (List ℕ)
  load_vm_block hash = do
    unparsed ← or_fail (load_block hash) block_load_failed
    or_fail (xdr_from_opaque unparsed.body) xdr_failed

  -- The body of the loop, once the entry is read.
  unfoldable pub replay : Hash → Option (List ℕ) → CountingVm → Result CountingVm
  replay hash none m = ok m
  replay hash (some value) m = do
    loaded_block ← load_vm_block hash
    ok (log_block (some value) (exec_block loaded_block m))

  unfoldable pub replay_all : List (List ℕ × List ℕ) → CountingVm → Result CountingVm
  replay_all [] m = ok m
  replay_all (entry ∷ entries) m = do
    (hash, bytes) ← get_hs_hash_and_vm_data lmdb layout entry
    id ← parse_id xdr_from_opaque bytes
    m' ← replay hash id m
    replay_all entries m'

  unfoldable pub init_from_disk : Index lmdb layout → CountingVm → Result CountingVm
  init_from_disk index m =
      if not index.dbi_valid
      then err invalid_dbi
      else replay_all (lmdb.entries data_dbi index.contents) m

  replay-last_committed_state :
      (hash : Hash) (id : Option (List ℕ)) (m : CountingVm) {m' : CountingVm}
      → replay hash id m ≡ ok m'
      → m'.last_committed_state ≡ m.last_committed_state
  unfolding replay log_block exec_block
  replay-last_committed_state hash none m e =
      ap (λ n. n.last_committed_state) (sym (ok_injective e))
  replay-last_committed_state hash (some value) m e =
      let (blk, _, e') = first-ok (load_vm_block hash) _ e in
      ap (λ n. n.last_committed_state) (sym (ok_injective e'))

  replay_all-last_committed_state :
      (entries : List (List ℕ × List ℕ)) (m : CountingVm) {m' : CountingVm}
      → replay_all entries m ≡ ok m'
      → m'.last_committed_state ≡ m.last_committed_state
  unfolding replay_all
  replay_all-last_committed_state [] m e = ap (λ n. n.last_committed_state) (sym (ok_injective e))
  replay_all-last_committed_state (entry ∷ entries) m e =
      let ((hash, bytes), _, e1) = first-ok (get_hs_hash_and_vm_data lmdb layout entry) _ e in
      let (id, _, e2) = first-ok (parse_id xdr_from_opaque bytes) _ e1 in
      let (n, replayed, e3) = first-ok (replay hash id m) _ e2 in
      replay_all-last_committed_state entries n e3 ∙ replay-last_committed_state hash id m replayed

  init_from_disk-last_committed_state :
      (index : Index lmdb layout) (m : CountingVm) {m' : CountingVm}
      → init_from_disk index m ≡ ok m'
      → m'.last_committed_state ≡ m.last_committed_state
  unfolding init_from_disk
  init_from_disk-last_committed_state index m e = by_dbi index.dbi_valid e
    where
      by_dbi :
          (valid : Bool) {m' : CountingVm}
          → (if not valid
              then err invalid_dbi
              else replay_all (lmdb.entries data_dbi index.contents) m)
            ≡ ok m'
          → m'.last_committed_state ≡ m.last_committed_state
      by_dbi true loaded =
          replay_all-last_committed_state (lmdb.entries data_dbi index.contents) m loaded
      by_dbi false loaded = cc

  -- What is loaded is forgotten too: after a restart, a rewind takes the machine back to zero, whatever
  -- it has loaded, executed and logged.
  pub init_from_disk-rewind :
      (index : Index lmdb layout) (cs : List Call) {m : CountingVm}
      → init_from_disk index clean_vm ≡ ok m
      → (rewind_to_last_commit (calls cs m)).state ≡ 0
  unfolding rewind_to_last_commit clean_vm
  init_from_disk-rewind index cs {m = m} loaded =
      calls-last_committed cs m ∙ init_from_disk-last_committed_state index clean_vm loaded
