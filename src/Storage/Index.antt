-- ===== src/Storage/Index.antt =====
-- lmdb.h and lmdb.cc, the index of decided blocks, and lmdb/lmdb_wrapper: the part of LMDB's interface
-- that they use. LMDB is a parameter, and so are the layouts of the values that it stores. A
-- transaction is the contents that it would leave; a read transaction sees what is committed.
pub mod Layouts
pub mod Entries
pub mod Lookup
pub mod Rounds
pub mod Decide
use cs244b_fp.Prelude.{
  ℕ, zero, suc, ◌+◌, ◌%◌, ◌^◌, Bool, true, false, not, ◌&&◌, Option, none, some, List, [], ◌∷◌,
  ◌++◌, ltb, ◌==◌, if◌then◌else◌, Result, ok, err, or_fail, ◌>>=◌, out_of_range, missing_highest_qc,
  missing_metadata, database_exists, round_overwritten, wrong_size, invalid_dbi, env_not_open,
  missing_database,
}
use cs244b_fp.Config.{Hash}
use cs244b_fp.Wire.{QuorumCertificateWire}
use cs244b_fp.Crypto.Certs.{QuorumCertificate, serialize}
use cs244b_fp.Block.{HotstuffBlock, get_height, get_hash}
use cs244b_fp.Utils.BigEndian.{write_unsigned_big_endian, read_unsigned_big_endian}
use cs244b_fp.Storage.Index.Layouts.{Dbi, data_dbi, metadata_dbi, Lmdb, Layout}

-- "persisted block" and "qc".
abbrev pub persisted_block_key : List ℕ
persisted_block_key =
    112 ∷ 101 ∷ 114 ∷ 115 ∷ 105 ∷ 115 ∷ 116 ∷ 101 ∷ 100 ∷ 32 ∷ 98 ∷ 108 ∷ 111 ∷ 99 ∷ 107 ∷ []

abbrev pub qc_key : List ℕ
qc_key = 113 ∷ 99 ∷ []

-- `sizeof(Hash)`.
abbrev pub hash_size : ℕ
hash_size = 32

-- A range of iterators that starts at the beginning, with what is left. It is not checked.
unfoldable pub split_bytes : ℕ → List ℕ → Result (List ℕ × List ℕ)
split_bytes zero bytes = ok ([], bytes)
split_bytes (suc n) [] = err out_of_range
split_bytes (suc n) (b ∷ bytes) = do (front, back) ← split_bytes n bytes; ok (b ∷ front, back)

-- An array on the stack, before it is written to.
abbrev pub key_array : List ℕ
key_array = 0 ∷ 0 ∷ 0 ∷ 0 ∷ 0 ∷ 0 ∷ 0 ∷ 0 ∷ []

unfoldable pub height_key : ℕ → Result (List ℕ)
height_key height = write_unsigned_big_endian 8 key_array height 0

module _ (lmdb : Lmdb) (layout : Layout) where
  -- `HotstuffLMDB`, an `LMDBInstance`.
  pub record Index : Type 0 where
    pub contents : lmdb.Contents
    pub env_open : Bool
    pub metadata_dbi_open : Bool
    pub dbi_valid : Bool

  pub record Txn : Type 0 where
    pub pending : lmdb.Contents

  -- The constructor, with the environment on disk.
  unfoldable pub open_env : lmdb.Contents → Index
  open_env disk = record {
    contents = disk;
    env_open = true;
    metadata_dbi_open = false;
    dbi_valid = false;
  }

  unfoldable pub get_persisted_round_number : Index → Result ℕ
  get_persisted_round_number index =
      if not index.env_open
      then ok 0
      else if not index.metadata_dbi_open
      then err invalid_dbi
      else elim (lmdb.mdb_get metadata_dbi persisted_block_key index.contents) [
        | none ↦ ok 0
        | some value ↦ or_fail (layout.uint64 value) wrong_size
      ]

  abbrev pub write_persisted_round_number : ℕ → lmdb.Contents → lmdb.Contents
  write_persisted_round_number round contents =
      lmdb.mdb_put metadata_dbi persisted_block_key (layout.uint64_bytes round) contents

  -- The number of rounds that a database has reached before it is created.
  unfoldable pub preexisting : lmdb.Contents → Result ℕ
  preexisting contents = elim (lmdb.mdb_get metadata_dbi persisted_block_key contents) [
    | none ↦ ok 0
    | some value ↦ or_fail (layout.uint64 value) wrong_size
  ]

  unfoldable pub create_db : Index → Result Index
  create_db index = if not index.env_open then err env_not_open else do
    let opened = lmdb.create metadata_dbi (lmdb.create data_dbi index.contents)
    round ← preexisting opened
    if not (round == 0)
        then err database_exists
        else ok (record index {
          contents = write_persisted_round_number 0 opened;
          metadata_dbi_open = true;
          dbi_valid = true;
        })

  unfoldable pub open_db : Index → Result Index
  open_db index =
      if not index.env_open
      then err env_not_open
      else if not (lmdb.exists data_dbi index.contents)
      then err missing_database
      else if not index.metadata_dbi_open && not (lmdb.exists metadata_dbi index.contents)
      then err missing_database
      else elim (lmdb.mdb_get metadata_dbi persisted_block_key index.contents) [
        | none ↦ err missing_metadata
        | some _ ↦ ok (record index { metadata_dbi_open = true; dbi_valid = true })
      ]

  unfoldable pub commit_wtxn : Txn → ℕ → Index → Result Index
  commit_wtxn tx persisted_round index = do
    current ← get_persisted_round_number index
    if ltb persisted_round current
        then err round_overwritten
        else if not index.env_open
        then ok index
        else ok
            (record index { contents = write_persisted_round_number persisted_round tx.pending })

  unfoldable pub open_txn : Index → Result Txn
  open_txn index =
      if not index.env_open
      then err env_not_open
      else if not index.dbi_valid
      then err invalid_dbi
      else ok (record { pending = index.contents })

  -- The round number is a `uint64_t`.
  unfoldable pub commit : Txn → Index → Result Index
  commit tx index = do
    current ← get_persisted_round_number index
    commit_wtxn tx ((current + 1) % 2 ^ 64) index

  -- `add_decided_block`, with the serialized identifier.
  unfoldable pub add_decided_block : HotstuffBlock → List ℕ → Txn → Result Txn
  add_decided_block blk serialized_vm_blk_id tx = do
    key ← height_key (get_height blk)
    let value = layout.hash_bytes (get_hash blk) ++ serialized_vm_blk_id
    ok (record { pending = lmdb.mdb_put data_dbi key value tx.pending })

  unfoldable pub set_qc_on_top_block : QuorumCertificate → Txn → Txn
  set_qc_on_top_block qc tx = record {
    pending = lmdb.mdb_put metadata_dbi qc_key (layout.qc_bytes (serialize qc)) tx.pending;
  }

  unfoldable pub get_highest_qc : Index → Result QuorumCertificateWire
  get_highest_qc index = do
    value ← or_fail (lmdb.mdb_get metadata_dbi qc_key index.contents) missing_highest_qc
    layout.qc_from_opaque value

  -- The first bytes of a value are the hash.
  unfoldable pub hash_and_rest : List ℕ → Result (Hash × List ℕ)
  hash_and_rest value = do
    (front, back) ← split_bytes hash_size value
    hash ← layout.hash_from_opaque front
    ok (hash, back)

  -- The bytes that are returned for the identifier are all of the value.
  unfoldable pub get_decided_hash_id_pair : ℕ → Index → Result (Option (Hash × List ℕ))
  get_decided_hash_id_pair height index = do
    key ← height_key height
    if not index.dbi_valid
        then err invalid_dbi
        else elim (lmdb.mdb_get data_dbi key index.contents) [
          | none ↦ ok none
          | some value ↦ (do (hash, _) ← hash_and_rest value; ok (some (hash, value)))
        ]

  -- `iterator::operator*`.
  unfoldable pub dereference : List ℕ × List ℕ → Result (ℕ × Hash)
  dereference (key, value) = do
    height ← read_unsigned_big_endian 8 key
    (hash, _) ← hash_and_rest value
    ok (height, hash)

  unfoldable pub get_hs_hash_and_vm_data : List ℕ × List ℕ → Result (Hash × List ℕ)
  get_hs_hash_and_vm_data (key, value) = hash_and_rest value

  -- The loop `for (auto [height, hash] : cursor)`.
  unfoldable pub visit : List (List ℕ × List ℕ) → Result (List (ℕ × Hash))
  visit [] = ok []
  visit (entry ∷ entries) = do head ← dereference entry; rest ← visit entries; ok (head ∷ rest)

  unfoldable pub forward_cursor : Index → Result (List (ℕ × Hash))
  forward_cursor index =
      if not index.dbi_valid then err invalid_dbi else visit (lmdb.entries data_dbi index.contents)
