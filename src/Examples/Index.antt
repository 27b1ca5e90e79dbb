-- ===== src/Examples/Index.antt =====
-- The index of decided blocks on a database in memory.
use cs244b_fp.Prelude.{
  ℕ, ◌^◌, ◌<◌, ◌≡◌, ◌≢◌, refl, ◌⊎◌, true, none, some, List, [], ◌∷◌, ok, err, arith,
}
use cs244b_fp.Prelude.{round_overwritten}
use cs244b_fp.Prelude.Maps.{find, IsSorted}
use cs244b_fp.Config.{Hash}
use cs244b_fp.Crypto.Certs.{empty_qc, serialize}
use cs244b_fp.Block.{HotstuffBlock, genesis_block, get_height, get_hash}
use cs244b_fp.Storage.Index.{
  Index, open_env, get_persisted_round_number, open_db, commit, get_highest_qc,
  get_decided_hash_id_pair, forward_cursor, persisted_block_key,
}
use cs244b_fp.Storage.Index.Rounds.{IsOpen, commit-rounds}
use cs244b_fp.Storage.Index.Entries.{added, IsIndexed, added-IsIndexed}
use cs244b_fp.Storage.Index.Lookup.{forward_cursor-lookup}
use cs244b_fp.Storage.Index.Decide.{decide_block, decide_block-lookup}
use cs244b_fp.Utils.BigEndian.{append_unsigned_big_endian}
use cs244b_fp.Storage.Index.Layouts.{data_dbi, metadata_dbi}
use cs244b_fp.Examples.InMemory.{
  in_memory, in_memory-IsLmdb, big_endian_layout, big_endian_layout-IsLayout,
}

-- The database after `create_db`.
abbrev created : Index in_memory big_endian_layout
created = record {
  contents = record {
    made = λ t. true;
    puts = λ t. elim t [
      | data_dbi ↦ []
      | metadata_dbi ↦ (persisted_block_key, append_unsigned_big_endian 8 [] 0) ∷ []
    ];
  };
  env_open = true;
  metadata_dbi_open = true;
  dbi_valid = true;
}

created-IsOpen :
    IsOpen in_memory big_endian_layout in_memory-IsLmdb big_endian_layout-IsLayout created 0
created-IsOpen = record {
  env = refl;
  metadata = refl;
  handle = refl;
  at_round = record { tables = λ t. refl; small = omega arith; stored = refl };
}

commit-rounds_example :
    ((1 < 2 ^ 64)
      × (index' : Index in_memory big_endian_layout) × (commit in_memory big_endian_layout
            (record { pending = created.contents })
            created
          ≡ ok index')
      × (get_persisted_round_number in_memory big_endian_layout index' ≡ ok 1)
      × (open_db in_memory big_endian_layout (open_env in_memory big_endian_layout index'.contents)
          ≡ ok index'))
    ⊎ ((1 ≡ 2 ^ 64)
        × (commit in_memory big_endian_layout (record { pending = created.contents }) created
            ≡ err round_overwritten))
commit-rounds_example =
    commit-rounds in_memory big_endian_layout in_memory-IsLmdb big_endian_layout-IsLayout created 0
      (record { pending = created.contents }) created-IsOpen (λ t. refl)

abbrev decided_example : HotstuffBlock
unfolding genesis_block
decided_example = record genesis_block { block_height = 300; self_qc = empty_qc 77 }

created-IsIndexed :
    IsIndexed in_memory big_endian_layout in_memory-IsLmdb big_endian_layout-IsLayout
      created.contents
created-IsIndexed key value e = cc

decide_block-lookup_example :
    (index' : Index in_memory big_endian_layout) × (decide_block in_memory big_endian_layout
        decided_example
        (5 ∷ [])
        (empty_qc 77)
        created
      ≡ ok index')
    × ((value : List ℕ) × (get_decided_hash_id_pair in_memory big_endian_layout
            (get_height decided_example)
            index'
          ≡ ok (some (get_hash decided_example, value))))
    × ((h : ℕ)
        → h < 2 ^ 64
        → h ≢ get_height decided_example
        → get_decided_hash_id_pair in_memory big_endian_layout h index'
          ≡ get_decided_hash_id_pair in_memory big_endian_layout h created)
    × (get_highest_qc in_memory big_endian_layout index' ≡ ok (serialize (empty_qc 77)))
    × (get_persisted_round_number in_memory big_endian_layout index' ≡ ok 1)
    × IsIndexed in_memory big_endian_layout in_memory-IsLmdb big_endian_layout-IsLayout
        index'.contents
unfolding genesis_block get_hash empty_qc
decide_block-lookup_example =
    decide_block-lookup in_memory big_endian_layout in_memory-IsLmdb big_endian_layout-IsLayout
      created 0 decided_example (5 ∷ []) (empty_qc 77) created-IsOpen (omega arith) (omega arith)
      (omega arith) refl created-IsIndexed

-- The database with one block.
abbrev filled : Index in_memory big_endian_layout
filled = record created {
  contents =
      (added in_memory big_endian_layout decided_example (5 ∷ [])
        (record { pending = created.contents })).pending;
}

filled-IsIndexed :
    IsIndexed in_memory big_endian_layout in_memory-IsLmdb big_endian_layout-IsLayout
      filled.contents
unfolding genesis_block get_hash empty_qc
filled-IsIndexed =
    added-IsIndexed in_memory big_endian_layout in_memory-IsLmdb big_endian_layout-IsLayout
      decided_example (5 ∷ []) (record { pending = created.contents }) (omega arith) (omega arith)
      created-IsIndexed

forward_cursor-lookup_example :
    (list : List (ℕ × Hash)) × (forward_cursor in_memory big_endian_layout filled ≡ ok list)
    × IsSorted list
    × ((h : ℕ)
        → h < 2 ^ 64
        → ((find h list ≡ none)
            × (get_decided_hash_id_pair in_memory big_endian_layout h filled ≡ ok none))
          ⊎ ((hash : Hash) × (value : List ℕ) × (find h list ≡ some hash)
              × (get_decided_hash_id_pair in_memory big_endian_layout h filled
                  ≡ ok (some (hash, value)))))
forward_cursor-lookup_example =
    forward_cursor-lookup in_memory big_endian_layout in_memory-IsLmdb big_endian_layout-IsLayout
      filled refl filled-IsIndexed
