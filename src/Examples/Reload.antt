-- ===== src/Examples/Reload.antt =====
-- A replica that starts again with one decided block on disk.
use cs244b_fp.Prelude.{
  ℕ, ◌^◌, ◌%◌, ◌≡◌, refl, true, Option, none, some, [], ◌∷◌, ◌++◌, ok, arith, ◌==◌, if◌then◌else◌,
}
use cs244b_fp.Prelude.Maps.{emplace}
use cs244b_fp.Config.{Hash}
use cs244b_fp.Wire.{HotstuffBlockWire, QuorumCertificateWire}
use cs244b_fp.Crypto.Certs.{empty_qc, parse_qc}
use cs244b_fp.Block.{genesis_heap, genesis_block, get_hash}
use cs244b_fp.Utils.BigEndian.{append_unsigned_big_endian, read_unsigned_big_endian, read_bytes}
use cs244b_fp.Consensus.{height, init_core}
use cs244b_fp.Storage.BlockStore.{new_store, get_block}
use cs244b_fp.Storage.Index.Layouts.{data_dbi, metadata_dbi}
use cs244b_fp.Storage.Index.{
  Index, qc_key, forward_cursor, visit, dereference, hash_and_rest, split_bytes, get_highest_qc,
}
use cs244b_fp.App.{HotstuffApp}
use cs244b_fp.App.Reload.{reload_decided_blocks}
use cs244b_fp.App.Reload.Fresh.{IsSound}
use cs244b_fp.App.Reload.Chain.{
  Holds, IsChain, AreStored, last_height, reload_decided_blocks-Restored,
}
use cs244b_fp.Examples.Config.{toy_sodium}
use cs244b_fp.Examples.InMemory.{in_memory, big_endian_layout}
use cs244b_fp.Examples.Replica.{started, first_store-IsStore}

-- The block after genesis; the toy hash of its header is 7.
abbrev saved_wire : HotstuffBlockWire
saved_wire = record {
  header = record {
    parent_hash = 0;
    qc = record { justify = 0; bmp = 0; sigs = [] };
    body_hash = 6;
  };
  body = 6 ∷ [];
}

abbrev load : Hash → Option HotstuffBlockWire
load hash = if hash == 7 then some saved_wire else none

abbrev top_qc : QuorumCertificateWire
top_qc = record { justify = 7; bmp = 0; sigs = [] }

abbrev saved_index : Index in_memory big_endian_layout
saved_index = record {
  contents = record {
    made = λ t. true;
    puts = λ t. elim t [
      | data_dbi ↦
          (append_unsigned_big_endian 8 [] 1, append_unsigned_big_endian 32 [] 7 ++ (5 ∷ [])) ∷ []
      | metadata_dbi ↦ (qc_key, 7 ∷ 0 ∷ []) ∷ []
    ];
  };
  env_open = true;
  metadata_dbi_open = true;
  dbi_valid = true;
}

saved_index-listed : forward_cursor in_memory big_endian_layout saved_index ≡ ok ((1, 7) ∷ [])
unfolding forward_cursor visit dereference hash_and_rest split_bytes read_unsigned_big_endian
    read_bytes append_unsigned_big_endian
saved_index-listed = refl

saved_index-qc : get_highest_qc in_memory big_endian_layout saved_index ≡ ok top_qc
unfolding get_highest_qc
saved_index-qc = refl

started-IsSound : IsSound started.network.block_store started.core.heap
unfolding new_store emplace genesis_block genesis_heap init_core
started-IsSound = record {
  store = first_store-IsStore;
  room = λ p. ground arith;
  no_parent = λ p above. ground (arith, above);
  undecided = λ p above. ground (arith, above);
  parent_used = λ p q e. ground (arith, e);
  cached_used = λ k p e. ground (arith, e);
}

started-Holds : Holds started.network.block_store (0 ∷ [])
unfolding new_store emplace genesis_block genesis_heap get_block get_hash empty_qc
started-Holds = record { has = λ k e. (0, ground (arith, e)); only = λ k x e. ground (arith, e) }

saved-IsChain : IsChain toy_sodium load 0 0 (0 ∷ []) ((1, 7) ∷ [])
unfolding parse_qc
saved-IsChain = ((saved_wire, refl, refl, refl, refl), refl, refl, omega arith, tt)

reload_decided_blocks-Restored_example :
    (app' : HotstuffApp ℕ) × (reload_decided_blocks toy_sodium load in_memory big_endian_layout
        saved_index started
      ≡ ok (last_height 0 ((1, 7) ∷ []), app'))
    × AreStored app'.network.block_store app'.core.heap ((1, 7) ∷ [])
    × IsSound app'.network.block_store app'.core.heap
    × (get_block top_qc.justify app'.network.block_store ≡ some app'.core.b_exec)
    × (height app'.core app'.core.b_exec ≡ last_height 0 ((1, 7) ∷ []))
    × (app'.core.b_lock ≡ app'.core.b_exec)
    × (app'.core.vheight ≡ last_height 0 ((1, 7) ∷ []) % 2 ^ 32)
unfolding new_store emplace genesis_block genesis_heap init_core get_block get_hash empty_qc
reload_decided_blocks-Restored_example =
    reload_decided_blocks-Restored toy_sodium load in_memory big_endian_layout saved_index started
      ((1, 7) ∷ []) top_qc 0 (0 ∷ []) 0 saved_index-listed saved_index-qc started-IsSound
      started-Holds refl refl saved-IsChain refl
