-- ===== src/Storage/Index/Decide.antt =====
-- One commitment of the core as the index sees it: a transaction with a block and its certificate.
use cs244b_fp.Prelude.{
  ℕ, suc, ◌+◌, ◌%◌, ◌^◌, ◌<◌, ◌≡◌, ◌≢◌, refl, sym, ◌∙◌, true, false, some, List, ◌++◌, ◌==◌,
  ==_refl, ltb, Result, ok, ◌>>=◌, arith,
}
use cs244b_fp.Crypto.Certs.{QuorumCertificate, serialize}
use cs244b_fp.Block.{HotstuffBlock, get_height, get_hash}
use cs244b_fp.Storage.Index.Layouts.{Dbi, data_dbi, metadata_dbi, Lmdb, Layout, IsLmdb, IsLayout}
use cs244b_fp.Storage.Index.{
  Index, Txn, open_txn, commit, add_decided_block, set_qc_on_top_block, get_highest_qc, qc_key,
  persisted_block_key, get_persisted_round_number, get_decided_hash_id_pair,
}
use cs244b_fp.Storage.Index.Rounds.{IsOpen, IsOpen-round, commit-ok, committed, committed-IsOpen}
use cs244b_fp.Storage.Index.Entries.{
  key_of, added, add_decided_block_lem, get_data-added, get_decided_hash_id_pair_lem,
  hash_and_rest-append, IsIndexed, added-IsIndexed,
}

module _ (lmdb : Lmdb) (layout : Layout) where
  -- The calls of the core for a chain of one block.
  abbrev pub decide_block :
      HotstuffBlock → List ℕ → QuorumCertificate → Index lmdb layout → Result (Index lmdb layout)
  decide_block blk id qc index = do
    tx ← open_txn lmdb layout index
    tx' ← add_decided_block lmdb layout blk id tx
    commit lmdb layout (set_qc_on_top_block lmdb layout qc tx') index

  abbrev with_block : HotstuffBlock → List ℕ → Index lmdb layout → Txn lmdb layout
  with_block blk id index = added lmdb layout blk id (record { pending = index.contents })

  abbrev decided_index :
      ℕ → HotstuffBlock → List ℕ → QuorumCertificate → Index lmdb layout → Index lmdb layout
  decided_index round blk id qc index =
      committed lmdb layout (suc round)
        (set_qc_on_top_block lmdb layout qc (with_block blk id index)) index

module _ (lmdb : Lmdb) (layout : Layout) (is : IsLmdb lmdb) (lay : IsLayout layout)
    (index : Index lmdb layout) (round : ℕ) (blk : HotstuffBlock) (id : List ℕ)
    (qc : QuorumCertificate) (o : IsOpen lmdb layout is lay index round)
    (more : suc round < 2 ^ 64) where
  open_txn-ok : open_txn lmdb layout index ≡ ok (record { pending = index.contents })
  unfolding open_txn
  open_txn-ok = rw o.env (rw o.handle refl)

  decide_block-ok :
      decide_block lmdb layout blk id qc index
      ≡ ok (decided_index lmdb layout round blk id qc index)
  decide_block-ok =
      let last : ltb ((round + 1) % 2 ^ 64) round ≡ false = ground (arith, more) in
      let next : (round + 1) % 2 ^ 64 ≡ suc round = omega arith in
      let tx = set_qc_on_top_block lmdb layout qc (with_block lmdb layout blk id index) in
      rw open_txn-ok (
        rw (add_decided_block_lem lmdb layout is lay blk id (record { pending = index.contents }))
          (commit-ok lmdb layout is lay index round tx o ∙ rw last (rw next refl)))

  get_data-decided :
      (k : List ℕ)
      → lmdb.mdb_get data_dbi k (decided_index lmdb layout round blk id qc index).contents
        ≡ lmdb.mdb_get data_dbi k (with_block lmdb layout blk id index).pending
  unfolding set_qc_on_top_block
  get_data-decided k =
      is.put_elsewhere data_dbi metadata_dbi k persisted_block_key _ _ (λ e. cc)
      ∙ is.put_elsewhere data_dbi metadata_dbi k qc_key _ _ (λ e. cc)

  decided-tables :
      (t : Dbi)
      → lmdb.exists t
          (set_qc_on_top_block lmdb layout qc (with_block lmdb layout blk id index)).pending
        ≡ true
  unfolding set_qc_on_top_block
  decided-tables t =
      is.put_keeps t metadata_dbi _ _ _ ∙ is.put_keeps t data_dbi _ _ _ ∙ o.at_round.tables t

  get_highest_qc-decided :
      layout.qc_from_opaque (layout.qc_bytes (serialize qc)) ≡ ok (serialize qc)
      → get_highest_qc lmdb layout (decided_index lmdb layout round blk id qc index)
        ≡ ok (serialize qc)
  unfolding get_highest_qc set_qc_on_top_block
  get_highest_qc-decided read =
      let contents = (with_block lmdb layout blk id index).pending in
      let bytes = layout.qc_bytes (serialize qc) in
      let there =
        is.get_put metadata_dbi qc_key persisted_block_key (layout.uint64_bytes (suc round))
          (lmdb.mdb_put metadata_dbi qc_key bytes contents)
        ∙ is.get_put metadata_dbi qc_key qc_key bytes contents in
      rw there read

  -- Deciding a block in the index succeeds while the round number has room. Afterwards the block's
  -- height finds its hash, every other 64-bit height finds what it found before, the certificate is
  -- the highest, and the round number is one more; entries stay those of decided blocks.
  pub decide_block-lookup :
      get_height blk < 2 ^ 64
      → get_hash blk < 2 ^ 256
      → layout.qc_from_opaque (layout.qc_bytes (serialize qc)) ≡ ok (serialize qc)
      → IsIndexed lmdb layout is lay index.contents
      → (index' : Index lmdb layout) × (decide_block lmdb layout blk id qc index ≡ ok index')
        × ((value : List ℕ) × (get_decided_hash_id_pair lmdb layout (get_height blk) index'
              ≡ ok (some (get_hash blk, value))))
        × ((h : ℕ)
            → h < 2 ^ 64
            → h ≢ get_height blk
            → get_decided_hash_id_pair lmdb layout h index'
              ≡ get_decided_hash_id_pair lmdb layout h index)
        × (get_highest_qc lmdb layout index' ≡ ok (serialize qc))
        × (get_persisted_round_number lmdb layout index' ≡ ok (suc round))
        × IsIndexed lmdb layout is lay index'.contents
  decide_block-lookup small hash_small read indexed =
      let index' = decided_index lmdb layout round blk id qc index in
      let opened =
        committed-IsOpen lmdb layout is lay index round (suc round) _ o more decided-tables in
      let value = layout.hash_bytes (get_hash blk) ++ id in
      let before = λ (h : ℕ) (p : h < 2 ^ 64).
        get_data-decided (key_of h)
        ∙ get_data-added lmdb layout is lay blk id (record { pending = index.contents }) h p
            small in
      (
        index',
        decide_block-ok,
        (
          value,
          get_decided_hash_id_pair_lem lmdb layout is lay index' (get_height blk) o.handle
              ∙ rw (before (get_height blk) small) (
                  rw (==_refl (get_height blk)) (
                    rw (hash_and_rest-append lmdb layout is lay (get_hash blk) id hash_small)
                      refl)),
        ),
        (λ h p other.
            let same : (h == get_height blk) ≡ false = ground (arith, other) in
            get_decided_hash_id_pair_lem lmdb layout is lay index' h o.handle
            ∙ rw (before h p)
                (rw same (sym (get_decided_hash_id_pair_lem lmdb layout is lay index h o.handle)))),
        get_highest_qc-decided read,
        IsOpen-round lmdb layout is lay index' (suc round) opened,
        (λ k v e.
            added-IsIndexed lmdb layout is lay blk id (record { pending = index.contents }) small
              hash_small indexed k v (sym (get_data-decided k) ∙ e)),
      )
