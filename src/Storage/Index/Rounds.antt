-- ===== src/Storage/Index/Rounds.antt =====
-- The number of the last round that the index has committed.
use cs244b_fp.Prelude.{
  ℕ, zero, suc, ◌+◌, ◌%◌, ◌^◌, ◌<◌, ◌≡◌, refl, ◌∙◌, inl, inr, ◌⊎◌, true, false, none, some, ltb,
  ◌==◌, if◌then◌else◌, tests, ok, err, arith, Bool-cases, round_overwritten, database_exists,
}
use cs244b_fp.Storage.Index.Layouts.{Dbi, data_dbi, metadata_dbi, Lmdb, Layout, IsLmdb, IsLayout}
use cs244b_fp.Storage.Index.{
  Index, Txn, open_env, get_persisted_round_number, persisted_block_key,
  write_persisted_round_number, preexisting, create_db, open_db, commit_wtxn, commit,
}

nonzero : (n : ℕ) → (suc n == 0) ≡ false
nonzero n = ground arith

module _ (lmdb : Lmdb) (layout : Layout) where
  abbrev pub committed : ℕ → Txn lmdb layout → Index lmdb layout → Index lmdb layout
  committed round tx index = record index {
    contents = write_persisted_round_number lmdb layout round tx.pending;
  }

module _ (lmdb : Lmdb) (layout : Layout) (is : IsLmdb lmdb) (lay : IsLayout layout) where
  -- The contents have both databases, and the bytes of the round number.
  pub record HasRound (contents : lmdb.Contents) (round : ℕ) : Type 0 where
    pub tables : (t : Dbi) → lmdb.exists t contents ≡ true
    pub small : round < 2 ^ 64
    pub stored :
        lmdb.mdb_get metadata_dbi persisted_block_key contents ≡ some (layout.uint64_bytes round)

  pub record IsOpen (index : Index lmdb layout) (round : ℕ) : Type 0 where
    pub env : index.env_open ≡ true
    pub metadata : index.metadata_dbi_open ≡ true
    pub handle : index.dbi_valid ≡ true
    pub at_round : HasRound index.contents round

  pub IsOpen-round :
      (index : Index lmdb layout) (round : ℕ)
      → IsOpen index round
      → get_persisted_round_number lmdb layout index ≡ ok round
  unfolding get_persisted_round_number
  IsOpen-round index round o =
      rw o.env
        (rw o.metadata (rw o.at_round.stored (rw (lay.uint64_read round o.at_round.small) refl)))

  pub write-HasRound :
      (round : ℕ) (contents : lmdb.Contents)
      → round < 2 ^ 64
      → ((t : Dbi) → lmdb.exists t contents ≡ true)
      → HasRound (write_persisted_round_number lmdb layout round contents) round
  write-HasRound round contents small tables = record {
    tables = λ t. is.put_keeps t metadata_dbi _ _ contents ∙ tables t;
    small = small;
    stored = is.get_put metadata_dbi persisted_block_key persisted_block_key _ contents;
  }

  pub commit-ok :
      (index : Index lmdb layout) (round : ℕ) (tx : Txn lmdb layout)
      → IsOpen index round
      → commit lmdb layout tx index ≡ (
          if ltb ((round + 1) % 2 ^ 64) round
          then err round_overwritten
          else ok (committed lmdb layout ((round + 1) % 2 ^ 64) tx index))
  unfolding commit commit_wtxn
  commit-ok index round tx o = rw (IsOpen-round index round o) (rw o.env refl)

  pub committed-IsOpen :
      (index : Index lmdb layout) (round next : ℕ) (tx : Txn lmdb layout)
      → IsOpen index round
      → next < 2 ^ 64
      → ((t : Dbi) → lmdb.exists t tx.pending ≡ true)
      → IsOpen (committed lmdb layout next tx index) next
  committed-IsOpen index round next tx o small tables = record {
    env = o.env;
    metadata = o.metadata;
    handle = o.handle;
    at_round = write-HasRound next tx.pending small tables;
  }

  pub open_db-IsOpen :
      (index : Index lmdb layout) (round : ℕ)
      → IsOpen index round
      → open_db lmdb layout (open_env lmdb layout index.contents) ≡ ok index
  unfolding open_db open_env
  open_db-IsOpen index round o =
      rw (o.at_round.tables data_dbi)
        (rw (o.at_round.tables metadata_dbi) (rw o.at_round.stored cc))

  -- Committing a transaction raises the round number by one, and the next replica to open the
  -- environment finds it; the last round of 64 bits is followed by none.
  pub commit-rounds :
      (index : Index lmdb layout) (round : ℕ) (tx : Txn lmdb layout)
      → IsOpen index round
      → ((t : Dbi) → lmdb.exists t tx.pending ≡ true)
      → ((suc round < 2 ^ 64)
          × (index' : Index lmdb layout) × (commit lmdb layout tx index ≡ ok index')
          × (get_persisted_round_number lmdb layout index' ≡ ok (suc round))
          × (open_db lmdb layout (open_env lmdb layout index'.contents) ≡ ok index'))
        ⊎ ((suc round ≡ 2 ^ 64) × (commit lmdb layout tx index ≡ err round_overwritten))
  commit-rounds index round tx o tables = elim (Bool-cases (ltb ((round + 1) % 2 ^ 64) round)) [
    | inl wraps ↦
        inr (omega (tests, wraps, o.at_round.small), commit-ok index round tx o ∙ rw wraps refl)
    | inr stays ↦
        (let small : suc round < 2 ^ 64 = ground (arith, stays, o.at_round.small) in
          let same : (round + 1) % 2 ^ 64 ≡ suc round = omega arith in
          let o' = committed-IsOpen index round (suc round) tx o small tables in
          inl (
            small,
            committed lmdb layout (suc round) tx index,
            commit-ok index round tx o ∙ rw stays (rw same refl),
            IsOpen-round (committed lmdb layout (suc round) tx index) (suc round) o',
            open_db-IsOpen (committed lmdb layout (suc round) tx index) (suc round) o',
          ))
  ]

  -- The bytes of a round number are stored, or there are none and the round is 0.
  pub record WasAt (contents : lmdb.Contents) (round : ℕ) : Type 0 where
    pub below : round < 2 ^ 64
    pub was :
        ((lmdb.mdb_get metadata_dbi persisted_block_key contents ≡ none) × (round ≡ 0))
        ⊎ (lmdb.mdb_get metadata_dbi persisted_block_key contents
            ≡ some (layout.uint64_bytes round))

  preexisting-WasAt :
      (contents : lmdb.Contents) (round : ℕ)
      → WasAt contents round
      → preexisting lmdb layout (lmdb.create metadata_dbi (lmdb.create data_dbi contents))
        ≡ ok round
  unfolding preexisting
  preexisting-WasAt contents round w =
      let same =
        is.get_create metadata_dbi metadata_dbi persisted_block_key (lmdb.create data_dbi contents)
        ∙ is.get_create metadata_dbi data_dbi persisted_block_key contents in
      elim w.was [
        | inl (free, zero_round) ↦ rw (preexisting, same ∙ free) (rw zero_round refl)
        | inr bytes ↦ rw (preexisting, same ∙ bytes) (rw (lay.uint64_read round w.below) refl)
      ]

  create-tables :
      (contents : lmdb.Contents) (t : Dbi)
      → lmdb.exists t (lmdb.create metadata_dbi (lmdb.create data_dbi contents)) ≡ true
  create-tables contents data_dbi =
      is.create_keeps data_dbi metadata_dbi _ (is.exists_create data_dbi _)
  create-tables contents metadata_dbi = is.exists_create metadata_dbi _

  -- A database is created where no round has been committed, and starts at round 0.
  pub create_db-rounds :
      (index : Index lmdb layout) (round : ℕ)
      → index.env_open ≡ true
      → WasAt index.contents round
      → ((round ≡ 0)
          × (index' : Index lmdb layout) × (create_db lmdb layout index ≡ ok index')
          × (get_persisted_round_number lmdb layout index' ≡ ok 0)
          × (open_db lmdb layout (open_env lmdb layout index'.contents) ≡ ok index'))
        ⊎ ((0 < round) × (create_db lmdb layout index ≡ err database_exists))
  unfolding create_db
  create_db-rounds index zero env w =
      let opened = lmdb.create metadata_dbi (lmdb.create data_dbi index.contents) in
      let index' : Index lmdb layout = record {
        contents = write_persisted_round_number lmdb layout 0 opened;
        env_open = index.env_open;
        metadata_dbi_open = true;
        dbi_valid = true;
      } in
      let o : IsOpen index' 0 = record {
        env = env;
        metadata = refl;
        handle = refl;
        at_round = write-HasRound 0 opened (omega arith) (create-tables index.contents);
      } in
      inl (
        refl,
        index',
        rw (preexisting-WasAt index.contents 0 w) (rw env refl),
        IsOpen-round index' 0 o,
        open_db-IsOpen index' 0 o,
      )
  create_db-rounds index (suc round) env w = inr (
    omega arith,
    rw (preexisting-WasAt index.contents (suc round) w) (rw env (rw (nonzero round) refl)),
  )
