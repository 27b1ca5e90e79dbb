-- ===== src/Storage/Files/Saved.antt =====
-- What is saved is loaded: `save_block` and `load_block` of block_storage/io_utils.cc.
use mathlib.Core.Path.{subst}
use cs244b_fp.Prelude.{
  ℕ, ◌^◌, ◌<◌, ◌≡◌, ◌≢◌, refl, sym, ap, ◌∙◌, inl, inr, ◌⊎◌, some, Option, List, [], ◌∷◌, Result, ok,
  ◌>>=◌, Bool, true, arith, Bool-cases, ◌==◌,
}
use cs244b_fp.Prelude.Lists.{All}
use cs244b_fp.Config.{Hash}
use cs244b_fp.Wire.{HotstuffBlockWire, Sodium}
use cs244b_fp.Block.{save_each}
use cs244b_fp.Storage.Files.{
  FileSystem, IsFileSystem, BlockXdr, load_xdr_from_file, block_filename, save_block, load_block,
  save_xdr_to_file,
}
use cs244b_fp.Storage.Files.Names.{block_filename_injective}

-- Blocks of one hash are one block.
abbrev pub OneEach : Sodium → List HotstuffBlockWire → Type 0
OneEach sodium [] = Unit
OneEach sodium (b ∷ bs) =
    All (λ x. sodium.hash_header x.header ≡ sodium.hash_header b.header → x ≡ b) bs
    × OneEach sodium bs

-- A block with a hash of 256 bits, whose xdr form is read as the block.
pub record IsEncodable (sodium : Sodium) (xdr : BlockXdr) (b : HotstuffBlockWire) : Type 0 where
  pub hash_fits : sodium.hash_header b.header < 2 ^ 256
  pub decodes : xdr.from_opaque (xdr.to_opaque b) ≡ ok b

module _ (sodium : Sodium) (files : FileSystem) (xdr : BlockXdr) (data_dir : List ℕ)
    (is : IsFileSystem files) where
  abbrev hash_of : HotstuffBlockWire → Hash
  hash_of b = sodium.hash_header b.header

  abbrev load : Hash → files.Contents → Result (Option HotstuffBlockWire)
  load = load_block sodium files xdr data_dir

  -- The saves of the blocks, one after the other, all open their file and report success.
  abbrev pub WritesAll : List HotstuffBlockWire → files.Contents → Type 0
  WritesAll [] c = Unit
  WritesAll (b ∷ bs) c =
      (d : files.Contents) × (files.write (block_filename data_dir (hash_of b)) (xdr.to_opaque b) c
        ≡ some (true, d))
      × WritesAll bs d

  -- The save of a block whose file can be opened returns.
  save_block-opened :
      (b : HotstuffBlockWire) (success : Bool) (c d : files.Contents)
      → files.write (block_filename data_dir (hash_of b)) (xdr.to_opaque b) c ≡ some (success, d)
      → save_block sodium files xdr data_dir b c ≡ ok d
  unfolding save_block save_xdr_to_file
  save_block-opened b success c d e = rw (e, save_block, save_xdr_to_file)

  load_block-written :
      (b : HotstuffBlockWire) (c d : files.Contents)
      → IsEncodable sodium xdr b
      → files.write (block_filename data_dir (hash_of b)) (xdr.to_opaque b) c ≡ some (true, d)
      → load (hash_of b) d ≡ ok (some b)
  unfolding load_block
  load_block-written b c d enc e =
      ap (load_xdr_from_file xdr) (is.read_written _ _ c d e)
      ∙ ap (λ r. r >>= (λ block. ok (some block))) enc.decodes

  load_block-written_other :
      (b : HotstuffBlockWire) (k : Hash) (c d : files.Contents)
      → IsEncodable sodium xdr b
      → k < 2 ^ 256
      → hash_of b ≢ k
      → files.write (block_filename data_dir (hash_of b)) (xdr.to_opaque b) c ≡ some (true, d)
      → load k d ≡ load k c
  unfolding load_block
  load_block-written_other b k c d enc fits other e = ap (load_xdr_from_file xdr) (
      is.read_other (block_filename data_dir (hash_of b)) (xdr.to_opaque b)
        (block_filename data_dir k) true c d e
        (λ f. other (sym (block_filename_injective data_dir k (hash_of b) fits enc.hash_fits f))))

  -- No block with the hash is saved, or one is.
  saved_or_not :
      (k : Hash) (b : HotstuffBlockWire) (d : files.Contents) (bs : List HotstuffBlockWire)
      → hash_of b ≡ k
      → All (λ x. hash_of x ≡ hash_of b → x ≡ b) bs
      → All (λ x. load (hash_of x) d ≡ ok (some x)) bs
      → All (λ x. hash_of x ≢ k) bs ⊎ (load k d ≡ ok (some b))
  saved_or_not k b d [] named ones loaded = inl tt
  saved_or_not k b d (x ∷ bs) named ones loaded = elim (Bool-cases (hash_of x == k)) [
    | inl same ↦
        let e : hash_of x ≡ k = ground (arith, same) in
        inr (
          subst (λ y. load y d ≡ ok (some b)) e
            (loaded.0 ∙ ap (λ y. ok (some y)) (ones.0 (e ∙ sym named))))
    | inr other ↦ elim (saved_or_not k b d bs named ones.1 loaded.1) [
      | inl none_there ↦ inl ((λ e. ground (arith, other, e)), none_there)
      | inr there ↦ inr there
    ]
  ]

  -- Blocks are saved one after the other, blocks of one hash are one block, and each is read back from
  -- its xdr form. If every file can be opened and every write, flush, sync and close reports success,
  -- which `save_block` does not check, then the saves return, each block is loaded by its hash
  -- afterwards, whatever was saved after it, and for any other hash what is loaded is what was loaded
  -- before.
  pub load_block-save_each :
      (bs : List HotstuffBlockWire) (c : files.Contents)
      → All (IsEncodable sodium xdr) bs
      → OneEach sodium bs
      → WritesAll bs c
      → (d : files.Contents) × (save_each (save_block sodium files xdr data_dir) bs c ≡ ok d)
        × All (λ b. load (hash_of b) d ≡ ok (some b)) bs
        × ((k : Hash) → k < 2 ^ 256 → All (λ b. hash_of b ≢ k) bs → load k d ≡ load k c)
  unfolding save_each
  load_block-save_each [] c enc ones writes = (c, refl, tt, λ k fits others. refl)
  load_block-save_each (b ∷ bs) c enc ones (c', w, ws) =
      let (d, e, all, rest) = load_block-save_each bs c' enc.1 ones.1 ws in
      let saved = save_block-opened b true c c' w in
      let first : load (hash_of b) d ≡ ok (some b) =
        elim (saved_or_not (hash_of b) b d bs refl ones.0 all) [
          | inl others ↦ rest (hash_of b) enc.0.hash_fits others ∙ load_block-written b c c' enc.0 w
          | inr there ↦ there
        ] in
      (
        d,
        ap (λ r. r >>= save_each (save_block sodium files xdr data_dir) bs) saved ∙ e,
        (first, all),
        λ k fits others.
            rest k fits others.1 ∙ load_block-written_other b k c c' enc.0 fits others.0 w,
      )
