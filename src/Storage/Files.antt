-- ===== src/Storage/Files.antt =====
-- block_storage/io_utils.cc, with the calls of utils/save_load_xdr.h: blocks in files, which are named
-- by their hashes. Names and contents are lists of bytes. The file system is a parameter, and so is
-- the xdr form of a block.
pub mod Names
pub mod Saved
use cs244b_fp.Prelude.{
  Bool, true, ℕ, ◌+◌, ◌/◌, ◌%◌, Option, none, some, List, [], ◌∷◌, ◌++◌, ◌≡◌, ◌≢◌, ltb,
  if◌then◌else◌, Result, ok, or_fail, ◌>>=◌, save_failed,
}
use cs244b_fp.Config.{Hash}
use cs244b_fp.Wire.{HotstuffBlockWire, Sodium}
use cs244b_fp.Utils.BigEndian.{big_endian}

-- `write` is `fopen` for writing, `fwrite`, `fflush`, `fsync` and `fclose`: it is empty where `fopen`
-- fails, and otherwise says whether the others report success. `read` is `fopen` for reading and
-- `fread` to the end.
pub record FileSystem : Type 1 where
  pub Contents : Type 0
  pub write : List ℕ → List ℕ → Contents → Option (Bool × Contents)
  pub read : List ℕ → Contents → Option (List ℕ)

-- A file holds what was written last if that was reported as a success, and no other file changes.
pub record IsFileSystem (files : FileSystem) : Type 0 where
  pub read_written :
      (name bytes : List ℕ) (c d : files.Contents)
      → files.write name bytes c ≡ some (true, d)
      → files.read name d ≡ some bytes
  pub read_other :
      (name bytes other : List ℕ) (success : Bool) (c d : files.Contents)
      → files.write name bytes c ≡ some (success, d)
      → other ≢ name
      → files.read other d ≡ files.read other c

-- `xdr_to_opaque` and `xdr_from_opaque` of a block; the latter throws on bytes of another shape.
pub record BlockXdr : Type 0 where
  pub to_opaque : HotstuffBlockWire → List ℕ
  pub from_opaque : List ℕ → Result HotstuffBlockWire

-- `std::hex`, for a digit.
abbrev pub hex_digit : ℕ → ℕ
hex_digit d = if ltb d 10 then 48 + d else 87 + d

-- The loop of `array_to_str`: two digits for each byte.
unfoldable pub array_to_str : List ℕ → List ℕ
array_to_str [] = []
array_to_str (b ∷ bytes) = hex_digit (b / 16) ∷ hex_digit (b % 16) ∷ array_to_str bytes

-- `HOTSTUFF_BLOCKS`, as it is configured: `hotstuff_blocks/`.
abbrev pub hotstuff_blocks : List ℕ
hotstuff_blocks =
    104 ∷ 111 ∷ 116 ∷ 115 ∷ 116 ∷ 117 ∷ 102 ∷ 102 ∷ 95 ∷ 98 ∷ 108 ∷ 111 ∷ 99 ∷ 107 ∷ 115 ∷ 47 ∷ []

-- `.block`.
abbrev pub block_suffix : List ℕ
block_suffix = 46 ∷ 98 ∷ 108 ∷ 111 ∷ 99 ∷ 107 ∷ []

unfoldable pub block_filename : List ℕ → Hash → List ℕ
block_filename data_dir header_hash =
    (data_dir ++ hotstuff_blocks) ++ (array_to_str (big_endian 32 header_hash) ++ block_suffix)

-- With the bytes of the file, or without where it cannot be opened.
abbrev pub load_xdr_from_file : BlockXdr → Option (List ℕ) → Result (Option HotstuffBlockWire)
load_xdr_from_file xdr none = ok none
load_xdr_from_file xdr (some contents) = do output ← xdr.from_opaque contents; ok (some output)

module _ (sodium : Sodium) (files : FileSystem) (xdr : BlockXdr) (data_dir : List ℕ) where
  -- `save_xdr_to_file`: only `fopen` is checked.
  unfoldable pub save_xdr_to_file :
      HotstuffBlockWire → List ℕ → files.Contents → Option files.Contents
  save_xdr_to_file value filename c = elim (files.write filename (xdr.to_opaque value) c) [
    | none ↦ none
    | some (success, c') ↦ some c'
  ]

  -- With `block_filename` of a block.
  unfoldable pub save_block : HotstuffBlockWire → files.Contents → Result files.Contents
  unfolding save_xdr_to_file
  save_block block c =
      or_fail (save_xdr_to_file block (block_filename data_dir (sodium.hash_header block.header)) c)
        save_failed

  unfoldable pub load_block : Hash → files.Contents → Result (Option HotstuffBlockWire)
  load_block req_header_hash c =
      load_xdr_from_file xdr (files.read (block_filename data_dir req_header_hash) c)
