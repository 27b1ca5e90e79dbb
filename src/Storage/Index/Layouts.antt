-- ===== src/Storage/Index/Layouts.antt =====
-- What the index takes from LMDB, and how hashes, certificates and numbers are laid out as bytes.
use cs244b_fp.Prelude.{
  ℕ, ◌^◌, ◌<◌, ◌≡◌, ◌≢◌, Bool, true, ◌||◌, if◌then◌else◌, Option, none, some, List, [], ◌∷◌, length,
  Result, ok,
}
use cs244b_fp.Config.{Hash}
use cs244b_fp.Wire.{QuorumCertificateWire}
use cs244b_fp.Utils.BigEndian.Order.{lex_ltb}

pub data Dbi : Type 0 where
  data_dbi metadata_dbi : Dbi

-- The contents of an environment: `create` is `mdb_dbi_open` with MDB_CREATE, `exists` tells whether
-- it succeeds without, `entries` are the pairs that a cursor passes from MDB_FIRST on.
pub record Lmdb : Type 1 where
  pub Contents : Type 0
  pub create : Dbi → Contents → Contents
  pub exists : Dbi → Contents → Bool
  pub mdb_get : Dbi → List ℕ → Contents → Option (List ℕ)
  pub mdb_put : Dbi → List ℕ → List ℕ → Contents → Contents
  pub entries : Dbi → Contents → List (List ℕ × List ℕ)

-- Keys in the order of `memcmp`, each once.
abbrev pub KeysAbove : List ℕ → List (List ℕ × List ℕ) → Type 0
KeysAbove key [] = Unit
KeysAbove key ((k, v) ∷ entries) = (lex_ltb key k ≡ true) × KeysAbove key entries

abbrev pub KeysAscend : List (List ℕ × List ℕ) → Type 0
KeysAscend [] = Unit
KeysAscend ((k, v) ∷ entries) = KeysAbove k entries × KeysAscend entries

abbrev pub find_key : List ℕ → List (List ℕ × List ℕ) → Option (List ℕ)
find_key key [] = none
find_key key ((k, v) ∷ entries) =
    if lex_ltb key k || lex_ltb k key then find_key key entries else some v

-- The documented behaviour of LMDB.
pub record IsLmdb (lmdb : Lmdb) : Type 0 where
  pub get_put :
      (t : Dbi) (j k v : List ℕ) (c : lmdb.Contents)
      → lmdb.mdb_get t j (lmdb.mdb_put t k v c)
        ≡ (if lex_ltb j k || lex_ltb k j then lmdb.mdb_get t j c else some v)
  pub put_elsewhere :
      (s t : Dbi) (j k v : List ℕ) (c : lmdb.Contents)
      → s ≢ t
      → lmdb.mdb_get s j (lmdb.mdb_put t k v c) ≡ lmdb.mdb_get s j c
  pub get_create :
      (s t : Dbi) (j : List ℕ) (c : lmdb.Contents)
      → lmdb.mdb_get s j (lmdb.create t c) ≡ lmdb.mdb_get s j c
  pub exists_create : (t : Dbi) (c : lmdb.Contents) → lmdb.exists t (lmdb.create t c) ≡ true
  pub create_keeps :
      (s t : Dbi) (c : lmdb.Contents)
      → lmdb.exists s c ≡ true
      → lmdb.exists s (lmdb.create t c) ≡ true
  pub put_keeps :
      (s t : Dbi) (k v : List ℕ) (c : lmdb.Contents)
      → lmdb.exists s (lmdb.mdb_put t k v c) ≡ lmdb.exists s c
  pub ascend : (t : Dbi) (c : lmdb.Contents) → KeysAscend (lmdb.entries t c)
  pub visited :
      (t : Dbi) (k : List ℕ) (c : lmdb.Contents)
      → find_key k (lmdb.entries t c) ≡ lmdb.mdb_get t k c

-- `xdr_from_opaque` throws on bytes of another shape; `uint64` on another length.
pub record Layout : Type 0 where
  pub hash_bytes : Hash → List ℕ
  pub hash_from_opaque : List ℕ → Result Hash
  pub qc_bytes : QuorumCertificateWire → List ℕ
  pub qc_from_opaque : List ℕ → Result QuorumCertificateWire
  pub uint64_bytes : ℕ → List ℕ
  pub uint64 : List ℕ → Option ℕ

pub record IsLayout (layout : Layout) : Type 0 where
  pub hash_length : (k : Hash) → length (layout.hash_bytes k) ≡ 32
  pub hash_read : (k : Hash) → k < 2 ^ 256 → layout.hash_from_opaque (layout.hash_bytes k) ≡ ok k
  pub uint64_read : (n : ℕ) → n < 2 ^ 64 → layout.uint64 (layout.uint64_bytes n) ≡ some n
