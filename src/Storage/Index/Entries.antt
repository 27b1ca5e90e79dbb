-- ===== src/Storage/Index/Entries.antt =====
-- What the index stores of a decided block, and what a lookup by height makes of it.
use mathlib.Core.List.{append-nil}
use cs244b_fp.Prelude.{
  ℕ, ◌^◌, ◌<◌, ◌≡◌, refl, sym, ap, ◌∙◌, inl, inr, true, not, ◌||◌, none, some, List, [], ◌∷◌, ◌++◌,
  ltb, ◌==◌, if◌then◌else◌, ok, ◌>>=◌, length, arith, Bool-cases,
}
use cs244b_fp.Config.{Hash}
use cs244b_fp.Block.{HotstuffBlock, get_height, get_hash}
use cs244b_fp.Utils.BigEndian.{append_unsigned_big_endian, write-append_big_endian}
use cs244b_fp.Utils.BigEndian.Order.{lex_ltb, lex_ltb_total, append_big_endian-lex}
use cs244b_fp.Storage.Index.Layouts.{data_dbi, Lmdb, Layout, IsLmdb, IsLayout, KeysAbove, find_key}
use cs244b_fp.Storage.Index.{
  Index, Txn, key_array, height_key, split_bytes, hash_and_rest, add_decided_block,
  get_decided_hash_id_pair,
}

abbrev pub key_of : ℕ → List ℕ
key_of h = append_unsigned_big_endian 8 [] h

pub height_key_lem : (h : ℕ) → height_key h ≡ ok (key_of h)
unfolding height_key
height_key_lem h = write-append_big_endian 8 h [] key_array [] refl ∙ ap ok (append-nil (key_of h))

split_bytes-append :
    (front back : List ℕ) → split_bytes (length front) (front ++ back) ≡ ok (front, back)
unfolding split_bytes
split_bytes-append [] back = refl
split_bytes-append (b ∷ front) back = rw (split_bytes-append front back) refl

pub key_of-order : (h k : ℕ) → h < 2 ^ 64 → k < 2 ^ 64 → lex_ltb (key_of h) (key_of k) ≡ ltb h k
key_of-order h k = append_big_endian-lex 8 h k

pub same_key :
    (h k : ℕ)
    → h < 2 ^ 64
    → k < 2 ^ 64
    → (lex_ltb (key_of h) (key_of k) || lex_ltb (key_of k) (key_of h)) ≡ not (h == k)
same_key h k p q = ground (arith, key_of-order h k p q, key_of-order k h q p)

pub find_key-KeysAbove :
    (k : List ℕ) (es : List (List ℕ × List ℕ)) → KeysAbove k es → find_key k es ≡ none
find_key-KeysAbove k [] above = refl
find_key-KeysAbove k ((j, v) ∷ es) above = rw above.0 (find_key-KeysAbove k es above.1)

module _ (lmdb : Lmdb) (layout : Layout) where
  abbrev pub added : HotstuffBlock → List ℕ → Txn lmdb layout → Txn lmdb layout
  added blk id tx = record {
    pending =
        lmdb.mdb_put data_dbi (key_of (get_height blk)) (layout.hash_bytes (get_hash blk) ++ id)
          tx.pending;
  }

module _ (lmdb : Lmdb) (layout : Layout) (is : IsLmdb lmdb) (lay : IsLayout layout) where
  pub hash_and_rest-append :
      (k : Hash) (rest : List ℕ)
      → k < 2 ^ 256
      → hash_and_rest lmdb layout (layout.hash_bytes k ++ rest) ≡ ok (k, rest)
  unfolding hash_and_rest
  hash_and_rest-append k rest small =
      let front = layout.hash_bytes k in
      let split : split_bytes 32 (front ++ rest) ≡ ok (front, rest) =
        ap (λ n. split_bytes n (front ++ rest)) (sym (lay.hash_length k))
        ∙ split_bytes-append front rest in
      rw split (rw (lay.hash_read k small) refl)

  -- The values that the index holds, under the keys of their heights.
  pub record IsEntry (key value : List ℕ) : Type 0 where
    pub height : ℕ
    pub in_64 : height < 2 ^ 64
    pub is_key : key ≡ key_of height
    pub block_hash : Hash
    pub in_256 : block_hash < 2 ^ 256
    pub rest : List ℕ
    pub is_value : value ≡ layout.hash_bytes block_hash ++ rest

  abbrev pub IsIndexed : lmdb.Contents → Type 0
  IsIndexed contents =
      (key value : List ℕ) → lmdb.mdb_get data_dbi key contents ≡ some value → IsEntry key value

  pub add_decided_block_lem :
      (blk : HotstuffBlock) (id : List ℕ) (tx : Txn lmdb layout)
      → add_decided_block lmdb layout blk id tx ≡ ok (added lmdb layout blk id tx)
  unfolding add_decided_block
  add_decided_block_lem blk id tx = rw (height_key_lem (get_height blk)) refl

  pub get_data-added :
      (blk : HotstuffBlock) (id : List ℕ) (tx : Txn lmdb layout) (h : ℕ)
      → h < 2 ^ 64
      → get_height blk < 2 ^ 64
      → lmdb.mdb_get data_dbi (key_of h) (added lmdb layout blk id tx).pending ≡ (
          if h == get_height blk
          then some (layout.hash_bytes (get_hash blk) ++ id)
          else lmdb.mdb_get data_dbi (key_of h) tx.pending)
  get_data-added blk id tx h p q = ground (
    arith,
    same_key h (get_height blk) p q,
    is.get_put data_dbi (key_of h) (key_of (get_height blk))
        (layout.hash_bytes (get_hash blk) ++ id) tx.pending,
  )

  pub added-IsIndexed :
      (blk : HotstuffBlock) (id : List ℕ) (tx : Txn lmdb layout)
      → get_height blk < 2 ^ 64
      → get_hash blk < 2 ^ 256
      → IsIndexed tx.pending
      → IsIndexed (added lmdb layout blk id tx).pending
  added-IsIndexed blk id tx small hash_small indexed key value e =
      let k = key_of (get_height blk) in
      let v = layout.hash_bytes (get_hash blk) ++ id in
      elim (Bool-cases (lex_ltb key k || lex_ltb k key)) [
        | inl other ↦
            indexed key value (ground (arith, other, e, is.get_put data_dbi key k v tx.pending))
        | inr same ↦ record {
          height = get_height blk;
          in_64 = small;
          is_key = lex_ltb_total key k same;
          block_hash = get_hash blk;
          in_256 = hash_small;
          rest = id;
          is_value = ground (arith, same, e, is.get_put data_dbi key k v tx.pending);
        }
      ]

  -- What a lookup makes of the stored value.
  pub get_decided_hash_id_pair_lem :
      (index : Index lmdb layout) (h : ℕ)
      → index.dbi_valid ≡ true
      → get_decided_hash_id_pair lmdb layout h index
        ≡ (elim (lmdb.mdb_get data_dbi (key_of h) index.contents) [
          | none ↦ ok none
          | some value ↦ (do (hash, _) ← hash_and_rest lmdb layout value; ok (some (hash, value)))
        ])
  unfolding get_decided_hash_id_pair
  get_decided_hash_id_pair_lem index h valid = rw (height_key_lem h) (rw valid refl)
