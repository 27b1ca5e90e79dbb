-- ===== src/Storage/Index/Lookup.antt =====
-- The cursor passes the decided blocks in its order.
use mathlib.Core.List.{append-nil}
use mathlib.Core.Path.{subst}
use cs244b_fp.Prelude.{
  ℕ, ◌^◌, ◌<◌, ◌≡◌, ◌⊎◌, refl, sym, ap, ◌∙◌, inl, inr, true, not, ◌||◌, none, some, List, [], ◌∷◌,
  ◌==◌, ok, All, ltb→lt, arith, Bool-cases,
}
use cs244b_fp.Prelude.Maps.{find, IsSorted, Above}
use cs244b_fp.Config.{Hash}
use cs244b_fp.Utils.BigEndian.{read-append_big_endian, read_unsigned_big_endian}
use cs244b_fp.Utils.BigEndian.Order.{lex_ltb, lex_ltb_refl, lex_ltb_total}
use cs244b_fp.Storage.Index.Layouts.{
  data_dbi, Lmdb, Layout, IsLmdb, IsLayout, KeysAscend, KeysAbove, find_key,
}
use cs244b_fp.Storage.Index.{
  Index, hash_and_rest, get_decided_hash_id_pair, dereference, visit, forward_cursor,
}
use cs244b_fp.Storage.Index.Entries.{
  key_of, key_of-order, same_key, find_key-KeysAbove, hash_and_rest-append, IsEntry, IsIndexed,
  get_decided_hash_id_pair_lem,
}

module _ (lmdb : Lmdb) (layout : Layout) (is : IsLmdb lmdb) (lay : IsLayout layout) where
  -- The cursor's list and the entries that it was read from.
  pub record Visited (entries : List (List ℕ × List ℕ)) (list : List (ℕ × Hash)) : Type 0 where
    pub result : visit lmdb layout entries ≡ ok list
    pub sorted : IsSorted list
    pub above : (g : ℕ) → g < 2 ^ 64 → KeysAbove (key_of g) entries → Above g list
    pub found :
        (h : ℕ)
        → h < 2 ^ 64
        → ((find h list ≡ none) × (find_key (key_of h) entries ≡ none))
          ⊎ ((hash : Hash) × (value rest : List ℕ) × (find h list ≡ some hash)
              × (find_key (key_of h) entries ≡ some value)
              × (hash_and_rest lmdb layout value ≡ ok (hash, rest)))

  hash_and_rest-IsEntry :
      (key value : List ℕ) (entry : IsEntry lmdb layout is lay key value)
      → hash_and_rest lmdb layout value ≡ ok (entry.block_hash, entry.rest)
  hash_and_rest-IsEntry key value entry =
      ap (hash_and_rest lmdb layout) entry.is_value
      ∙ hash_and_rest-append lmdb layout is lay entry.block_hash entry.rest entry.in_256

  dereference-IsEntry :
      (key value : List ℕ) (entry : IsEntry lmdb layout is lay key value)
      → dereference lmdb layout (key, value) ≡ ok (entry.height, entry.block_hash)
  unfolding dereference
  dereference-IsEntry key value entry =
      let key_read : read_unsigned_big_endian 8 key ≡ ok entry.height =
        ap (read_unsigned_big_endian 8) (entry.is_key ∙ sym (append-nil (key_of entry.height)))
        ∙ read-append_big_endian 8 entry.height [] entry.in_64 in
      rw key_read (rw (hash_and_rest-IsEntry key value entry) refl)

  -- Every entry of an ascending list is one that a lookup finds.
  entries-IsEntry :
      (es : List (List ℕ × List ℕ))
      → KeysAscend es
      → ((k v : List ℕ) → find_key k es ≡ some v → IsEntry lmdb layout is lay k v)
      → All (λ e. IsEntry lmdb layout is lay e.0 e.1) es
  entries-IsEntry [] ascend shape = tt
  entries-IsEntry ((k, v) ∷ es) ascend shape =
      let head : find_key k ((k, v) ∷ es) ≡ some v = rw (lex_ltb_refl k) refl in
      (
        shape k v head,
        entries-IsEntry es ascend.1 (λ j w e. elim (Bool-cases (lex_ltb j k || lex_ltb k j)) [
          | inl other ↦ shape j w (rw other e)
          | inr same ↦
              (let gone : find_key j es ≡ none =
                  subst (λ j. find_key j es ≡ none) (sym (lex_ltb_total j k same))
                    (find_key-KeysAbove k es ascend.0) in
                cc)
        ]),
      )

  entry_above :
      (g : ℕ) (k v : List ℕ) (e : IsEntry lmdb layout is lay k v)
      → g < 2 ^ 64
      → lex_ltb (key_of g) k ≡ true
      → g < e.height
  entry_above g k v e small h =
      let h' : lex_ltb (key_of g) (key_of e.height) ≡ true =
        subst (λ k. lex_ltb (key_of g) k ≡ true) e.is_key h in
      ltb→lt g e.height (sym (key_of-order g e.height small e.in_64) ∙ h')

  entry_same :
      (h : ℕ) (k v : List ℕ) (e : IsEntry lmdb layout is lay k v)
      → h < 2 ^ 64
      → lex_ltb (key_of h) k || lex_ltb k (key_of h) ≡ not (e.height == h)
  entry_same h k v e small =
      ap (λ k. lex_ltb (key_of h) k || lex_ltb k (key_of h)) e.is_key
      ∙ same_key h e.height small e.in_64
      ∙ ground arith

  pub visit-Visited :
      (entries : List (List ℕ × List ℕ))
      → KeysAscend entries
      → All (λ e. IsEntry lmdb layout is lay e.0 e.1) entries
      → (list : List (ℕ × Hash)) × Visited entries list
  unfolding visit
  visit-Visited [] ascend all = (
    [],
    record { result = refl; sorted = tt; above = λ g _ _. tt; found = λ h _. inl (refl, refl) },
  )
  visit-Visited ((k, v) ∷ entries) ascend all =
      let (list, visited) = visit-Visited entries ascend.1 all.1 in
      let e = all.0 in
      (
        (e.height, e.block_hash) ∷ list,
        record {
          result = rw (dereference-IsEntry k v e) (rw visited.result refl);
          sorted = (
            visited.above e.height e.in_64 (subst (λ k. KeysAbove k entries) e.is_key ascend.0),
            visited.sorted,
          );
          above =
              λ g small above. (entry_above g k v e small above.0, visited.above g small above.1);
          found = λ h small. elim (Bool-cases (e.height == h)) [
            | inl here ↦ inr (
              e.block_hash,
              v,
              e.rest,
              rw here refl,
              rw (entry_same h k v e small) (rw here refl),
              hash_and_rest-IsEntry k v e,
            )
            | inr other ↦ rw (entry_same h k v e small) (rw other (visited.found h small))
          ];
        },
      )

  -- The cursor's list has ascending heights, each once, and is, as a map, what lookups by height
  -- return: where every entry of the index was put there for a decided block, with a 64-bit height
  -- and a hash of 32 bytes.
  pub forward_cursor-lookup :
      (index : Index lmdb layout)
      → index.dbi_valid ≡ true
      → IsIndexed lmdb layout is lay index.contents
      → (list : List (ℕ × Hash)) × (forward_cursor lmdb layout index ≡ ok list)
        × IsSorted list
        × ((h : ℕ)
            → h < 2 ^ 64
            → ((find h list ≡ none) × (get_decided_hash_id_pair lmdb layout h index ≡ ok none))
              ⊎ ((hash : Hash) × (value : List ℕ) × (find h list ≡ some hash)
                  × (get_decided_hash_id_pair lmdb layout h index ≡ ok (some (hash, value)))))
  unfolding forward_cursor
  forward_cursor-lookup index valid indexed =
      let entries = lmdb.entries data_dbi index.contents in
      let seen = λ (k : List ℕ). is.visited data_dbi k index.contents in
      let (list, visited) = visit-Visited entries (is.ascend data_dbi index.contents) (
        entries-IsEntry entries (is.ascend data_dbi index.contents)
          (λ k v e. indexed k v (sym (seen k) ∙ e))) in
      (
        list,
        rw valid visited.result,
        visited.sorted,
        λ h small. elim (visited.found h small) [
          | inl (free, gone) ↦ inl (
            free,
            get_decided_hash_id_pair_lem lmdb layout is lay index h valid
                ∙ rw (sym (seen (key_of h)) ∙ gone) refl,
          )
          | inr (hash, value, rest, here, at, split) ↦ inr (
            hash,
            value,
            here,
            get_decided_hash_id_pair_lem lmdb layout is lay index h valid
                ∙ rw (sym (seen (key_of h)) ∙ at) (rw split refl),
          )
        ],
      )
