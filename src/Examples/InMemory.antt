-- ===== src/Examples/InMemory.antt =====
-- A database in memory, which keeps what was put, the last first.
use mathlib.Core.Path.{subst}
use mathlib.Core.List.{append-nil}
use cs244b_fp.Prelude.{
  ℕ, ◌*◌, ◌^◌, ◌<◌, ◌≡◌, ◌≢◌, refl, sym, ap, ◌∙◌, inl, inr, Bool, true, false, ◌||◌, Option, none,
  some, List, [], ◌∷◌, if◌then◌else◌, Result, ok, err, length, arith, Bool-cases, wrong_size,
}
use cs244b_fp.Wire.{QuorumCertificateWire}
use cs244b_fp.Utils.BigEndian.{
  append_unsigned_big_endian, read_unsigned_big_endian, read-append_big_endian, append-big_endian,
  length-big_endian,
}
use cs244b_fp.Utils.BigEndian.Order.{lex_ltb, lex_ltb_total, lex_ltb_trans}
use cs244b_fp.Storage.Index.Layouts.{
  Dbi, data_dbi, metadata_dbi, Lmdb, IsLmdb, Layout, IsLayout, KeysAscend, KeysAbove, find_key,
}

abbrev pub insert : List ℕ → List ℕ → List (List ℕ × List ℕ) → List (List ℕ × List ℕ)
insert k v [] = (k, v) ∷ []
insert k v ((j, w) ∷ es) =
    if lex_ltb k j
    then (k, v) ∷ (j, w) ∷ es
    else if lex_ltb j k
    then (j, w) ∷ insert k v es
    else (k, v) ∷ es

-- The pairs that were put, the last first.
abbrev pub sorted : List (List ℕ × List ℕ) → List (List ℕ × List ℕ)
sorted [] = []
sorted ((k, v) ∷ puts) = insert k v (sorted puts)

insert-KeysAbove :
    (g k v : List ℕ) (es : List (List ℕ × List ℕ))
    → lex_ltb g k ≡ true
    → KeysAbove g es
    → KeysAbove g (insert k v es)
insert-KeysAbove g k v [] h above = (h, tt)
insert-KeysAbove g k v ((j, w) ∷ es) h above = ground (arith, insert-KeysAbove g k v es)

KeysAbove-trans :
    (g k : List ℕ) (es : List (List ℕ × List ℕ))
    → lex_ltb g k ≡ true
    → KeysAbove k es
    → KeysAbove g es
KeysAbove-trans g k [] h above = tt
KeysAbove-trans g k ((j, w) ∷ es) h above =
    (lex_ltb_trans g k j h above.0, KeysAbove-trans g k es h above.1)

same_key : (j k : List ℕ) → lex_ltb j k ≡ false → lex_ltb k j ≡ false → j ≡ k
same_key j k p q = lex_ltb_total j k (rw p q)

same_above :
    (j k : List ℕ) (es : List (List ℕ × List ℕ))
    → lex_ltb j k ≡ false
    → lex_ltb k j ≡ false
    → KeysAbove j es
    → KeysAbove k es
same_above j k es p q = subst (λ k. KeysAbove k es) (same_key j k p q)

-- A key that is neither below nor above another compares like it.
cong_order :
    (q j k : List ℕ)
    → lex_ltb j k ≡ false
    → lex_ltb k j ≡ false
    → (lex_ltb q j ≡ lex_ltb q k) × (lex_ltb j q ≡ lex_ltb k q)
cong_order q j k p r =
    let same = same_key j k p r in (ap (lex_ltb q) same, ap (λ k. lex_ltb k q) same)

clash :
    (q j k : List ℕ)
    → lex_ltb q j ≡ false
    → lex_ltb j q ≡ false
    → (lex_ltb q k ≡ lex_ltb j k) × (lex_ltb k q ≡ lex_ltb k j)
clash q j k p r = let same = same_key q j p r in (ap (λ q. lex_ltb q k) same, ap (lex_ltb k) same)

insert-KeysAscend :
    (k v : List ℕ) (es : List (List ℕ × List ℕ)) → KeysAscend es → KeysAscend (insert k v es)
insert-KeysAscend k v [] s = (tt, tt)
insert-KeysAscend k v ((j, w) ∷ es) s = ground (
  arith,
  insert-KeysAscend k v es s.1,
  insert-KeysAbove j k v es,
  KeysAbove-trans k j es,
  same_above j k es,
)

find_key-insert :
    (q k v : List ℕ) (es : List (List ℕ × List ℕ))
    → find_key q (insert k v es) ≡ (if lex_ltb q k || lex_ltb k q then find_key q es else some v)
find_key-insert q k v [] = refl
find_key-insert q k v ((j, w) ∷ es) = elim (Bool-cases (lex_ltb k j)) [
  | inl front ↦ rw front refl
  | inr behind ↦ elim (Bool-cases (lex_ltb j k)) [
    | inl after ↦ ground (arith, behind, after, find_key-insert q k v es, clash q j k)
    | inr same ↦ ground (arith, behind, same, cong_order q j k)
  ]
]

find_key-sorted :
    (q k v : List ℕ) (puts : List (List ℕ × List ℕ))
    → find_key q (sorted ((k, v) ∷ puts))
      ≡ (if lex_ltb q k || lex_ltb k q then find_key q (sorted puts) else some v)
find_key-sorted q k v puts = find_key-insert q k v (sorted puts)

sorted-KeysAscend : (puts : List (List ℕ × List ℕ)) → KeysAscend (sorted puts)
sorted-KeysAscend [] = tt
sorted-KeysAscend ((k, v) ∷ puts) = insert-KeysAscend k v (sorted puts) (sorted-KeysAscend puts)

pub record Disk : Type 0 where
  pub made : Dbi → Bool
  pub puts : Dbi → List (List ℕ × List ℕ)

abbrev pub same_dbi : Dbi → Dbi → Bool
same_dbi data_dbi data_dbi = true
same_dbi data_dbi metadata_dbi = false
same_dbi metadata_dbi data_dbi = false
same_dbi metadata_dbi metadata_dbi = true

same_dbi_refl : (t : Dbi) → same_dbi t t ≡ true
same_dbi_refl data_dbi = refl
same_dbi_refl metadata_dbi = refl

same_dbi_other : (s t : Dbi) → s ≢ t → same_dbi s t ≡ false
same_dbi_other data_dbi data_dbi n = absurd (n refl)
same_dbi_other data_dbi metadata_dbi n = refl
same_dbi_other metadata_dbi data_dbi n = refl
same_dbi_other metadata_dbi metadata_dbi n = absurd (n refl)

abbrev pub in_memory : Lmdb
in_memory = record {
  Contents = Disk;
  create = λ t c. record c { made = λ s. if same_dbi s t then true else c.made s };
  exists = λ t c. c.made t;
  mdb_get = λ t k c. find_key k (sorted (c.puts t));
  mdb_put =
      λ t k v c. record c { puts = λ s. if same_dbi s t then (k, v) ∷ c.puts s else c.puts s };
  entries = λ t c. sorted (c.puts t);
}

pub in_memory-IsLmdb : IsLmdb in_memory
in_memory-IsLmdb = record {
  get_put = λ t j k v c. rw (same_dbi_refl t) (find_key-sorted j k v (c.puts t));
  put_elsewhere = λ s t j k v c other. rw (same_dbi_other s t other) refl;
  get_create = λ s t j c. refl;
  exists_create = λ t c. rw (same_dbi_refl t) refl;
  create_keeps = λ s t c made. elim (Bool-cases (same_dbi s t)) [
    | inl same ↦ rw same refl
    | inr other ↦ rw other made
  ];
  put_keeps = λ s t k v c. refl;
  ascend = λ t c. sorted-KeysAscend (c.puts t);
  visited = λ t k c. refl;
}

abbrev pub from_result : Result ℕ → Option ℕ
from_result (err problem) = none
from_result (ok n) = some n

abbrev pub qc_of : List ℕ → Result QuorumCertificateWire
qc_of [] = err wrong_size
qc_of (justify ∷ []) = err wrong_size
qc_of (justify ∷ bmp ∷ sigs) = ok (record { justify = justify; bmp = bmp; sigs = sigs })

abbrev pub big_endian_layout : Layout
big_endian_layout = record {
  hash_bytes = λ k. append_unsigned_big_endian 32 [] k;
  hash_from_opaque = read_unsigned_big_endian 32;
  qc_bytes = λ qc. qc.justify ∷ qc.bmp ∷ qc.sigs;
  qc_from_opaque = qc_of;
  uint64_bytes = λ n. append_unsigned_big_endian 8 [] n;
  uint64 = λ bytes. from_result (read_unsigned_big_endian 8 bytes);
}

reads_back :
    (sz n : ℕ)
    → n < 2 ^ (sz * 8)
    → read_unsigned_big_endian sz (append_unsigned_big_endian sz [] n) ≡ ok n
reads_back sz n small =
    ap (read_unsigned_big_endian sz) (sym (append-nil (append_unsigned_big_endian sz [] n)))
    ∙ read-append_big_endian sz n [] small

pub big_endian_layout-IsLayout : IsLayout big_endian_layout
big_endian_layout-IsLayout = record {
  hash_length = λ k. ap length (append-big_endian 32 [] k) ∙ length-big_endian 32 k;
  hash_read = λ k small. reads_back 32 k small;
  uint64_read = λ n small. rw (reads_back 8 n small) refl;
}
