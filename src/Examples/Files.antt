-- ===== src/Examples/Files.antt =====
-- Three calls of `save_block`, the last for the same block as the first.
use cs244b_fp.Prelude.{
  true, ℕ, ◌+◌, ◌*◌, ◌^◌, ◌<◌, ◌≡◌, ◌≢◌, refl, sym, ap, ◌∙◌, Bool, some, none, Option, List, [],
  ◌∷◌, Result, ok, err, xdr_failed, if◌then◌else◌, ◌||◌, Bool-cases, inl, inr, arith,
}
use cs244b_fp.Prelude.Lists.{All}
use cs244b_fp.Wire.{HotstuffBlockWire}
use cs244b_fp.Utils.BigEndian.Order.{lex_ltb, lex_ltb_refl, lex_ltb_total}
use cs244b_fp.Block.{save_each}
use cs244b_fp.Storage.Files.{FileSystem, IsFileSystem, BlockXdr, save_block, load_block}
use cs244b_fp.Storage.Files.Saved.{OneEach, IsEncodable, WritesAll, load_block-save_each}
use cs244b_fp.Examples.Config.{toy_sodium}

-- Files in memory.
abbrev differs : List ℕ → List ℕ → Bool
differs j k = lex_ltb j k || lex_ltb k j

abbrev in_memory_files : FileSystem
in_memory_files = record {
  Contents = List ℕ → Option (List ℕ);
  write = λ name bytes c. some (true, (λ k. if differs k name then c k else some bytes));
  read = λ name c. c name;
}

in_memory_files-IsFileSystem : IsFileSystem in_memory_files
in_memory_files-IsFileSystem = record {
  read_written = λ name bytes c d e.
      let same : (λ k. if differs k name then c k else some bytes) ≡ d = cc in
      sym (ap (λ f. f name) same) ∙ rw (lex_ltb_refl name) refl;
  read_other = λ name bytes other success c d e differ. elim (Bool-cases (differs other name)) [
    | inl apart ↦
        (let same : (λ k. if differs k name then c k else some bytes) ≡ d = cc in
          sym (ap (λ f. f other) same) ∙ rw apart refl)
    | inr equal ↦ absurd (differ (lex_ltb_total other name equal))
  ];
}

-- Blocks without signatures.
abbrev plain_of : List ℕ → Result HotstuffBlockWire
plain_of (parent ∷ justify ∷ bmp ∷ body_hash ∷ body) = ok (record {
  header = record {
    parent_hash = parent;
    qc = record { justify = justify; bmp = bmp; sigs = [] };
    body_hash = body_hash;
  };
  body = body;
})
plain_of bytes = err xdr_failed

abbrev plain_xdr : BlockXdr
plain_xdr = record {
  to_opaque = λ b.
      b.header.parent_hash ∷ b.header.qc.justify ∷ b.header.qc.bmp ∷ b.header.body_hash ∷ b.body;
  from_opaque = plain_of;
}

abbrev plain_block : ℕ → ℕ → HotstuffBlockWire
plain_block parent body_hash = record {
  header = record {
    parent_hash = parent;
    qc = record { justify = parent; bmp = 0; sigs = [] };
    body_hash = body_hash;
  };
  body = 5 ∷ [];
}

abbrev three_saves : List HotstuffBlockWire
three_saves = plain_block 0 5 ∷ plain_block 6 5 ∷ plain_block 0 5 ∷ []

abbrev nothing : List ℕ → Option (List ℕ)
nothing name = none

plain_block-IsEncodable :
    (parent body_hash : ℕ)
    → 1 + parent * 7 + body_hash < 2 ^ 256
    → IsEncodable toy_sodium plain_xdr (plain_block parent body_hash)
plain_block-IsEncodable parent body_hash small = record { hash_fits = small; decodes = refl }

three_saves-IsEncodable : All (IsEncodable toy_sodium plain_xdr) three_saves
three_saves-IsEncodable = (
  plain_block-IsEncodable 0 5 (omega arith),
  (plain_block-IsEncodable 6 5 (omega arith), (plain_block-IsEncodable 0 5 (omega arith), tt)),
)

three_saves-OneEach : OneEach toy_sodium three_saves
three_saves-OneEach = (
  ((λ e. absurd (omega arith)), ((λ e. refl), tt)),
  (((λ e. absurd (omega arith)), tt), (tt, tt)),
)

three_saves-WritesAll :
    WritesAll toy_sodium in_memory_files plain_xdr
      (100 ∷ 47 ∷ [])
      in_memory_files-IsFileSystem
      three_saves
      nothing
three_saves-WritesAll = (_, refl, (_, refl, (_, refl, tt)))

-- In the directory `d/`.
load_block-save_each_example :
    (d : List ℕ → Option (List ℕ)) × (save_each
        (save_block toy_sodium in_memory_files plain_xdr (100 ∷ 47 ∷ []))
        three_saves
        nothing
      ≡ ok d)
    × All
        (λ b.
          load_block toy_sodium in_memory_files plain_xdr
            (100 ∷ 47 ∷ [])
            (toy_sodium.hash_header b.header)
            d
          ≡ ok (some b))
        three_saves
    × ((k : ℕ)
        → k < 2 ^ 256
        → All (λ b. toy_sodium.hash_header b.header ≢ k) three_saves
        → load_block toy_sodium in_memory_files plain_xdr (100 ∷ 47 ∷ []) k d
          ≡ load_block toy_sodium in_memory_files plain_xdr (100 ∷ 47 ∷ []) k nothing)
load_block-save_each_example =
    load_block-save_each toy_sodium in_memory_files plain_xdr (100 ∷ 47 ∷ [])
      in_memory_files-IsFileSystem three_saves nothing three_saves-IsEncodable three_saves-OneEach
      three_saves-WritesAll
