-- ===== src/Block.antt =====
-- block.h and block.cc. A `block_ptr_t` is an address in a heap of blocks, the null pointer is
-- `none`; so blocks that share a parent share the object. Heights are `uint64_t`.
pub mod Shape
pub mod Disk
use cs244b_fp.Prelude.{
  ℕ, zero, suc, ◌+◌, ◌%◌, ◌^◌, ◌≡◌, Bool, true, false, not, Option, none, some, List, [], ◌∷◌, ◌++◌,
  ltb, length, ◌==◌, if◌then◌else◌, Result, ok, err, or_fail, ◌>>=◌, null_deref, out_of_fuel,
  body_flushed,
}
use cs244b_fp.Config.{Hash, ReplicaId, unknown_replica_id, ReplicaConfig}
use cs244b_fp.Wire.{QuorumCertificateWire, HotstuffBlockHeader, HotstuffBlockWire, Sodium}
use cs244b_fp.Crypto.Certs.{QuorumCertificate, empty_qc, parse_qc, verify}

abbrev pub Ptr : Type 0
Ptr = ℕ

pub record HotstuffBlock : Type 0 where
  pub wire_block : HotstuffBlockWire
  pub parsed_qc : Option QuorumCertificate
  pub proposer : ReplicaId
  pub block_height : ℕ
  pub parent_block_ptr : Option Ptr
  pub justify_block_ptr : Option Ptr
  pub self_qc : QuorumCertificate
  pub decided : Bool
  pub written_to_disk : Bool
  pub hash_checked : Bool
  pub hash_valid : Bool
  pub flushed_from_memory : Bool

abbrev empty_wire : HotstuffBlockWire
empty_wire = record {
  header = record {
    parent_hash = 0;
    qc = record { justify = 0; bmp = 0; sigs = [] };
    body_hash = 0;
  };
  body = [];
}

-- The constructor of genesis; `Hash()` is the hash of zeros.
unfoldable pub genesis_block : HotstuffBlock
genesis_block = record {
  wire_block = empty_wire;
  parsed_qc = none;
  proposer = unknown_replica_id;
  block_height = 0;
  parent_block_ptr = none;
  justify_block_ptr = none;
  self_qc = empty_qc 0;
  decided = true;
  written_to_disk = true;
  hash_checked = true;
  hash_valid = true;
  flushed_from_memory = true;
}

abbrev pub get_height : HotstuffBlock → ℕ
get_height b = b.block_height

unfoldable pub get_hash : HotstuffBlock → Hash
get_hash b = b.self_qc.obj_hash

unfoldable pub get_parent_hash : HotstuffBlock → Hash
get_parent_hash b = b.wire_block.header.parent_hash

-- `parsed_qc->get_obj_hash()`: undefined for genesis.
unfoldable pub get_justify_hash : HotstuffBlock → Result Hash
get_justify_hash b = do qc ← or_fail b.parsed_qc null_deref; ok qc.obj_hash

unfoldable pub get_justify_qc : HotstuffBlock → Result QuorumCertificate
get_justify_qc b = or_fail b.parsed_qc null_deref

unfoldable pub decide : HotstuffBlock → HotstuffBlock
decide b = record b { decided = true }

-- The first argument is the parent's pointer, the second the parent.
unfoldable pub set_parent : Ptr → HotstuffBlock → HotstuffBlock → HotstuffBlock
set_parent p parent b = record b {
  parent_block_ptr = some p;
  block_height = (parent.block_height + 1) % 2 ^ 64;
}

unfoldable pub set_justify : Ptr → HotstuffBlock → HotstuffBlock
set_justify p b = record b { justify_block_ptr = some p }

unfoldable pub has_body : HotstuffBlock → Result Bool
has_body b =
    if b.flushed_from_memory then err body_flushed else ok (ltb 0 (length b.wire_block.body))

unfoldable pub flush_from_memory : HotstuffBlock → HotstuffBlock
flush_from_memory b = if b.flushed_from_memory then b else record b {
  flushed_from_memory = true;
  wire_block = record { header = b.wire_block.header; body = [] };
}

module _ (sodium : Sodium) where
  -- The constructor for blocks that are received or minted.
  unfoldable pub receive_block : HotstuffBlockWire → ReplicaId → HotstuffBlock
  receive_block w proposer = record {
    wire_block = w;
    parsed_qc = some (parse_qc w.header.qc);
    proposer = proposer;
    block_height = 0;
    parent_block_ptr = none;
    justify_block_ptr = none;
    self_qc = empty_qc (sodium.hash_header w.header);
    decided = false;
    written_to_disk = false;
    hash_checked = false;
    hash_valid = false;
    flushed_from_memory = false;
  }

  -- The constructor for blocks loaded from disk.
  unfoldable pub loaded_block : HotstuffBlockWire → HotstuffBlock
  unfolding receive_block
  loaded_block w =
      let b = receive_block w unknown_replica_id in
      record b { decided = true; written_to_disk = true; hash_checked = true; hash_valid = true }

  unfoldable pub mint_block : List ℕ → QuorumCertificateWire → Hash → ReplicaId → HotstuffBlock
  unfolding receive_block
  mint_block body qc parent_hash self_id =
      receive_block
        (record {
          header = record { parent_hash = parent_hash; qc = qc; body_hash = sodium.hash_body body };
          body = body;
        })
        self_id

  -- The cached fields are written too.
  unfoldable pub validate_hash : HotstuffBlock → Bool × HotstuffBlock
  validate_hash b =
      let valid = sodium.hash_body b.wire_block.body == b.wire_block.header.body_hash in
      if b.hash_checked
      then (b.hash_valid, b)
      else (valid, record b { hash_checked = true; hash_valid = valid })

  unfoldable pub validate_hotstuff : ReplicaConfig → HotstuffBlock → Result (Bool × HotstuffBlock)
  unfolding validate_hash
  validate_hotstuff c b =
      let (valid, b') = validate_hash b in
      if not valid
      then ok (false, b')
      else (do qc ← or_fail b'.parsed_qc null_deref; good ← verify sodium c qc; ok (good, b'))

pub record Heap : Type 0 where
  pub next : Ptr
  pub cell : Ptr → HotstuffBlock

-- What an address holds before a block is allocated there.
abbrev pub no_object : HotstuffBlock
unfolding genesis_block
no_object = record genesis_block { decided = false; written_to_disk = false }

-- The heap with the genesis block alone, at address 0.
unfoldable pub genesis_heap : Heap
genesis_heap = record { next = 1; cell = λ p. if p == 0 then genesis_block else no_object }

unfoldable pub alloc : HotstuffBlock → Heap → Ptr × Heap
alloc b h = (h.next, record { next = h.next + 1; cell = λ q. if h.next == q then b else h.cell q })

-- A method that changes the object at `p`.
unfoldable pub modify : (HotstuffBlock → HotstuffBlock) → Ptr → Heap → Heap
modify f p h = record h { cell = λ q. if p == q then f (h.cell q) else h.cell q }

-- The depth is the parameter of that name, 3 by default.
unfoldable pub supports_nonempty_child_proposal : Heap → ReplicaId → ℕ → Ptr → Result Bool
supports_nonempty_child_proposal h self_id zero p = ok true
supports_nonempty_child_proposal h self_id (suc depth) p =
    if not (self_id == (h.cell p).proposer) then ok false else elim (h.cell p).justify_block_ptr [
      | none ↦ ok false
      | some _ ↦ elim (h.cell p).parent_block_ptr [
        | none ↦ ok false
        | some q ↦ (do
          justify_hash ← get_justify_hash (h.cell p)
          if not (justify_hash == get_parent_hash (h.cell p))
              then ok false
              else supports_nonempty_child_proposal h self_id depth q)
      ]
    ]

-- `write_to_disk`: saves the block and its ancestors up to the first that is saved already, the
-- highest first. `save` is `save_block`, on the state that it works on; where it throws, so does the
-- walk. The fuel bounds the ancestors that are visited.
unfoldable pub write_to_disk :
    {S : Type 0} → (HotstuffBlockWire → S → Result S) → ℕ → Ptr → Heap → S → Result (S × Heap)
write_to_disk save zero p h s = err out_of_fuel
write_to_disk save (suc fuel) p h s =
    let h' = modify (λ b. record b { written_to_disk = true }) p h in
    elim (h.cell p).written_to_disk [
      | true ↦ ok (s, h)
      | false ↦ (do
        s' ← save (h.cell p).wire_block s
        elim (h.cell p).parent_block_ptr [
          | none ↦ ok (s', h')
          | some q ↦ write_to_disk save fuel q h' s'
        ])
    ]

-- The calls of `save` for the blocks of a list.
unfoldable pub save_each :
    {S : Type 0} → (HotstuffBlockWire → S → Result S) → List HotstuffBlockWire → S → Result S
save_each save [] s = ok s
save_each save (block ∷ blocks) s = do s' ← save block s; save_each save blocks s'

-- A save that is recorded, and done by others.
abbrev pub record_saved :
    HotstuffBlockWire → List HotstuffBlockWire → Result (List HotstuffBlockWire)
record_saved block saved = ok (saved ++ block ∷ [])
