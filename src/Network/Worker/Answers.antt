-- ===== src/Network/Worker/Answers.antt =====
-- What a replica answers is what was asked for.
use mathlib.Core.Path.{subst}
use cs244b_fp.Prelude.{
  ◌≡◌, refl, sym, inl, inr, true, false, none, some, List, [], ◌∷◌, map, if◌then◌else◌, All,
  Bool-cases, Option-cases, ==_iff,
}
use cs244b_fp.Config.{Hash, ReplicaId}
use cs244b_fp.Wire.{HotstuffBlockWire, Sodium}
use cs244b_fp.Crypto.Certs.{empty_qc}
use cs244b_fp.Block.{Ptr, Heap, get_hash, receive_block, validate_hash}
use cs244b_fp.Storage.BlockStore.{BlockStore, get_block}
use cs244b_fp.Network.Worker.{fetch}

-- The hashes whose blocks are in the cache, with their bodies.
abbrev pub available : List Hash → BlockStore → Heap → List Hash
available [] s h = []
available (k ∷ reqs) s h =
    let rest = available reqs s h in
    elim (get_block k s) [
      | none ↦ rest
      | some p ↦ if (h.cell p).flushed_from_memory then rest else k ∷ rest
    ]

module _ (sodium : Sodium) (s : BlockStore) (h : Heap) where
  -- Blocks in the cache that are not flushed are the ones with their hashes, and have the bodies that
  -- their headers name.
  pub record IsGenuine : Type 0 where
    pub named :
        (k : Hash) (p : Ptr)
        → get_block k s ≡ some p
        → (h.cell p).flushed_from_memory ≡ false
        → sodium.hash_header (h.cell p).wire_block.header ≡ k
    pub bodies :
        (k : Hash) (p : Ptr)
        → get_block k s ≡ some p
        → (h.cell p).flushed_from_memory ≡ false
        → sodium.hash_body (h.cell p).wire_block.body ≡ (h.cell p).wire_block.header.body_hash

  module _ (k : Hash) (reqs : List Hash) where
    skip_missing :
        get_block k s ≡ none
        → (fetch (k ∷ reqs) s h ≡ fetch reqs s h) × (available (k ∷ reqs) s h ≡ available reqs s h)
    unfolding fetch
    skip_missing gone = (rw (gone, fetch) refl, rw (gone, available) refl)

    skip_flushed :
        (p : Ptr)
        → get_block k s ≡ some p
        → (h.cell p).flushed_from_memory ≡ true
        → (fetch (k ∷ reqs) s h ≡ fetch reqs s h) × (available (k ∷ reqs) s h ≡ available reqs s h)
    unfolding fetch
    skip_flushed p found flushed =
        (rw (found, fetch) (rw flushed refl), rw (found, available) (rw flushed refl))

    take_block :
        (p : Ptr)
        → get_block k s ≡ some p
        → (h.cell p).flushed_from_memory ≡ false
        → (fetch (k ∷ reqs) s h ≡ (h.cell p).wire_block ∷ fetch reqs s h)
          × (available (k ∷ reqs) s h ≡ k ∷ available reqs s h)
    unfolding fetch
    take_block p found kept =
        (rw (found, fetch) (rw kept refl), rw (found, available) (rw kept refl))

  abbrev Received : ReplicaId → List HotstuffBlockWire → List Hash → Type 0
  Received source ws ks =
      (map (λ w. get_hash (receive_block sodium w source)) ws ≡ ks)
      × All (λ w. (validate_hash sodium (receive_block sodium w source)).0 ≡ true) ws

  Received-same :
      (source : ReplicaId) (ws vs : List HotstuffBlockWire) (ks js : List Hash)
      → (ws ≡ vs) × (ks ≡ js)
      → Received source vs js
      → Received source ws ks
  Received-same source ws vs ks js (e, f) r =
      subst (λ ws. Received source ws ks) (sym e) (subst (λ ks. Received source vs ks) (sym f) r)

  -- From a cache in which every block that is not flushed is under the hash of its header, and has the
  -- body that its header names, the answer has the blocks that were asked for and are available, in the order
  -- of the requests: the one who receives them computes their hashes from what was sent, and finds
  -- their bodies valid.
  pub fetch-available :
      (source : ReplicaId) (reqs : List Hash)
      → IsGenuine
      → (map (λ w. get_hash (receive_block sodium w source)) (fetch reqs s h) ≡ available reqs s h)
        × All
            (λ w. (validate_hash sodium (receive_block sodium w source)).0 ≡ true)
            (fetch reqs s h)
  unfolding fetch get_hash receive_block validate_hash empty_qc
  fetch-available source [] g = (refl, tt)
  fetch-available source (k ∷ reqs) g =
      let rest = fetch-available source reqs g in
      elim (Option-cases (get_block k s)) [
        | inl gone ↦ Received-same source _ _ _ _ (skip_missing k reqs gone) rest
        | inr (p, found) ↦ elim (Bool-cases (h.cell p).flushed_from_memory) [
          | inl flushed ↦ Received-same source _ _ _ _ (skip_flushed k reqs p found flushed) rest
          | inr kept ↦ Received-same source _ _ _ _ (take_block k reqs p found kept) (
            rw (g.named k p found kept) (rw rest.0 refl),
            ((==_iff _ _).1 (g.bodies k p found kept), rest.1),
          )
        ]
      ]
