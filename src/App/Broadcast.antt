-- ===== src/App/Broadcast.antt =====
-- Whether a block supports a child with transactions, and how a proposal is sent.
use cs244b_fp.Prelude.{
  ℕ, zero, suc, ◌≡◌, refl, inl, inr, Bool, true, false, [], ◌∷◌, ◌++◌, ok, ◌==◌, arith, Bool-cases,
  Option-cases,
}
use cs244b_fp.Config.{ReplicaId}
use cs244b_fp.Block.{Heap, get_parent_hash, get_justify_hash, supports_nonempty_child_proposal}
use cs244b_fp.Consensus.ThreeChain.{HasQc}
use cs244b_fp.Storage.BlockStore.Insert.{get_justify_hash_lem}
use cs244b_fp.Network.Events.{Network, proposal_event, validate_event, validate_and_add_event}
use cs244b_fp.Network.Manager.{Clients, propose_to_all, broadcast_proposal}

-- Any block has an answer to whether it supports a child with transactions.
pub supports-ok :
    (h : Heap) (self_id : ReplicaId) (depth p : ℕ)
    → HasQc h
    → (b : Bool) × (supports_nonempty_child_proposal h self_id depth p ≡ ok b)
unfolding supports_nonempty_child_proposal
supports-ok h self_id zero p q = (true, refl)
supports-ok h self_id (suc depth) p q = elim (Bool-cases (self_id == (h.cell p).proposer)) [
  | inr other ↦ (false, rw other refl)
  | inl own ↦ elim (Option-cases (h.cell p).justify_block_ptr) [
    | inl gone ↦ (false, rw own (rw gone refl))
    | inr (j, just) ↦ elim (Option-cases (h.cell p).parent_block_ptr) [
      | inl gone ↦ (false, rw own (rw just (rw gone refl)))
      | inr (parent, up) ↦
          (let (qc, f) = q p j just in
            let got : get_justify_hash (h.cell p) ≡ ok qc.obj_hash =
              get_justify_hash_lem (h.cell p) qc f in
            elim (Bool-cases (qc.obj_hash == get_parent_hash (h.cell p))) [
              | inr other ↦ (false, rw own (rw just (rw up (rw got (rw other refl)))))
              | inl same ↦
                  (let (b, e) = supports-ok h self_id depth parent q in
                    (b, rw own (rw just (rw up (rw got (rw same e))))))
            ])
    ]
  ]
]

pub broadcast_proposal-ok :
    (self_id : ReplicaId) (blk k : ℕ) (n : Network) (clients : Clients)
    → (n.heap.cell blk).block_height ≡ suc k
    → broadcast_proposal self_id blk n clients
      ≡ ok (
        record n { core_events = n.core_events ++ proposal_event blk self_id ∷ [] },
        propose_to_all
            (record { proposal = (n.heap.cell blk).wire_block; proposer = self_id })
            clients,
      )
unfolding broadcast_proposal validate_and_add_event validate_event
broadcast_proposal-ok self_id blk k n clients e =
    let counted : ((n.heap.cell blk).block_height == 0) ≡ false = ground (arith, e) in simp counted
