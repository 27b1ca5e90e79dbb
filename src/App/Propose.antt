-- ===== src/App/Propose.antt =====
-- A proposal extends the leaf, and is justified by the highest certificate.
use cs244b_fp.Prelude.{
  ℕ, suc, ◌+◌, ◌%◌, ◌^◌, ◌≡◌, refl, ap, ◌∙◌, Bool, false, none, some, List, [], ◌∷◌, ◌++◌, Result,
  ok,
}
use cs244b_fp.Config.{Hash}
use cs244b_fp.Wire.{Sodium}
use cs244b_fp.Crypto.Certs.{parse_qc}
use cs244b_fp.Block.{
  Ptr, HotstuffBlock, Heap, get_hash, get_parent_hash, receive_block, mint_block, alloc,
}
use cs244b_fp.Consensus.{height}
use cs244b_fp.Consensus.Invariant.{Grows}
use cs244b_fp.Storage.BlockStore.{
  BlockStore, MissingDependencies, insert_block, get_block, is_missing,
}
use cs244b_fp.Storage.BlockStore.Insert.{IsStore, IsNew, HasRoom, insert_block-Inserted}
use cs244b_fp.Network.Events.{Network, proposal_event}
use cs244b_fp.Network.Manager.{Clients, propose_to_all, broadcast_proposal}
use cs244b_fp.App.{HotstuffApp, propose_block, do_propose}
use cs244b_fp.App.Alloc.{
  IsUnused, alloc_old, alloc_new, alloc-Grows, alloc-IsStore, alloc-HasRoom, cached_old,
  Grows-trans, Linked, Inserted-Linked,
}
use cs244b_fp.App.Broadcast.{supports-ok, broadcast_proposal-ok}

module _ {V : Type 0} where
  -- The store and the core of the application fit together: the leaf and the block with the highest
  -- certificate are in the cache, the next address is free.
  pub record IsReady (app : HotstuffApp V) : Type 0 where
    pub store : IsStore app.network.block_store app.core.heap
    pub room : HasRoom app.core.heap
    pub unused : IsUnused app.network.block_store app.core.heap
    pub leaf :
        get_block (get_hash (app.core.heap.cell app.core.b_leaf)) app.network.block_store
        ≡ some app.core.b_leaf
    pub certified :
        get_block app.core.hqc_wire.justify app.network.block_store ≡ some app.core.hqc_block

  -- `after` is `before` with a proposal, whose hash is returned: a new leaf, the child of the old one,
  -- one higher, with the certificate of the block that was the highest certified one. The store and
  -- the heap have grown by it, the core gets it as an event, and every other replica is sent it.
  pub record Proposed (before after : HotstuffApp V) (hash : Hash) : Type 0 where
    pub child : (after.core.heap.cell after.core.b_leaf).parent_block_ptr ≡ some before.core.b_leaf
    pub justified :
        (after.core.heap.cell after.core.b_leaf).justify_block_ptr ≡ some before.core.hqc_block
    pub higher : height after.core after.core.b_leaf ≡ suc (height before.core before.core.b_leaf)
    pub named : hash ≡ get_hash (after.core.heap.cell after.core.b_leaf)
    pub still_store : IsStore after.network.block_store after.core.heap
    pub grown : Grows before.core.heap after.core.heap
    pub same_core :
        after.core ≡ record before.core { heap = after.core.heap; b_leaf = after.core.b_leaf }
    pub queued :
        after.network.core_events
        ≡ before.network.core_events ++ proposal_event after.core.b_leaf before.core.self_id ∷ []
    pub sent :
        after.clients
        ≡ propose_to_all
            (record {
              proposal = (after.core.heap.cell after.core.b_leaf).wire_block;
              proposer = before.core.self_id;
            })
            before.clients

module _ {V : Type 0} (sodium : Sodium) (get_next_vm_block : Bool → ℕ → V → Result (List ℕ × V))
    (app : HotstuffApp V) (r : IsReady app) where
  abbrev minted : List ℕ → HotstuffBlock
  minted body =
      mint_block sodium body app.core.hqc_wire (get_hash (app.core.heap.cell app.core.b_leaf))
        app.core.self_id

  minted_plain :
      (body : List ℕ)
      → ((minted body).block_height ≡ 0)
        × ((minted body).parent_block_ptr ≡ none)
        × ((minted body).justify_block_ptr ≡ none)
        × (get_parent_hash (minted body) ≡ get_hash (app.core.heap.cell app.core.b_leaf))
  unfolding mint_block receive_block get_parent_hash
  minted_plain body = (refl, refl, refl, refl)

  new_block :
      (body : List ℕ)
      → IsNew app.network.block_store (alloc (minted body) app.core.heap).1 app.core.heap.next
  unfolding mint_block receive_block
  new_block body = record {
    unlinked = ap (λ x. x.parent_block_ptr) (alloc_new (minted body) app.core.heap);
    qc = parse_qc app.core.hqc_wire;
    parsed = ap (λ x. x.parsed_qc) (alloc_new (minted body) app.core.heap);
    uncached = r.unused.not_cached;
  }

  abbrev proposal_made : Ptr → Network → Clients → V → HotstuffApp V
  proposal_made blk n clients vm = record app {
    core = record app.core { heap = n.heap; b_leaf = blk };
    network = n;
    clients = clients;
    vm = vm;
  }

  propose_block-steps :
      (nonempty : Bool) (body : List ℕ) (vm : V) (m : MissingDependencies) (s : BlockStore)
      (h : Heap) (n : Network) (clients : Clients)
      → get_next_vm_block nonempty ((height app.core app.core.b_leaf + 1) % 2 ^ 64) app.vm
        ≡ ok (body, vm)
      → insert_block
          (alloc (minted body) app.core.heap).0
          app.network.block_store
          (alloc (minted body) app.core.heap).1
        ≡ ok (m, s, h)
      → is_missing m ≡ false
      → broadcast_proposal app.core.self_id
          (alloc (minted body) app.core.heap).0
          (record app.network { heap = h; block_store = s })
          app.clients
        ≡ ok (n, clients)
      → propose_block sodium get_next_vm_block nonempty app
        ≡ ok (
          get_hash (n.heap.cell (alloc (minted body) app.core.heap).0),
          proposal_made (alloc (minted body) app.core.heap).0 n clients vm,
        )
  unfolding propose_block
  propose_block-steps nonempty body vm m s h n clients next inserted all sent =
      rw next (rw inserted (rw all (rw sent refl)))

  -- The minted block, inserted and linked.
  minted-Linked :
      (body : List ℕ)
      → (m : MissingDependencies × BlockStore × Heap) × (insert_block app.core.heap.next
            app.network.block_store
            (alloc (minted body) app.core.heap).1
          ≡ ok m)
        × Linked
            (alloc (minted body) app.core.heap).1
            app.core.heap.next
            app.core.b_leaf
            app.core.hqc_block
            m
  unfolding new_block parse_qc
  minted-Linked body =
      let c = app.core in
      let s = app.network.block_store in
      let b = minted body in
      let h = (alloc b c.heap).1 in
      let plain = minted_plain body in
      let (m, e, inserted) =
        insert_block-Inserted s h c.heap.next
          (alloc-IsStore s c.heap b r.store r.unused r.room plain.0 plain.1 plain.2)
          (new_block body)
          (alloc-HasRoom s c.heap b r.store r.unused r.room plain.0 plain.1 plain.2) in
      let parent : get_block (get_parent_hash (h.cell c.heap.next)) s ≡ some c.b_leaf =
        ap (λ x. get_block (get_parent_hash x) s) (alloc_new b c.heap)
        ∙ ap (λ k. get_block k s) plain.3
        ∙ r.leaf in
      (m, e, Inserted-Linked c.b_leaf c.hqc_block inserted parent r.certified)

  leaf_kept :
      (body : List ℕ)
      → (alloc (minted body) app.core.heap).1.cell app.core.b_leaf
        ≡ app.core.heap.cell app.core.b_leaf
  unfolding get_block
  leaf_kept body =
      let plain = minted_plain body in
      alloc_old (minted body) app.core.heap app.core.b_leaf (
        cached_old app.network.block_store app.core.heap (minted body) r.store r.unused r.room
          plain.0 plain.1 plain.2 _ _ r.leaf)

  -- Proposing on a store and a core that fit together never fails to insert the block, whatever the
  -- state machine gives as a body: the proposal is made.
  pub propose_block-Proposed :
      (nonempty : Bool) (body : List ℕ) (vm : V)
      → get_next_vm_block nonempty ((height app.core app.core.b_leaf + 1) % 2 ^ 64) app.vm
        ≡ ok (body, vm)
      → (hash : Hash) × (app' : HotstuffApp V) × (propose_block sodium get_next_vm_block nonempty
            app
          ≡ ok (hash, app'))
        × Proposed app app' hash
  unfolding alloc
  propose_block-Proposed nonempty body vm e =
      let c = app.core in
      let blk = c.heap.next in
      let plain = minted_plain body in
      let (m, inserted, l) = minted-Linked body in
      let n : Network = record app.network { heap = m.2; block_store = m.1 } in
      let above = l.above ∙ ap (λ x. suc x.block_height) (leaf_kept body) in
      let n' : Network = record n {
        core_events = n.core_events ++ proposal_event blk c.self_id ∷ [];
      } in
      let clients =
        propose_to_all (record { proposal = (m.2.cell blk).wire_block; proposer = c.self_id })
          app.clients in
      (
        get_hash (m.2.cell blk),
        proposal_made blk n' clients vm,
        propose_block-steps nonempty body vm m.0 m.1 m.2 n' clients e inserted l.complete
            (broadcast_proposal-ok c.self_id blk _ n app.clients above),
        record {
          child = l.parent;
          justified = l.justify;
          higher = above;
          named = refl;
          still_store = l.is_store;
          grown =
              Grows-trans
                (alloc-Grows app.network.block_store c.heap (minted body) r.store r.unused r.room
                  plain.0 plain.1 plain.2)
                l.grows;
          same_core = refl;
          queued = refl;
          sent = refl;
        },
      )

  -- A replica whose store and core fit together, with a state machine that gives a block when it is
  -- asked, proposes: `do_propose` returns the hash of a new leaf, a child of the old one.
  pub do_propose-Proposed :
      ((nonempty : Bool)
        → (next : List ℕ × V) × (get_next_vm_block nonempty
              ((height app.core app.core.b_leaf + 1) % 2 ^ 64)
              app.vm
            ≡ ok next))
      → (hash : Hash) × (app' : HotstuffApp V) × (do_propose sodium get_next_vm_block app
          ≡ ok (hash, app'))
        × Proposed app app' hash
  unfolding do_propose
  do_propose-Proposed gives =
      let (nonempty, supported) =
        supports-ok app.core.heap app.core.self_id 3 app.core.b_leaf r.store.with_qc in
      let ((body, vm), e) = gives nonempty in
      let (hash, app', made, proposed) = propose_block-Proposed nonempty body vm e in
      (hash, app', rw supported made, proposed)
