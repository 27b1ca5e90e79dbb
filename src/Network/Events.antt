-- ===== src/Network/Events.antt =====
-- network_event, network_event_queue, event and event_queue: what arrives from the network, and what
-- the core is given. A queue's thread takes the events in order; one event is one call of `on_event`
-- or `on_net_event`. `hotstuff_event_queue` and the queue's own `add_events_` are the fields
-- `core_events` and `net_events`.
pub mod Passes
use cs244b_fp.Prelude.{
  Bool, true, false, not, Option, none, some, List, [], ◌∷◌, ◌++◌, ◌==◌, if◌then◌else◌, Result, ok,
  err, ◌>>=◌, wrong_vote_event,
}
use cs244b_fp.Config.{Hash, ReplicaId, ReplicaConfig, get_info}
use cs244b_fp.Wire.{PartialCertificate, VoteMessage, ProposeMessage, Sodium}
use cs244b_fp.Crypto.Certs.{validate}
use cs244b_fp.Block.{Ptr, Heap, get_hash, receive_block, validate_hotstuff, alloc, modify}
use cs244b_fp.Storage.BlockStore.{
  BlockStore, MissingDependencies, is_missing, get_block, insert_block,
}
use cs244b_fp.Network.Fetch.{Fetcher, add_fetch_request, deliver_block}
use cs244b_fp.Consensus.{Core, on_receive_vote, on_receive_proposal}

pub data NetEvent : Type 0 where
  vote_net_event : PartialCertificate → ReplicaId → NetEvent
  proposal_net_event block_receive_net_event : Ptr → ReplicaId → NetEvent

pub data Event : Type 0 where
  vote_event : PartialCertificate → Ptr → ReplicaId → Event
  proposal_event : Ptr → ReplicaId → Event

-- `Event::validate`: a vote event on another hash throws, a proposal without a height is dropped.
unfoldable pub validate_event : Heap → Event → Result Bool
validate_event h (vote_event cert blk rid) =
    if not (get_hash (h.cell blk) == cert.hash) then err wrong_vote_event else ok true
validate_event h (proposal_event blk rid) = ok (not ((h.cell blk).block_height == 0))

-- `EventQueue::on_event`.
unfoldable pub on_event : Event → Core → Result Core
on_event (vote_event cert blk rid) c = on_receive_vote cert blk rid c
on_event (proposal_event blk rid) c = on_receive_proposal blk rid c

-- The events of one pass of the queue's thread, in order.
unfoldable pub run_events : List Event → Core → Result Core
unfolding on_event
run_events [] c = ok c
run_events (e ∷ es) c = do c' ← on_event e c; run_events es c'

-- What the network event queue works on.
pub record Network : Type 0 where
  pub heap : Heap
  pub block_store : BlockStore
  pub fetcher : Fetcher NetEvent
  pub net_events : List NetEvent
  pub core_events : List Event

-- `EventQueue::validate_and_add_event`.
unfoldable pub validate_and_add_event : Event → Network → Result Network
unfolding validate_event
validate_and_add_event e n = do
  valid ← validate_event n.heap e
  ok (if valid then record n { core_events = n.core_events ++ e ∷ [] } else n)

unfoldable pub add_events : List NetEvent → Network → Network
add_events es n = record n { net_events = n.net_events ++ es }

module _ (config : ReplicaConfig) where
  abbrev fetch_missing : Option Hash → ReplicaId → List NetEvent → Network → Result Network
  fetch_missing none target events n = ok n
  fetch_missing (some k) target events n = do
    f ← add_fetch_request config k target events n.fetcher
    ok (record n { fetcher = f })

  -- A block that misses its parent, its certified block or both. The events wait for the parent, if it
  -- is missing, and else for the certified block.
  unfoldable pub await_dependencies :
      MissingDependencies → Hash → ReplicaId → NetEvent → Network → Result Network
  await_dependencies m h target event n = do
    let (dep_events, f) = deliver_block h n.fetcher
    let events = dep_events ++ event ∷ []
    n' ← fetch_missing m.parent_hash target events (record n { fetcher = f })
    fetch_missing m.justify_hash target (elim m.parent_hash [ none ↦ events | some _ ↦ [] ]) n'

  -- A block that came alone or in a proposal; with whether it was inserted.
  unfoldable pub on_block : Ptr → ReplicaId → NetEvent → Network → Result (Bool × Network)
  unfolding await_dependencies add_events
  on_block blk source event n = do
    let k = get_hash (n.heap.cell blk)
    (missing, store, h) ← insert_block blk n.block_store n.heap
    let n' = record n { block_store = store; heap = h }
    if is_missing missing
        then (do n'' ← await_dependencies missing k source event n'; ok (false, n''))
        else (let (dep_events, f) = deliver_block k n'.fetcher in
            ok (true, add_events dep_events (record n' { fetcher = f })))

  unfoldable pub on_net_event : NetEvent → Network → Result Network
  unfolding on_block
  on_net_event (vote_net_event cert voter) n = elim (get_block cert.hash n.block_store) [
    | some blk ↦ validate_and_add_event (vote_event cert blk voter) n
    | none ↦ (do
      f ← add_fetch_request config cert.hash voter (vote_net_event cert voter ∷ []) n.fetcher
      ok (record n { fetcher = f }))
  ]
  on_net_event (proposal_net_event blk proposer) n = do
    (inserted, n') ← on_block blk proposer (proposal_net_event blk proposer) n
    if inserted then validate_and_add_event (proposal_event blk proposer) n' else ok n'
  on_net_event (block_receive_net_event blk sender) n = do
    (inserted, n') ← on_block blk sender (block_receive_net_event blk sender) n
    ok n'

  -- Checked where an event enters the queue; the hash that a block caches is written.
  unfoldable pub validate_net_event : Sodium → NetEvent → Network → Result (Bool × Network)
  validate_net_event sodium (vote_net_event cert voter) n = do
    info ← get_info config voter
    ok (validate sodium cert info, n)
  validate_net_event sodium (proposal_net_event blk proposer) n = do
    (valid, b) ← validate_hotstuff sodium config (n.heap.cell blk)
    ok (valid, record n { heap = modify (λ _. b) blk n.heap })
  validate_net_event sodium (block_receive_net_event blk sender) n = do
    (valid, b) ← validate_hotstuff sodium config (n.heap.cell blk)
    ok (valid, record n { heap = modify (λ _. b) blk n.heap })

  -- `NetworkEventQueue::validate_and_add_event`.
  unfoldable pub validate_and_add_net_event : Sodium → NetEvent → Network → Result Network
  unfolding validate_net_event add_events
  validate_and_add_net_event sodium event n = do
    (valid, n') ← validate_net_event sodium event n
    ok (if valid then add_events (event ∷ []) n' else n')

-- The constructor of `ProposalNetEvent`.
unfoldable pub receive_proposal : Sodium → ProposeMessage → Heap → NetEvent × Heap
receive_proposal sodium m h =
    let (blk, h') = alloc (receive_block sodium m.proposal m.proposer) h in
    (proposal_net_event blk m.proposer, h')

-- The constructor of `VoteNetEvent`.
unfoldable pub receive_vote : VoteMessage → NetEvent
receive_vote m = vote_net_event m.vote m.voter
