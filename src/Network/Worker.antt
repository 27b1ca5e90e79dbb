-- ===== src/Network/Worker.antt =====
-- block_storage/block_fetch_worker and block_fetch_server: a thread per replica that asks it for
-- blocks, and the answer of the replica that is asked. `std::set<Hash>` is a map to the unit type.
pub mod Requests
pub mod Answers
use cs244b_fp.Prelude.{
  ℕ, Bool, true, false, Option, none, some, List, [], ◌∷◌, map, if◌then◌else◌, Result, ok, ◌>>=◌,
}
use cs244b_fp.Prelude.Maps.{emplace}
use cs244b_fp.Config.{Hash, ReplicaId, ReplicaConfig}
use cs244b_fp.Wire.{HotstuffBlockWire, Sodium}
use cs244b_fp.Block.{Ptr, Heap, receive_block, validate_hash, alloc, modify}
use cs244b_fp.Storage.BlockStore.{BlockStore, get_block}
use cs244b_fp.Network.Events.{
  Network, NetEvent, block_receive_net_event, validate_and_add_net_event,
}
use cs244b_fp.Network.Rpc.{Rpc, try_action}

abbrev pub Nothing : Type 0
Nothing = Unit

abbrev pub Hashes : Type 0
Hashes = List (Hash × Nothing)

pub record BlockFetchWorker : Type 0 where
  pub rpc : Rpc (List HotstuffBlockWire)
  pub reqs : Hashes
  pub info_id : ReplicaId

unfoldable pub add_request : Hash → BlockFetchWorker → BlockFetchWorker
add_request request w = record w { reqs = emplace request tt w.reqs }

abbrev pub insert_all : List Hash → Hashes → Hashes
insert_all [] reqs = reqs
insert_all (h ∷ hs) reqs = insert_all hs (emplace h tt reqs)

unfoldable pub readd_request : List Hash → BlockFetchWorker → BlockFetchWorker
readd_request hashes w = record w { reqs = insert_all hashes w.reqs }

unfoldable pub extract_reqs : BlockFetchWorker → List Hash × BlockFetchWorker
extract_reqs w = (map (λ e. e.0) w.reqs, record w { reqs = [] })

unfoldable pub exists_work_to_do : BlockFetchWorker → Bool
exists_work_to_do w = elim w.reqs [ [] ↦ false | _ ∷ _ ↦ true ]

module _ (sodium : Sodium) (config : ReplicaConfig) (info_id : ReplicaId) where
  -- The body of the loop over `res->responses`. What `validate_hash` returns is not used.
  unfoldable pub receive_response : HotstuffBlockWire → Network → Result Network
  receive_response response n =
      let (blk, h) = alloc (receive_block sodium response info_id) n.heap in
      let h' = modify (λ b. (validate_hash sodium b).1) blk h in
      validate_and_add_net_event config sodium (block_receive_net_event blk info_id)
        (record n { heap = h' })

  unfoldable pub receive_responses : List HotstuffBlockWire → Network → Result Network
  receive_responses [] n = ok n
  receive_responses (response ∷ rest) n = do
    n' ← receive_response response n
    receive_responses rest n'

-- A round of `run` up to the answer, with the hashes that it asks for.
unfoldable pub request_round :
    BlockFetchWorker → Result (List Hash × Option (List HotstuffBlockWire) × BlockFetchWorker)
request_round w = do
  let (hashes, w') = extract_reqs w
  (res, rpc) ← try_action w'.rpc
  ok (hashes, res, record w' { rpc = rpc })

-- The rest of the round: `w` is the worker when the answer arrives.
unfoldable pub answer_round :
    Sodium
    → ReplicaConfig
    → List Hash
    → Option (List HotstuffBlockWire)
    → BlockFetchWorker
    → Network
    → Result (BlockFetchWorker × Network)
answer_round sodium config hashes none w n = ok (readd_request hashes w, n)
answer_round sodium config hashes (some responses) w n = do
  n' ← receive_responses sodium config w.info_id responses n
  ok (w, n')

-- `BlockFetchHandler::fetch`.
unfoldable pub fetch : List Hash → BlockStore → Heap → List HotstuffBlockWire
fetch [] s h = []
fetch (k ∷ reqs) s h =
    let rest = fetch reqs s h in
    elim (get_block k s) [
      | none ↦ rest
      | some p ↦ if (h.cell p).flushed_from_memory then rest else (h.cell p).wire_block ∷ rest
    ]
