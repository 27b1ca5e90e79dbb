-- ===== src/Network/Manager.antt =====
-- protocol/hotstuff_protocol_manager and hotstuff_server: the messages that a replica sends, to itself
-- through the queue of its core and to the others through their clients, and those that it receives.
-- An unordered map of clients is a list; the order in which it is passed is that of the list.
use cs244b_fp.Prelude.{
  not, none, some, List, [], ◌∷◌, ◌==◌, if◌then◌else◌, Result, ok, err, ◌>>=◌, unknown_client,
}
use cs244b_fp.Prelude.Maps.{find, emplace}
use cs244b_fp.Config.{ReplicaId, ReplicaInfo, ReplicaConfig, list_info, is_valid_replica}
use cs244b_fp.Wire.{PartialCertificate, VoteMessage, ProposeMessage, Sodium}
use cs244b_fp.Block.{Ptr}
use cs244b_fp.Network.Events.{
  Network, vote_event, proposal_event, validate_and_add_event, validate_and_add_net_event,
  receive_vote, receive_proposal,
}
use cs244b_fp.Network.Client
use cs244b_fp.Network.Client.{ProtocolClient}

abbrev pub Clients : Type 0
Clients = List (ReplicaId × ProtocolClient)

-- The loop of the constructor over the replicas.
unfoldable pub other_clients :
    (ReplicaInfo → ProtocolClient) → ReplicaId → List ReplicaInfo → Clients
other_clients make self_id [] = []
other_clients make self_id (info ∷ infos) =
    let rest = other_clients make self_id infos in
    if not (info.id == self_id) then emplace info.id (make info) rest else rest

unfoldable pub init_manager : (ReplicaInfo → ProtocolClient) → ReplicaConfig → ReplicaId → Clients
init_manager make config self_id = other_clients make self_id (list_info config)

abbrev pub with_client : ReplicaId → (ProtocolClient → ProtocolClient) → Clients → Clients
with_client target f [] = []
with_client target f ((id, client) ∷ rest) =
    if id == target then (id, f client) ∷ rest else (id, client) ∷ with_client target f rest

unfoldable pub send_vote_to :
    ReplicaId
    → Ptr
    → PartialCertificate
    → ReplicaId
    → Network
    → Clients
    → Result (Network × Clients)
send_vote_to self_id block pc target n clients =
    if target == self_id
    then (do n' ← validate_and_add_event (vote_event pc block self_id) n; ok (n', clients))
    else elim (find target clients) [
      | none ↦ err unknown_client
      | some _ ↦
          ok (n, with_client target (Client.vote (record { vote = pc; voter = self_id })) clients)
    ]

unfoldable pub propose_to_all : ProposeMessage → Clients → Clients
propose_to_all p [] = []
propose_to_all p ((id, client) ∷ rest) = (id, Client.propose p client) ∷ propose_to_all p rest

unfoldable pub broadcast_proposal : ReplicaId → Ptr → Network → Clients → Result (Network × Clients)
broadcast_proposal self_id block n clients = do
  n' ← validate_and_add_event (proposal_event block self_id) n
  let p : ProposeMessage = record { proposal = (n.heap.cell block).wire_block; proposer = self_id }
  ok (n', propose_to_all p clients)

module _ (sodium : Sodium) (config : ReplicaConfig) where
  -- `HotstuffProtocolHandler::vote` and `propose`.
  unfoldable pub handle_vote : VoteMessage → Network → Result Network
  handle_vote v n =
      if not (is_valid_replica config v.voter)
      then ok n
      else validate_and_add_net_event config sodium (receive_vote v) n

  unfoldable pub handle_propose : ProposeMessage → Network → Result Network
  handle_propose p n =
      if not (is_valid_replica config p.proposer)
      then ok n
      else (let (event, h) = receive_proposal sodium p n.heap in
          validate_and_add_net_event config sodium event (record n { heap = h }))
