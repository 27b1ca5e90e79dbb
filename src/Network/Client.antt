-- ===== src/Network/Client.antt =====
-- protocol/hotstuff_protocol_client: the messages for one replica, which a thread sends in order.
pub mod Retry
pub mod Order
use cs244b_fp.Prelude.{
  ℕ, zero, suc, Bool, true, false, Option, none, some, List, [], ◌∷◌, ◌++◌, length, if◌then◌else◌,
  Result, ok, err, ◌>>=◌, out_of_fuel,
}
use cs244b_fp.Wire.{VoteMessage, ProposeMessage}
use cs244b_fp.Network.Rpc.{Rpc, try_action}

pub data Message : Type 0 where
  vote_msg : VoteMessage → Message
  propose_msg : ProposeMessage → Message

-- `delivered` are the messages whose call has returned, in order.
pub record ProtocolClient : Type 0 where
  pub rpc : Rpc Unit
  pub work : List Message
  pub delivered : List Message

unfoldable pub propose : ProposeMessage → ProtocolClient → ProtocolClient
propose proposal c = record c { work = c.work ++ propose_msg proposal ∷ [] }

unfoldable pub vote : VoteMessage → ProtocolClient → ProtocolClient
vote v c = record c { work = c.work ++ vote_msg v ∷ [] }

unfoldable pub exists_work_to_do : ProtocolClient → Bool
exists_work_to_do c = elim c.work [ [] ↦ false | _ ∷ _ ↦ true ]

-- The loop `while (!success)`; false if it ends because of `done_flag`.
unfoldable pub send_message : ℕ → Message → ProtocolClient → Result (Bool × ProtocolClient)
send_message zero m c = err out_of_fuel
send_message (suc fuel) m c = do
  (success, rpc) ← try_action c.rpc
  elim success [
    | some _ ↦ ok (true, record c { rpc = rpc; delivered = c.delivered ++ m ∷ [] })
    | none ↦ elim rpc.done_flag [
      | true ↦ ok (false, record c { rpc = rpc })
      | false ↦ send_message fuel m (record c { rpc = rpc })
    ]
  ]

-- The loop over `todo`. A message is tried no more often than the network answers.
unfoldable pub send_messages : List Message → ProtocolClient → Result ProtocolClient
send_messages [] c = ok c
send_messages (m ∷ todo) c = do
  (sent, c') ← send_message (suc (length c.rpc.calls)) m c
  elim sent [ true ↦ send_messages todo c' | false ↦ ok c' ]

unfoldable pub do_work : List Message → ProtocolClient → Result ProtocolClient
do_work todo c = if c.rpc.done_flag then ok c else send_messages todo c

-- One round of `run`, with `done_flag` as read after the wait.
unfoldable pub run_round : ProtocolClient → Result ProtocolClient
run_round c = if c.rpc.done_flag then ok c else do_work c.work (record c { work = [] })
