-- ===== src/App.antt =====
-- hotstuff.h and hotstuff.cc: the application around the core, and liveness.h, the pacemaker that
-- waits for certificates. The bridge to the state machine is the parameter `get_next_vm_block`.
-- The core and the network work on one heap: the core's is current, and is handed over for a call.
pub mod Alloc
pub mod Broadcast
pub mod Propose
pub mod Leading
pub mod Waiting
pub mod Reload
pub mod Bridges
use cs244b_fp.Prelude.{
  ℕ, ◌+◌, ◌-◌, ◌%◌, ◌^◌, Bool, true, false, not, ◌&&◌, Option, none, some, List, ltb, ◌==◌,
  if◌then◌else◌, Result, ok, err, or_fail, ◌>>=◌, insert_failed, block_not_found, null_deref,
  woke_up_early,
}
use cs244b_fp.Config.{Hash, SecretKey, ReplicaId, ReplicaConfig}
use cs244b_fp.Wire.{Sodium}
use cs244b_fp.Crypto.Certs.{partial_certificate}
use cs244b_fp.Block.{Ptr, get_hash, mint_block, alloc, supports_nonempty_child_proposal}
use cs244b_fp.Storage.BlockStore.{is_missing, insert_block, get_block, prune_below_height}
use cs244b_fp.Consensus.{Core, height, get_last_proposer}
use cs244b_fp.Network.Events.{Network}
use cs244b_fp.Network.Manager.{Clients, send_vote_to, broadcast_proposal}

pub record HotstuffApp (V : Type 0) : Type 0 where
  pub core : Core
  pub network : Network
  pub clients : Clients
  pub vm : V
  pub secret_key : SecretKey
  pub latest_new_qc : Option Hash
  pub cancel_wait : Bool

abbrev pub keep_depth : ℕ
keep_depth = 100

module _ {V : Type 0} where
  abbrev pub network_of : HotstuffApp V → Network
  network_of app = record app.network { heap = app.core.heap }

  abbrev pub with_network : Network → HotstuffApp V → HotstuffApp V
  with_network n app = record app { core = record app.core { heap = n.heap }; network = n }

  -- `HotstuffAppBase::do_vote`.
  unfoldable pub send_vote : Sodium → Ptr → ReplicaId → HotstuffApp V → Result (HotstuffApp V)
  send_vote sodium block proposer app = do
    cert ← partial_certificate sodium (get_hash (app.core.heap.cell block)) app.secret_key
    (n, clients) ← send_vote_to app.core.self_id block cert proposer (network_of app) app.clients
    ok (record (with_network n app) { clients = clients })

  -- Below the depth there is nothing to subtract from.
  unfoldable pub ok_to_prune : ℕ → HotstuffApp V → HotstuffApp V
  ok_to_prune committed app =
      let low = if ltb keep_depth committed then committed - keep_depth else 0 in
      record app {
        network = record app.network {
          block_store = prune_below_height low app.network.block_store;
        };
      }

  unfoldable pub find_block_by_hash : Hash → HotstuffApp V → Result Ptr
  find_block_by_hash hash app = or_fail (get_block hash app.network.block_store) block_not_found

  unfoldable pub new_qc : Hash → HotstuffApp V → HotstuffApp V
  new_qc hash app = record app { latest_new_qc = some hash }

  unfoldable pub cancel_wait_for_new_qc : HotstuffApp V → HotstuffApp V
  cancel_wait_for_new_qc app = record app { cancel_wait = true }

  -- `app` is the application when the wait ends, which it does once there is a certificate or the
  -- wait is cancelled; to end it before that is an error of the caller.
  unfoldable pub wait_for_new_qc : Hash → HotstuffApp V → Result (Bool × HotstuffApp V)
  wait_for_new_qc expected_next_qc app =
      if app.cancel_wait
      then ok (false, record app { cancel_wait = false })
      else elim app.latest_new_qc [
        | none ↦ err woke_up_early
        | some qc ↦ ok (qc == expected_next_qc, record app { latest_new_qc = none })
      ]

module _ {V : Type 0} (sodium : Sodium)
    (get_next_vm_block : Bool → ℕ → V → Result (List ℕ × V)) where
  -- `do_propose` after the choice between a full and an empty block, which `do_empty_propose` makes
  -- for itself.
  unfoldable pub propose_block : Bool → HotstuffApp V → Result (Hash × HotstuffApp V)
  propose_block nonempty app = do
    let c = app.core
    let new_block_height = (height c c.b_leaf + 1) % 2 ^ 64
    (body, vm) ← get_next_vm_block nonempty new_block_height app.vm
    let minted = mint_block sodium body c.hqc_wire (get_hash (c.heap.cell c.b_leaf)) c.self_id
    let (blk, h) = alloc minted c.heap
    (missing, store, h') ← insert_block blk app.network.block_store h
    if is_missing missing then err insert_failed else do
      let n = record app.network { heap = h'; block_store = store }
      (n', clients) ← broadcast_proposal c.self_id blk n app.clients
      ok (
        get_hash (n'.heap.cell blk),
        record app {
          core = record c { heap = n'.heap; b_leaf = blk };
          network = n';
          clients = clients;
          vm = vm;
        },
      )

  unfoldable pub do_propose : HotstuffApp V → Result (Hash × HotstuffApp V)
  do_propose app = do
    nonempty ← supports_nonempty_child_proposal app.core.heap app.core.self_id 3 app.core.b_leaf
    propose_block nonempty app

  unfoldable pub do_empty_propose : HotstuffApp V → Result (Hash × HotstuffApp V)
  do_empty_propose app = propose_block false app

-- `PaceMakerWaitQC`.
pub record PaceMaker : Type 0 where
  pub expected_hash : Hash
  pub proposer : ReplicaId

unfoldable pub rotate_proposers : ReplicaConfig → PaceMaker → PaceMaker
rotate_proposers config pm = record pm { proposer = (pm.proposer + 1) % config.nreplicas }

module _ {V : Type 0} where
  unfoldable pub new_pacemaker : HotstuffApp V → PaceMaker
  new_pacemaker app = record { expected_hash = 0; proposer = get_last_proposer app.core }

  unfoldable pub wait_for_qc : PaceMaker → HotstuffApp V → Result (Bool × PaceMaker × HotstuffApp V)
  wait_for_qc pm app = do
    (res, app') ← wait_for_new_qc pm.expected_hash app
    ok (res, (if not res then record pm { proposer = get_last_proposer app'.core } else pm), app')

  unfoldable pub should_propose : PaceMaker → HotstuffApp V → Bool
  should_propose pm app = pm.proposer == app.core.self_id

  unfoldable pub set_self_as_proposer : PaceMaker → HotstuffApp V → PaceMaker
  set_self_as_proposer pm app = record pm { proposer = app.core.self_id }

  unfoldable pub pace_propose :
      Sodium
      → (Bool → ℕ → V → Result (List ℕ × V))
      → PaceMaker
      → HotstuffApp V
      → Result (PaceMaker × HotstuffApp V)
  pace_propose sodium get_next_vm_block pm app = do
    (hash, app') ← do_propose sodium get_next_vm_block app
    ok (record pm { proposer = app.core.self_id; expected_hash = hash }, app')

  unfoldable pub pace_empty_propose :
      Sodium
      → (Bool → ℕ → V → Result (List ℕ × V))
      → PaceMaker
      → HotstuffApp V
      → Result (PaceMaker × HotstuffApp V)
  pace_empty_propose sodium get_next_vm_block pm app = do
    (hash, app') ← do_empty_propose sodium get_next_vm_block app
    ok (record pm { proposer = app.core.self_id; expected_hash = hash }, app')
