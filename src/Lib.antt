-- ===== src/Lib.antt =====
-- A HotStuff replica: the core of the C++ program under hotstuff/, its consensus state machine, the
-- certificates and blocks that it exchanges, the store that keeps them, and the layer through which
-- decided blocks reach the replicated state machine.
--
-- The parts, and the files of the repository that they come from:
-- - Prelude: names, Boolean tests, results with the source's exceptions (Prelude/Results.antt) and
--   `std::map` (Prelude/Maps.antt).
-- - Utils/BitVector.antt: hotstuff/utils/bitvector.h. Utils/BigEndian.antt:
--   hotstuff/utils/serialize_big_endian.h.
-- - Config.antt: hotstuff/hotstuff/config/replica_config.h and .cc.
-- - Wire.antt: hotstuff/hotstuff/xdr/hotstuff.x, and libsodium as a record of functions.
-- - Crypto/Certs.antt: hotstuff/hotstuff/crypto/certs.h and .cc.
-- - Block.antt: hotstuff/hotstuff/block.h and .cc. Blocks are shared through pointers, so they stand
--   in a heap; a parent pointer is an address. Block/Shape.antt has the tree that they form.
-- - Consensus.antt: hotstuff/hotstuff/consensus.h and .cc. `update` is split at its early returns
--   (`update_lock`, `update_commit`, `commit_chain`); what the core hands to virtual functions, to the
--   decision index and to files is recorded in `trace`. Consensus/Run.antt has histories of a replica:
--   proposals, votes, and blocks that the store links into the tree; Consensus/Leaf.antt has the leaf,
--   on which the replica proposes.
-- - Replicas.antt: the cores of several replicas, of which some are faulty, with the votes that the
--   honest ones send. Blocks are named by their hashes (Replicas/Naming.antt, without collisions);
--   which sets of replicas are quorums is the interface `Quorums`, filled by the certificates of a
--   configuration (Replicas/Signers.antt). Faulty replicas send anything but forged signatures, and
--   every block is taken to extend the block that it certifies, which the source does not check.
--   Histories handle proposals below the height 2 ^ 32, where the height of the last vote wraps. A
--   block that is received twice is linked twice, as in the source, at two addresses.
-- - Storage: hotstuff/hotstuff/block_storage/block_store and garbage_collector. What the store links
--   is what a history of the core allows (`Grows`). Storage/Index.antt: the index of decided blocks,
--   hotstuff/hotstuff/lmdb.h and .cc, and hotstuff/lmdb/lmdb_wrapper below it. LMDB is the record
--   `Lmdb` with its documented laws `IsLmdb`; the index is not in the core's state, where its calls are
--   effects. Storage/Files.antt: hotstuff/hotstuff/block_storage/io_utils.cc and the parts of
--   hotstuff/utils/save_load_xdr.h that it calls; the file system and the xdr form of a block are the
--   records `FileSystem` and `BlockXdr`; a write says whether it succeeded, which the source ignores.
-- - Network: hotstuff/hotstuff/block_storage/block_fetch_manager (Network/Fetch.antt), and event,
--   event_queue, generic_event_queue, network_event and network_event_queue in hotstuff/hotstuff
--   (Network/Events.antt): what arrives is checked, waits for missing blocks and reaches the core.
--   Network/Rpc.antt: hotstuff/hotstuff/nonblocking_rpc_client.h; Network/Client.antt and
--   Network/Manager.antt: hotstuff/hotstuff/protocol; Network/Worker.antt: block_fetch_worker and
--   block_fetch_server in hotstuff/hotstuff/block_storage. What the network answers is an argument.
-- - Vm: hotstuff/hotstuff/vm/speculative_exec_gadget.h (Vm/Gadget.antt), vm_control_interface.h
--   (Vm/Control.antt), hotstuff_vm_bridge.h (Vm/Bridge.antt), nonspeculative_vm_bridge.h
--   (Vm/Nonspeculative.antt) and counting_vm (Vm/Counting.antt, Loading). The
--   state machine, a template parameter in the source, is the record `VmType`.
-- - App.antt: hotstuff/hotstuff/hotstuff.h and .cc, the application that holds the core, the store and
--   the queues, and the pacemaker of liveness.h, which decides when to propose. App/Leading.antt:
--   histories in which it proposes as well; App/Reload.antt: how it starts, clean or with the decided blocks that the index lists and the disk holds; App/Bridges.antt:
--   its calls of the two bridges.
-- - Examples: tests and the theorems at concrete inputs.
--
-- Numbers are natural numbers; 64-bit heights and the 32-bit height of the last vote wrap where the
-- source computes them. Hashes, keys and signatures are numbers, the all-zero hash is 0.
-- The walks along parent pointers take the height of their start plus one as fuel, and so does the
-- recursive write to disk: heights fall by one at each step. A round of garbage collection takes the
-- length of its list plus one. A wait for the thread of the state machine takes one round more than
-- the proposals that it was asked for. A message is tried once more than the network answers, and the
-- attempts to connect are given as a list. A lack of fuel is the error `out_of_fuel`.
--
-- Each method runs alone: mutexes are left out but for the one that `apply_block` locks twice, and
-- threads appear as rounds that are called at any point of a history. A call that never returns is the
-- error `never_returns`. The core hands the blocks that it saves to `trace`: exceptions of `save_block`,
-- of the clients and of the index do not reach it there, and Block.antt has the walk that saves with
-- any `save_block`, which may throw. Not modelled are sockets, directories, the parts of the LMDB
-- wrapper that the program does not use, the test program, the web client and server, and xdrpp, which
-- is a library of another project.
pub mod App
pub mod Block
pub mod Config
pub mod Consensus
pub mod Crypto
pub mod Examples
pub mod Network
pub mod Prelude
pub mod Replicas
pub mod Storage
pub mod Utils
pub mod Vm
pub mod Wire
