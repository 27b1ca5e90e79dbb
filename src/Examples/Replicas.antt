-- ===== src/Examples/Replicas.antt =====
-- A history of four replicas, of which the last is faulty, and the theorems at its end.
use cs244b_fp.Prelude.{◌≡◌, refl, inl, ◌⊎◌, false, List, [], ◌∷◌, ◌++◌, arith, ok}
use cs244b_fp.Config.{Hash, Signature, ReplicaId, finish_init, get_publickey, get_info}
use cs244b_fp.Crypto.Certs.{QuorumCertificate, empty_qc, verify, count_valid, check_sig}
use cs244b_fp.Crypto.Certs.Verify.{Signed}
use cs244b_fp.Replicas.Votes.{Certified, Voted, now, later}
use cs244b_fp.Replicas.Signers.{verify-Certified}
use cs244b_fp.Replicas.{System, Reach, here, start}
use cs244b_fp.Replicas.Agreement.{applied_hashes, applied-agree}
use cs244b_fp.Replicas.Returns.{on_receive_proposal-returns}
use cs244b_fp.Block.{genesis_heap, genesis_block, write_to_disk, modify, decide, get_justify_qc}
use cs244b_fp.Consensus.{
  init_core, Core, opinion, on_receive_proposal, cast_vote, update, update_hqc, update_lock,
  lock_and_write, update_commit, commit_chain, walk_down, decide_queue, finish_commit,
}
use cs244b_fp.Examples.Growing.{chain_world, chain_world-IsWorld}
use cs244b_fp.Examples.Chain.{chain_block}
use cs244b_fp.Examples.Config.{four, four-Built, toy_sodium}
use cs244b_fp.Examples.Rounds.{
  is_faulty, quorums, log_after, round, Goes, Knows-start, round-Returned, Goes-on,
}

-- A certificate of the toy scheme, in which nobody but the owner of a key signs.
abbrev signed : QuorumCertificate
signed = record { obj_hash = 1; sigs = (0, 101) ∷ (1, 102) ∷ (3, 104) ∷ [] }

verify-Certified_example : Certified quorums ((2, 1) ∷ log_after 1) 1
unfolding verify finish_init count_valid check_sig get_publickey get_info
verify-Certified_example =
    verify-Certified four four-Built (omega arith) is_faulty (omega arith) toy_sodium signed
      ((2, 1) ∷ log_after 1) (omega arith) (λ e honest s. unforged e.0 e.1 honest s) refl
  where
    unforged :
        (r : ReplicaId) (sig : Signature)
        → is_faulty r ≡ false
        → Signed toy_sodium (finish_init four) 1 (r, sig)
        → Voted ((2, 1) ∷ log_after 1) r 1
    unforged r sig honest (pk, known, good) = ground (arith, honest, known)

-- Both replicas take part in the first rounds, and only replica 0 in the last.
abbrev after1 : System
after1 = round 1 0 (round 0 0 (start four))

abbrev after2 : System
after2 = round 1 1 (round 0 1 after1)

abbrev after3 : System
after3 = round 1 2 (round 0 2 after2)

abbrev final : System
final = round 0 3 after3

go0 : Goes 0 0 (start four)
unfolding start init_core
go0 = record {
  history = here;
  honest = refl;
  knows = Knows-start 0;
  certified = λ k le. inl (omega (arith, le));
  small = omega arith;
}

go1 : Goes 1 0 (round 0 0 (start four))
unfolding start init_core
go1 = record {
  history = (round-Returned 0 0 (start four) go0).reached;
  honest = refl;
  knows = Knows-start 1;
  certified = λ k le. inl (omega (arith, le));
  small = omega arith;
}

reached-final : Reach chain_world quorums (start four) final
unfolding on_receive_proposal opinion cast_vote update update_hqc update_lock lock_and_write
    update_commit commit_chain walk_down decide_queue finish_commit write_to_disk init_core
    genesis_block genesis_heap modify decide get_justify_qc chain_block start empty_qc
reached-final =
    let a0 = round-Returned 0 0 (start four) go0 in
    let a1 = round-Returned 1 0 (round 0 0 (start four)) go1 in
    let b0 = round-Returned 0 1 after1 (
      Goes-on 0 1 after1 refl (omega arith) a1.reached (a0.knows_next (λ p h. ground (arith, h)))
        now) in
    let b1 = round-Returned 1 1 (round 0 1 after1) (
      Goes-on 1 1 (round 0 1 after1) refl (omega arith) b0.reached
        (a1.knows_next (λ p h. ground (arith, h))) (later _ now)) in
    let c0 = round-Returned 0 2 after2 (
      Goes-on 0 2 after2 refl (omega arith) b1.reached (b0.knows_next (λ p h. ground (arith, h)))
        now) in
    let c1 = round-Returned 1 2 (round 0 2 after2) (
      Goes-on 1 2 (round 0 2 after2) refl (omega arith) c0.reached
        (b1.knows_next (λ p h. ground (arith, h))) (later _ now)) in
    (round-Returned 0 3 after3 (
      Goes-on 0 3 after3 refl (omega arith) c1.reached (c0.knows_next (λ p h. ground (arith, h)))
        now)).reached

-- Replica 0 has applied block 1, the others nothing.
applied_final : (applied_hashes (final.core 0) ≡ 1 ∷ []) × (applied_hashes (final.core 1) ≡ [])
unfolding on_receive_proposal opinion cast_vote update update_hqc update_lock lock_and_write
    update_commit commit_chain walk_down decide_queue finish_commit write_to_disk init_core
    genesis_block genesis_heap modify decide get_justify_qc chain_block start empty_qc
applied_final = (refl, refl)

applied-agree_example :
    ((more : List Hash) × (applied_hashes (final.core 0) ≡ more ++ applied_hashes (final.core 1)))
    ⊎ ((more : List Hash) × (applied_hashes (final.core 1) ≡ more ++ applied_hashes (final.core 0)))
applied-agree_example =
    applied-agree chain_world chain_world-IsWorld quorums four 1 0 reached-final refl refl

on_receive_proposal-returns_example : (d : Core) × (on_receive_proposal 3 1 (final.core 1) ≡ ok d)
unfolding on_receive_proposal opinion cast_vote update update_hqc update_lock lock_and_write
    update_commit commit_chain walk_down decide_queue finish_commit write_to_disk init_core
    genesis_block genesis_heap modify decide get_justify_qc chain_block start empty_qc
on_receive_proposal-returns_example =
    on_receive_proposal-returns chain_world chain_world-IsWorld quorums four 1 3 2 1 reached-final
      refl refl (omega arith)
