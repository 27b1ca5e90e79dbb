-- ===== src/Examples/Proposals.antt =====
-- Proposals for a machine that does not speculate.
use cs244b_fp.Prelude.{ℕ, ◌≡◌, refl, List, [], ◌∷◌, ◌++◌, ok, err, some, null_deref}
use cs244b_fp.Crypto.Certs.{empty_qc, serialize}
use cs244b_fp.Block.{mint_block}
use cs244b_fp.Vm.Control.{VmType}
use cs244b_fp.Vm.Counting.{clean_vm, counting_vm}
use cs244b_fp.Vm.Nonspeculative.{
  Bridge, new_bridge, init_clean, add_proposal, get_next_proposal, make_empty_proposal, apply_block,
}
use cs244b_fp.Vm.Nonspeculative.Proposals.{waiting, Taken, proposals-queue, apply_block-empty}
use cs244b_fp.Examples.Config.{toy_sodium}

abbrev counting : VmType
counting = counting_vm (λ bytes. some bytes) (λ block. block)

abbrev two_wait : Bridge counting
two_wait = add_proposal (2 ∷ []) (add_proposal (1 ∷ []) (init_clean (new_bridge clean_vm)))

proposals-queue_example :
    (waiting (add_proposal (3 ∷ []) two_wait).proposal_buffer
      ≡ waiting two_wait.proposal_buffer ++ (3 ∷ []) ∷ [])
    × (body : List ℕ) × (b' : Bridge counting) × (get_next_proposal 7 two_wait ≡ ok (body, b'))
    × Taken (waiting two_wait.proposal_buffer) body (waiting b'.proposal_buffer)
unfolding add_proposal init_clean new_bridge
proposals-queue_example = proposals-queue two_wait (3 ∷ []) 7 refl

apply_block-empty_example :
    (body : List ℕ) × (make_empty_proposal 7 two_wait ≡ ok body)
    × (apply_block 1 (mint_block toy_sodium body (serialize (empty_qc 0)) 0 1) two_wait
        ≡ err null_deref)
unfolding add_proposal init_clean new_bridge
apply_block-empty_example =
    apply_block-empty two_wait toy_sodium 7 (serialize (empty_qc 0)) 0 1 1 refl
