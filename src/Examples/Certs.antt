-- ===== src/Examples/Certs.antt =====
-- Certificates of three of four replicas.
use cs244b_fp.Prelude.{◌/◌, ◌<◌, ◌≡◌, ◌⊎◌, refl, List, [], ◌∷◌, ok, true, arith}
use cs244b_fp.Config.{ReplicaId, finish_init, get_publickey, get_info}
use cs244b_fp.Config.Quorum.{common}
use cs244b_fp.Wire.{PartialCertificate}
use cs244b_fp.Utils.BitVector
use cs244b_fp.Crypto.Certs.{QuorumCertificate, parse_qc, serialize, has_quorum, verify, check_sig}
use cs244b_fp.Crypto.Certs.RoundTrip.{parse_qc-serialize}
use cs244b_fp.Crypto.Certs.Verify.{HasMajority, verify-HasMajority, verify_complete, verify_overlap}
use cs244b_fp.Examples.Config.{four, four-Built, toy_sodium}

-- Replicas 0, 1 and 3 sign the hash 5, replicas 1, 2 and 3 the hash 6.
abbrev first : QuorumCertificate
first = record { obj_hash = 5; sigs = (0, 105) ∷ (1, 106) ∷ (3, 108) ∷ [] }

abbrev second : QuorumCertificate
second = record { obj_hash = 6; sigs = (1, 107) ∷ (2, 108) ∷ (3, 109) ∷ [] }

first_wire : serialize first ≡ record { justify = 5; bmp = 11; sigs = 105 ∷ 106 ∷ 108 ∷ [] }
unfolding serialize BitVector.add BitVector.get BitVector.empty_bv
first_wire = refl

parse_qc-serialize_example : parse_qc (serialize first) ≡ first
parse_qc-serialize_example = parse_qc-serialize first (omega arith) (omega arith)

first_verifies : verify toy_sodium (finish_init four) first ≡ ok true
unfolding verify finish_init check_sig get_publickey get_info
first_verifies = refl

second_verifies : verify toy_sodium (finish_init four) second ≡ ok true
unfolding verify finish_init check_sig get_publickey get_info
second_verifies = refl

verify-HasMajority_example : (first.obj_hash ≡ 0) ⊎ HasMajority toy_sodium (finish_init four) first
verify-HasMajority_example = verify-HasMajority toy_sodium (finish_init four) first first_verifies

verify_complete_example : verify toy_sodium (finish_init four) first ≡ ok true
unfolding finish_init check_sig get_publickey get_info has_quorum
verify_complete_example =
    verify_complete toy_sodium (finish_init four) first
      ((100, refl, refl), ((101, refl, refl), ((103, refl, refl), tt))) refl

verify_overlap_example :
    (x : HasMajority toy_sodium (finish_init four) first) × (y : HasMajority toy_sodium
      (finish_init four)
      second)
    × (four.nreplicas / 3 < common four.replica_map x.valid y.valid)
verify_overlap_example =
    verify_overlap toy_sodium four first second four-Built (omega arith) (omega arith) (omega arith)
      (omega arith) (omega arith) first_verifies second_verifies

abbrev ballot : PartialCertificate
ballot = record { hash = 5; sig = 107 }

abbrev one_vote : QuorumCertificate
one_vote = record { obj_hash = 5; sigs = (2, 107) ∷ [] }

-- Of three replicas one may be faulty, and a quorum is two: two quorums share one replica only.
abbrev three_replicas : List (ReplicaId × Unit {0})
three_replicas = (2, tt) ∷ (1, tt) ∷ (0, tt) ∷ []

two_of_three : common three_replicas ((2, tt) ∷ (1, tt) ∷ []) ((1, tt) ∷ (0, tt) ∷ []) ≡ 1
two_of_three = refl

quorum_of_three : (finish_init (record four { nreplicas = 3 })).nmajority ≡ 2
unfolding finish_init
quorum_of_three = refl
