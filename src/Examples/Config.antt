-- ===== src/Examples/Config.antt =====
-- Four replicas, whose signatures a toy scheme checks.
use cs244b_fp.Prelude.{ℕ, ◌+◌, ◌*◌, refl, List, [], ◌∷◌, some, ◌==◌}
use cs244b_fp.Config.{ReplicaInfo, ReplicaConfig, empty_config, add_replica, is_valid_replica}
use cs244b_fp.Config.Quorum.{Built, nothing, more}
use cs244b_fp.Wire.{Sodium}

abbrev pub replica : ℕ → ReplicaInfo
replica n = record {
  hostname = "localhost";
  block_fetch_port = "9000";
  protocol_port = "9001";
  data_dir = "/data";
  id = n;
  pk = n + 100;
}

abbrev pub four : ReplicaConfig
four = record {
  replica_map = (3, replica 3) ∷ (2, replica 2) ∷ (1, replica 1) ∷ (0, replica 0) ∷ [];
  nreplicas = 4;
  nmajority = 0;
}

pub four-Built : Built four
unfolding empty_config add_replica is_valid_replica
four-Built =
    more (replica 3) (more (replica 2) (more (replica 1) (more (replica 0) nothing refl) refl) refl)
      refl

-- A signature of a hash is the sum of the hash and the public key.
abbrev pub toy_sodium : Sodium
toy_sodium = record {
  verify_detached = λ sig h pk. sig == h + pk;
  sign_detached = λ sk h. some (h + sk);
  hash_header = λ header. 1 + header.parent_hash * 7 + header.body_hash;
  hash_body = λ body. sum body;
}
  where
    sum : List ℕ → ℕ
    sum [] = 0
    sum (x ∷ xs) = x + sum xs
