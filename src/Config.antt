-- ===== src/Config.antt =====
-- hotstuff/config/replica_config: the replicas and the size of a quorum. Socket set-up is left out.
-- `size_t` counts do not wrap: a configuration holds at most 32 replicas (MAX_REPLICAS).
pub mod Quorum
use Prim.Native.String.{String}
use cs244b_fp.Prelude.{
  ℕ, ◌+◌, ◌-◌, ◌/◌, Bool, true, false, Option, none, some, List, [], ◌∷◌, ◌++◌, map, ◌==◌,
  if◌then◌else◌, Result, ok, err, or_fail, ◌>>=◌, unknown_replica, duplicate_replica,
  invalid_service,
}
use cs244b_fp.Prelude.Maps.{find}

-- xdr/types.x: opaque byte strings are read as numbers, the all-zero string is 0.
abbrev pub Hash : Type 0
Hash = ℕ

abbrev pub Signature : Type 0
Signature = ℕ

abbrev pub PublicKey : Type 0
PublicKey = ℕ

abbrev pub SecretKey : Type 0
SecretKey = ℕ

abbrev pub ReplicaId : Type 0
ReplicaId = ℕ

abbrev pub max_replicas : ℕ
max_replicas = 32

abbrev pub unknown_replica_id : ReplicaId
unknown_replica_id = 32

pub record ReplicaInfo : Type 0 where
  pub hostname : String
  pub block_fetch_port : String
  pub protocol_port : String
  pub data_dir : String
  pub id : ReplicaId
  pub pk : PublicKey

pub record ReplicaConfig : Type 0 where
  pub replica_map : List (ReplicaId × ReplicaInfo)
  pub nreplicas : ℕ
  pub nmajority : ℕ

-- The argument is the number of a `ReplicaService`.
unfoldable pub get_service_name : ReplicaInfo → ℕ → Result String
get_service_name info service =
    if service == 1
    then ok info.block_fetch_port
    else if service == 2
    then ok info.protocol_port
    else err invalid_service

unfoldable pub empty_config : ReplicaConfig
empty_config = record { replica_map = []; nreplicas = 0; nmajority = 0 }

unfoldable pub is_valid_replica : ReplicaConfig → ReplicaId → Bool
is_valid_replica c r = elim (find r c.replica_map) [ none ↦ false | some _ ↦ true ]

unfoldable pub add_replica : ReplicaConfig → ReplicaInfo → Result ReplicaConfig
unfolding is_valid_replica
add_replica c info =
    if is_valid_replica c info.id
    then err duplicate_replica
    else ok
        (record c { replica_map = (info.id, info) ∷ c.replica_map; nreplicas = c.nreplicas + 1 })

unfoldable pub finish_init : ReplicaConfig → ReplicaConfig
finish_init c = let nfaulty = c.nreplicas / 3 in record c { nmajority = c.nreplicas - nfaulty }

unfoldable pub get_info : ReplicaConfig → ReplicaId → Result ReplicaInfo
get_info c r = or_fail (find r c.replica_map) unknown_replica

unfoldable pub get_publickey : ReplicaConfig → ReplicaId → Result PublicKey
unfolding get_info
get_publickey c r = do info ← get_info c r; ok info.pk

unfoldable pub list_info : ReplicaConfig → List ReplicaInfo
list_info c = map (λ e. e.1) c.replica_map
