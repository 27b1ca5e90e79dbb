-- ===== src/Config/Quorum.antt =====
-- Quorums of a configuration overlap.
use cs244b_fp.Prelude.{
  ℕ, suc, ◌+◌, ◌*◌, ◌/◌, ◌%◌, ◌≤◌, ◌<◌, ◌≡◌, ◌≢◌, ◌↔◌, refl, ap, Bool, true, false, ◌&&◌, ◌||◌,
  none, some, List, [], ◌∷◌, arith, length, ◌==◌, if◌then◌else◌, ok, All,
}
use cs244b_fp.Prelude.Maps.{find, Above, IsSorted, find-Above}
use cs244b_fp.Config.{ReplicaId, ReplicaInfo, ReplicaConfig, add_replica, finish_init, empty_config}

module _ {V : Type 0} where
  abbrev pub has : ReplicaId → List (ReplicaId × V) → Bool
  has r m = elim (find r m) [ none ↦ false | some _ ↦ true ]

  has-Above : (k : ReplicaId) (m : List (ReplicaId × V)) → Above k m → has k m ≡ false
  has-Above k m a = ground (arith, find-Above k m a)

  -- How many entries have an id that passes the test.
  abbrev pub count : (ReplicaId → Bool) → List (ReplicaId × V) → ℕ
  count p [] = 0
  count p ((r, _) ∷ m) = if p r then suc (count p m) else count p m

  count-both :
      (p q : ReplicaId → Bool) (m : List (ReplicaId × V))
      → count p m + count q m ≤ count (λ r. p r && q r) m + length m
  count-both p q [] = omega arith
  count-both p q ((r, v) ∷ m) = ground (arith, count-both p q m)

  count_mono :
      (p q : ReplicaId → Bool) (m : List (ReplicaId × V))
      → ((r : ReplicaId) → p r ≡ true → q r ≡ true)
      → count p m ≤ count q m
  count_mono p q [] h = omega arith
  count_mono p q ((r, v) ∷ m) h = ground (arith, h r, count_mono p q m)

  -- A test that passes one more of the ids counts one more.
  count_more :
      (k : ReplicaId) (p : ReplicaId → Bool) (m : List (ReplicaId × V))
      → p k ≡ false
      → has k m ≡ true
      → suc (count p m) ≤ count (λ r. k == r || p r) m
  count_more k p [] h i = cc
  count_more k p ((r, v) ∷ m) h i = ground (
    arith,
    ap p {x = k} {y = r},
    count_more k p m h,
    count_mono p (λ r'. k == r' || p r') m (λ r' e. ground arith),
  )

module _ {V W : Type 0} where
  -- Distinct ids that all occur are at most as many as the entries that they pass.
  length-le-count :
      (sigs : List (ReplicaId × W)) (m : List (ReplicaId × V))
      → IsSorted sigs
      → All (λ e. has e.0 m ≡ true) sigs
      → length sigs ≤ count (λ r. has r sigs) m
  length-le-count [] m s h = omega arith
  length-le-count ((k, w) ∷ sigs) m s h = omega (
    arith,
    length-le-count sigs m s.1 h.1,
    count_more k (λ r. has r sigs) m (has-Above k sigs s.0) h.0,
    count_mono (λ r. k == r || has r sigs) (λ r. has r ((k, w) ∷ sigs)) m (λ r e. ground arith),
  )

  -- Two sets of ids of the configuration have this many in common.
  abbrev pub common : List (ReplicaId × V) → List (ReplicaId × W) → List (ReplicaId × W) → ℕ
  common m a b = count (λ r. has r a && has r b) m

-- A configuration made by adding replicas one by one.
pub data Built : ReplicaConfig → Type 0 where
  nothing : Built empty_config
  more : {c d : ReplicaConfig} (info : ReplicaInfo) → Built c → add_replica c info ≡ ok d → Built d

pub Built-nreplicas : {c : ReplicaConfig} → Built c → c.nreplicas ≡ length c.replica_map
unfolding empty_config add_replica
Built-nreplicas nothing = refl
Built-nreplicas (more info b e) = ground (arith, Built-nreplicas b)

-- Distinct ids, all of the configuration.
abbrev pub AreSigners : {W : Type 0} → ReplicaConfig → List (ReplicaId × W) → Type 0
AreSigners c sigs = IsSorted sigs × All (λ e. has e.0 c.replica_map ≡ true) sigs

-- Two sets of ids, each with a quorum, have at least 2 * nmajority - nreplicas in common.
pub common-ge :
    {W : Type 0} {c : ReplicaConfig} (a b : List (ReplicaId × W))
    → Built c
    → AreSigners c a
    → AreSigners c b
    → length a + length b ≤ common c.replica_map a b + c.nreplicas
common-ge {c} a b built sa sb = omega (
  arith,
  Built-nreplicas built,
  length-le-count a c.replica_map sa.0 sa.1,
  length-le-count b c.replica_map sb.0 sb.1,
  count-both (λ r. has r a) (λ r. has r b) c.replica_map,
)

-- Two of the quorums that `finish_init` chooses are more than all replicas and a third of them
-- together, exactly when the number of replicas is no multiple of three.
pub finish_init_overlap :
    (c : ReplicaConfig)
    → (c.nreplicas + c.nreplicas / 3 < 2 * (finish_init c).nmajority) ↔ (c.nreplicas % 3 ≢ 0)
unfolding finish_init
finish_init_overlap c = ((λ h. omega arith), (λ h. omega arith))
