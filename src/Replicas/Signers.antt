-- ===== src/Replicas/Signers.antt =====
-- The certificates that `verify` accepts, over a configuration of which at most a third is faulty, are
-- what the system of replicas takes as quorums.
use cs244b_fp.Prelude.{
  ◌/◌, ◌%◌, ◌≤◌, ◌<◌, ◌≡◌, ◌≢◌, refl, ap, ◌∙◌, inl, inr, Bool, true, false, ◌&&◌, List, [], ◌∷◌,
  map, arith, length, member, All, Bool-cases, ok,
}
use cs244b_fp.Prelude.Maps.{IsSorted}
use cs244b_fp.Config.{Hash, Signature, ReplicaId, ReplicaConfig, finish_init}
use cs244b_fp.Config.Quorum.{has, count, common, AreSigners, Built, common-ge, finish_init_overlap}
use cs244b_fp.Wire.{Sodium}
use cs244b_fp.Crypto.Certs.{Sigs, QuorumCertificate, verify}
use cs244b_fp.Crypto.Certs.Verify.{Signed, HasMajority-AreSigners, verify-HasMajority}
use cs244b_fp.Replicas.Votes.{Quorums, Log, Voted, Certified}

abbrev pub ids : Sigs → List ReplicaId
ids m = map (λ e. e.0) m

has-member : (m : Sigs) (r : ReplicaId) → has r m ≡ true → member r (ids m) ≡ true
has-member [] r h = cc
has-member ((k, sig) ∷ m) r h = ground (arith, h, has-member m r)

-- If more entries pass the first test, one of them fails the second.
one_more :
    {V : Type 0} (p q : ReplicaId → Bool) (m : List (ReplicaId × V))
    → count q m < count p m
    → (r : ReplicaId) × (p r ≡ true) × (q r ≡ false)
one_more p q [] h = absurd (omega arith)
one_more p q ((r, v) ∷ m) h = elim (Bool-cases (p r)) [
  | inr fails ↦ one_more p q m (ground (arith, h, fails))
  | inl passes ↦ elim (Bool-cases (q r)) [
    | inr fails ↦ (r, passes, fails)
    | inl both ↦ one_more p q m (ground (arith, h, passes, both))
  ]
]

module _ (d : ReplicaConfig) where
  -- The ids of a certificate with a quorum of signatures.
  pub record IsMajority (S : List ReplicaId) : Type 0 where
    pub sigs : Sigs
    pub signers : AreSigners (finish_init d) sigs
    pub enough : (finish_init d).nmajority ≤ length sigs
    pub same_ids : S ≡ ids sigs

-- The configuration's quorums, where at most a third of its replicas, rounded down, is faulty.
module _ (d : ReplicaConfig) (built : Built d) (three : d.nreplicas % 3 ≢ 0)
    (is_faulty : ReplicaId → Bool) (few : count is_faulty d.replica_map ≤ d.nreplicas / 3) where
  pub honest_overlap :
      (S T : List ReplicaId)
      → IsMajority d S
      → IsMajority d T
      → (r : ReplicaId) × (is_faulty r ≡ false) × (member r S ≡ true) × (member r T ≡ true)
  unfolding finish_init
  honest_overlap S T s t =
      let shared = common-ge s.sigs t.sigs built s.signers t.signers in
      let many : count is_faulty d.replica_map < common d.replica_map s.sigs t.sigs =
        omega (arith, few, shared, s.enough, t.enough, (finish_init_overlap d).1 three) in
      let (r, both, honest) =
        one_more (λ r. has r s.sigs && has r t.sigs) is_faulty d.replica_map many in
      (
        r,
        honest,
        ap (member r) s.same_ids ∙ has-member s.sigs r (ground (arith, both)),
        ap (member r) t.same_ids ∙ has-member t.sigs r (ground (arith, both)),
      )

  abbrev pub config_quorums : Quorums
  config_quorums = record {
    honest = λ r. is_faulty r ≡ false;
    IsQuorum = IsMajority d;
    overlap = honest_overlap;
  }

  signed_votes :
      (sodium : Sodium) (k : Hash) (log : Log) (m : Sigs)
      → ((e : ReplicaId × Signature)
          → is_faulty e.0 ≡ false
          → Signed sodium (finish_init d) k e
          → Voted log e.0 k)
      → All (Signed sodium (finish_init d) k) m
      → All (λ r. is_faulty r ≡ false → Voted log r k) (ids m)
  signed_votes sodium k log [] unforged s = tt
  signed_votes sodium k log (e ∷ m) unforged s =
      (λ h. unforged e h s.0, signed_votes sodium k log m unforged s.1)

  -- A block whose certificate `verify` accepts is certified by a quorum of the configuration, if its
  -- map is in order and no signature of an honest replica is forged: it then has voted for the block.
  -- At most a third of the replicas, rounded down, may be faulty; their number is no multiple of three.
  pub verify-Certified :
      (sodium : Sodium) (qc : QuorumCertificate) (log : Log)
      → IsSorted qc.sigs
      → ((e : ReplicaId × Signature)
          → is_faulty e.0 ≡ false
          → Signed sodium (finish_init d) qc.obj_hash e
          → Voted log e.0 qc.obj_hash)
      → verify sodium (finish_init d) qc ≡ ok true
      → Certified config_quorums log qc.obj_hash
  verify-Certified sodium qc log sorted unforged accepted =
      elim (verify-HasMajority sodium (finish_init d) qc accepted) [
        | inl zero_hash ↦ inl zero_hash
        | inr maj ↦ inr (
          ids maj.valid,
          record {
            sigs = maj.valid;
            signers = HasMajority-AreSigners sodium (finish_init d) qc sorted maj;
            enough = maj.enough;
            same_ids = refl;
          },
          signed_votes sodium qc.obj_hash log maj.valid unforged maj.signed,
        )
      ]
