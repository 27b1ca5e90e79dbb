-- ===== src/Crypto/Certs/Verify.antt =====
-- What a verified certificate proves, and what the operations keep.
use cs244b_fp.Prelude.{
  ℕ, ◌+◌, ◌≤◌, ◌<◌, ◌≡◌, ◌≢◌, ap, ◌∙◌, ◌/◌, ◌%◌, inl, inr, true, ◌⊎◌, [], ◌∷◌, arith, length, ltb,
  ◌==◌, All, ok, first-ok, Bool-cases, ==_iff,
}
use cs244b_fp.Prelude.Maps.{Above, IsSorted, emplace, emplace-IsSorted, length-emplace_le}
use cs244b_fp.Config.{
  Hash, Signature, PublicKey, ReplicaId, ReplicaConfig, get_info, get_publickey, finish_init,
}
use cs244b_fp.Config.Quorum.{has, common, AreSigners, Built, common-ge, finish_init_overlap}
use cs244b_fp.Wire.{PartialCertificate, Sodium}
use cs244b_fp.Crypto.Certs.{
  Sigs, QuorumCertificate, add_partial_certificate, has_quorum, check_sig, count_valid, verify,
}
use cs244b_fp.Crypto.Certs.RoundTrip.{Within}

emplace-Within :
    (rid : ReplicaId) (sig : Signature) (m : Sigs)
    → rid < 32
    → Within m
    → Within (emplace rid sig m)
unfolding emplace
emplace-Within rid sig [] h w = (h, tt)
emplace-Within rid sig ((j, t) ∷ m) h w = ground (arith, emplace-Within rid sig m h w.1)

-- A certificate that can be sent: ids in order and below 32.
pub record IsWellFormed (qc : QuorumCertificate) : Type 0 where
  pub sorted : IsSorted qc.sigs
  pub within : Within qc.sigs

-- `add_partial_certificate` keeps a certificate well formed, whenever it does not throw; it then
-- was given an id below 32 and a vote on the hash of the certificate.
pub add_partial_certificate-IsWellFormed :
    (rid : ReplicaId) (pc : PartialCertificate) (qc qc' : QuorumCertificate)
    → IsWellFormed qc
    → add_partial_certificate rid pc qc ≡ ok qc'
    → IsWellFormed qc'
      × (rid < 32)
      × (pc.hash ≡ qc.obj_hash)
      × (qc'.obj_hash ≡ qc.obj_hash)
      × (length qc.sigs ≤ length qc'.sigs)
unfolding add_partial_certificate
add_partial_certificate-IsWellFormed rid pc qc qc' wf e = ground (
  arith,
  emplace-IsSorted rid pc.sig qc.sigs,
  emplace-Within rid pc.sig qc.sigs,
  length-emplace_le rid pc.sig qc.sigs,
)

get_publickey-has :
    (c : ReplicaConfig) (rid : ReplicaId) {pk : PublicKey}
    → get_publickey c rid ≡ ok pk
    → has rid c.replica_map ≡ true
unfolding get_publickey get_info
get_publickey-has c rid e = ground arith

-- Some of the entries of a map, in the same order.
pub data IsSubmap : Sigs → Sigs → Type 0 where
  nil : IsSubmap [] []
  keep :
      {a m : Sigs} (rid : ReplicaId) (sig : Signature)
      → IsSubmap a m
      → IsSubmap ((rid, sig) ∷ a) ((rid, sig) ∷ m)
  drop :
      {a m : Sigs} (rid : ReplicaId) (sig : Signature) → IsSubmap a m → IsSubmap a ((rid, sig) ∷ m)

IsSubmap-Above : {a m : Sigs} (j : ℕ) → IsSubmap a m → Above j m → Above j a
IsSubmap-Above j nil b = tt
IsSubmap-Above j (keep rid sig s) b = (b.0, IsSubmap-Above j s b.1)
IsSubmap-Above j (drop rid sig s) b = IsSubmap-Above j s b.1

pub IsSubmap-IsSorted : {a m : Sigs} → IsSubmap a m → IsSorted m → IsSorted a
IsSubmap-IsSorted nil b = tt
IsSubmap-IsSorted (keep rid sig s) b = (IsSubmap-Above rid s b.0, IsSubmap-IsSorted s b.1)
IsSubmap-IsSorted (drop rid sig s) b = IsSubmap-IsSorted s b.1

module _ (sodium : Sodium) (c : ReplicaConfig) (h : Hash) where
  -- The signature is that of the replica, on the hash.
  abbrev pub Signed : ReplicaId × Signature → Type 0
  Signed (rid, sig) =
      (pk : PublicKey) × (get_publickey c rid ≡ ok pk) × (check_sig sodium sig h pk ≡ true)

  -- `k - n` of the entries of `m` are signed.
  record Counted (m : Sigs) (n k : ℕ) : Type 0 where
    valid : Sigs
    part : IsSubmap valid m
    signed : All Signed valid
    counts : k ≡ n + length valid

  count_valid-Counted : (m : Sigs) (n k : ℕ) → count_valid sodium c h m n ≡ ok k → Counted m n k
  unfolding count_valid
  count_valid-Counted [] n k e = record {
    valid = [];
    part = nil;
    signed = tt;
    counts = ground arith;
  }
  count_valid-Counted ((rid, sig) ∷ m) n k e =
      let (pk, p, q) = first-ok (get_publickey c rid) _ e in
      elim (Bool-cases (check_sig sodium sig h pk)) [
        | inl good ↦
            let rest = count_valid-Counted m (n + 1) k (rw good at q) in
            record {
              valid = (rid, sig) ∷ rest.valid;
              part = keep rid sig rest.part;
              signed = ((pk, p, good), rest.signed);
              counts = omega (arith, rest.counts);
            }
        | inr bad ↦
            let rest = count_valid-Counted m n k (rw bad at q) in
            record {
              valid = rest.valid;
              part = drop rid sig rest.part;
              signed = rest.signed;
              counts = rest.counts;
            }
      ]

  Signed-has : (a : Sigs) → All Signed a → All (λ e. has e.0 c.replica_map ≡ true) a
  Signed-has [] s = tt
  Signed-has ((rid, sig) ∷ a) s = (get_publickey-has c rid s.0.1, Signed-has a s.1)

  -- Signatures that all verify are all counted.
  count_valid-All :
      (m : Sigs) (n : ℕ) → All Signed m → count_valid sodium c h m n ≡ ok (n + length m)
  unfolding count_valid
  count_valid-All [] n s = ap ok (omega arith)
  count_valid-All ((rid, sig) ∷ m) n s =
      let (pk, p, good) = s.0 in rw (p, good) (count_valid-All m (n + 1) s.1 ∙ ap ok (omega arith))

module _ (sodium : Sodium) (c : ReplicaConfig) where
  -- A majority of the replicas has signed the hash of the certificate.
  pub record HasMajority (qc : QuorumCertificate) : Type 0 where
    pub valid : Sigs
    pub part : IsSubmap valid qc.sigs
    pub signed : All (Signed sodium c qc.obj_hash) valid
    pub enough : c.nmajority ≤ length valid

  -- A certificate that `verify` accepts is the genesis certificate, whose hash is zero, or at least
  -- as many entries of its map as a quorum has are valid signatures, of replicas of the
  -- configuration, on its hash.
  pub verify-HasMajority :
      (qc : QuorumCertificate) → verify sodium c qc ≡ ok true → (qc.obj_hash ≡ 0) ⊎ HasMajority qc
  unfolding verify
  verify-HasMajority qc e = elim (Bool-cases (qc.obj_hash == 0)) [
    | inl zero_hash ↦ inl ((==_iff qc.obj_hash 0).0 zero_hash)
    | inr other ↦ elim (Bool-cases (ltb (length qc.sigs) c.nmajority)) [
      | inl few ↦ cc (rw (other, few) at e)
      | inr many ↦
          let (k, p, q) =
            first-ok (count_valid sodium c qc.obj_hash qc.sigs 0) _ (rw (other, many) at e) in
          let r = count_valid-Counted sodium c qc.obj_hash qc.sigs 0 k p in
          inr (record {
            valid = r.valid;
            part = r.part;
            signed = r.signed;
            enough = ground (arith, r.counts);
          })
    ]
  ]

  -- A certificate with a quorum whose signatures are all valid is accepted.
  pub verify_complete :
      (qc : QuorumCertificate)
      → All (Signed sodium c qc.obj_hash) qc.sigs
      → has_quorum c qc ≡ true
      → verify sodium c qc ≡ ok true
  unfolding verify has_quorum
  verify_complete qc s q = ground (arith, count_valid-All sodium c qc.obj_hash qc.sigs 0 s)

  pub HasMajority-AreSigners :
      (qc : QuorumCertificate) → IsSorted qc.sigs → (maj : HasMajority qc) → AreSigners c maj.valid
  HasMajority-AreSigners qc s maj =
      (IsSubmap-IsSorted maj.part s, Signed-has sodium c qc.obj_hash maj.valid maj.signed)

majority :
    (sodium : Sodium) (c : ReplicaConfig) (qc : QuorumCertificate)
    → qc.obj_hash ≢ 0
    → verify sodium c qc ≡ ok true
    → HasMajority sodium c qc
majority sodium c qc other e = elim (verify-HasMajority sodium c qc e) [
  | inl zero_hash ↦ absurd (other zero_hash)
  | inr maj ↦ maj
]

finish_init-AreSigners :
    (d : ReplicaConfig) (m : Sigs) → AreSigners (finish_init d) m → AreSigners d m
unfolding finish_init
finish_init-AreSigners d m s = s

-- Two accepted certificates with maps in order and hashes other than zero, in a configuration that
-- was built by adding replicas and whose number of replicas is no multiple of three, hold valid
-- signatures of more than a third of the replicas in common.
pub verify_overlap :
    (sodium : Sodium) (d : ReplicaConfig) (a b : QuorumCertificate)
    → Built d
    → d.nreplicas % 3 ≢ 0
    → IsSorted a.sigs
    → IsSorted b.sigs
    → a.obj_hash ≢ 0
    → b.obj_hash ≢ 0
    → verify sodium (finish_init d) a ≡ ok true
    → verify sodium (finish_init d) b ≡ ok true
    → (x : HasMajority sodium (finish_init d) a) × (y : HasMajority sodium (finish_init d) b)
      × (d.nreplicas / 3 < common d.replica_map x.valid y.valid)
verify_overlap sodium d a b built three sa sb na nb ea eb =
    let c = finish_init d in
    let x = majority sodium c a na ea in
    let y = majority sodium c b nb eb in
    let known = λ (m : Sigs) (s : AreSigners c m). finish_init-AreSigners d m s in
    (
      x,
      y,
      omega (
        arith,
        x.enough,
        y.enough,
        (finish_init_overlap d).1 three,
        common-ge x.valid y.valid built (known x.valid (HasMajority-AreSigners sodium c a sa x))
            (known y.valid (HasMajority-AreSigners sodium c b sb y)),
      ),
    )
