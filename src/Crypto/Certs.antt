-- ===== src/Crypto/Certs.antt =====
-- crypto/certs: certificates of one replica and of a quorum. The map `sigs` is in order of its ids.
pub mod RoundTrip
pub mod Verify
use cs244b_fp.Prelude.{
  ℕ, zero, suc, ◌+◌, ◌≡◌, Bool, true, false, not, Option, none, some, List, [], ◌∷◌, ◌++◌, length,
  ltb, leb, ◌==◌, if◌then◌else◌, Result, ok, err, or_fail, ◌>>=◌, sign_failed, wrong_certificate,
  invalid_replica_id,
}
use cs244b_fp.Prelude.Maps.{emplace}
use cs244b_fp.Config.{
  Hash, Signature, PublicKey, SecretKey, ReplicaId, max_replicas, ReplicaInfo, ReplicaConfig,
  get_publickey,
}
use cs244b_fp.Wire.{PartialCertificate, QuorumCertificateWire, Sodium}
use cs244b_fp.Utils.BitVector.{BitVector, empty_bv}
use cs244b_fp.Utils.BitVector

abbrev pub Sigs : Type 0
Sigs = List (ReplicaId × Signature)

pub record QuorumCertificate : Type 0 where
  pub obj_hash : Hash
  pub sigs : Sigs

-- `utils::BitVector<ReplicaID>` has 32 bits.
abbrev pub id_bits : ℕ
id_bits = 32

unfoldable pub empty_qc : Hash → QuorumCertificate
empty_qc h = record { obj_hash = h; sigs = [] }

parse_loop : List Signature → BitVector → Sigs → Sigs
parse_loop [] v acc = acc
parse_loop (sig ∷ rest) v acc =
    let (id, v') = BitVector.pop id_bits v in parse_loop rest v' (emplace id sig acc)

unfoldable pub parse_qc : QuorumCertificateWire → QuorumCertificate
unfolding parse_loop
parse_qc w =
    let v : BitVector = record { bv = w.bmp } in
    record {
      obj_hash = w.justify;
      sigs = if BitVector.size id_bits v == length w.sigs then parse_loop w.sigs v [] else [];
    }

-- The ids and the signatures, lowest id first.
serialize_loop : Sigs → BitVector → List Signature → BitVector × List Signature
serialize_loop [] v out = (v, out)
serialize_loop ((rid, sig) ∷ rest) v out =
    serialize_loop rest (BitVector.add id_bits rid v) (out ++ sig ∷ [])

unfoldable pub serialize : QuorumCertificate → QuorumCertificateWire
unfolding serialize_loop
serialize qc =
    let r = serialize_loop qc.sigs empty_bv [] in
    record { justify = qc.obj_hash; bmp = BitVector.get r.0; sigs = r.1 }

unfoldable pub add_partial_certificate :
    ReplicaId → PartialCertificate → QuorumCertificate → Result QuorumCertificate
add_partial_certificate rid pc qc =
    if not (pc.hash == qc.obj_hash)
    then err wrong_certificate
    else if leb max_replicas rid
    then err invalid_replica_id
    else ok (record qc { sigs = emplace rid pc.sig qc.sigs })

unfoldable pub has_quorum : ReplicaConfig → QuorumCertificate → Bool
has_quorum c qc = leb c.nmajority (length qc.sigs)

module _ (sodium : Sodium) where
  unfoldable pub check_sig : Signature → Hash → PublicKey → Bool
  check_sig sig h pk = sodium.verify_detached sig h pk

  -- The constructor of `PartialCertificate` that signs.
  unfoldable pub partial_certificate : Hash → SecretKey → Result PartialCertificate
  partial_certificate h sk = do
    sig ← or_fail (sodium.sign_detached sk h) sign_failed
    ok (record { hash = h; sig = sig })

  unfoldable pub validate : PartialCertificate → ReplicaInfo → Bool
  unfolding check_sig
  validate pc info = check_sig pc.sig pc.hash info.pk

  -- The loop of `verify` over the signatures.
  unfoldable pub count_valid : ReplicaConfig → Hash → Sigs → ℕ → Result ℕ
  unfolding check_sig
  count_valid c h [] n = ok n
  count_valid c h ((rid, sig) ∷ rest) n = do
    pk ← get_publickey c rid
    count_valid c h rest (if check_sig sig h pk then n + 1 else n)

  unfoldable pub verify : ReplicaConfig → QuorumCertificate → Result Bool
  unfolding count_valid
  verify c qc =
      if qc.obj_hash == 0
      then ok true
      else if ltb (length qc.sigs) c.nmajority
      then ok false
      else (do n ← count_valid c qc.obj_hash qc.sigs 0; ok (leb c.nmajority n))
