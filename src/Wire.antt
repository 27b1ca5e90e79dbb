-- ===== src/Wire.antt =====
-- xdr/hotstuff.x: the messages, and what the code takes from libsodium and from the xdr marshaller.
-- Bytes are numbers below 256.
use cs244b_fp.Prelude.{ℕ, Bool, Option, List}
use cs244b_fp.Config.{Hash, Signature, PublicKey, SecretKey, ReplicaId}

pub record PartialCertificate : Type 0 where
  pub hash : Hash
  pub sig : Signature

pub record QuorumCertificateWire : Type 0 where
  pub justify : Hash
  pub bmp : ℕ
  pub sigs : List Signature

pub record HotstuffBlockHeader : Type 0 where
  pub parent_hash : Hash
  pub qc : QuorumCertificateWire
  pub body_hash : Hash

pub record HotstuffBlockWire : Type 0 where
  pub header : HotstuffBlockHeader
  pub body : List ℕ

pub record VoteMessage : Type 0 where
  pub vote : PartialCertificate
  pub voter : ReplicaId

pub record ProposeMessage : Type 0 where
  pub proposal : HotstuffBlockWire
  pub proposer : ReplicaId

-- libsodium's detached signatures and generic hash, the hash composed with the xdr encoding.
-- `sign` is empty where `crypto_sign_detached` fails.
pub record Sodium : Type 0 where
  pub verify_detached : Signature → Hash → PublicKey → Bool
  pub sign_detached : SecretKey → Hash → Option Signature
  pub hash_header : HotstuffBlockHeader → Hash
  pub hash_body : List ℕ → Hash
