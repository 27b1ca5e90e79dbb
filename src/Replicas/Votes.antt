-- ===== src/Replicas/Votes.antt =====
-- Quorums, and the votes that replicas have cast.
use mathlib.Core.Path.{subst}
use cs244b_fp.Prelude.{
  ◌≡◌, inl, inr, ◌⊎◌, true, List, [], ◌∷◌, arith, All, member, Bool-cases, ==_iff, ◌==◌,
}
use cs244b_fp.Config.{Hash, ReplicaId}

-- What the certificates of the program rely on: any two quorums have an honest replica in common.
pub record Quorums : Type 1 where
  pub honest : ReplicaId → Type 0
  pub IsQuorum : List ReplicaId → Type 0
  pub overlap :
      (S T : List ReplicaId)
      → IsQuorum S
      → IsQuorum T
      → (r : ReplicaId) × honest r × (member r S ≡ true) × (member r T ≡ true)

-- The votes that honest replicas have sent, newest first.
abbrev pub Log : Type 0
Log = List (ReplicaId × Hash)

abbrev pub Voted : Log → ReplicaId → Hash → Type 0
Voted [] r k = ⊥
Voted ((q, j) ∷ log) r k = ((q ≡ r) × (j ≡ k)) ⊎ Voted log r k

-- The honest replicas of a quorum have voted for the block, or it is genesis.
abbrev pub Certified : Quorums → Log → Hash → Type 0
Certified u log k =
    (k ≡ 0) ⊎ ((S : List ReplicaId) × u.IsQuorum S × All (λ r. u.honest r → Voted log r k) S)

-- `past` is what the log was at some time.
pub data Past (past : Log) : Log → Type 0 where
  now : Past past past
  later : {log : Log} (vote : ReplicaId × Hash) → Past past log → Past past (vote ∷ log)

pub All-member {κ} :
    (P : ReplicaId → Type κ) (S : List ReplicaId) (r : ReplicaId)
    → All P S
    → member r S ≡ true
    → P r
All-member P [] r a m = cc
All-member P (q ∷ S) r a m = elim (Bool-cases (q == r)) [
  | inl here ↦ subst P ((==_iff q r).0 here) a.0
  | inr there ↦ All-member P S r a.1 (ground (arith, m, there))
]

pub Voted-later :
    {past log : Log} → Past past log → (r : ReplicaId) (k : Hash) → Voted past r k → Voted log r k
Voted-later now r k v = v
Voted-later (later (q, j) p) r k v = inr (Voted-later p r k v)

All-later :
    {past log : Log} (u : Quorums)
    → Past past log
    → (k : Hash) (S : List ReplicaId) → All (λ r. u.honest r → Voted past r k) S
    → All (λ r. u.honest r → Voted log r k) S
All-later u p k [] a = tt
All-later u p k (r ∷ S) a = (λ h. Voted-later p r k (a.0 h), All-later u p k S a.1)

pub Certified-later :
    {past log : Log} (u : Quorums)
    → Past past log
    → (k : Hash) → Certified u past k
    → Certified u log k
Certified-later u p k (inl zero_hash) = inl zero_hash
Certified-later u p k (inr (S, q, a)) = inr (S, q, All-later u p k S a)

pub Past-step :
    {past : Log} {vote : ReplicaId × Hash} {log : Log} → Past (vote ∷ past) log → Past past log
Past-step {vote = vote} now = later vote now
Past-step (later v p) = later v (Past-step p)
