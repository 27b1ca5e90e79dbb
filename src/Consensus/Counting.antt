-- ===== src/Consensus/Counting.antt =====
-- Counting votes.
use mathlib.Core.Path.{subst}
use cs244b_fp.Prelude.{
  ◌≡◌, refl, ap, inl, inr, [], ◌∷◌, arith, Bool-cases, Result, ok, err, Result-cases, ◌&&◌, not,
}
use cs244b_fp.Config.{Hash, ReplicaId}
use cs244b_fp.Wire.{PartialCertificate}
use cs244b_fp.Crypto.Certs.{QuorumCertificate, has_quorum, add_partial_certificate}
use cs244b_fp.Block.{Ptr, modify}
use cs244b_fp.Block.Shape.{SameShape-refl}
use cs244b_fp.Consensus.{Core, on_receive_vote, on_new_qc}
use cs244b_fp.Consensus.Advance.{Advances, Advances-trans, update_hqc-Quiet}
use cs244b_fp.Consensus.ThreeChain.{Reacts, quiet, commits, breach}

-- What holds of the state that a method leaves, if it does not throw.
abbrev pub AfterOk : (Core → Type 0) → Result Core → Type 0
AfterOk P (ok d) = P d
AfterOk P (err e) = Unit

pub Reacts-Advances :
    {c : Core} {nblk : Ptr} {r : Result Core} → Reacts c nblk r → AfterOk (Advances c) r
Reacts-Advances (quiet q) = q.move
Reacts-Advances (commits a t) = a
Reacts-Advances (breach t new f) = tt

pub after_ok : (P : Core → Type 0) {r : Result Core} {d : Core} → AfterOk P r → r ≡ ok d → P d
after_ok P p e = subst (AfterOk P) e p

add_partial_certificate-hash :
    (voter : ReplicaId) (cert : PartialCertificate) (qc qc' : QuorumCertificate)
    → add_partial_certificate voter cert qc ≡ ok qc'
    → qc'.obj_hash ≡ qc.obj_hash
unfolding add_partial_certificate
add_partial_certificate-hash voter cert qc qc' e = ground (arith, e)

recount :
    (c : Core) (p : Ptr) (qc : QuorumCertificate)
    → qc.obj_hash ≡ (c.heap.cell p).self_qc.obj_hash
    → Advances c (record c { heap = modify (λ b. record b { self_qc = qc }) p c.heap })
unfolding modify
recount c p qc e = record {
  shape = record {
    same_parent = λ q. ground arith;
    same_justify = λ q. ground arith;
    same_height = λ q. ground arith;
    same_qc = λ q. ground arith;
    same_hash = λ q. ground (arith, e, ap (λ z. (c.heap.cell z).self_qc.obj_hash) {x = p} {y = q});
  };
  same_votes = refl;
  same_vheight = refl;
  same_genesis = refl;
  hqc_up = ground arith;
  lock_up = ground arith;
  fresh = [];
  applies = refl;
  chain = refl;
  decides = tt;
  keeps = λ x i. ground arith;
}

announce : (c : Core) (h : Hash) → Advances c (record c { trace = on_new_qc h ∷ c.trace })
announce c h = record {
  shape = SameShape-refl c.heap;
  same_votes = refl;
  same_vheight = refl;
  same_genesis = refl;
  hqc_up = omega arith;
  lock_up = omega arith;
  fresh = [];
  applies = refl;
  chain = refl;
  decides = tt;
  keeps = λ x i. i;
}

-- A vote that is counted changes the certificate of its block, and applies nothing.
pub on_receive_vote-Advances :
    (cert : PartialCertificate) (certified : Ptr) (voter : ReplicaId) (c : Core)
    → AfterOk (Advances c) (on_receive_vote cert certified voter c)
unfolding on_receive_vote
on_receive_vote-Advances cert certified voter c =
    let self_qc = (c.heap.cell certified).self_qc in
    elim (Result-cases (add_partial_certificate voter cert self_qc)) [
      | inr (x, e) ↦ rw (e, on_receive_vote) tt
      | inl (qc, e) ↦
          let kept = add_partial_certificate-hash voter cert self_qc qc e in
          elim (Bool-cases (has_quorum c.config qc && not (has_quorum c.config self_qc))) [
            | inr below ↦ rw (e, below, on_receive_vote) (recount c certified qc kept)
            | inl reached ↦
                rw (e, reached, on_receive_vote)
                  (Advances-trans (recount c certified qc kept) (
                    Advances-trans (update_hqc-Quiet certified qc _).move (announce _ qc.obj_hash)))
          ]
    ]
