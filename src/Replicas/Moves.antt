-- ===== src/Replicas/Moves.antt =====
-- What keeps the invariant of an honest replica: moves of its core, a larger tree, and new votes.
use mathlib.Core.Path.{subst}
use cs244b_fp.Prelude.{
  ◌≤◌, ◌≡◌, refl, sym, ap, ◌∙◌, inl, inr, true, arith, Bool-cases, ok, Result-cases, ◌&&◌, not,
}
use cs244b_fp.Config.{Hash, ReplicaId}
use cs244b_fp.Wire.{PartialCertificate}
use cs244b_fp.Crypto.Certs.{has_quorum, add_partial_certificate}
use cs244b_fp.Block.{Ptr, Heap, modify}
use cs244b_fp.Block.Disk.{is_decided}
use cs244b_fp.Consensus.{Core, height, on_receive_vote, update_hqc}
use cs244b_fp.Consensus.Advance.{Advances}
use cs244b_fp.Consensus.Invariant.{Advances-Inv}
use cs244b_fp.Consensus.Counting.{AfterOk, on_receive_vote-Advances, after_ok}
use cs244b_fp.Consensus.Run.{Step-Inv}
use cs244b_fp.Consensus.Run
use cs244b_fp.Replicas.Naming.{World}
use cs244b_fp.Replicas.Votes.{Quorums, Log, Voted, Certified, Past, Certified-later}
use cs244b_fp.Replicas.{hash_at, IsSettled, IsParent, InWorld, Stores}
use cs244b_fp.Replicas.Local.{
  Local, IsExecuted, IsSettled-same, IsParent-same, InWorld-same, IsCertified-same,
}

-- A move of the core to `d`: the lock and the executed block are settled, and so on.
pub record Moves (w : World) (u : Quorums) (log : Log) (c d : Core) : Type 0 where
  pub advances : Advances c d
  pub to_settled : IsSettled c.genesis c.heap d.b_lock
  pub to_certified : Certified u log (hash_at c.heap d.b_lock)
  pub rises : height c c.b_lock ≤ height c d.b_lock
  pub low : (x : Ptr) → is_decided d.heap x ≡ true → height c x ≤ height c d.b_lock
  pub runs_settled : IsSettled c.genesis c.heap d.b_exec
  pub runs_parent : IsParent c.genesis c.heap d.b_exec
  pub runs : IsExecuted w u log (hash_at c.heap d.b_exec)

module _ (w : World) (u : Quorums) where
  pub Local-Moves :
      {log : Log} {r : ReplicaId} {c d : Core}
      → Local w u log r c
      → Moves w u log c d
      → Local w u log r d
  Local-Moves {log} {r} {c} {d} l m =
      let a = m.advances in
      let s = a.shape in
      let root = λ (p : Ptr) (e : IsSettled c.genesis c.heap p).
        subst (λ x. IsSettled x d.heap p) (sym a.same_genesis) (IsSettled-same s e) in
      let root_parent = λ (p : Ptr) (e : IsParent c.genesis c.heap p).
        subst (λ x. IsParent x d.heap p) (sym a.same_genesis) (IsParent-same s e) in
      record {
        inv = Advances-Inv a l.inv;
        in_world = subst (λ x. InWorld w x d.heap) (sym a.same_genesis) (InWorld-same s l.in_world);
        certified = IsCertified-same u log s l.certified;
        lock_settled = root d.b_lock m.to_settled;
        lock_certified = subst (Certified u log) (sym (s.same_hash d.b_lock)) m.to_certified;
        decided_low = λ x e. omega (arith, m.low x e, s.same_height x, s.same_height d.b_lock);
        root_decided =
            subst (λ x. is_decided d.heap x ≡ true) (sym a.same_genesis)
              (a.keeps c.genesis l.root_decided);
        covers = λ k v. omega (arith, l.covers k v, m.rises, s.same_height d.b_lock);
        votes_low = λ k v. omega (arith, l.votes_low k v, a.same_vheight);
        exec_settled = root d.b_exec m.runs_settled;
        exec_parent = root_parent d.b_exec m.runs_parent;
        executed = subst (IsExecuted w u log) (sym (s.same_hash d.b_exec)) m.runs;
      }

  pub IsExecuted-later :
      {past log : Log} → Past past log → (k : Hash) → IsExecuted w u past k → IsExecuted w u log k
  IsExecuted-later p k (inl e) = inl e
  IsExecuted-later p k (inr (k1, k2, chain, c)) = inr (k1, k2, chain, Certified-later u p k2 c)

  -- More votes, which the lock covers if they are the replica's own.
  pub Local-later :
      {past log : Log} {r : ReplicaId} {c : Core}
      → Past past log
      → ((k : Hash)
          → Voted log r k
          → (w.height_of (w.justify_of (w.justify_of k)) ≤ height c c.b_lock)
            × (w.height_of k ≤ c.vheight))
      → Local w u past r c
      → Local w u log r c
  Local-later {c = c} p own l = record {
    inv = l.inv;
    in_world = l.in_world;
    certified = λ q j e. Certified-later u p (hash_at c.heap j) (l.certified q j e);
    lock_settled = l.lock_settled;
    lock_certified = Certified-later u p (hash_at c.heap c.b_lock) l.lock_certified;
    decided_low = l.decided_low;
    root_decided = l.root_decided;
    covers = λ k v. (own k v).0;
    votes_low = λ k v. (own k v).1;
    exec_settled = l.exec_settled;
    exec_parent = l.exec_parent;
    executed = IsExecuted-later p (hash_at c.heap c.b_exec) l.executed;
  }

  IsSettled-grows :
      {log : Log} {c : Core} {g : Heap} {p : Ptr}
      → Stores w u log c g
      → IsSettled c.genesis c.heap p
      → IsSettled c.genesis g p
  IsSettled-grows st (inl e) = inl e
  IsSettled-grows {p = p} st (inr (q, e)) = inr (q, (st.grows.stays p q e).0)

  IsParent-grows :
      {log : Log} {c : Core} {g : Heap} {p : Ptr}
      → Stores w u log c g
      → IsParent c.genesis c.heap p
      → IsParent c.genesis g p
  IsParent-grows st (inl e) = inl e
  IsParent-grows {p = p} st (inr (x, e)) = inr (x, (st.grows.stays x p e).0)

  settled_height :
      {log : Log} {c : Core} {g : Heap} {p : Ptr}
      → Stores w u log c g
      → IsSettled c.genesis c.heap p
      → (g.cell p).block_height ≡ height c p
  settled_height {c = c} {g = g} st (inl e) =
      subst (λ p. (g.cell p).block_height ≡ height c p) (sym e) st.genesis_stays
  settled_height {p = p} st (inr (q, e)) = (st.grows.stays p q e).1

  pub Local-Stores :
      {log : Log} {r : ReplicaId} {c : Core} {g : Heap}
      → Local w u log r c
      → Stores w u log c g
      → Local w u log r (record c { heap = g })
  Local-Stores {log} {r} {c} {g} l st =
      let lock = settled_height st l.lock_settled in
      record {
        inv = Step-Inv (Run.stored g st.grows) l.inv;
        in_world = st.in_world;
        certified = st.certified;
        lock_settled = IsSettled-grows st l.lock_settled;
        lock_certified =
            subst (Certified u log) (sym (st.hashes_stay c.b_lock l.lock_settled)) l.lock_certified;
        decided_low = λ x e.
            let (old, same) = st.decided_stay x e in omega (arith, same, lock, l.decided_low x old);
        root_decided = st.grows.stays_decided c.genesis l.root_decided;
        covers = λ k v. omega (arith, l.covers k v, lock);
        votes_low = l.votes_low;
        exec_settled = IsSettled-grows st l.exec_settled;
        exec_parent = IsParent-grows st l.exec_parent;
        executed =
            subst (IsExecuted w u log) (sym (st.hashes_stay c.b_exec l.exec_settled)) l.executed;
      }

-- Counting votes moves neither the lock nor the executed block, and decides nothing.
record Counts (c d : Core) : Type 0 where
  lock : d.b_lock ≡ c.b_lock
  exec : d.b_exec ≡ c.b_exec
  decided : (x : Ptr) → is_decided d.heap x ≡ is_decided c.heap x

on_receive_vote-Counts :
    (cert : PartialCertificate) (certified : Ptr) (voter : ReplicaId) (c : Core)
    → AfterOk (Counts c) (on_receive_vote cert certified voter c)
unfolding on_receive_vote update_hqc modify
on_receive_vote-Counts cert certified voter c =
    let self_qc = (c.heap.cell certified).self_qc in
    elim (Result-cases (add_partial_certificate voter cert self_qc)) [
      | inr (x, e) ↦ rw (e, on_receive_vote) tt
      | inl (qc, e) ↦
          elim (Bool-cases (has_quorum c.config qc && not (has_quorum c.config self_qc))) [
            | inr below ↦
                rw (e, below, on_receive_vote)
                  (record { lock = refl; exec = refl; decided = λ x. ground arith })
            | inl reached ↦
                rw (e, reached, on_receive_vote)
                  (record { lock = ground arith; exec = ground arith; decided = λ x. ground arith })
          ]
    ]

pub Local-voted :
    {w : World} {u : Quorums} {log : Log} {r : ReplicaId} {c d : Core} (cert : PartialCertificate)
    (certified : Ptr) (voter : ReplicaId)
    → on_receive_vote cert certified voter c ≡ ok d
    → Local w u log r c
    → Local w u log r d
Local-voted {w} {u} {log} {r} {c} {d} cert certified voter e l =
    let a = after_ok (Advances c) (on_receive_vote-Advances cert certified voter c) e in
    let k = after_ok (Counts c) (on_receive_vote-Counts cert certified voter c) e in
    Local-Moves w u l (record {
      advances = a;
      to_settled = subst (IsSettled c.genesis c.heap) (sym k.lock) l.lock_settled;
      to_certified = subst (λ x. Certified u log (hash_at c.heap x)) (sym k.lock) l.lock_certified;
      rises = omega (arith, ap (height c) k.lock);
      low = λ x m. omega (arith, ap (height c) k.lock, l.decided_low x (sym (k.decided x) ∙ m));
      runs_settled = subst (IsSettled c.genesis c.heap) (sym k.exec) l.exec_settled;
      runs_parent = subst (IsParent c.genesis c.heap) (sym k.exec) l.exec_parent;
      runs = subst (λ x. IsExecuted w u log (hash_at c.heap x)) (sym k.exec) l.executed;
    })
