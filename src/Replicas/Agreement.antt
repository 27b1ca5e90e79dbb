-- ===== src/Replicas/Agreement.antt =====
-- What the replicas apply to their state machines is one history.
use mathlib.Core.List.{append-nil}
use cs244b_fp.Prelude.{
  suc, ◌≤◌, ◌≡◌, sym, ap, ◌∙◌, inl, inr, ◌⊎◌, List, [], ◌∷◌, ◌++◌, map, arith, Bool-cases, leb,
  leb→le,
}
use cs244b_fp.Config.{Hash, ReplicaId, ReplicaConfig}
use cs244b_fp.Block.{Ptr, Heap}
use cs244b_fp.Block.Shape.{IsLinked, Line}
use cs244b_fp.Consensus.{Core}
use cs244b_fp.Consensus.Advance.{applied}
use cs244b_fp.Replicas.Naming.{World, IsWorld, path, path-Follows}
use cs244b_fp.Replicas.Votes.{Quorums, Log, Certified}
use cs244b_fp.Replicas.Ballots.{AreBallots, Certified-extends, Certified-chain}
use cs244b_fp.Replicas.{System, Reach, start, hash_at, IsSettled, InWorld}
use cs244b_fp.Replicas.Local.{Local, IsExecuted}
use cs244b_fp.Replicas.Invariant.{Reach-IsSound}

-- The hashes of the blocks that a replica has applied, newest first.
abbrev pub applied_hashes : Core → List Hash
applied_hashes c = map (hash_at c.heap) (applied c.trace)

module _ (w : World) (is : IsWorld w) (u : Quorums) where
  Line-path :
      {genesis : Ptr} {h : Heap}
      → IsLinked h
      → InWorld w genesis h
      → (xs : List Ptr) (b : Ptr) → IsSettled genesis h b
      → Line h genesis xs b
      → map (hash_at h) xs ≡ path w (w.height_of (hash_at h b)) (hash_at h b)
  Line-path {genesis} {h} l i [] b settled e =
      let none_left : w.height_of (hash_at h b) ≡ 0 =
        ap (λ p. w.height_of (hash_at h p)) e ∙ ap w.height_of i.root ∙ is.genesis in
      sym (ap (λ n. path w n (hash_at h b)) none_left)
  Line-path {genesis} {h} l i (x ∷ xs) b settled (q, e, up, line) =
      let (below, parent) = i.parents x q up in
      let high : w.height_of (hash_at h x) ≡ suc (w.height_of (hash_at h q)) =
        i.heights x (inr (q, up)) ∙ l.step x q up ∙ ap suc (sym (i.heights q below)) in
      ap (λ t. hash_at h x ∷ t)
        (Line-path l i xs q below line
          ∙ ap (λ k. path w (w.height_of (hash_at h q)) k) (sym parent))
      ∙ ap (λ n. path w n (hash_at h x)) (sym high)
      ∙ ap (λ p. path w (w.height_of (hash_at h p)) (hash_at h p)) (sym e)

  Local-path :
      {log : Log} {r : ReplicaId} {c : Core}
      → Local w u log r c
      → applied_hashes c ≡ path w (w.height_of (hash_at c.heap c.b_exec)) (hash_at c.heap c.b_exec)
  Local-path {c = c} l =
      Line-path l.inv.linked l.in_world (applied c.trace) c.b_exec l.exec_settled l.inv.committed

  pub IsExecuted-Certified :
      (log : Log) (k : Hash) → AreBallots w u log → IsExecuted w u log k → Certified u log k
  IsExecuted-Certified log k v (inl zero_hash) = inl zero_hash
  IsExecuted-Certified log k v (inr (k1, k2, chain, last)) =
      (Certified-chain w is u log v k k1 k2 chain last).1

  -- The path to the higher of two executed blocks starts with the path to the lower.
  longer :
      (log : Log) (k j : Hash)
      → AreBallots w u log
      → IsExecuted w u log k
      → IsExecuted w u log j
      → w.height_of k ≤ w.height_of j
      → (more : List Hash) × (path w (w.height_of j) j ≡ more ++ path w (w.height_of k) k)
  longer log k j v (inl zero_hash) e le =
      let none_left : w.height_of k ≡ 0 = ap w.height_of zero_hash ∙ is.genesis in
      (
        path w (w.height_of j) j,
        sym (append-nil _) ∙ ap (λ n. path w (w.height_of j) j ++ path w n k) (sym none_left),
      )
  longer log k j v (inr (k1, k2, chain, last)) e le =
      let f =
        Certified-extends w is u log v k k1 k2 chain last j (IsExecuted-Certified log j v e) le in
      (path w f.steps j, path-Follows f)

  -- Take a history of replicas in which every block extends the block that it certifies, honest
  -- replicas handle proposals at heights below 2 ^ 32 only, and their stores link blocks to a parent and
  -- a certified block by hash, with one address for each hash among the parents (`Stores`). A block may
  -- be received, linked and handled more than once.
  -- Hashes do not collide, any two quorums share an honest replica, and a certificate that is accepted
  -- has the votes of a quorum, of which those of honest replicas are not forged.
  -- In every such history, whatever else the dishonest replicas send, honest replicas apply the same
  -- blocks in the same order: of any two, one has applied what the other has, and perhaps more on top.
  pub applied-agree :
      (config : ReplicaConfig) {s : System} (r q : ReplicaId)
      → Reach w u (start config) s
      → u.honest r
      → u.honest q
      → ((more : List Hash) × (applied_hashes (s.core q) ≡ more ++ applied_hashes (s.core r)))
        ⊎ ((more : List Hash) × (applied_hashes (s.core r) ≡ more ++ applied_hashes (s.core q)))
  applied-agree config {s} r q reach hr hq =
      let i = Reach-IsSound w is u config reach in
      let lr = i.local r hr in
      let lq = i.local q hq in
      let k = hash_at (s.core r).heap (s.core r).b_exec in
      let j = hash_at (s.core q).heap (s.core q).b_exec in
      elim (Bool-cases (leb (w.height_of k) (w.height_of j))) [
        | inl up ↦
            (let (more, e) = longer s.log k j i.ballots lr.executed lq.executed (leb→le _ _ up) in
              inl (more, Local-path lq ∙ e ∙ ap (λ t. more ++ t) (sym (Local-path lr))))
        | inr down ↦
            (let (more, e) =
                longer s.log j k i.ballots lq.executed lr.executed (ground (arith, down)) in
              inr (more, Local-path lr ∙ e ∙ ap (λ t. more ++ t) (sym (Local-path lq))))
      ]
