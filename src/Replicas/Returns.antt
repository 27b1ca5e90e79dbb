-- ===== src/Replicas/Returns.antt =====
-- No honest replica throws on a proposal.
use mathlib.Core.Path.{subst}
use mathlib.Core.Option.{some-injective}
use cs244b_fp.Prelude.{
  ℕ, zero, suc, ◌+◌, ◌^◌, ◌<◌, ◌≡◌, refl, sym, ap, ◌∙◌, inl, inr, true, false, some, List, [], ◌∷◌,
  arith, All, Bool-cases, leb, leb→le, Result, ok,
}
use cs244b_fp.Config.{ReplicaId, ReplicaConfig}
use cs244b_fp.Block.{Ptr, Heap}
use cs244b_fp.Block.Shape.{IsLinked, Line, Extends}
use cs244b_fp.Block.Disk.{is_decided}
use cs244b_fp.Consensus.{Core, height, on_receive_proposal}
use cs244b_fp.Consensus.Advance.{applied}
use cs244b_fp.Consensus.ThreeChain.{ThreeChain, Reacts, quiet, commits, breach}
use cs244b_fp.Consensus.Voting.{on_receive_proposal-Reacts}
use cs244b_fp.Replicas.Naming.{World, IsWorld, Follows, up, Follows-genesis}
use cs244b_fp.Replicas.Votes.{Quorums, Log, Certified}
use cs244b_fp.Replicas.Ballots.{AreBallots, Certified-extends, Certified-chain}
use cs244b_fp.Replicas.{System, Reach, start, hash_at, IsSettled, IsParent, InWorld}
use cs244b_fp.Replicas.Local.{Local}
use cs244b_fp.Replicas.Casting.{ThreeChain-Chain, Local-ballot}
use cs244b_fp.Replicas.Invariant.{Reach-IsSound}
use cs244b_fp.Replicas.Agreement.{IsExecuted-Certified}

-- What holds of all blocks down to `g`, at height 0, holds of each block on the way.
on_the_way :
    (P : Ptr → Type 0) (h : Heap) (a g : Ptr) (xs ys : List Ptr) (b : Ptr)
    → IsLinked h
    → (h.cell g).block_height ≡ 0
    → Line h a xs b
    → Line h g ys b
    → All P ys
    → P g
    → P a
on_the_way P h a g [] [] b l low e f all last = subst P (sym f ∙ e) last
on_the_way P h a g [] (y ∷ ys) b l low e (q, f, up, line) all last = subst P (sym f ∙ e) all.0
on_the_way P h a g (x ∷ xs) [] b l low (q, e, up, line) f all last =
    absurd (omega (arith, low, l.step x q up, ap (λ z. (h.cell z).block_height) (sym e ∙ f)))
on_the_way P h a g (x ∷ xs) (y ∷ ys) b l low (q, e, up, line) (p, f, up', line') all last =
    let same : p ≡ q =
      some-injective p q (sym up' ∙ ap (λ z. (h.cell z).parent_block_ptr) (sym f ∙ e) ∙ up) in
    on_the_way P h a g xs ys q l low line (subst (λ x. Line h g ys x) same line') all.1 last

module _ (w : World) (is : IsWorld w) (u : Quorums) where
  -- Blocks that a replica has linked lead to their ancestors.
  Follows-Extends :
      {genesis : Ptr} {h : Heap}
      → IsLinked h
      → InWorld w genesis h
      → (n : ℕ) (b a : Ptr) → IsSettled genesis h b
      → IsParent genesis h b
      → IsParent genesis h a
      → (h.cell b).block_height ≡ n + (h.cell a).block_height
      → up w n (hash_at h b) ≡ hash_at h a
      → Extends h b a
  Follows-Extends l i zero b a sb pb pa e f = ([], i.one_address b a pb pa f)
  Follows-Extends {genesis} {h} l i (suc n) b a (inl root) pb pa e f = absurd (
      omega (
        arith,
        e,
        i.heights b (inl root),
        ap (λ p. w.height_of (hash_at h p)) root,
        ap w.height_of i.root,
        is.genesis,
      ))
  Follows-Extends {genesis} {h} l i (suc n) b a (inr (q, parent)) pb pa e f =
      let (sq, same) = i.parents b q parent in
      let (xs, line) =
        Follows-Extends l i n q a sq (inr (b, parent)) pa (omega (arith, e, l.step b q parent))
          (ap (up w n) (sym same) ∙ f) in
      (b ∷ xs, (q, refl, parent, line))

  linked-Extends :
      {genesis : Ptr} {h : Heap}
      → IsLinked h
      → InWorld w genesis h
      → (b a : Ptr) → IsSettled genesis h b
      → IsSettled genesis h a
      → IsParent genesis h b
      → IsParent genesis h a
      → Follows w (hash_at h b) (hash_at h a)
      → Extends h b a
  linked-Extends l i b a sb sa pb pa f =
      Follows-Extends l i f.steps b a sb pb pa
        (omega (arith, f.heights, i.heights b sb, i.heights a sa)) f.arrives

  -- The head of a three-chain extends the block executed last, unless it is decided.
  no_breach :
      {log : Log} {r : ReplicaId} {c : Core} {nblk blk : Ptr}
      → AreBallots w u log
      → Local w u log r c
      → ThreeChain c.heap nblk blk
      → is_decided c.heap blk ≡ false
      → Extends c.heap blk c.b_exec
  no_breach {log} {r} {c} {nblk} {blk} v l t new =
      let i = l.in_world in
      let k = hash_at c.heap blk in
      let j = hash_at c.heap c.b_exec in
      let chain = ThreeChain-Chain w is u l.inv.linked i t in
      let last = l.certified nblk t.blk2 t.certifies2 in
      let settled = (i.justifies t.blk1 blk t.certifies).1 in
      let up : IsParent c.genesis c.heap blk = inr (t.blk1, t.parent1) in
      let head : Certified u log k = (Certified-chain w is u log v k _ _ chain last).1 in
      elim (Bool-cases (leb (w.height_of j) (w.height_of k))) [
        | inl above ↦
            linked-Extends l.inv.linked i blk c.b_exec settled l.exec_settled up l.exec_parent
              (elim l.executed [
                | inl zero_hash ↦
                    subst (Follows w k) (sym zero_hash) (Follows-genesis is (w.height_of k) k refl)
                | inr (k1, k2, chain', last') ↦
                    Certified-extends w is u log v j k1 k2 chain' last' k head (leb→le _ _ above)
              ])
        | inr below ↦
            (let f =
                Certified-extends w is u log v k _ _ chain last j
                  (IsExecuted-Certified w is u log j v l.executed) (ground (arith, below)) in
              let (xs, line) =
                linked-Extends l.inv.linked i c.b_exec blk l.exec_settled settled l.exec_parent up
                  f in
              let root : height c c.genesis ≡ 0 =
                sym (i.heights c.genesis (inl refl)) ∙ ap w.height_of i.root ∙ is.genesis in
              let old : is_decided c.heap blk ≡ true =
                on_the_way (λ x. is_decided c.heap x ≡ true) c.heap blk c.genesis xs
                  (applied c.trace) c.b_exec l.inv.linked root line l.inv.committed
                  l.inv.all_decided l.root_decided in
              absurd (cc))
      ]

  Reacts-ok :
      {log : Log} {r : ReplicaId} {c : Core} {nblk : Ptr} {result : Result Core}
      → AreBallots w u log
      → Local w u log r c
      → Reacts c nblk result
      → (d : Core) × (result ≡ ok d)
  Reacts-ok v l (quiet {d} q) = (d, refl)
  Reacts-ok v l (commits {d} a t) = (d, refl)
  Reacts-ok v l (breach t new far) = absurd (far (no_breach v l t new))

  -- Take a history of replicas in which every block extends the block that it certifies, honest
  -- replicas handle proposals at heights below 2 ^ 32 only, and their stores link blocks to a parent and
  -- a certified block by hash, with one address for each hash among the parents (`Stores`). A block may
  -- be received, linked and handled more than once.
  -- Hashes do not collide, any two quorums share an honest replica, and a certificate that is accepted
  -- has the votes of a quorum, of which those of honest replicas are not forged.
  -- In every such history, whatever else the dishonest replicas send, the core of an honest replica
  -- does not throw "safety breached", nor anything else of its own, on a proposal that is linked to
  -- the block it certifies, at a height below 2 ^ 32. The calls that leave the core, to save blocks, to
  -- send a vote and to write the index, are recorded as effects, and are taken to return.
  pub on_receive_proposal-returns :
      (config : ReplicaConfig) {s : System} (r : ReplicaId) (bnew j : Ptr) (proposer : ReplicaId)
      → Reach w u (start config) s
      → u.honest r
      → ((s.core r).heap.cell bnew).justify_block_ptr ≡ some j
      → height (s.core r) bnew < 2 ^ 32
      → (d : Core) × (on_receive_proposal bnew proposer (s.core r) ≡ ok d)
  on_receive_proposal-returns config {s} r bnew j proposer reach h e small =
      let i = Reach-IsSound w is u config reach in
      let c = s.core r in
      let l = i.local r h in
      let (vote, iff, reacts) =
        on_receive_proposal-Reacts c bnew j proposer l.inv.linked l.inv.with_qc e in
      Reacts-ok i.ballots (Local-ballot w is u c bnew j proposer vote small iff l) reacts
