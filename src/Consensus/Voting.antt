-- ===== src/Consensus/Voting.antt =====
-- Which proposals get a vote.
use mathlib.Core.Path.{subst}
use cs244b_fp.Prelude.{
  suc, ◌%◌, ◌^◌, ◌≤◌, ◌<◌, ◌≡◌, ◌↔◌, refl, inl, inr, ◌⊎◌, Bool, true, false, some, List, arith, ltb,
  lt→ltb, Bool-cases, ◌==◌, ==_iff, ok, if◌then◌else◌,
}
use cs244b_fp.Config.{ReplicaId}
use cs244b_fp.Block.{Ptr, Heap}
use cs244b_fp.Block.Shape.{IsLinked, Line, Extends}
use cs244b_fp.Consensus.{Core, height, opinion, cast_vote, update, on_receive_proposal}
use cs244b_fp.Consensus.Walk.{Stop, walk_down_total}
use cs244b_fp.Consensus.ThreeChain.{HasQc, Reacts, walk_meets}
use cs244b_fp.Consensus.Commit.{update-Reacts}

-- The rule of the protocol: the block is higher than the last vote, and either the block it
-- certifies, `j`, is higher than the locked block, or it extends the locked block.
abbrev pub IsSafeToVote : Core → Ptr → Ptr → Type 0
IsSafeToVote c bnew j =
    (c.vheight < height c bnew) × ((height c c.b_lock < height c j) ⊎ Extends c.heap bnew c.b_lock)

walk_meets_iff :
    (h : Heap) (b a end : Ptr) (passed : List Ptr)
    → IsLinked h
    → Stop h (h.cell a).block_height b end passed
    → ((end == a) ≡ true) ↔ Extends h b a
walk_meets_iff h b a end passed l s = (
  λ e. (passed, subst (λ x. Line h x passed b) ((==_iff end a).0 e) s.line),
  λ x. (==_iff end a).1 (walk_meets h b a end passed l s x),
)

-- On a tree of blocks, `on_receive_proposal` forms an opinion on every proposal that is linked to the
-- block it certifies, and it is to vote exactly when the rule allows it.
pub opinion-IsSafeToVote :
    (c : Core) (bnew j : Ptr)
    → IsLinked c.heap
    → (c.heap.cell bnew).justify_block_ptr ≡ some j
    → (vote : Bool) × (opinion bnew c ≡ ok vote) × ((vote ≡ true) ↔ IsSafeToVote c bnew j)
unfolding opinion
opinion-IsSafeToVote c bnew j l e = elim (Bool-cases (ltb c.vheight (height c bnew))) [
  | inr old ↦ (false, rw (old, opinion), ((λ x. cc), (λ x. ground arith)))
  | inl new ↦ elim (Bool-cases (ltb (height c c.b_lock) (height c j))) [
    | inl higher ↦ (
      true,
      rw (new, e, higher, opinion),
      ((λ x. (ground arith, inl (ground arith))), (λ x. refl)),
    )
    | inr not_higher ↦
        let (passed, end, w, s) =
          walk_down_total (suc (height c bnew)) c.heap (height c c.b_lock) bnew l (omega arith) in
        let iff = walk_meets_iff c.heap bnew c.b_lock end passed l s in
        (
          end == c.b_lock,
          rw (new, e, not_higher, w, opinion),
          (
            (λ x. (ground arith, inr (iff.0 x))),
            (λ x. elim (x.1) [ inl higher ↦ absurd (ground arith) | inr ext ↦ iff.1 ext ]),
          ),
        )
  ]
]

-- On a tree of blocks with certificates, a proposal that is linked to the block it certifies gets a
-- vote exactly when the rule allows it: it is higher than the last vote, and it extends the locked
-- block or certifies a higher one. The replica then applies nothing, or commits the head of a
-- three-chain that the proposal completes, or throws since that head does not extend the block
-- executed last.
pub on_receive_proposal-Reacts :
    (c : Core) (bnew j : Ptr) (proposer : ReplicaId)
    → IsLinked c.heap
    → HasQc c.heap
    → (c.heap.cell bnew).justify_block_ptr ≡ some j
    → (vote : Bool) × ((vote ≡ true) ↔ IsSafeToVote c bnew j)
      × Reacts
          (if vote then cast_vote bnew proposer c else c)
          bnew
          (on_receive_proposal bnew proposer c)
unfolding on_receive_proposal
on_receive_proposal-Reacts c bnew j proposer l q e =
    let (vote, o, iff) = opinion-IsSafeToVote c bnew j l e in
    (vote, iff, rw (o, on_receive_proposal) (after vote))
  where
    after :
        (vote : Bool)
        → Reacts
            (if vote then cast_vote bnew proposer c else c)
            bnew
            (update bnew (if vote then cast_vote bnew proposer c else c))
    after true = update-Reacts bnew (cast_vote bnew proposer c) l q
    after false = update-Reacts bnew c l q

-- `vheight` has 32 bits and heights have 64: at heights from 2 ^ 32 on, a replica that has voted for
-- a block would vote for it again.
pub opinion-cast_vote_wraps :
    (c : Core) (bnew : Ptr) (proposer : ReplicaId)
    → 2 ^ 32 ≤ height c bnew
    → opinion bnew c ≡ ok true
    → opinion bnew (cast_vote bnew proposer c) ≡ ok true
unfolding opinion cast_vote
opinion-cast_vote_wraps c bnew proposer big e = elim (Bool-cases (ltb c.vheight (height c bnew))) [
  | inr old ↦ cc (rw (old, opinion) at e)
  | inl new ↦
      rw (lt→ltb (height c bnew % 2 ^ 32) (height c bnew) (omega arith)) (rw (new, opinion) at e)
]
