-- ===== src/Replicas/Casting.antt =====
-- An honest replica that gets a proposal: its vote is a ballot, and its invariant stays.
use mathlib.Core.Path.{subst}
use cs244b_fp.Prelude.{
  suc, ◌^◌, ◌≤◌, ◌<◌, ◌≡◌, ◌↔◌, refl, sym, ap, ◌∙◌, inl, inr, ◌⊎◌, Bool, true, false, some, ◌∷◌,
  arith, Result, ok, if◌then◌else◌,
}
use cs244b_fp.Config.{Hash, ReplicaId}
use cs244b_fp.Block.{Ptr, Heap}
use cs244b_fp.Block.Shape.{IsLinked}
use cs244b_fp.Consensus.{Core, height, opinion, cast_vote, update, on_receive_proposal}
use cs244b_fp.Consensus.Advance.{Advances}
use cs244b_fp.Consensus.ThreeChain.{ThreeChain, Reacts, quiet, commits, breach}
use cs244b_fp.Consensus.Commit.{update-Reacts}
use cs244b_fp.Consensus.Voting.{IsSafeToVote, opinion-IsSafeToVote}
use cs244b_fp.Consensus.Invariant.{ballot-Inv}
use cs244b_fp.Consensus.Counting.{AfterOk, after_ok}
use cs244b_fp.Consensus.Locks.{Guards, update-Guards}
use cs244b_fp.Replicas.Naming.{World, IsWorld}
use cs244b_fp.Replicas.Votes.{Quorums, Log, Voted, Certified, now, later}
use cs244b_fp.Replicas.Ballots.{Ballot, Chain}
use cs244b_fp.Replicas.{hash_at, IsSettled, IsParent, InWorld, with_vote}
use cs244b_fp.Replicas.Local.{Local, IsExecuted, Line-Follows, JustifyBelow-world}
use cs244b_fp.Replicas.Moves.{Moves, Local-Moves, Local-later}

-- What is executed after a reaction that does not throw.
abbrev Runs : Core → Ptr → Core → Type 0
Runs c nblk d = Advances c d × ((d.b_exec ≡ c.b_exec) ⊎ ThreeChain c.heap nblk d.b_exec)

Reacts-Runs : {c : Core} {nblk : Ptr} {r : Result Core} → Reacts c nblk r → AfterOk (Runs c nblk) r
Reacts-Runs (quiet q) = (q.move, inl q.same_exec)
Reacts-Runs (commits a t) = (a, inr t)
Reacts-Runs (breach t new far) = tt

module _ (w : World) (is : IsWorld w) (u : Quorums) where
  pub ThreeChain-Chain :
      {genesis : Ptr} {h : Heap} {nblk blk : Ptr}
      → IsLinked h
      → InWorld w genesis h
      → (t : ThreeChain h nblk blk) → Chain w (hash_at h blk) (hash_at h t.blk1) (hash_at h t.blk2)
  ThreeChain-Chain {genesis} {h} {nblk} {blk} l i t =
      let settled1 : IsSettled genesis h t.blk1 = inr (blk, t.parent1) in
      let settled2 : IsSettled genesis h t.blk2 = inr (t.blk1, t.parent2) in
      let (settled, up1) = i.parents t.blk1 blk t.parent1 in
      record {
        parent1 = up1;
        parent2 = (i.parents t.blk2 t.blk1 t.parent2).1;
        certifies1 = (i.justifies t.blk1 blk t.certifies).2;
        certifies2 = (i.justifies t.blk2 t.blk1 t.certifies1).2;
        above1 =
            i.heights t.blk1 settled1
            ∙ l.step t.blk1 blk t.parent1
            ∙ ap suc (sym (i.heights blk settled));
        above2 =
            i.heights t.blk2 settled2
            ∙ l.step t.blk2 t.blk1 t.parent2
            ∙ ap suc (sym (i.heights t.blk1 settled1));
      }

  update-Moves :
      {log : Log} {r : ReplicaId} {c d : Core} (bnew j : Ptr)
      → Local w u log r c
      → (c.heap.cell bnew).justify_block_ptr ≡ some j
      → Guards j c d
      → Runs c bnew d
      → Moves w u log c d
  update-Moves {log} {r} {c} {d} bnew j l e g (a, runs) =
      let i = l.in_world in
      record {
        advances = a;
        to_settled = elim g.lock_from [
          | inl old ↦ subst (IsSettled c.genesis c.heap) (sym old) l.lock_settled
          | inr (k, f, new) ↦ subst (IsSettled c.genesis c.heap) (sym new) ((i.justifies j k f).1)
        ];
        to_certified = elim g.lock_from [
          | inl old ↦ subst (λ x. Certified u log (hash_at c.heap x)) (sym old) l.lock_certified
          | inr (k, f, new) ↦
              subst (λ x. Certified u log (hash_at c.heap x)) (sym new) (l.certified j k f)
        ];
        rises = g.rises;
        low = g.decided_low;
        runs_settled = elim runs [
          | inl old ↦ subst (IsSettled c.genesis c.heap) (sym old) l.exec_settled
          | inr t ↦ (i.justifies t.blk1 d.b_exec t.certifies).1
        ];
        runs_parent = elim runs [
          | inl old ↦ subst (IsParent c.genesis c.heap) (sym old) l.exec_parent
          | inr t ↦ inr (t.blk1, t.parent1)
        ];
        runs = elim runs [
          | inl old ↦ subst (λ x. IsExecuted w u log (hash_at c.heap x)) (sym old) l.executed
          | inr t ↦ inr (
            hash_at c.heap t.blk1,
            hash_at c.heap t.blk2,
            ThreeChain-Chain l.inv.linked i t,
            l.certified bnew t.blk2 t.certifies2,
          )
        ];
      }

  -- A vote by the rule of the protocol.
  pub IsSafeToVote-Ballot :
      {log : Log} {r : ReplicaId} {c : Core} (bnew j : Ptr)
      → Local w u log r c
      → (c.heap.cell bnew).justify_block_ptr ≡ some j
      → IsSafeToVote c bnew j
      → Ballot w u r (hash_at c.heap bnew) log
  IsSafeToVote-Ballot {log} {r} {c} bnew j l e (new, rule) =
      let i = l.in_world in
      let (settled, settled_j, same) = i.justifies bnew j e in
      let hb = i.heights bnew settled in
      let hj = i.heights j settled_j in
      let hl = i.heights c.b_lock l.lock_settled in
      record {
        above = omega (arith, new, hb);
        higher = λ k v. omega (arith, new, hb, l.votes_low k v);
        lock = hash_at c.heap c.b_lock;
        lock_certified = l.lock_certified;
        covers = λ k v. omega (arith, l.covers k v, hl);
        justify_certified = subst (Certified u log) (sym same) (l.certified bnew j e);
        rule = elim rule [
          | inl newer ↦ inl (omega (arith, newer, hl, hj, ap w.height_of same))
          | inr (xs, line) ↦ inr (Line-Follows l.inv.linked i c.b_lock xs bnew settled line)
        ];
      }

  -- What a vote for `bnew` leaves the lock to cover.
  covered :
      {log : Log} {r : ReplicaId} {c d : Core} (bnew j : Ptr)
      → Local w u log r c
      → (c.heap.cell bnew).justify_block_ptr ≡ some j
      → Guards j c d
      → w.height_of (w.justify_of (w.justify_of (hash_at c.heap bnew))) ≤ height c d.b_lock
  covered {c = c} bnew j l e g =
      let i = l.in_world in
      let (settled, settled_j, same) = i.justifies bnew j e in
      elim settled_j [
        | inl root ↦
            (let zero_hash = same ∙ ap (hash_at c.heap) root ∙ i.root in
              omega (
                arith,
                ap (λ k. w.height_of (w.justify_of k)) zero_hash,
                ap w.height_of is.root_justify,
                is.genesis,
              ))
        | inr (q, up) ↦
            (let (k, f) = i.both_linked j q up in
              let (_, settled_k, again) = i.justifies j k f in
              omega (
                arith,
                ap (λ k. w.height_of (w.justify_of k)) same,
                ap w.height_of again,
                i.heights k settled_k,
                g.covers k f,
              ))
      ]

  Local-cast :
      {log : Log} {r : ReplicaId} {d : Core} (k : Hash)
      → w.height_of (w.justify_of (w.justify_of k)) ≤ height d d.b_lock
      → w.height_of k ≤ d.vheight
      → Local w u log r d
      → Local w u ((r, k) ∷ log) r d
  Local-cast {log} {r} {d} k cover low l = Local-later w u (later (r, k) now) own l
    where
      own :
          (i : Hash)
          → Voted ((r, k) ∷ log) r i
          → (w.height_of (w.justify_of (w.justify_of i)) ≤ height d d.b_lock)
            × (w.height_of i ≤ d.vheight)
      own i (inl (_, same)) = (
        omega (arith, cover, ap (λ k. w.height_of (w.justify_of (w.justify_of k))) same),
        omega (arith, low, ap w.height_of same),
      )
      own i (inr v) = (l.covers i v, l.votes_low i v)

  -- The state in which `update` is called.
  pub Local-ballot :
      {log : Log} {r : ReplicaId} (c : Core) (bnew j : Ptr) (proposer : ReplicaId) (vote : Bool)
      → height c bnew < 2 ^ 32
      → (vote ≡ true) ↔ IsSafeToVote c bnew j
      → Local w u log r c
      → Local w u log r (if vote then cast_vote bnew proposer c else c)
  unfolding cast_vote
  Local-ballot c bnew j proposer false small iff l = l
  Local-ballot c bnew j proposer true small iff l = record {
    inv = ballot-Inv c bnew j proposer true small iff l.inv;
    in_world = l.in_world;
    certified = l.certified;
    lock_settled = l.lock_settled;
    lock_certified = l.lock_certified;
    decided_low = l.decided_low;
    root_decided = l.root_decided;
    covers = l.covers;
    votes_low = λ k v. let new = (iff.0 refl).0 in omega (arith, new, small, l.votes_low k v);
    exec_settled = l.exec_settled;
    exec_parent = l.exec_parent;
    executed = l.executed;
  }

  updated :
      {log : Log} {r : ReplicaId} (c d : Core) (bnew j : Ptr)
      → (c.heap.cell bnew).justify_block_ptr ≡ some j
      → update bnew c ≡ ok d
      → Local w u log r c
      → Local w u log r d × Guards j c d × Advances c d
  updated c d bnew j e returned l =
      let g =
        after_ok (Guards j c)
          (update-Guards bnew j c l.inv.linked l.inv.with_qc (JustifyBelow-world is l.in_world)
            l.decided_low e)
          returned in
      let runs =
        after_ok (Runs c bnew) (Reacts-Runs (update-Reacts bnew c l.inv.linked l.inv.with_qc))
          returned in
      (Local-Moves w u l (update-Moves bnew j l e g runs), g, runs.0)

  -- The proposal gets a ballot or none; the invariant holds with the votes sent thereby.
  pub Local-proposed :
      {log : Log} {r : ReplicaId} (c d : Core) (bnew j : Ptr) (proposer : ReplicaId)
      → (c.heap.cell bnew).justify_block_ptr ≡ some j
      → height c bnew < 2 ^ 32
      → on_receive_proposal bnew proposer c ≡ ok d
      → Local w u log r c
      → (vote : Bool) × (opinion bnew c ≡ ok vote)
        × ((vote ≡ true) → Ballot w u r (hash_at c.heap bnew) log)
        × Local w u (with_vote (ok vote) r (hash_at c.heap bnew) log) r d
  unfolding on_receive_proposal cast_vote
  Local-proposed {log} {r} c d bnew j proposer e small returned l =
      let (vote, o, iff) = opinion-IsSafeToVote c bnew j l.inv.linked e in
      (
        vote,
        o,
        λ yes. IsSafeToVote-Ballot bnew j l e (iff.0 yes),
        at vote iff (rw (o, on_receive_proposal) at returned),
      )
    where
      at :
          (vote : Bool)
          → (vote ≡ true) ↔ IsSafeToVote c bnew j
          → update bnew (if vote then cast_vote bnew proposer c else c) ≡ ok d
          → Local w u (with_vote (ok vote) r (hash_at c.heap bnew) log) r d
      at false iff e' = (updated c d bnew j e e' l).0
      at true iff e' =
          let c' = cast_vote bnew proposer c in
          let l' = Local-ballot c bnew j proposer true small iff l in
          let (after, g, a) = updated c' d bnew j e e' l' in
          let (settled, _, _) = l.in_world.justifies bnew j e in
          Local-cast (hash_at c.heap bnew)
            (omega (arith, covered bnew j l' e g, a.shape.same_height d.b_lock))
            (omega (arith, l.in_world.heights bnew settled, a.same_vheight, small)) after
