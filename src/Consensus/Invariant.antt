-- ===== src/Consensus/Invariant.antt =====
-- What holds of a replica at all times, and what keeps it.
use cs244b_fp.Prelude.{
  ℕ, suc, ◌^◌, ◌≤◌, ◌<◌, ◌≡◌, ◌↔◌, refl, inl, inr, Bool, true, false, some, List, [], ◌∷◌, arith,
  Option-cases, All, All-append, if◌then◌else◌,
}
use cs244b_fp.Config.{ReplicaId}
use cs244b_fp.Block.{Ptr, Heap}
use cs244b_fp.Block.Shape.{IsLinked, IsLinked-same, Line, Line-append, Line-same}
use cs244b_fp.Block.Disk.{is_decided}
use cs244b_fp.Consensus.{Core, height, cast_vote}
use cs244b_fp.Consensus.Advance.{applied, votes, Advances, All-keeps}
use cs244b_fp.Consensus.ThreeChain.{HasQc, HasQc-same}
use cs244b_fp.Consensus.Voting.{IsSafeToVote}

-- The tree grows: linked blocks stay as they are.
pub record Grows (h g : Heap) : Type 0 where
  pub grown_linked : IsLinked g
  pub grown_qc : HasQc g
  pub stays :
      (p q : Ptr)
      → (h.cell p).parent_block_ptr ≡ some q
      → ((g.cell p).parent_block_ptr ≡ some q) × ((g.cell p).block_height ≡ (h.cell p).block_height)
  pub stays_decided : (p : Ptr) → is_decided h p ≡ true → is_decided g p ≡ true

-- Each block is lower than `n` and than the blocks before it.
abbrev pub Descends : Heap → ℕ → List Ptr → Type 0
Descends h n [] = Unit
Descends h n (b ∷ bs) =
    ((h.cell b).block_height < n)
    × (0 < (h.cell b).block_height)
    × Descends h (h.cell b).block_height bs

pub record Inv (c : Core) : Type 0 where
  pub linked : IsLinked c.heap
  pub with_qc : HasQc c.heap
  pub committed : Line c.heap c.genesis (applied c.trace) c.b_exec
  pub all_decided : All (λ b. is_decided c.heap b ≡ true) (applied c.trace)
  pub ballots : Descends c.heap (suc c.vheight) (votes c.trace)

pub Descends-same :
    (h g : Heap) (n : ℕ) (bs : List Ptr)
    → ((p : Ptr) → 0 < (h.cell p).block_height → (g.cell p).block_height ≡ (h.cell p).block_height)
    → Descends h n bs
    → Descends g n bs
Descends-same h g n [] s d = tt
Descends-same h g n (b ∷ bs) s d =
    let e = s b d.1 in
    (
      omega (arith, d.0),
      omega (arith, d.1),
      rw e (Descends-same h g (h.cell b).block_height bs s d.2),
    )

pub Advances-Inv : {c d : Core} → Advances c d → Inv c → Inv d
Advances-Inv {c} {d} a i = record {
  linked = IsLinked-same a.shape i.linked;
  with_qc = HasQc-same a.shape i.with_qc;
  committed =
      rw (a.applies, a.same_genesis)
        (Line-same a.shape c.genesis _ d.b_exec (
          Line-append c.heap c.genesis a.fresh (applied c.trace) c.b_exec d.b_exec a.chain
            i.committed));
  all_decided = rw a.applies (
      All-append _ a.fresh (applied c.trace) a.decides
        (All-keeps c.heap d.heap (applied c.trace) a.keeps i.all_decided));
  ballots =
      rw (a.same_votes, a.same_vheight)
        (Descends-same c.heap d.heap (suc c.vheight) (votes c.trace) (λ p _. a.shape.same_height p)
          i.ballots);
}

Descends-mono : (h : Heap) (n m : ℕ) (bs : List Ptr) → n ≤ m → Descends h n bs → Descends h m bs
Descends-mono h n m [] le d = tt
Descends-mono h n m (b ∷ bs) le d = (omega (arith, d.0), d.1, d.2)

cast_vote-Inv :
    (c : Core) (bnew : Ptr) (proposer : ReplicaId)
    → c.vheight < height c bnew
    → height c bnew < 2 ^ 32
    → Inv c
    → Inv (cast_vote bnew proposer c)
unfolding cast_vote
cast_vote-Inv c bnew proposer new small i = record {
  linked = i.linked;
  with_qc = i.with_qc;
  committed = i.committed;
  all_decided = i.all_decided;
  ballots = (
    omega arith,
    omega arith,
    Descends-mono c.heap (suc c.vheight) (height c bnew) (votes c.trace) new i.ballots,
  );
}

pub ballot-Inv :
    (c : Core) (bnew j : Ptr) (proposer : ReplicaId) (vote : Bool)
    → height c bnew < 2 ^ 32
    → (vote ≡ true) ↔ IsSafeToVote c bnew j
    → Inv c
    → Inv (if vote then cast_vote bnew proposer c else c)
ballot-Inv c bnew j proposer true small iff i =
    cast_vote-Inv c bnew proposer ((iff.0 refl).0) small i
ballot-Inv c bnew j proposer false small iff i = i

-- Growth of the tree keeps the heights of the blocks above genesis, and the lines.
pub Grows-height :
    {h g : Heap}
    → IsLinked h
    → Grows h g
    → (p : Ptr) → 0 < (h.cell p).block_height
    → (g.cell p).block_height ≡ (h.cell p).block_height
Grows-height {h} l grows p above = elim (Option-cases (h.cell p).parent_block_ptr) [
  | inl root ↦ absurd (omega (arith, l.root p root))
  | inr (q, up) ↦ (grows.stays p q up).1
]

pub Line-grows :
    {h g : Heap} → Grows h g → (a : Ptr) (xs : List Ptr) (b : Ptr) → Line h a xs b → Line g a xs b
Line-grows grows a [] b l = l
Line-grows grows a (x ∷ xs) b (q, e, p, l) =
    (q, e, (grows.stays x q p).0, Line-grows grows a xs q l)
