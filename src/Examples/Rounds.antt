-- ===== src/Examples/Rounds.antt =====
-- Rounds in which a replica of four hears of the next block of a chain and gets it as a proposal.
use mathlib.Core.Path.{subst}
use cs244b_fp.Prelude.{
  ℕ, zero, suc, ◌≤◌, ◌<◌, ◌≡◌, refl, ap, sym, ◌∙◌, Bool-cases, ==_iff, inl, inr, Bool, true, false,
  some, [], ◌∷◌, arith, ◌==◌, ==_refl, ok, ◌^◌, if◌then◌else◌,
}
use cs244b_fp.Config.{ReplicaId, finish_init}
use cs244b_fp.Replicas.Votes.{Quorums, Log, Certified, Past, now, later, Certified-later}
use cs244b_fp.Replicas.Signers.{config_quorums, IsMajority}
use cs244b_fp.Replicas.{System, Reach, next, stored, proposed, start, set_core, with_vote, hash_at}
use cs244b_fp.Block.Shape.{SameShape, SameShape-trans}
use cs244b_fp.Consensus.Invariant.{Inv}
use cs244b_fp.Consensus.Advance.{Advances}
use cs244b_fp.Consensus.Voting.{on_receive_proposal-Reacts}
use cs244b_fp.Consensus.Counting.{after_ok, Reacts-Advances}
use cs244b_fp.Replicas.Invariant.{Reach-IsSound}
use cs244b_fp.Replicas.Returns.{on_receive_proposal-returns}
use cs244b_fp.Block.{Heap, genesis_heap, genesis_block}
use cs244b_fp.Block.Disk.{is_decided}
use cs244b_fp.Consensus.{init_core, Core, height, opinion, on_receive_proposal, cast_vote}
use cs244b_fp.Examples.Growing.{
  chain_world, chain_world-IsWorld, extended, Knows, extended-Stores, extended-SameShape, upto,
  upto-genesis,
}
use cs244b_fp.Examples.Chain.{expect, chain_block}
use cs244b_fp.Examples.Config.{four, four-Built}

abbrev pub is_faulty : ReplicaId → Bool
is_faulty r = r == 3

abbrev pub quorums : Quorums
quorums = config_quorums four four-Built (λ e. omega (arith, e)) is_faulty (omega arith)

pub zero_one_three : IsMajority four (0 ∷ 1 ∷ 3 ∷ [])
unfolding finish_init
zero_one_three = record {
  sigs = (0, 0) ∷ (1, 0) ∷ (3, 0) ∷ [];
  signers = (
    ((omega arith, (omega arith, tt)), ((omega arith, tt), (tt, tt))),
    (refl, (refl, (refl, tt))),
  );
  enough = omega arith;
  same_ids = refl;
}

-- The blocks 1 to 3 are voted for by the replicas 0 and 1, block `n` in round `n`.
abbrev pub log_after : ℕ → Log
log_after zero = []
log_after (suc n) = (1, suc n) ∷ (0, suc n) ∷ log_after n

-- Replica `r` hears of block `n + 1`, and then gets it as a proposal.
abbrev pub hear : ReplicaId → ℕ → System → System
hear r n s = record s {
  core = set_core r (record (s.core r) { heap = extended n (s.core r).heap }) s.core;
}

abbrev pub propose : ReplicaId → ℕ → System → System
propose r n s = record {
  core = set_core r (expect (s.core r) (on_receive_proposal n 1 (s.core r))) s.core;
  log = with_vote (opinion n (s.core r)) r (hash_at (s.core r).heap n) s.log;
}

abbrev pub round : ReplicaId → ℕ → System → System
round r n s = propose r (suc n) (hear r n s)

-- A replica that knows the chain up to `n`, whose blocks are certified, goes on to `n + 1`.
pub record Goes (r : ReplicaId) (n : ℕ) (s : System) : Type 0 where
  pub history : Reach chain_world quorums (start four) s
  pub honest : is_faulty r ≡ false
  pub knows : Knows n (s.core r)
  pub certified : (k : ℕ) → k ≤ n → Certified quorums s.log k
  pub small : suc n < 2 ^ 32

pub here_core : (r : ReplicaId) (d : Core) (core : ReplicaId → Core) → set_core r d core r ≡ d
here_core r d core = rw (==_refl r) refl

pub next_block :
    (n : ℕ) (h : Heap)
    → (((extended n h).cell (suc n)).justify_block_ptr ≡ some n)
      × (((extended n h).cell (suc n)).block_height ≡ suc n)
unfolding chain_block
next_block n h = (ground arith, ground arith)

pub Knows-start : (r : ReplicaId) → Knows 0 (init_core four r)
unfolding init_core genesis_heap genesis_block
Knows-start r = record { shape = upto-genesis; root = refl; undecided = undecided_start }
  where
    undecided_start : (p : ℕ) → 0 < p → is_decided genesis_heap p ≡ false
    undecided_start p h = ground (arith, h)

-- What a round does.
pub record Returned (r : ReplicaId) (n : ℕ) (s : System) : Type 0 where
  pub after : Core
  pub returned : on_receive_proposal (suc n) 1 ((hear r n s).core r) ≡ ok after
  pub reached : Reach chain_world quorums (start four) (round r n s)
  pub knows_next :
      ((p : ℕ) → suc n < p → is_decided ((round r n s).core r).heap p ≡ false)
      → Knows (suc n) ((round r n s).core r)

same_tree :
    (c d : Core) (b j : ℕ)
    → Inv c
    → (c.heap.cell b).justify_block_ptr ≡ some j
    → on_receive_proposal b 1 c ≡ ok d
    → SameShape c.heap d.heap × (d.genesis ≡ c.genesis)
unfolding cast_vote
same_tree c d b j i e returned =
    let (vote, iff, reacts) = on_receive_proposal-Reacts c b j 1 i.linked i.with_qc e in
    at vote (after_ok (Advances _) (Reacts-Advances reacts) returned)
  where
    at :
        (vote : Bool)
        → Advances (if vote then cast_vote b 1 c else c) d
        → SameShape c.heap d.heap × (d.genesis ≡ c.genesis)
    at true a = (a.shape, a.same_genesis)
    at false a = (a.shape, a.same_genesis)

pub round-Returned : (r : ReplicaId) (n : ℕ) (s : System) → Goes r n s → Returned r n s
round-Returned r n s goes =
    let c = s.core r in
    let heard : Core = record c { heap = extended n c.heap } in
    let at = here_core r heard s.core in
    let reach = next goes.history (
      stored r (extended n c.heap) goes.honest
        (extended-Stores quorums s.log n c goes.knows goes.certified)) in
    let just : (((hear r n s).core r).heap.cell (suc n)).justify_block_ptr ≡ some n =
      ap (λ x. (x.heap.cell (suc n)).justify_block_ptr) at ∙ (next_block n c.heap).0 in
    let low : height ((hear r n s).core r) (suc n) < 2 ^ 32 =
      omega (arith, goes.small, ap (λ x. height x (suc n)) at, (next_block n c.heap).1) in
    let (d, e) =
      on_receive_proposal-returns chain_world chain_world-IsWorld quorums four r (suc n) n 1 reach
        goes.honest just low in
    let i =
      ((Reach-IsSound chain_world chain_world-IsWorld quorums four reach).local r
        goes.honest).inv in
    let (shape, root) = same_tree ((hear r n s).core r) d (suc n) n i just e in
    let done : (round r n s).core r ≡ d =
      here_core r _ (hear r n s).core ∙ ap (expect ((hear r n s).core r)) e in
    let extends : SameShape (upto (suc n)) ((hear r n s).core r).heap =
      subst (λ x. SameShape (upto (suc n)) x.heap) (sym at)
        (extended-SameShape n c.heap goes.knows.shape) in
    record {
      after = d;
      returned = e;
      reached = rw e (next reach (proposed r (suc n) n 1 goes.honest just low e));
      knows_next = λ undecided. record {
        shape =
            subst (λ x. SameShape (upto (suc n)) x.heap) (sym done) (SameShape-trans extends shape);
        root = ap (λ x. x.genesis) done ∙ root ∙ ap (λ x. x.genesis) at ∙ goes.knows.root;
        undecided = undecided;
      };
    }

-- Blocks up to `n` are certified when the replicas 0 and 1 have voted for them.
pub Certified-after : (n k : ℕ) → k ≤ n → Certified quorums (log_after n) k
Certified-after zero k le = inl (omega (arith, le))
Certified-after (suc n) k le = elim (Bool-cases (k == suc n)) [
  | inl level ↦
      (let same : k ≡ suc n = (==_iff k (suc n)).0 level in
        inr (
          0 ∷ 1 ∷ 3 ∷ [],
          zero_one_three,
          ((λ h. inr (inl (refl, sym same))), ((λ h. inl (refl, sym same)), ((λ h. cc), tt))),
        ))
  | inr other ↦
      Certified-later quorums (later (1, suc n) (later (0, suc n) now)) k
        (Certified-after n k (ground (arith, le, other)))
]

pub Goes-on :
    (r : ReplicaId) (n : ℕ) (s : System)
    → is_faulty r ≡ false
    → suc n < 2 ^ 32
    → Reach chain_world quorums (start four) s
    → Knows n (s.core r)
    → Past (log_after n) s.log
    → Goes r n s
Goes-on r n s honest small reach knows p = record {
  history = reach;
  honest = honest;
  knows = knows;
  certified = λ k le. Certified-later quorums p k (Certified-after n k le);
  small = small;
}
