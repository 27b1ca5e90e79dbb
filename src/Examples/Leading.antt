-- ===== src/Examples/Leading.antt =====
-- A replica that gets a vote for genesis, and then proposes.
use cs244b_fp.Prelude.{◌≤◌, ℕ, ◌≡◌, refl, some, ◌∷◌, [], ok, arith, inl}
use cs244b_fp.Prelude.Maps.{emplace}
use cs244b_fp.Config.{Hash}
use cs244b_fp.Block.{genesis_heap, genesis_block, get_hash, modify}
use cs244b_fp.Block.Shape.{Extends}
use cs244b_fp.Crypto.Certs.{empty_qc, serialize, add_partial_certificate, has_quorum}
use cs244b_fp.Consensus.{height, init_core, on_receive_vote}
use cs244b_fp.Consensus.Run.{voted, here, next}
use cs244b_fp.Storage.BlockStore.{new_store, get_block}
use cs244b_fp.App.{HotstuffApp, do_propose}
use cs244b_fp.App.Propose.{IsReady, Proposed, do_propose-Proposed}
use cs244b_fp.App.Leading.{Turns, reacts, none_yet, then, do_propose-Extends}
use cs244b_fp.Examples.Config.{four, toy_sodium}
use cs244b_fp.Examples.Chain.{expect}
use cs244b_fp.Examples.Replica.{started, fives}

-- After the vote of replica 2 for genesis, which is one of the three that it takes.
abbrev with_vote : HotstuffApp ℕ
with_vote = record started {
  core = expect started.core (on_receive_vote (record { hash = 0; sig = 7 }) 0 2 started.core);
}

with_vote-Turns : Turns toy_sodium fives started with_vote
unfolding on_receive_vote modify init_core genesis_heap genesis_block add_partial_certificate
    has_quorum empty_qc emplace
with_vote-Turns = then none_yet (
    reacts (
      next here
        (voted {c = started.core} {d = with_vote.core} (record { hash = 0; sig = 7 }) 0 2 refl)))

with_vote-IsReady : IsReady with_vote
unfolding new_store emplace genesis_block genesis_heap init_core get_block get_hash empty_qc
    serialize on_receive_vote modify add_partial_certificate has_quorum
with_vote-IsReady = record {
  store = record {
    tree = record { step = λ p q e. ground arith; root = λ p e. ground arith };
    with_qc = λ p j e. ground arith;
    sorted = (tt, tt);
    own_hash = λ k p e. ground arith;
    parents = λ p q e. ground arith;
  };
  room = λ p. ground arith;
  unused = record {
    no_parent = refl;
    undecided = refl;
    no_child = λ p e. ground (arith, e);
    not_cached = λ k e. ground (arith, e);
  };
  leaf = refl;
  certified = refl;
}

made :
    (hash : Hash) × (after : HotstuffApp ℕ) × (do_propose toy_sodium fives with_vote
      ≡ ok (hash, after))
    × Proposed with_vote after hash
made =
    do_propose-Proposed toy_sodium fives with_vote with_vote-IsReady
      (λ nonempty. ((5 ∷ [], 1), refl))

do_propose-Extends_example :
    ((made.1.core.heap.cell made.1.core.b_leaf).justify_block_ptr ≡ some with_vote.core.hqc_block)
    × Extends made.1.core.heap made.1.core.b_leaf with_vote.core.hqc_block
    × (height started.core started.core.hqc_block ≤ height with_vote.core with_vote.core.hqc_block)
do_propose-Extends_example =
    do_propose-Extends toy_sodium fives four 1 started started with_vote made.1 made.0 refl none_yet
      with_vote-Turns with_vote-IsReady (inl made.2)
