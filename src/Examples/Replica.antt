-- ===== src/Examples/Replica.antt =====
-- A replica at its start that proposes, and waits for a certificate.
use cs244b_fp.Prelude.{
  ℕ, suc, ◌≡◌, refl, Bool, false, ◌||◌, none, List, [], ◌∷◌, Result, ok, arith, ◌==◌,
}
use cs244b_fp.Prelude.Maps.{emplace}
use cs244b_fp.Config.{Hash}
use cs244b_fp.Crypto.Certs.{empty_qc, serialize}
use cs244b_fp.Block.{genesis_heap, genesis_block, get_hash}
use cs244b_fp.Consensus.{height, init_core, get_last_proposer}
use cs244b_fp.Storage.BlockStore.{BlockStore, new_store, get_block}
use cs244b_fp.Storage.BlockStore.Insert.{IsStore}
use cs244b_fp.Network.Fetch.{Fetcher, new_request}
use cs244b_fp.Network.Events.{NetEvent}
use cs244b_fp.App.{HotstuffApp, PaceMaker, do_propose, new_qc, wait_for_qc, should_propose}
use cs244b_fp.App.Propose.{IsReady, Proposed, do_propose-Proposed}
use cs244b_fp.App.Waiting.{wait_for_qc-turn}
use cs244b_fp.Examples.Config.{four, toy_sodium}

abbrev pub first_store : BlockStore
first_store = new_store 0 genesis_heap

abbrev pub no_fetches : Fetcher NetEvent
unfolding new_request
no_fetches = record {
  next_context = 0;
  contexts = λ p. new_request 0;
  queues = [];
  outstanding_reqs = [];
  sent = [];
}

abbrev pub started : HotstuffApp ℕ
started = record {
  core = init_core four 1;
  network = record {
    heap = genesis_heap;
    block_store = first_store;
    fetcher = no_fetches;
    net_events = [];
    core_events = [];
  };
  clients = [];
  vm = 0;
  secret_key = 3;
  latest_new_qc = none;
  cancel_wait = false;
}

-- A machine that always has the bytes 5.
abbrev pub fives : Bool → ℕ → ℕ → Result (List ℕ × ℕ)
fives nonempty height vm = ok (5 ∷ [], suc vm)

pub first_store-IsStore : IsStore first_store genesis_heap
unfolding new_store emplace genesis_block genesis_heap
first_store-IsStore = record {
  tree = record { step = λ p q e. ground arith; root = λ p e. ground arith };
  with_qc = λ p j e. ground arith;
  sorted = (tt, tt);
  own_hash = λ k p e. ground arith;
  parents = λ p q e. ground arith;
}

started-IsReady : IsReady started
unfolding new_store emplace genesis_block genesis_heap init_core get_block get_hash empty_qc
    serialize
started-IsReady = record {
  store = first_store-IsStore;
  room = λ p. ground arith;
  unused = record {
    no_parent = refl;
    undecided = refl;
    no_child = λ p e. ground (arith, e);
    not_cached = λ k e. ground (arith, e);
  };
  leaf = refl;
  certified = refl;
}

do_propose-Proposed_example :
    (hash : Hash) × (app' : HotstuffApp ℕ) × (do_propose toy_sodium fives started ≡ ok (hash, app'))
    × Proposed started app' hash
do_propose-Proposed_example =
    do_propose-Proposed toy_sodium fives started started-IsReady (λ nonempty. ((5 ∷ [], 1), refl))

abbrev own_turn : PaceMaker
own_turn = record { expected_hash = 8; proposer = 1 }

wait_for_qc-turn_example :
    (pm' : PaceMaker) × (app' : HotstuffApp ℕ) × (wait_for_qc own_turn (new_qc 9 started)
      ≡ ok (9 == 8, pm', app'))
    × (app'.latest_new_qc ≡ none)
    × (should_propose pm' app'
        ≡ (9 == 8) || (get_last_proposer started.core == started.core.self_id))
unfolding should_propose init_core
wait_for_qc-turn_example = wait_for_qc-turn own_turn started 9 refl refl
