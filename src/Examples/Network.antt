-- ===== src/Examples/Network.antt =====
-- Requests for two blocks, and a queue of proposals.
use cs244b_fp.Prelude.{ℕ, ◌≡◌, refl, [], ◌∷◌, arith, ◌==◌, if◌then◌else◌}
use cs244b_fp.Config.{Hash}
use cs244b_fp.Network.Fetch.{Fetcher, new_request, deliver_block}
use cs244b_fp.Network.Fetch.Contexts.{IsFetcher, waiting}
use cs244b_fp.Network.Fetch.Delivery.{deliver_block-waits}

-- Events are numbers; the event 7 waits for the block 50.
abbrev fetcher : Fetcher ℕ
unfolding new_request
fetcher = record {
  next_context = 1;
  contexts = λ p. record (new_request 50) { dependent_network_events = 7 ∷ [] };
  queues = (1, 0 ∷ []) ∷ (2, []) ∷ [];
  outstanding_reqs = (50, 0) ∷ [];
  sent = (1, 50) ∷ [];
}

fetcher-IsFetcher : IsFetcher fetcher
unfolding fetcher new_request
fetcher-IsFetcher = record {
  sorted = (tt, tt);
  own_hash = λ h p e. ground (arith, e);
  used = λ h p e. ground (arith, e);
  unasked = λ p. refl;
}

deliver_block-waits_example :
    ((deliver_block 50 fetcher).0 ≡ waiting 50 fetcher)
    × IsFetcher (deliver_block 50 fetcher).1
    × ((k : Hash)
        → waiting k (deliver_block 50 fetcher).1 ≡ (if 50 == k then [] else waiting k fetcher))
deliver_block-waits_example = deliver_block-waits 50 fetcher fetcher-IsFetcher
