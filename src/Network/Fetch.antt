-- ===== src/Network/Fetch.antt =====
-- block_storage/block_fetch_manager: the requests for blocks that are missing, and the events that
-- wait for them. A request context is shared by the manager and the queues of the replicas, so it
-- stands in a table under a pointer. The requests that the workers send are `sent`, newest first.
-- The type of events is a parameter, since events are about requests and requests hold events.
pub mod Contexts
pub mod Delivery
use cs244b_fp.Prelude.{
  ℕ, zero, suc, ◌+◌, ◌/◌, ◌%◌, ◌^◌, Bool, true, false, not, Option, none, some, List, [], ◌∷◌, ◌++◌,
  ltb, length, ◌==◌, if◌then◌else◌, Result, ok, err, or_fail, ◌>>=◌, unknown_replica, out_of_fuel,
}
use cs244b_fp.Prelude.Maps.{find, emplace, erase}
use cs244b_fp.Config.{Hash, ReplicaId, ReplicaConfig, is_valid_replica}

pub record RequestContext (E : Type 0) : Type 0 where
  pub request : Hash
  pub block_is_received : Bool
  pub dependent_network_events : List E
  pub requested_from : ℕ

abbrev pub Context : Type 0
Context = ℕ

pub record Fetcher (E : Type 0) : Type 0 where
  pub next_context : Context
  pub contexts : Context → RequestContext E
  pub queues : List (ReplicaId × List Context)
  pub outstanding_reqs : List (Hash × Context)
  pub sent : List (ReplicaId × Hash)

abbrev pub gc_freq : ℕ
gc_freq = 10

-- The last entry of a list that starts with `x`, and the list without it.
unfoldable pub last_of : Context → List Context → Context
last_of x [] = x
last_of x (y ∷ ys) = last_of y ys

unfoldable pub drop_last : Context → List Context → List Context
drop_last x [] = []
drop_last x (y ∷ ys) = x ∷ drop_last y ys

abbrev pub set_queue :
    ReplicaId → List Context → List (ReplicaId × List Context) → List (ReplicaId × List Context)
set_queue rid reqs [] = []
set_queue rid reqs ((r, old) ∷ rest) =
    if r == rid then (r, reqs) ∷ rest else (r, old) ∷ set_queue rid reqs rest

module _ {E : Type 0} where
  unfoldable pub new_request : Hash → RequestContext E
  new_request h = record {
    request = h;
    block_is_received = false;
    dependent_network_events = [];
    requested_from = 0;
  }

  unfoldable pub add_network_events : List E → RequestContext E → RequestContext E
  add_network_events events r = record r {
    dependent_network_events = r.dependent_network_events ++ events;
  }

  unfoldable pub mark_received : RequestContext E → RequestContext E
  mark_received r = record r { block_is_received = true }

  unfoldable pub was_requested_from : ReplicaId → RequestContext E → Bool
  was_requested_from rid r = r.requested_from / 2 ^ rid % 2 == 1

  unfoldable pub change : (RequestContext E → RequestContext E) → Context → Fetcher E → Fetcher E
  change f p s = record s { contexts = λ q. if p == q then f (s.contexts q) else s.contexts q }

  -- `ReplicaFetchQueue::do_gc`: a request that was received is overwritten by the last.
  unfoldable pub drop_received :
      ℕ → (Context → RequestContext E) → List Context → Result (List Context)
  unfolding last_of drop_last
  drop_received zero contexts rest = err out_of_fuel
  drop_received (suc fuel) contexts [] = ok []
  drop_received (suc fuel) contexts (p ∷ rest) = elim (contexts p).block_is_received [
    | true ↦ elim rest [
      | [] ↦ drop_received fuel contexts []
      | y ∷ ys ↦ drop_received fuel contexts (last_of y ys ∷ drop_last y ys)
    ]
    | false ↦ (do kept ← drop_received fuel contexts rest; ok (p ∷ kept))
  ]

  -- `ReplicaFetchQueue::add_request`.
  unfoldable pub add_request : ReplicaId → Context → Fetcher E → Result (Fetcher E)
  unfolding drop_received
  add_request rid p s = do
    queue ← or_fail (find rid s.queues) unknown_replica
    let reqs = queue ++ p ∷ []
    kept ←
        (if ltb gc_freq (length reqs)
          then drop_received (suc (length reqs)) s.contexts reqs
          else ok reqs)
    ok (record s {
      queues = set_queue rid kept s.queues;
      sent = (rid, (s.contexts p).request) ∷ s.sent;
    })

  -- The context of a request, with the new one when it is made.
  unfoldable pub find_request : Hash → Fetcher E → Context × Fetcher E
  unfolding new_request
  find_request h s = elim (find h s.outstanding_reqs) [
    | some p ↦ (p, s)
    | none ↦ (
      s.next_context,
      record s {
        next_context = s.next_context + 1;
        contexts = λ q. if s.next_context == q then new_request h else s.contexts q;
        outstanding_reqs = emplace h s.next_context s.outstanding_reqs;
      },
    )
  ]

  unfoldable pub add_fetch_request :
      ReplicaConfig → Hash → ReplicaId → List E → Fetcher E → Result (Fetcher E)
  add_fetch_request config requested_block request_target dependent_events s =
      if not (is_valid_replica config request_target) then ok s else (do
        let (p, s') = find_request requested_block s
        s'' ←
            (if not (was_requested_from request_target (s'.contexts p))
              then add_request request_target p s'
              else ok s')
        ok (change (add_network_events dependent_events) p s''))

  -- With the events to execute, for the hash of the block that arrived.
  unfoldable pub deliver_block : Hash → Fetcher E → List E × Fetcher E
  unfolding mark_received change
  deliver_block h s = elim (find h s.outstanding_reqs) [
    | none ↦ ([], s)
    | some p ↦ (
      (s.contexts p).dependent_network_events,
      record (change mark_received p s) { outstanding_reqs = erase h s.outstanding_reqs },
    )
  ]
