-- ===== src/Network/Fetch/Contexts.antt =====
-- The contexts of the requests for blocks, and the events that wait in them.
use native.Mathlib.Nat.{zero-div}
use cs244b_fp.Prelude.{
  ℕ, zero, suc, ◌+◌, ◌^◌, ◌<◌, ◌≡◌, refl, ap, ◌∙◌, inl, inr, false, Option, none, some, List, [],
  ◌∷◌, ◌++◌, arith, ltb, length, ◌==◌, if◌then◌else◌, ok, Bool-cases, Option-cases,
}
use cs244b_fp.Prelude.Maps.{
  find, emplace, IsSorted, emplace-IsSorted, find-emplace, find-emplace_cases,
}
use cs244b_fp.Config.{Hash, ReplicaId}
use cs244b_fp.Network.Fetch.{
  RequestContext, Context, Fetcher, last_of, drop_last, gc_freq, new_request, add_network_events,
  was_requested_from, change, drop_received, add_request, find_request, set_queue,
}

length-drop_last : (x : Context) (xs : List Context) → length (drop_last x xs) ≡ length xs
unfolding drop_last
length-drop_last x [] = refl
length-drop_last x (y ∷ ys) = ap suc (length-drop_last y ys)

module _ {E : Type 0} where
  -- The events that wait for the block of a hash.
  abbrev pub events_at : (Context → RequestContext E) → Option Context → List E
  events_at contexts none = []
  events_at contexts (some p) = (contexts p).dependent_network_events

  abbrev pub waits_in : Hash → List (Hash × Context) → (Context → RequestContext E) → List E
  waits_in h reqs contexts = events_at contexts (find h reqs)

  abbrev pub waiting : Hash → Fetcher E → List E
  waiting h s = waits_in h s.outstanding_reqs s.contexts

  -- Each request has a context of its own.
  pub record IsFetcher (s : Fetcher E) : Type 0 where
    pub sorted : IsSorted s.outstanding_reqs
    pub own_hash :
        (h : Hash) (p : Context) → find h s.outstanding_reqs ≡ some p → (s.contexts p).request ≡ h
    pub used : (h : Hash) (p : Context) → find h s.outstanding_reqs ≡ some p → p < s.next_context
    pub unasked : (p : Context) → (s.contexts p).requested_from ≡ 0

  drop_received-ok :
      (fuel : ℕ) (contexts : Context → RequestContext E) (reqs : List Context)
      → length reqs < fuel
      → (kept : List Context) × (drop_received fuel contexts reqs ≡ ok kept)
  unfolding drop_received
  drop_received-ok zero contexts reqs f = absurd (omega arith)
  drop_received-ok (suc fuel) contexts [] f = ([], refl)
  drop_received-ok (suc fuel) contexts (p ∷ []) f =
      elim (Bool-cases (contexts p).block_is_received) [
        | inl done ↦
            let (kept, e) = drop_received-ok fuel contexts [] (omega arith) in
            (kept, rw (done, drop_received) e)
        | inr open_yet ↦
            let (kept, e) = drop_received-ok fuel contexts [] (omega arith) in
            (p ∷ kept, rw (open_yet, e, drop_received))
      ]
  drop_received-ok (suc fuel) contexts (p ∷ y ∷ ys) f =
      elim (Bool-cases (contexts p).block_is_received) [
        | inl done ↦
            let (kept, e) =
              drop_received-ok fuel contexts (last_of y ys ∷ drop_last y ys)
                (omega (arith, length-drop_last y ys)) in
            (kept, rw (done, drop_received) e)
        | inr open_yet ↦
            let (kept, e) = drop_received-ok fuel contexts (y ∷ ys) (omega arith) in
            (p ∷ kept, rw (open_yet, e, drop_received))
      ]

  -- A request is sent; contexts and requests stay.
  pub record Sends (rid : ReplicaId) (p : Context) (s t : Fetcher E) : Type 0 where
    pub same_contexts : t.contexts ≡ s.contexts
    pub same_reqs : t.outstanding_reqs ≡ s.outstanding_reqs
    pub same_next : t.next_context ≡ s.next_context
    pub one_more : t.sent ≡ (rid, (s.contexts p).request) ∷ s.sent

  pub add_request-Sends :
      (rid : ReplicaId) (p : Context) (s : Fetcher E) (queue : List Context)
      → find rid s.queues ≡ some queue
      → (t : Fetcher E) × (add_request rid p s ≡ ok t) × Sends rid p s t
  unfolding add_request
  add_request-Sends rid p s queue found =
      let reqs = queue ++ p ∷ [] in
      elim (Bool-cases (ltb gc_freq (length reqs))) [
        | inr few ↦ (
          record s {
            queues = set_queue rid reqs s.queues;
            sent = (rid, (s.contexts p).request) ∷ s.sent;
          },
          rw (found, few, add_request),
          record { same_contexts = refl; same_reqs = refl; same_next = refl; one_more = refl },
        )
        | inl many ↦
            let (kept, e) = drop_received-ok (suc (length reqs)) s.contexts reqs (omega arith) in
            (
              record s {
                queues = set_queue rid kept s.queues;
                sent = (rid, (s.contexts p).request) ∷ s.sent;
              },
              rw (found, many, e, add_request),
              record { same_contexts = refl; same_reqs = refl; same_next = refl; one_more = refl },
            )
      ]

  -- The context of a request, found or made, and nothing else changes.
  pub record Finds (h : Hash) (s : Fetcher E) (p : Context) (t : Fetcher E) : Type 0 where
    pub order : IsFetcher t
    pub bound : find h t.outstanding_reqs ≡ some p
    pub same_waiting : (k : Hash) → waiting k t ≡ waiting k s
    pub same_queues : t.queues ≡ s.queues
    pub same_sent : t.sent ≡ s.sent

  pub find_request-Finds :
      (h : Hash) (s : Fetcher E) → IsFetcher s → Finds h s (find_request h s).0 (find_request h s).1
  unfolding find_request new_request
  find_request-Finds h s i = elim (Option-cases (find h s.outstanding_reqs)) [
    | inr (p, old) ↦
        rw (old, find_request)
          (record {
            order = i;
            bound = old;
            same_waiting = λ k. refl;
            same_queues = refl;
            same_sent = refl;
          })
    | inl new ↦
        rw (new, find_request)
          (record {
            order = record {
              sorted = emplace-IsSorted h s.next_context s.outstanding_reqs i.sorted;
              own_hash = λ k p e. ground (
                arith,
                i.own_hash k p,
                i.used k p,
                find-emplace_cases k h s.next_context p s.outstanding_reqs i.sorted e,
              );
              used = λ k p e. ground (
                arith,
                i.used k p,
                find-emplace_cases k h s.next_context p s.outstanding_reqs i.sorted e,
              );
              unasked = λ p. ground (arith, i.unasked p);
            };
            bound =
                ground (arith, new, find-emplace h h s.next_context s.outstanding_reqs i.sorted);
            same_waiting = λ k. new_waiting new k;
            same_queues = refl;
            same_sent = refl;
          })
  ]
    where
      new_waiting :
          find h s.outstanding_reqs ≡ none
          → (k : Hash)
          → waiting k (record s {
            next_context = s.next_context + 1;
            contexts = λ q. if s.next_context == q then new_request h else s.contexts q;
            outstanding_reqs = emplace h s.next_context s.outstanding_reqs;
          })
            ≡ waiting k s
      new_waiting new k = elim (Option-cases (find k s.outstanding_reqs)) [
        | inl free ↦
            ground (arith, new, free, find-emplace k h s.next_context s.outstanding_reqs i.sorted)
        | inr (q, there) ↦ ground (
          arith,
          new,
          there,
          find-emplace k h s.next_context s.outstanding_reqs i.sorted,
          i.used k q there,
          ap (λ z. find z s.outstanding_reqs) {x = h} {y = k},
        )
      ]

  -- The events of one request change, and no other's.
  pub change-waiting :
      (h : Hash) (p : Context) (events : List E) (s : Fetcher E)
      → IsFetcher s
      → find h s.outstanding_reqs ≡ some p
      → (k : Hash)
      → waiting k (change (add_network_events events) p s)
        ≡ (if h == k then waiting k s ++ events else waiting k s)
  unfolding change add_network_events
  change-waiting h p events s i bound k = elim (Option-cases (find k s.outstanding_reqs)) [
    | inl free ↦ ground (arith, bound, free, ap (λ z. find z s.outstanding_reqs) {x = h} {y = k})
    | inr (q, there) ↦ ground (
      arith,
      bound,
      there,
      i.own_hash h p bound,
      i.own_hash k q there,
      ap (λ z. find z s.outstanding_reqs) {x = h} {y = k},
      ap (λ z. (s.contexts z).request) {x = p} {y = q},
      ap (λ z. (s.contexts z).dependent_network_events) {x = p} {y = q},
    )
  ]

  pub change-IsFetcher :
      (f : RequestContext E → RequestContext E) (p : Context) (s : Fetcher E)
      → ((r : RequestContext E)
          → ((f r).request ≡ r.request) × ((f r).requested_from ≡ r.requested_from))
      → IsFetcher s
      → IsFetcher (change f p s)
  unfolding change
  change-IsFetcher f p s keeps i = record {
    sorted = i.sorted;
    own_hash = λ h q e. ground (arith, i.own_hash h q e, (keeps (s.contexts q)).0);
    used = i.used;
    unasked = λ q. ground (arith, i.unasked q, (keeps (s.contexts q)).1);
  }

  pub Sends-IsFetcher :
      {rid : ReplicaId} {p : Context} {s t : Fetcher E}
      → Sends rid p s t
      → IsFetcher s
      → IsFetcher t
  Sends-IsFetcher {s} {t} sends i = record {
    sorted = rw sends.same_reqs i.sorted;
    own_hash = rw (sends.same_reqs, sends.same_contexts) i.own_hash;
    used = rw (sends.same_reqs, sends.same_next) i.used;
    unasked = rw sends.same_contexts i.unasked;
  }

  pub Sends-waiting :
      {rid : ReplicaId} {p : Context} {s t : Fetcher E} (k : Hash)
      → Sends rid p s t
      → waiting k t ≡ waiting k s
  Sends-waiting {s} {t} k sends =
      ap (λ r. waits_in k r t.contexts) sends.same_reqs
      ∙ ap (λ c. waits_in k s.outstanding_reqs c) sends.same_contexts

  pub not_asked :
      (rid : ReplicaId) (r : RequestContext E)
      → r.requested_from ≡ 0
      → was_requested_from rid r ≡ false
  unfolding was_requested_from
  not_asked rid r e = rw (e, was_requested_from, zero-div (2 ^ rid))
