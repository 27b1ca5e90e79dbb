-- ===== src/Network/Fetch/Delivery.antt =====
-- The fetch manager keeps, for each missing block, the events that wait for it.
use cs244b_fp.Prelude.{◌≡◌, refl, ap, inl, inr, [], arith, ◌==◌, if◌then◌else◌, Option-cases}
use cs244b_fp.Prelude.Maps.{find, erase, erase-IsSorted, find-erase}
use cs244b_fp.Config.{Hash}
use cs244b_fp.Network.Fetch.{Context, Fetcher, mark_received, change, deliver_block}
use cs244b_fp.Network.Fetch.Contexts.{IsFetcher, waiting, change-IsFetcher}

module _ {E : Type 0} where
  -- Delivering a block hands out the events that wait for it, in the order in which they came, once;
  -- other requests stay.
  pub deliver_block-waits :
      (h : Hash) (s : Fetcher E)
      → IsFetcher s
      → let (events, t) = deliver_block h s in
        (events ≡ waiting h s)
        × IsFetcher t
        × ((k : Hash) → waiting k t ≡ (if h == k then [] else waiting k s))
  unfolding deliver_block mark_received change
  deliver_block-waits h s i = elim (Option-cases (find h s.outstanding_reqs)) [
    | inl none_waits ↦
        rw (none_waits, deliver_block)
          (
            refl,
            i,
            λ k. ground (arith, none_waits, ap (λ z. find z s.outstanding_reqs) {x = h} {y = k}),
          )
    | inr (p, waits) ↦
        rw (waits, deliver_block)
          (
            refl,
            delivered p,
            λ k. elim (Option-cases (find k s.outstanding_reqs)) [
              | inl free ↦ ground (arith, free, find-erase k h s.outstanding_reqs i.sorted)
              | inr (q, there) ↦ ground (
                arith,
                there,
                find-erase k h s.outstanding_reqs i.sorted,
                ap (λ z. (s.contexts z).dependent_network_events) {x = p} {y = q},
              )
            ],
          )
  ]
    where
      delivered :
          (p : Context)
          → IsFetcher
              (record (change mark_received p s) { outstanding_reqs = erase h s.outstanding_reqs })
      delivered p =
          let c = change-IsFetcher mark_received p s (λ r. (refl, refl)) i in
          record {
            sorted = erase-IsSorted h s.outstanding_reqs i.sorted;
            own_hash = λ k q e.
                c.own_hash k q (ground (arith, e, find-erase k h s.outstanding_reqs i.sorted));
            used =
                λ k q e. c.used k q (ground (arith, e, find-erase k h s.outstanding_reqs i.sorted));
            unasked = c.unasked;
          }
