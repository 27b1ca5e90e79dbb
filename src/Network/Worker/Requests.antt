-- ===== src/Network/Worker/Requests.antt =====
-- A round that fails loses no request.
use cs244b_fp.Prelude.{
  member, ◌≡◌, refl, ◌∙◌, inl, inr, Bool, true, false, Option, none, some, List, [], ◌∷◌, map,
  if◌then◌else◌, ok, arith, Option-cases,
}
use cs244b_fp.Prelude.Maps.{find, emplace, IsSorted, emplace-IsSorted, find-emplace}
use cs244b_fp.Config.{Hash, ReplicaConfig}
use cs244b_fp.Wire.{Sodium}
use cs244b_fp.Network.Events.{Network}
use cs244b_fp.Network.Worker.{
  Nothing, Hashes, BlockFetchWorker, insert_all, readd_request, extract_reqs, answer_round,
}

find-insert_all :
    (h : Hash) (ks : List Hash) (m : Hashes)
    → IsSorted m
    → IsSorted (insert_all ks m)
      × (find h (insert_all ks m) ≡ (if member h ks then some tt else find h m))
find-insert_all h [] m s = (s, refl)
find-insert_all h (k ∷ ks) m s =
    let (sorted, e) = find-insert_all h ks (emplace k tt m) (emplace-IsSorted k tt m s) in
    (
      sorted,
      e ∙ elim (Option-cases (find k m)) [
        | inl free ↦ ground (arith, free, find-emplace h k tt m s)
        | inr (u, old) ↦ ground (arith, old, find-emplace h k tt m s)
      ],
    )

find-member :
    (h : Hash) (m : Hashes) → find h m ≡ (if member h (map (λ e. e.0) m) then some tt else none)
find-member h [] = refl
find-member h ((k, _) ∷ m) = ground (arith, find-member h m)

abbrev unit : Nothing
unit = tt

merged :
    (b : Bool) (o : Option Nothing)
    → ◌≡◌ {A = Option Nothing}
        (if b then some unit else o)
        (elim (if b then some unit else none) [ some _ ↦ some unit | none ↦ o ])
merged true o = refl
merged false o = refl

-- A round whose call fails asks for its hashes again: afterwards the worker has the requests that it
-- had when the round began and those that were added meanwhile, and no other.
pub answer_round-readds :
    (sodium : Sodium) (config : ReplicaConfig) (before now : BlockFetchWorker) (n : Network)
    → IsSorted now.reqs
    → (after : BlockFetchWorker) × (answer_round sodium config (extract_reqs before).0 none now n
        ≡ ok (after, n))
      × IsSorted after.reqs
      × ((h : Hash)
          → find h after.reqs
            ≡ (elim (find h before.reqs) [ some _ ↦ some tt | none ↦ find h now.reqs ]))
unfolding answer_round extract_reqs readd_request
answer_round-readds sodium config before now n s =
    let hashes = map (λ e. e.0) before.reqs in
    (
      record now { reqs = insert_all hashes now.reqs },
      refl,
      (find-insert_all 0 hashes now.reqs s).0,
      λ h.
          (find-insert_all h hashes now.reqs s).1
          ∙ rw (find-member h before.reqs) (merged (member h hashes) (find h now.reqs)),
    )
