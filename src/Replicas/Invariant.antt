-- ===== src/Replicas/Invariant.antt =====
-- What holds of a system of replicas in every history.
use cs244b_fp.Prelude.{
  ◌≤◌, ◌≡◌, refl, sym, ◌∙◌, inl, inr, Bool, true, false, [], ◌∷◌, arith, Bool-cases, ok, ◌==◌,
  ==_iff,
}
use mathlib.Core.Path.{subst}
use cs244b_fp.Config.{Hash, ReplicaId, ReplicaConfig}
use cs244b_fp.Crypto.Certs.{empty_qc}
use cs244b_fp.Block.{genesis_heap, genesis_block}
use cs244b_fp.Consensus.{Core, height, init_core}
use cs244b_fp.Consensus.Run.{init_core-Inv}
use cs244b_fp.Replicas.Naming.{World, IsWorld}
use cs244b_fp.Replicas.Votes.{Quorums, Log, Voted, now, later}
use cs244b_fp.Replicas.Ballots.{Ballot, AreBallots}
use cs244b_fp.Replicas.{
  System, Step, proposed, voted, stored, Reach, here, next, start, set_core, with_vote, hash_at,
}
use cs244b_fp.Replicas.Local.{Local}
use cs244b_fp.Replicas.Moves.{Local-later, Local-Stores, Local-voted}
use cs244b_fp.Replicas.Casting.{Local-proposed}

-- Every vote was cast by the rule, and every honest replica keeps its invariant.
pub record IsSound (w : World) (u : Quorums) (s : System) : Type 0 where
  pub ballots : AreBallots w u s.log
  pub local : (r : ReplicaId) → u.honest r → Local w u s.log r (s.core r)

module _ (w : World) (is : IsWorld w) (u : Quorums) where
  replaced :
      (r : ReplicaId) (d : Core) (core : ReplicaId → Core) (log : Log)
      → Local w u log r d
      → ((q : ReplicaId) → u.honest q → (q == r) ≡ false → Local w u log q (core q))
      → (q : ReplicaId) → u.honest q
      → Local w u log q (set_core r d core q)
  replaced r d core log l others q h = elim (Bool-cases (q == r)) [
    | inl same ↦ rw same (subst (λ q. Local w u log q d) (sym ((==_iff q r).0 same)) l)
    | inr other ↦ rw other (others q h other)
  ]

  -- A vote changes nothing for the other replicas.
  elsewhere :
      (vote : Bool) (r q : ReplicaId) (k : Hash) (log : Log) (c : Core)
      → (q == r) ≡ false
      → Local w u log q c
      → Local w u (with_vote (ok vote) r k log) q c
  elsewhere false r q k log c other l = l
  elsewhere true r q k log c other l = Local-later w u (later (r, k) now) own l
    where
      own :
          (i : Hash)
          → Voted ((r, k) ∷ log) q i
          → (w.height_of (w.justify_of (w.justify_of i)) ≤ height c c.b_lock)
            × (w.height_of i ≤ c.vheight)
      own i (inl (same, _)) = absurd (ground (arith, same, other))
      own i (inr v) = (l.covers i v, l.votes_low i v)

  sent :
      (vote : Bool) (r : ReplicaId) (k : Hash) (log : Log)
      → u.honest r
      → ((vote ≡ true) → Ballot w u r k log)
      → AreBallots w u log
      → AreBallots w u (with_vote (ok vote) r k log)
  sent false r k log h b v = v
  sent true r k log h b v = (h, b refl, v)

  Step-IsSound : {s t : System} → Step w u s t → IsSound w u s → IsSound w u t
  Step-IsSound {s} (proposed {d} r bnew j proposer h e small returned) i =
      let c = s.core r in
      let k = hash_at c.heap bnew in
      let (vote, o, ballot, l) =
        Local-proposed w is u c d bnew j proposer e small returned (i.local r h) in
      rw o (record {
        ballots = sent vote r k s.log h ballot i.ballots;
        local =
            replaced r d s.core (with_vote (ok vote) r k s.log) l
              (λ q g other. elsewhere vote r q k s.log (s.core q) other (i.local q g));
      })
  Step-IsSound {s} (voted {d} r cert certified voter h returned) i = record {
    ballots = i.ballots;
    local =
        replaced r d s.core s.log (Local-voted cert certified voter returned (i.local r h))
          (λ q g other. i.local q g);
  }
  Step-IsSound {s} (stored r g h st) i = record {
    ballots = i.ballots;
    local =
        replaced r _ s.core s.log (Local-Stores w u (i.local r h) st) (λ q g other. i.local q g);
  }

  init_core-Local : (config : ReplicaConfig) (r : ReplicaId) → Local w u [] r (init_core config r)
  unfolding init_core genesis_heap genesis_block empty_qc
  init_core-Local config r = record {
    inv = init_core-Inv config r;
    in_world = record {
      root = refl;
      heights = λ p e. elim e [
        | inl root ↦ ground (arith, is.genesis)
        | inr (q, up) ↦ ground (arith, up)
      ];
      parents = λ p q e. ground (arith, e);
      justifies = λ p j e. ground (arith, e);
      both_linked = λ p q e. ground (arith, e);
      one_address = λ p q e f same. elim e [
        | inl root ↦ elim f [ inl root' ↦ root ∙ sym root' | inr (x, up) ↦ ground (arith, up) ]
        | inr (x, up) ↦ ground (arith, up)
      ];
    };
    certified = λ p j e. ground (arith, e);
    lock_settled = inl refl;
    lock_certified = inl refl;
    decided_low = λ x e. ground arith;
    root_decided = refl;
    covers = λ k v. absurd v;
    votes_low = λ k v. absurd v;
    exec_settled = inl refl;
    exec_parent = inl refl;
    executed = inl refl;
  }

  start-IsSound : (config : ReplicaConfig) → IsSound w u (start config)
  unfolding start
  start-IsSound config = record { ballots = tt; local = λ r h. init_core-Local config r }

  pub Reach-IsSound :
      (config : ReplicaConfig) {s : System} → Reach w u (start config) s → IsSound w u s
  Reach-IsSound config here = start-IsSound config
  Reach-IsSound config (next r t) = Step-IsSound t (Reach-IsSound config r)
