-- ===== src/Replicas/Ballots.antt =====
-- The votes of honest replicas, each cast by the rule of the protocol, and what they make safe.
use cs244b_fp.Prelude.{
  ℕ, zero, suc, ◌≤◌, ◌<◌, ◌≡◌, refl, sym, ap, ◌∙◌, inl, inr, ◌⊎◌, true, List, [], ◌∷◌, arith, All,
  member, Bool-cases, ltb, ltb→lt, ◌==◌, ==_iff,
}
use mathlib.Core.Path.{subst}
use cs244b_fp.Config.{Hash, ReplicaId}
use cs244b_fp.Replicas.Naming.{World, IsWorld, Follows, Follows-refl, Follows-trans, Follows-same}
use cs244b_fp.Replicas.Votes.{
  Quorums, Log, Voted, Certified, Past, now, later, All-member, Voted-later, Certified-later,
  Past-step,
}

-- Replica `r` may vote for `k` after the votes of `log`: it is higher than the votes of `r` before,
-- and extends a block that `r` has locked or certifies a higher one. The lock covers the votes before.
pub record Ballot (w : World) (u : Quorums) (r : ReplicaId) (k : Hash) (log : Log) : Type 0 where
  pub above : 0 < w.height_of k
  pub higher : (j : Hash) → Voted log r j → w.height_of j < w.height_of k
  pub lock : Hash
  pub lock_certified : Certified u log lock
  pub covers :
      (j : Hash) → Voted log r j → w.height_of (w.justify_of (w.justify_of j)) ≤ w.height_of lock
  pub justify_certified : Certified u log (w.justify_of k)
  pub rule : (w.height_of lock < w.height_of (w.justify_of k)) ⊎ Follows w k lock

abbrev pub AreBallots : World → Quorums → Log → Type 0
AreBallots w u [] = Unit
AreBallots w u ((r, k) ∷ log) = u.honest r × Ballot w u r k log × AreBallots w u log

-- Three blocks, each the parent of the next and certified by it.
pub record Chain (w : World) (b b1 b2 : Hash) : Type 0 where
  pub parent1 : w.parent_of b1 ≡ b
  pub parent2 : w.parent_of b2 ≡ b1
  pub certifies1 : w.justify_of b1 ≡ b
  pub certifies2 : w.justify_of b2 ≡ b1
  pub above1 : w.height_of b1 ≡ suc (w.height_of b)
  pub above2 : w.height_of b2 ≡ suc (w.height_of b1)

module _ (w : World) (is : IsWorld w) (u : Quorums) where
  pub AreBallots-past : {past log : Log} → Past past log → AreBallots w u log → AreBallots w u past
  AreBallots-past now v = v
  AreBallots-past (later (r, k) p) v = AreBallots-past p v.2

  -- A replica votes once at a height.
  once :
      (log : Log) (r : ReplicaId) (k j : Hash)
      → AreBallots w u log
      → Voted log r k
      → Voted log r j
      → w.height_of k ≡ w.height_of j
      → k ≡ j
  once [] r k j v x y e = absurd x
  once ((q, i) ∷ log) r k j v (inl x) (inl y) e = sym x.1 ∙ y.1
  once ((q, i) ∷ log) r k j v (inl x) (inr y) e =
      absurd (
        omega (arith, e, ap w.height_of x.1, v.1.higher j (subst (λ r. Voted log r j) (sym x.0) y)))
  once ((q, i) ∷ log) r k j v (inr x) (inl y) e =
      absurd (
        omega (arith, e, ap w.height_of y.1, v.1.higher k (subst (λ r. Voted log r k) (sym y.0) x)))
  once ((q, i) ∷ log) r k j v (inr x) (inr y) e = once log r k j v.2 x y e

  -- A lower vote of the same replica was cast before.
  before :
      {past : Log} (r : ReplicaId) (k j : Hash) {log : Log}
      → Past ((r, k) ∷ past) log
      → AreBallots w u log
      → Voted log r j
      → w.height_of j < w.height_of k
      → Voted past r j
  before r k j now v (inl x) low = absurd (omega (arith, low, ap w.height_of x.1))
  before r k j now v (inr x) low = x
  before r k j (later {log} (q, i) p) v (inl x) low =
      let again =
        v.1.higher k
          (subst (λ q. Voted log q k) (sym x.0) (Voted-later p r k (inl (refl, refl)))) in
      absurd (omega (arith, low, again, ap w.height_of x.1))
  before r k j (later (q, i) p) v (inr x) low = before r k j p v.2 x low

  -- A ballot of the log, with the votes before it.
  ballot :
      (log : Log) (r : ReplicaId) (k : Hash)
      → AreBallots w u log
      → Voted log r k
      → (past : Log) × Past past log × Ballot w u r k past
  ballot [] r k v x = absurd x
  ballot ((q, i) ∷ log) r k v (inl x) = (
    log,
    later (q, i) now,
    subst (λ q. Ballot w u q k log) x.0 (subst (λ i. Ballot w u q i log) x.1 v.1),
  )
  ballot ((q, i) ∷ log) r k v (inr x) =
      let (past, p, b) = ballot log r k v.2 x in (past, later (q, i) p, b)

  -- Of two certified blocks, not both genesis.
  witness_of :
      (log : Log) (S T : List ReplicaId) (k j : Hash)
      → u.IsQuorum S
      → u.IsQuorum T
      → All (λ r. u.honest r → Voted log r k) S
      → All (λ r. u.honest r → Voted log r j) T
      → (r : ReplicaId) × u.honest r × (member r S ≡ true) × Voted log r k × Voted log r j
  witness_of log S T k j qs qt a b =
      let (r, h, s, t) = u.overlap S T qs qt in
      (r, h, s, All-member _ S r a s h, All-member _ T r b t h)

  -- At one height at most one block is certified.
  pub Certified-unique :
      (log : Log) (k j : Hash)
      → AreBallots w u log
      → Certified u log k
      → Certified u log j
      → w.height_of k ≡ w.height_of j
      → k ≡ j
  Certified-unique log k j v (inl x) c e =
      x ∙ sym (is.only_genesis j (omega (arith, e, ap w.height_of x, is.genesis)))
  Certified-unique log k j v (inr x) (inl y) e =
      is.only_genesis k (omega (arith, e, ap w.height_of y, is.genesis)) ∙ sym y
  Certified-unique log k j v (inr (S, qs, a)) (inr (T, qt, b)) e =
      let (r, h, s, x, y) = witness_of log S T k j qs qt a b in once log r k j v x y e

  -- A certified block certifies another.
  pub Certified-justify :
      (log : Log) (k : Hash)
      → AreBallots w u log
      → 0 < w.height_of k
      → Certified u log k
      → Certified u log (w.justify_of k)
  Certified-justify log k v up (inl x) = absurd (omega (arith, up, ap w.height_of x, is.genesis))
  Certified-justify log k v up (inr (S, q, a)) =
      let (r, h, s, x, y) = witness_of log S S k k q q a a in
      let (past, p, b) = ballot log r k v x in
      Certified-later u p (w.justify_of k) b.justify_certified

module _ (w : World) (is : IsWorld w) (u : Quorums) (log : Log) (v : AreBallots w u log)
    (b b1 b2 : Hash) (chain : Chain w b b1 b2) (last : Certified u log b2) where
  -- Every certified block lower than `n` and not lower than `b` extends `b`.
  abbrev ExtendBelow : ℕ → Type 0
  ExtendBelow n =
      (k : Hash)
      → Certified u log k
      → w.height_of b ≤ w.height_of k
      → w.height_of k < n
      → Follows w k b

  -- A block that extends an earlier certified block, where at its own height there is a reason.
  through :
      (past : Log) (k a : Hash)
      → Past past log
      → ExtendBelow (w.height_of k)
      → (Certified u past k → Follows w k b)
      → Certified u past a
      → Follows w k a
      → w.height_of b ≤ w.height_of a
      → Follows w k b
  through past k a p below again c f le = elim (Bool-cases (ltb (w.height_of a) (w.height_of k))) [
    | inl lower ↦ Follows-trans f (below a (Certified-later u p a c) le (ltb→lt _ _ lower))
    | inr not_lower ↦
        let level : w.height_of k ≡ w.height_of a = ground (arith, f.heights, not_lower) in
        again (subst (Certified u past) (sym (Follows-same f level)) c)
  ]

  -- A block above the chain for which a replica voted that had voted for the last block of the chain.
  above_chain :
      (S : List ReplicaId)
      → u.IsQuorum S
      → All (λ r. u.honest r → Voted log r b2) S
      → (k : Hash) → w.height_of b2 < w.height_of k
      → ExtendBelow (w.height_of k)
      → (past : Log) → Past past log
      → (r : ReplicaId) → u.honest r
      → member r S ≡ true
      → Voted past r k
      → Follows w k b
  above_chain S q all k high below [] p r h m x = absurd x
  above_chain S q all k high below ((i, j) ∷ past) p r h m (inr x) =
      above_chain S q all k high below past (Past-step p) r h m x
  above_chain S q all k high below ((i, j) ∷ past) p r h m (inl (same_replica, same_block)) =
      let cast : Ballot w u r k past =
        subst (λ i. Ballot w u i k past) same_replica
          (subst (λ j. Ballot w u i j past) same_block (AreBallots-past w is u p v).1) in
      let p' : Past ((r, k) ∷ past) log =
        subst (λ i. Past ((i, k) ∷ past) log) same_replica
          (subst (λ j. Past ((i, j) ∷ past) log) same_block p) in
      let earlier : Voted past r b2 = before w is u r k b2 p' v (All-member _ S r all m h) high in
      let covered = cast.covers b2 earlier in
      let head : w.justify_of (w.justify_of b2) ≡ b =
        ap w.justify_of chain.certifies2 ∙ chain.certifies1 in
      let reaches : w.height_of b ≤ w.height_of cast.lock =
        omega (arith, covered, ap w.height_of head) in
      let again : Certified u past k → Follows w k b = λ c. elim c [
        | inl zero_hash ↦ absurd (omega (arith, high, ap w.height_of zero_hash, is.genesis))
        | inr (T, t, a) ↦
            (let (r', h', m', o) = u.overlap S T q t in
              above_chain S q all k high below past (Past-step p) r' h' m'
                (All-member _ T r' a o h'))
      ] in
      elim cast.rule [
        | inl newer ↦
            through past k (w.justify_of k) (Past-step p) below again cast.justify_certified
              (is.behind k cast.above) (omega (arith, newer, reaches))
        | inr f ↦ through past k cast.lock (Past-step p) below again cast.lock_certified f reaches
      ]

  follows1 : Follows w b1 b
  follows1 = record { steps = 1; heights = omega (arith, chain.above1); arrives = chain.parent1 }

  follows2 : Follows w b2 b
  follows2 = record {
    steps = 2;
    heights = omega (arith, chain.above1, chain.above2);
    arrives = ap w.parent_of chain.parent2 ∙ chain.parent1;
  }

  pub Certified-chain : Certified u log b1 × Certified u log b
  Certified-chain =
      let c1 : Certified u log b1 =
        subst (Certified u log) chain.certifies2
          (Certified-justify w is u log b2 v (omega (arith, chain.above2)) last) in
      (
        c1,
        subst (Certified u log) chain.certifies1
            (Certified-justify w is u log b1 v (omega (arith, chain.above1)) c1),
      )

  above_three :
      (k : Hash)
      → Certified u log k
      → w.height_of b2 < w.height_of k
      → ExtendBelow (w.height_of k)
      → Follows w k b
  above_three k (inl zero_hash) high below =
      absurd (omega (arith, high, ap w.height_of zero_hash, is.genesis))
  above_three k (inr (T, t, a)) high below = elim last [
    | inl zero_hash ↦ absurd (omega (arith, chain.above2, ap w.height_of zero_hash, is.genesis))
    | inr (S, q, all) ↦
        (let (r, h, m, o) = u.overlap S T q t in
          above_chain S q all k high below log now r h m (All-member _ T r a o h))
  ]

  extend_below : (n : ℕ) → ExtendBelow n
  extend_below zero k c le low = absurd (omega (arith, low))
  extend_below (suc n) k c le low =
      let rest = extend_below n in
      let (c1, c0) = Certified-chain in
      let at = λ (x : Hash) (d : Certified u log x) (e : w.height_of k ≡ w.height_of x).
        Certified-unique w is u log k x v c d e in
      elim (Bool-cases (ltb (w.height_of b2) (w.height_of k))) [
        | inl high ↦
            above_three k c (ltb→lt _ _ high)
              (λ j d le' low'. rest j d le' (omega (arith, low, low')))
        | inr not_high ↦ elim (Bool-cases (w.height_of k == w.height_of b)) [
          | inl level ↦
              subst (λ x. Follows w x b) (sym (at b c0 ((==_iff _ _).0 level))) (Follows-refl b)
          | inr not_b ↦ elim (Bool-cases (w.height_of k == w.height_of b1)) [
            | inl level ↦
                subst (λ x. Follows w x b) (sym (at b1 c1 ((==_iff _ _).0 level))) follows1
            | inr not_b1 ↦
                (let level : w.height_of k ≡ w.height_of b2 =
                    ground (arith, le, not_high, not_b, not_b1, chain.above1, chain.above2) in
                  subst (λ x. Follows w x b) (sym (at b2 last level)) follows2)
          ]
        ]
      ]

  -- Whatever is certified at the height of the head of a certified three-chain or above extends it.
  pub Certified-extends :
      (k : Hash) → Certified u log k → w.height_of b ≤ w.height_of k → Follows w k b
  Certified-extends k c le = extend_below (suc (w.height_of k)) k c le (omega arith)
