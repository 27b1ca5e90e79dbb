-- ===== src/Vm/Gadget/Fifo.antt =====
-- The gadget is a queue: what is speculated and not committed, at consecutive heights.
use mathlib.Core.Path.{subst}
use cs244b_fp.Prelude.{
  ℕ, suc, ◌+◌, ◌^◌, ◌<◌, ◌≡◌, refl, sym, ap, ◌∙◌, inl, inr, true, false, Option, none, some, List,
  [], ◌∷◌, ◌++◌, arith, length, ◌==◌, ==_refl, ==_iff, if◌then◌else◌, Result, ok, err, empty_gadget,
  commit_gap, Bool-cases,
}
use cs244b_fp.Vm.Gadget.{
  Gadget, new_gadget, insert_after, add_height_pair, on_commit_hotstuff, clear, init_from_disk,
  empty, get_lowest_speculative_hotstuff_height,
}

-- The height committed last, and the values at the heights after it.
pub record Queue (V : Type 0) : Type 0 where
  pub committed : ℕ
  pub pending : List V

other_way : (n m : ℕ) → (m == n) ≡ false → (n == m) ≡ false
other_way n m e = ground arith

module _ {V : Type 0} where
  abbrev pub head : Queue V → ℕ
  head q = suc (q.committed + length q.pending)

  -- A value enters only at the height after the last.
  abbrev pub enter : ℕ → V → Queue V → Queue V
  enter h v q = if h == head q then record q { pending = q.pending ++ v ∷ [] } else q

  -- The first value leaves, at its height.
  abbrev pub leave : ℕ → Queue V → Result (V × Queue V)
  leave h q = elim q.pending [
    | [] ↦ err empty_gadget
    | v ∷ rest ↦
        if h == suc q.committed
        then ok (v, record { committed = suc q.committed; pending = rest })
        else err commit_gap
  ]

  abbrev pub numbered : ℕ → List V → List (ℕ × V)
  numbered n [] = []
  numbered n (v ∷ vs) = (n, v) ∷ numbered (suc n) vs

  -- The position of the last value.
  abbrev pub last_place : List V → Option ℕ
  last_place [] = none
  last_place (v ∷ vs) = some (length vs)

  pub record Represents (g : Gadget V) (q : Queue V) : Type 0 where
    pub entries : g.height_map ≡ numbered (suc q.committed) q.pending
    pub last : g.last_elt_iter ≡ last_place q.pending
    pub speculated : g.speculation_head_hotstuff_height ≡ head q
    pub finished : g.highest_committed_height ≡ q.committed

  insert_after-numbered :
      (n : ℕ) (v w : V) (vs : List V)
      → insert_after (length vs) (suc (n + length vs), w) (numbered n (v ∷ vs))
        ≡ numbered n ((v ∷ vs) ++ w ∷ [])
  unfolding insert_after
  insert_after-numbered n v w [] = ap (λ k. (n, v) ∷ (k, w) ∷ []) (omega arith)
  insert_after-numbered n v w (u ∷ vs) =
      ap (λ r. (n, v) ∷ r)
        (ap (λ k. insert_after (length vs) (k, w) (numbered (suc n) (u ∷ vs))) (omega arith)
          ∙ insert_after-numbered (suc n) u w vs)

  length-snoc : (v : V) (vs : List V) → length (vs ++ v ∷ []) ≡ suc (length vs)
  length-snoc v [] = refl
  length-snoc v (u ∷ vs) = ap suc (length-snoc v vs)

  pub add_at_head :
      (n : ℕ) (vs : List V) (v : V) (g : Gadget V)
      → let q : Queue V = record { committed = n; pending = vs } in
        Represents g q
        → suc (head q) < 2 ^ 64
        → Represents
            (add_height_pair (head q) v g)
            (record { committed = n; pending = vs ++ v ∷ [] })
  unfolding add_height_pair
  add_at_head n [] v g r room =
      rw (r.speculated, ==_refl (suc (n + 0)), r.last, r.entries, add_height_pair)
        (record {
          entries = ap (λ k. (k, v) ∷ []) (omega arith);
          last = refl;
          speculated = omega arith;
          finished = r.finished;
        })
  add_at_head n (u ∷ vs) v g r room =
      rw (r.speculated, ==_refl (suc (n + suc (length vs))), r.last, r.entries, add_height_pair)
        (record {
          entries =
              ap (λ k. insert_after (length vs) (k, v) (numbered (suc n) (u ∷ vs)))
                {x = suc (n + suc (length vs))} {y = suc (suc n + length vs)} (omega arith)
              ∙ insert_after-numbered (suc n) u v vs;
          last = ap some (omega (arith, length-snoc v vs));
          speculated = omega (arith, r.speculated, length-snoc v vs);
          finished = r.finished;
        })

  add_elsewhere :
      (h : ℕ) (v : V) (g : Gadget V) (q : Queue V)
      → Represents g q
      → (h == head q) ≡ false
      → add_height_pair h v g ≡ g
  unfolding add_height_pair
  add_elsewhere h v g q r other = rw (r.speculated, other_way (head q) h other, add_height_pair)

  -- Logging a speculated block enters it into the queue, and is ignored at any other height than the
  -- next; heights that are the last of 64 bits are left out.
  pub add_height_pair-enter :
      (h : ℕ) (v : V) (g : Gadget V) (q : Queue V)
      → Represents g q
      → suc (head q) < 2 ^ 64
      → Represents (add_height_pair h v g) (enter h v q)
  add_height_pair-enter h v g q r room = elim (Bool-cases (h == head q)) [
    | inl next ↦
        subst (λ k. Represents (add_height_pair k v g) (enter k v q))
          (sym ((==_iff h (head q)).0 next))
          (rw (==_refl (head q)) (add_at_head q.committed q.pending v g r room))
    | inr other ↦ rw (add_elsewhere h v g q r other, other) r
  ]

  pub commit_pending :
      (n : ℕ) (v : V) (rest : List V) (g : Gadget V)
      → Represents g (record { committed = n; pending = v ∷ rest })
      → (g' : Gadget V) × (on_commit_hotstuff (suc n) g ≡ ok (v, g'))
        × Represents g' (record { committed = suc n; pending = rest })
  unfolding on_commit_hotstuff empty
  commit_pending n v [] g r = (
    record g { height_map = []; highest_committed_height = suc n; last_elt_iter = none },
    rw (r.last, r.entries, ==_refl (suc n), on_commit_hotstuff, empty),
    record {
      entries = refl;
      last = refl;
      speculated = omega (arith, r.speculated);
      finished = refl;
    },
  )
  commit_pending n v (u ∷ us) g r = (
    record g {
      height_map = numbered (suc (suc n)) (u ∷ us);
      highest_committed_height = suc n;
      last_elt_iter = some (length us);
    },
    rw (r.last, r.entries, ==_refl (suc n), on_commit_hotstuff, empty, r.last),
    record {
      entries = refl;
      last = refl;
      speculated = omega (arith, r.speculated);
      finished = refl;
    },
  )

  commit_gap_lem :
      (n : ℕ) (v : V) (rest : List V) (h : ℕ) (g : Gadget V)
      → (h == suc n) ≡ false
      → Represents g (record { committed = n; pending = v ∷ rest })
      → on_commit_hotstuff h g ≡ err commit_gap
  unfolding on_commit_hotstuff empty
  commit_gap_lem n v rest h g gap r = rw (r.last, r.entries, gap, on_commit_hotstuff, empty)

  -- What a commitment at a height gives: the first value of the queue with the queue without it, or
  -- the error of the queue.
  abbrev pub Commits : Result (V × Gadget V) → Result (V × Queue V) → Type 0
  Commits r s = elim s [
    | ok (v, q) ↦ (g : Gadget V) × (r ≡ ok (v, g)) × Represents g q
    | err e ↦ r ≡ err e
  ]

  -- Committing a height takes the first value from the queue when the height is the next, and throws
  -- otherwise: on an empty queue, or on a gap.
  pub on_commit_hotstuff-leave :
      (h : ℕ) (g : Gadget V) (q : Queue V)
      → Represents g q
      → Commits (on_commit_hotstuff h g) (leave h q)
  unfolding on_commit_hotstuff empty
  on_commit_hotstuff-leave h g q r = at q.committed q.pending r
    where
      at :
          (n : ℕ) (vs : List V)
          → let q : Queue V = record { committed = n; pending = vs } in
            Represents g q → Commits (on_commit_hotstuff h g) (leave h q)
      at n [] r = rw (r.last, on_commit_hotstuff, empty) refl
      at n (v ∷ rest) r = elim (Bool-cases (h == suc n)) [
        | inl next ↦
            subst
              (λ k.
                Commits (on_commit_hotstuff k g)
                  (leave k (record { committed = n; pending = v ∷ rest })))
              (sym ((==_iff h (suc n)).0 next)) (rw (==_refl (suc n)) (commit_pending n v rest g r))
        | inr gap ↦ rw gap (commit_gap_lem n v rest h g gap r)
      ]

  -- Clearing drops what is not committed; loading from disk starts over at the height that is decided.
  pub clear-Represents :
      (g : Gadget V) (q : Queue V)
      → Represents g q
      → suc q.committed < 2 ^ 64
      → Represents (clear g) (record q { pending = [] })
  unfolding clear
  clear-Represents g q r room = record {
    entries = refl;
    last = refl;
    speculated = omega (arith, r.finished);
    finished = r.finished;
  }

  pub init_from_disk-Represents :
      (n : ℕ) (g : Gadget V)
      → suc n < 2 ^ 64
      → Represents (init_from_disk n g) (record { committed = n; pending = [] })
  unfolding clear init_from_disk
  init_from_disk-Represents n g room = record {
    entries = refl;
    last = refl;
    speculated = omega arith;
    finished = refl;
  }

  pub new_gadget-Represents :
      Represents (new_gadget {V = V}) (record { committed = 0; pending = [] })
  unfolding new_gadget
  new_gadget-Represents = record { entries = refl; last = refl; speculated = refl; finished = refl }

  pub lowest_pending :
      (n : ℕ) (v : V) (rest : List V) (g : Gadget V)
      → Represents g (record { committed = n; pending = v ∷ rest })
      → (empty g ≡ false) × (get_lowest_speculative_hotstuff_height g ≡ ok (suc n, v))
  unfolding empty get_lowest_speculative_hotstuff_height
  lowest_pending n v rest g r =
      (rw r.last refl, rw (r.last, r.entries, get_lowest_speculative_hotstuff_height, empty))

  pub none_pending :
      (n : ℕ) (g : Gadget V)
      → Represents g (record { committed = n; pending = [] })
      → empty g ≡ true
  unfolding empty
  none_pending n g r = rw r.last refl
