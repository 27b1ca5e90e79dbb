-- ===== src/Examples/Growing.antt =====
-- A chain that a replica hears of block by block, as the certificates for it come up.
use mathlib.Core.Path.{subst}
use cs244b_fp.Prelude.{
  ℕ, zero, suc, ◌≤◌, ◌<◌, ◌≡◌, refl, sym, ap, ◌∙◌, inl, inr, true, false, some, none, arith, ◌==◌,
  leb, Bool-cases, if◌then◌else◌,
}
use cs244b_fp.Config.{Hash}
use cs244b_fp.Crypto.Certs.{empty_qc}
use cs244b_fp.Block.{Ptr, Heap, genesis_block, genesis_heap}
use cs244b_fp.Block.Shape.{IsLinked, SameShape, IsLinked-same}
use cs244b_fp.Block.Disk.{is_decided}
use cs244b_fp.Consensus.{Core}
use cs244b_fp.Consensus.ThreeChain.{HasQc, HasQc-same}
use cs244b_fp.Replicas.Naming.{World, IsWorld, Follows}
use cs244b_fp.Replicas.Votes.{Quorums, Log, Certified}
use cs244b_fp.Replicas.{hash_at, IsSettled, IsParent, InWorld, Stores}
use cs244b_fp.Replicas.Local.{InWorld-same}
use cs244b_fp.Examples.Chain.{chain_block}

abbrev pub below : ℕ → ℕ
below zero = zero
below (suc n) = n

-- The block of hash `n` has height `n`, and certifies its parent.
abbrev pub chain_world : World
chain_world = record { parent_of = below; justify_of = below; height_of = λ n. n }

pub chain_world-IsWorld : IsWorld chain_world
chain_world-IsWorld = record {
  step = up;
  genesis = refl;
  root_justify = refl;
  only_genesis = λ k e. e;
  behind = back;
}
  where
    up : (k : Hash) → 0 < k → k ≡ suc (below k)
    up zero h = absurd (omega (arith, h))
    up (suc n) h = refl

    back : (k : Hash) → 0 < k → Follows chain_world k (below k)
    back zero h = absurd (omega (arith, h))
    back (suc n) h = record { steps = 1; heights = omega arith; arrives = refl }

-- The blocks up to height `n`.
abbrev pub upto : ℕ → Heap
upto n = record { next = suc n; cell = λ p. if leb p n then chain_block p else genesis_heap.cell p }

-- The block after them is added.
abbrev pub extended : ℕ → Heap → Heap
extended n h = record {
  next = suc (suc n);
  cell = λ p. if p == suc n then chain_block (suc n) else h.cell p;
}

-- A block that is linked in the chain.
record Linked (n p q : ℕ) : Type 0 where
  next_up : p ≡ suc q
  known : q < n

Linked-block : (n p q : ℕ) → ((upto n).cell p).parent_block_ptr ≡ some q → Linked n p q
unfolding genesis_heap genesis_block chain_block
Linked-block n zero q e = ground (arith, e)
Linked-block n (suc m) q e = elim (Bool-cases (leb (suc m) n)) [
  | inl near ↦ record { next_up = ground (arith, e, near); known = ground (arith, e, near) }
  | inr far ↦ absurd (ground (arith, e, far))
]

certified_block : (n p j : ℕ) → ((upto n).cell p).justify_block_ptr ≡ some j → Linked n p j
unfolding genesis_heap genesis_block chain_block
certified_block n zero q e = ground (arith, e)
certified_block n (suc m) q e = elim (Bool-cases (leb (suc m) n)) [
  | inl near ↦ record { next_up = ground (arith, e, near); known = ground (arith, e, near) }
  | inr far ↦ absurd (ground (arith, e, far))
]

-- What is at an address of the chain.
record Placed (n p : ℕ) : Type 0 where
  named : hash_at (upto n) p ≡ p
  high : ((upto n).cell p).block_height ≡ p

placed : (n p : ℕ) → p ≤ n → Placed n p
unfolding genesis_heap genesis_block chain_block empty_qc
placed n zero le = record { named = ground (arith, le); high = ground (arith, le) }
placed n (suc m) le = record { named = ground (arith, le); high = ground (arith, le) }

linked_to :
    (n q : ℕ)
    → q < n
    → (((upto n).cell (suc q)).parent_block_ptr ≡ some q)
      × (((upto n).cell (suc q)).justify_block_ptr ≡ some q)
unfolding chain_block
linked_to n q low = (ground (arith, low), ground (arith, low))

settled_low : (n p : ℕ) → IsSettled 0 (upto n) p → p ≤ n
settled_low n p (inl root) = omega (arith, root)
settled_low n p (inr (q, e)) = let l = Linked-block n p q e in omega (arith, l.next_up, l.known)

parent_low : (n p : ℕ) → IsParent 0 (upto n) p → p ≤ n
parent_low n p (inl root) = omega (arith, root)
parent_low n p (inr (x, e)) = let l = Linked-block n x p e in omega (arith, l.next_up, l.known)

IsSettled-at : (n q : ℕ) → q ≤ n → IsSettled 0 (upto n) q
IsSettled-at n zero le = inl refl
IsSettled-at n (suc m) le = inr (m, (linked_to n m le).0)

above_chain : (n m : ℕ) → leb (suc m) n ≡ false → ((upto n).cell (suc m)).block_height ≡ 0
unfolding genesis_heap genesis_block
above_chain n m far = ground (arith, far)

upto-IsLinked : (n : ℕ) → IsLinked (upto n)
upto-IsLinked n = record {
  step = λ p q e.
      let l = Linked-block n p q e in
      let a = placed n p (omega (arith, l.next_up, l.known)) in
      let b = placed n q (omega (arith, l.known)) in omega (arith, l.next_up, a.high, b.high);
  root = λ p e. lowest p e;
}
  where
    lowest :
        (p : Ptr) → ((upto n).cell p).parent_block_ptr ≡ none → ((upto n).cell p).block_height ≡ 0
    lowest zero e = (placed n 0 (omega arith)).high
    lowest (suc m) e = elim (Bool-cases (leb (suc m) n)) [
      | inl near ↦ (let l = (linked_to n m (ground (arith, near))).0 in cc)
      | inr far ↦ above_chain n m far
    ]

upto-HasQc : (n : ℕ) → HasQc (upto n)
unfolding genesis_heap genesis_block chain_block
upto-HasQc n zero j e = absurd (ground (arith, e))
upto-HasQc n (suc m) j e = elim (Bool-cases (leb (suc m) n)) [
  | inl near ↦ (empty_qc m, ground (arith, near))
  | inr far ↦ absurd (ground (arith, e, far))
]

upto-InWorld : (n : ℕ) → InWorld chain_world 0 (upto n)
upto-InWorld n = record {
  root = (placed n 0 (omega arith)).named;
  heights = λ p e. let a = placed n p (settled_low n p e) in a.named ∙ sym a.high;
  parents = λ p q e.
      let l = Linked-block n p q e in (IsSettled-at n q (omega (arith, l.known)), downwards p q l);
  justifies = λ p q e.
      let l = certified_block n p q e in
      (
        IsSettled-at n p (omega (arith, l.next_up, l.known)),
        IsSettled-at n q (omega (arith, l.known)),
        downwards p q l,
      );
  both_linked = λ p q e.
      let l = Linked-block n p q e in
      (q, ap (λ x. ((upto n).cell x).justify_block_ptr) l.next_up ∙ (linked_to n q l.known).1);
  one_address = λ p q e f same.
      sym (placed n p (parent_low n p e)).named ∙ same ∙ (placed n q (parent_low n q f)).named;
}
  where
    downwards : (p q : ℕ) → Linked n p q → below (hash_at (upto n) p) ≡ hash_at (upto n) q
    downwards p q l =
        ap below ((placed n p (omega (arith, l.next_up, l.known))).named ∙ l.next_up)
        ∙ sym (placed n q (omega (arith, l.known))).named

pub upto-genesis : SameShape (upto 0) genesis_heap
unfolding genesis_heap chain_block
upto-genesis = record {
  same_parent = λ p. ground (arith, ap chain_block {x = p} {y = 0});
  same_justify = λ p. ground (arith, ap chain_block {x = p} {y = 0});
  same_height = λ p. ground (arith, ap chain_block {x = p} {y = 0});
  same_qc = λ p. ground (arith, ap chain_block {x = p} {y = 0});
  same_hash = λ p. ground (arith, ap chain_block {x = p} {y = 0});
}

-- The replica has heard of the chain up to height `n`.
pub record Knows (n : ℕ) (c : Core) : Type 0 where
  pub shape : SameShape (upto n) c.heap
  pub root : c.genesis ≡ 0
  pub undecided : (p : Ptr) → n < p → is_decided c.heap p ≡ false

pub extended-SameShape :
    (n : ℕ) (h : Heap) → SameShape (upto n) h → SameShape (upto (suc n)) (extended n h)
extended-SameShape n h s = record {
  same_parent = λ p. ground (arith, s.same_parent p, ap chain_block {x = p} {y = suc n});
  same_justify = λ p. ground (arith, s.same_justify p, ap chain_block {x = p} {y = suc n});
  same_height = λ p. ground (arith, s.same_height p, ap chain_block {x = p} {y = suc n});
  same_qc = λ p. ground (arith, s.same_qc p, ap chain_block {x = p} {y = suc n});
  same_hash = λ p. ground (arith, s.same_hash p, ap chain_block {x = p} {y = suc n});
}

-- The next block may be added, once all below it are certified.
pub extended-Stores :
    (u : Quorums) (log : Log) (n : ℕ) (c : Core)
    → Knows n c
    → ((k : ℕ) → k ≤ n → Certified u log k)
    → Stores chain_world u log c (extended n c.heap)
unfolding chain_block
extended-Stores u log n c knows certified =
    let g = extended n c.heap in
    let s = extended-SameShape n c.heap knows.shape in
    record {
      grows = record {
        grown_linked = IsLinked-same s (upto-IsLinked (suc n));
        grown_qc = HasQc-same s (upto-HasQc (suc n));
        stays = λ p q e.
            let same = kept p (known_low p (inr (q, e))) in
            (ap (λ b. b.parent_block_ptr) same ∙ e, ap (λ b. b.block_height) same);
        stays_decided = λ p e. ap (λ b. b.decided) (kept p (decided_low p e)) ∙ e;
      };
      in_world =
          subst (λ x. InWorld chain_world x g) (sym knows.root)
            (InWorld-same s (upto-InWorld (suc n)));
      certified = λ p j e.
          let l = certified_block (suc n) p j (sym (s.same_justify p) ∙ e) in
          let at = placed (suc n) j (omega (arith, l.known)) in
          subst (Certified u log) (sym (s.same_hash j ∙ at.named))
            (certified j (omega (arith, l.known)));
      hashes_stay = λ p e. ap (λ b. b.self_qc.obj_hash) (kept p (known_low p e));
      genesis_stays = ap (λ b. b.block_height) (kept c.genesis (omega (arith, knows.root)));
      decided_stay = λ p e. at_once p e;
    }
  where
    kept : (p : Ptr) → p ≤ n → (extended n c.heap).cell p ≡ c.heap.cell p
    kept p le = ground (arith, le)

    known_low : (p : Ptr) → IsSettled c.genesis c.heap p → p ≤ n
    known_low p (inl e) = omega (arith, e, knows.root)
    known_low p (inr (q, e)) =
        let l = Linked-block n p q (sym (knows.shape.same_parent p) ∙ e) in
        omega (arith, l.next_up, l.known)

    decided_low : (p : Ptr) → is_decided c.heap p ≡ true → p ≤ n
    decided_low p e = elim (Bool-cases (leb p n)) [
      | inl near ↦ ground (arith, near)
      | inr far ↦ (let new = knows.undecided p (ground (arith, far)) in cc)
    ]

    at_once :
        (p : Ptr)
        → is_decided (extended n c.heap) p ≡ true
        → (is_decided c.heap p ≡ true)
          × (((extended n c.heap).cell p).block_height ≡ (c.heap.cell p).block_height)
    at_once p e = elim (Bool-cases (p == suc n)) [
      | inl here ↦ absurd (ground (arith, e, here))
      | inr other ↦ (ground (arith, e, other), ground (arith, other))
    ]
