-- ===== src/Storage/BlockStore/Insert.antt =====
-- Inserting a block links it under cached blocks, or reports what is missing.
use mathlib.Core.Path.{subst}
use cs244b_fp.Prelude.{
  suc, ◌^◌, ◌<◌, ◌≡◌, ◌≢◌, refl, ap, ◌∙◌, inl, inr, ◌⊎◌, true, false, Option, none, some, List,
  arith, Bool-cases, Option-cases, ◌==◌, ok,
}
use cs244b_fp.Prelude.Maps.{
  find, emplace, IsSorted, emplace-IsSorted, find-emplace, find-emplace_cases, find-emplace_keeps,
}
use cs244b_fp.Config.{Hash}
use cs244b_fp.Crypto.Certs.{QuorumCertificate}
use cs244b_fp.Block.{
  Ptr, HotstuffBlock, Heap, get_hash, get_parent_hash, get_justify_hash, set_parent, set_justify,
  modify,
}
use cs244b_fp.Block.Shape.{IsLinked}
use cs244b_fp.Consensus.ThreeChain.{HasQc}
use cs244b_fp.Consensus.Invariant.{Grows}
use cs244b_fp.Storage.BlockStore.{
  BlockStore, MissingDependencies, absent, is_missing, dependencies, link_block, insert_block,
  get_block,
}

-- The cache is a map from hashes to their blocks, and every parent is in it.
pub record IsStore (s : BlockStore) (h : Heap) : Type 0 where
  pub tree : IsLinked h
  pub with_qc : HasQc h
  pub sorted : IsSorted s.block_cache
  pub own_hash : (k : Hash) (p : Ptr) → find k s.block_cache ≡ some p → get_hash (h.cell p) ≡ k
  pub parents :
      (p q : Ptr)
      → (h.cell p).parent_block_ptr ≡ some q
      → find (get_hash (h.cell q)) s.block_cache ≡ some q

-- A block that was received and is not linked yet, under its own pointer.
pub record IsNew (s : BlockStore) (h : Heap) (blk : Ptr) : Type 0 where
  pub unlinked : (h.cell blk).parent_block_ptr ≡ none
  pub qc : QuorumCertificate
  pub parsed : (h.cell blk).parsed_qc ≡ some qc
  pub uncached : (k : Hash) → find k s.block_cache ≢ some blk

-- No height is the last of 64 bits.
abbrev pub HasRoom : Heap → Type 0
HasRoom h = (p : Ptr) → suc (h.cell p).block_height < 2 ^ 64

emplace-cached :
    (k : Hash) (p : Ptr) (m : List (Hash × Ptr))
    → IsSorted m
    → (r : Ptr) × (find k (emplace k p m) ≡ some r)
emplace-cached k p m sorted = elim (Option-cases (find k m)) [
  | inl free ↦ (p, ground (arith, free, find-emplace k k p m sorted))
  | inr (r, old) ↦ (r, find-emplace_keeps k k p r m sorted old)
]

module _ (s : BlockStore) (h : Heap) (blk p j : Ptr) (is : IsStore s h) (new : IsNew s h blk)
    (room : HasRoom h) (found : find (get_parent_hash (h.cell blk)) s.block_cache ≡ some p) where
  not_parent : (x : Ptr) → (h.cell x).parent_block_ptr ≢ some blk
  not_parent x e = new.uncached _ (is.parents x blk e)

  parent_other : p ≢ blk
  parent_other e = new.uncached _ (found ∙ ap some e)

  link_block-IsLinked : IsLinked (link_block p j blk s h).1
  unfolding link_block modify set_parent set_justify
  link_block-IsLinked = record {
    step = λ x q e. ground (
      arith,
      is.tree.step x q,
      not_parent x,
      parent_other,
      room p,
      ap (λ z. (h.cell z).block_height) {x = p} {y = q},
    );
    root = λ x e. ground (arith, is.tree.root x);
  }

  pub link_block-Grows : Grows h (link_block p j blk s h).1
  unfolding link_block modify set_parent set_justify
  link_block-Grows = record {
    grown_linked = link_block-IsLinked;
    grown_qc = λ x k e. elim (Bool-cases (blk == x)) [
      | inl here ↦
          (new.qc, ground (arith, new.parsed, ap (λ z. (h.cell z).parsed_qc) {x = blk} {y = x}))
      | inr other ↦
          let (qc, f) = is.with_qc x k (ground (arith, other, e)) in (qc, ground (arith, other, f))
    ];
    stays = λ x q e.
        ground (arith, new.unlinked, ap (λ z. (h.cell z).parent_block_ptr) {x = blk} {y = x});
    stays_decided = λ x i. ground arith;
  }

  link_block-hash : (x : Ptr) → get_hash ((link_block p j blk s h).1.cell x) ≡ get_hash (h.cell x)
  unfolding link_block modify set_parent set_justify get_hash
  link_block-hash x = ground arith

  link_block-parent :
      (x q : Ptr)
      → ((link_block p j blk s h).1.cell x).parent_block_ptr ≡ some q
      → find (get_hash (h.cell q)) s.block_cache ≡ some q
  unfolding link_block modify set_parent set_justify
  link_block-parent x q e = elim (Bool-cases (blk == x)) [
    | inl here ↦
        let same : p ≡ q = ground (arith, here, e) in
        subst (λ z. find (get_hash (h.cell z)) s.block_cache ≡ some z) same
          (rw (is.own_hash _ p found) found)
    | inr other ↦ is.parents x q (ground (arith, other, e))
  ]

  pub link_block-IsStore : IsStore (link_block p j blk s h).0 (link_block p j blk s h).1
  unfolding link_block modify set_parent set_justify get_hash
  link_block-IsStore = record {
    tree = link_block-IsLinked;
    with_qc = link_block-Grows.grown_qc;
    sorted = emplace-IsSorted _ blk s.block_cache is.sorted;
    own_hash = λ k x e.
        link_block-hash x ∙ elim (find-emplace_cases k _ blk x s.block_cache is.sorted e) [
          | inl old ↦ is.own_hash k x old
          | inr (same, key) ↦ ap (λ z. (h.cell z).self_qc.obj_hash) same ∙ key
        ];
    parents = λ x q e.
        rw (link_block-hash q)
          (find-emplace_keeps _ _ blk q s.block_cache is.sorted (link_block-parent x q e));
  }

  pub link_block_fields :
      let b = (link_block p j blk s h).1.cell blk in
      (b.parent_block_ptr ≡ some p)
      × (b.justify_block_ptr ≡ some j)
      × (b.block_height ≡ suc (h.cell p).block_height)
  unfolding link_block modify set_parent set_justify
  link_block_fields = (ground arith, ground arith, ground (arith, room p))

  link_block-cached :
      (r : Ptr) × (get_block (get_hash (h.cell blk)) (link_block p j blk s h).0 ≡ some r)
  unfolding link_block get_block
  link_block-cached = emplace-cached (get_hash (h.cell blk)) blk s.block_cache is.sorted

-- The hash of a dependency is reported exactly if the cache does not hold it.
abbrev pub Reports : Option Hash → Hash → BlockStore → Type 0
Reports m k s =
    ((m ≡ none) × ((p : Ptr) × (get_block k s ≡ some p))) ⊎ ((m ≡ some k) × (get_block k s ≡ none))

-- What `insert_block` leaves: what was there, if a dependency is missing; else the block, linked
-- under its cached parent one higher than that, with its cached justify, and in the cache.
pub data Inserted (s : BlockStore) (h : Heap) (blk : Ptr) (j : Hash)
    : MissingDependencies × BlockStore × Heap → Type 0 where
  missing :
      {m : MissingDependencies}
      → is_missing m ≡ true
      → Reports m.parent_hash (get_parent_hash (h.cell blk)) s
      → Reports m.justify_hash j s
      → Inserted s h blk j (m, s, h)
  linked :
      {m : MissingDependencies} {t : BlockStore} {g : Heap} {p q : Ptr}
      → is_missing m ≡ false
      → get_block (get_parent_hash (h.cell blk)) s ≡ some p
      → get_block j s ≡ some q
      → (g.cell blk).parent_block_ptr ≡ some p
      → (g.cell blk).justify_block_ptr ≡ some q
      → (g.cell blk).block_height ≡ suc (h.cell p).block_height
      → ((r : Ptr) × (get_block (get_hash (h.cell blk)) t ≡ some r))
      → IsStore t g
      → Grows h g
      → Inserted s h blk j (m, t, g)

Reports-absent : (k : Hash) (s : BlockStore) → Reports (absent k s.block_cache) k s
unfolding get_block
Reports-absent k s = elim (Option-cases (find k s.block_cache)) [
  | inl free ↦ rw (free, absent) (inr (refl, refl))
  | inr (p, old) ↦ rw (old, absent) (inl (refl, (p, refl)))
]

pub get_justify_hash_lem :
    (b : HotstuffBlock) (qc : QuorumCertificate)
    → b.parsed_qc ≡ some qc
    → get_justify_hash b ≡ ok qc.obj_hash
unfolding get_justify_hash
get_justify_hash_lem b qc e = rw (e, get_justify_hash)

-- On a store and a new block, with no height the last of 64 bits, `insert_block` never fails: it reports exactly the dependencies that
-- the cache lacks and changes nothing, or links the block and keeps the store a store and the tree.
pub insert_block-Inserted :
    (s : BlockStore) (h : Heap) (blk : Ptr)
    → IsStore s h
    → (new : IsNew s h blk) → HasRoom h
    → (r : MissingDependencies × BlockStore × Heap) × (insert_block blk s h ≡ ok r)
      × Inserted s h blk new.qc.obj_hash r
unfolding insert_block dependencies is_missing get_block
insert_block-Inserted s h blk is new room =
    let link = λ (p q : Ptr). link_block p q blk s h in
    let ph = get_parent_hash (h.cell blk) in
    let jh = new.qc.obj_hash in
    let e = get_justify_hash_lem (h.cell blk) new.qc new.parsed in
    let m = dependencies ph jh s.block_cache in
    elim (Option-cases (find ph s.block_cache)) [
      | inl no_parent ↦ (
        (m, s, h),
        rw (e, no_parent, insert_block),
        missing (rw (no_parent, absent)) (Reports-absent ph s) (Reports-absent jh s),
      )
      | inr (p, found) ↦ elim (Option-cases (find jh s.block_cache)) [
        | inl no_justify ↦ (
          (m, s, h),
          rw (e, found, no_justify, insert_block),
          missing (rw (found, no_justify, absent)) (Reports-absent ph s) (Reports-absent jh s),
        )
        | inr (q, certified) ↦
            let fields = link_block_fields s h blk p q is new room found in
            (
              (m, (link p q).0, (link p q).1),
              rw (e, found, certified, insert_block),
              linked (rw (found, certified, absent)) found certified fields.0 fields.1 fields.2
                  (link_block-cached s h blk p q is new room found)
                  (link_block-IsStore s h blk p q is new room found)
                  (link_block-Grows s h blk p q is new room found),
            )
      ]
    ]
