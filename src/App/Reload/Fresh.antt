-- ===== src/App/Reload/Fresh.antt =====
-- A block that is read from disk, under its parent in the store.
use cs244b_fp.Prelude.{
  suc, ◌^◌, ◌≤◌, ◌<◌, ◌≡◌, ◌≢◌, refl, sym, ap, ◌∙◌, inl, inr, ◌⊎◌, true, false, Option, none, some,
  ok, ◌==◌, arith, Bool-cases, ==_iff,
}
use mathlib.Core.Option.{some-injective}
use cs244b_fp.Prelude.Maps.{find, emplace, find-emplace, find-emplace_cases, find-emplace_keeps}
use cs244b_fp.Config.{Hash}
use cs244b_fp.Wire.{HotstuffBlockWire, Sodium}
use cs244b_fp.Crypto.Certs.{parse_qc, empty_qc}
use cs244b_fp.Block.{
  Ptr, Heap, HotstuffBlock, get_hash, get_parent_hash, loaded_block, receive_block, alloc, modify,
}
use cs244b_fp.Block.Disk.{is_decided}
use cs244b_fp.Storage.BlockStore.{
  BlockStore, get_block, insert_block, link_block, is_missing, dependencies, absent,
  MissingDependencies,
}
use cs244b_fp.Storage.BlockStore.Insert.{
  IsStore, IsNew, HasRoom, link_block-IsStore, link_block_fields, get_justify_hash_lem,
}
use cs244b_fp.App.Alloc.{IsUnused, alloc_old, alloc_new, alloc-IsStore, alloc-HasRoom}

-- A store, and a heap in which no address from `next` on has been used.
pub record IsSound (s : BlockStore) (h : Heap) : Type 0 where
  pub store : IsStore s h
  pub room : HasRoom h
  pub no_parent : (p : Ptr) → h.next ≤ p → (h.cell p).parent_block_ptr ≡ none
  pub undecided : (p : Ptr) → h.next ≤ p → is_decided h p ≡ false
  pub parent_used : (p q : Ptr) → (h.cell p).parent_block_ptr ≡ some q → q < h.next
  pub cached_used : (k : Hash) (p : Ptr) → find k s.block_cache ≡ some p → p < h.next

pub IsSound-IsUnused : {s : BlockStore} {h : Heap} → IsSound s h → IsUnused s h
IsSound-IsUnused {s} {h} i = record {
  no_parent = i.no_parent h.next (omega arith);
  undecided = i.undecided h.next (omega arith);
  no_child = λ p e. let below = i.parent_used p h.next e in omega arith;
  not_cached = λ k e. let below = i.cached_used k h.next e in omega arith;
}

-- The insertion of a block whose dependencies are in the cache.
insert_block-links :
    (s : BlockStore) (h : Heap) (blk p q : Ptr) (new : IsNew s h blk)
    → get_block (get_parent_hash (h.cell blk)) s ≡ some p
    → get_block new.qc.obj_hash s ≡ some q
    → (m : MissingDependencies) × (is_missing m ≡ false)
      × (insert_block blk s h ≡ ok (m, (link_block p q blk s h).0, (link_block p q blk s h).1))
unfolding insert_block get_block dependencies is_missing
insert_block-links s h blk p q new e f =
    let justify = get_justify_hash_lem (h.cell blk) new.qc new.parsed in
    (
      dependencies (get_parent_hash (h.cell blk)) new.qc.obj_hash s.block_cache,
      rw (e, f, absent) refl,
      rw (justify, e, f, insert_block) refl,
    )

module _ (sodium : Sodium) (load : Hash → Option HotstuffBlockWire) (s : BlockStore) (h : Heap)
    (i : IsSound s h) (wire : HotstuffBlockWire) (p q : Ptr)
    (parent : get_block wire.header.parent_hash s ≡ some p)
    (justify : get_block (parse_qc wire.header.qc).obj_hash s ≡ some q)
    (low : suc (suc (h.cell p).block_height) < 2 ^ 64) where
  abbrev fresh : HotstuffBlock
  fresh = loaded_block sodium wire

  abbrev bigger : Heap
  bigger = (alloc fresh h).1

  fresh_plain :
      (fresh.block_height ≡ 0)
      × (fresh.parent_block_ptr ≡ none)
      × (fresh.justify_block_ptr ≡ none)
      × (get_parent_hash fresh ≡ wire.header.parent_hash)
  unfolding loaded_block receive_block get_parent_hash
  fresh_plain = (refl, refl, refl, refl)

  fresh-IsNew : IsNew s bigger h.next
  unfolding loaded_block receive_block
  fresh-IsNew = record {
    unlinked = ap (λ x. x.parent_block_ptr) (alloc_new fresh h);
    qc = parse_qc wire.header.qc;
    parsed = ap (λ x. x.parsed_qc) (alloc_new fresh h);
    uncached = (IsSound-IsUnused i).not_cached;
  }

  abbrev linked_store : BlockStore
  linked_store = (link_block p q h.next s bigger).0

  abbrev linked_heap : Heap
  linked_heap = (link_block p q h.next s bigger).1

  found_parent : get_block (get_parent_hash (bigger.cell h.next)) s ≡ some p
  found_parent =
      ap (λ x. get_block (get_parent_hash x) s) (alloc_new fresh h)
      ∙ ap (λ k. get_block k s) fresh_plain.3
      ∙ parent

  pub insert_fresh :
      (m : MissingDependencies) × (is_missing m ≡ false)
      × (insert_block h.next s bigger ≡ ok (m, linked_store, linked_heap))
  unfolding fresh-IsNew
  insert_fresh = insert_block-links s bigger h.next p q fresh-IsNew found_parent justify

  grown-IsStore : IsStore linked_store linked_heap
  unfolding get_block
  grown-IsStore =
      let plain = fresh_plain in
      link_block-IsStore s bigger h.next p q
        (alloc-IsStore s h fresh i.store (IsSound-IsUnused i) i.room plain.0 plain.1 plain.2)
        fresh-IsNew
        (alloc-HasRoom s h fresh i.store (IsSound-IsUnused i) i.room plain.0 plain.1 plain.2)
        found_parent

  used_parent : p < h.next
  unfolding get_block
  used_parent = i.cached_used _ p parent

  parent_kept : bigger.cell p ≡ h.cell p
  parent_kept = let below = used_parent in alloc_old fresh h p (λ e. omega arith)

  grown_cell : (x : Ptr) → x ≢ h.next → linked_heap.cell x ≡ h.cell x
  unfolding link_block modify
  grown_cell x other =
      let apart : (h.next == x) ≡ false = ground (arith, other) in
      rw apart (alloc_old fresh h x other)

  grown_next : linked_heap.next ≡ suc h.next
  unfolding link_block modify alloc
  grown_next = omega arith

  pub grown_new :
      ((linked_heap.cell h.next).parent_block_ptr ≡ some p)
      × ((linked_heap.cell h.next).block_height ≡ suc (h.cell p).block_height)
  unfolding get_block
  grown_new =
      let plain = fresh_plain in
      let fields =
        link_block_fields s bigger h.next p q
          (alloc-IsStore s h fresh i.store (IsSound-IsUnused i) i.room plain.0 plain.1 plain.2)
          fresh-IsNew
          (alloc-HasRoom s h fresh i.store (IsSound-IsUnused i) i.room plain.0 plain.1 plain.2)
          found_parent in
      (fields.0, fields.2 ∙ ap (λ x. suc x.block_height) parent_kept)

  apart : (x : Ptr) → (h.next == x) ≡ false → x ≢ h.next
  apart x other same = ground (arith, other, same)

  at_new : (x : Ptr) → (h.next == x) ≡ true → h.next ≡ x
  at_new x here = (==_iff h.next x).0 here

  grown_parent : (x y : Ptr) → (linked_heap.cell x).parent_block_ptr ≡ some y → y < suc h.next
  grown_parent x y e = elim (Bool-cases (h.next == x)) [
    | inl here ↦
        (let same : p ≡ y = some-injective p y (
            sym grown_new.0
            ∙ ap (λ z. (linked_heap.cell z).parent_block_ptr) (at_new x here)
            ∙ e) in
          omega (arith, same, used_parent))
    | inr other ↦
        (let below =
            i.parent_used x y
              (ap (λ b. b.parent_block_ptr) (sym (grown_cell x (apart x other))) ∙ e) in
          omega arith)
  ]

  grown_cached : (k : Hash) (x : Ptr) → find k linked_store.block_cache ≡ some x → x < suc h.next
  unfolding link_block
  grown_cached k x e =
      elim (find-emplace_cases k (get_hash (bigger.cell h.next)) h.next x s.block_cache
        i.store.sorted e) [
          | inl old ↦ (let below = i.cached_used k x old in omega arith)
          | inr (same, _) ↦ omega (arith, same)
        ]

  grown_room : HasRoom linked_heap
  grown_room x = elim (Bool-cases (h.next == x)) [
    | inl here ↦
        (let same = ap (λ z. (linked_heap.cell z).block_height) (at_new x here) in
          omega (arith, same, grown_new.1, low))
    | inr other ↦
        (let same = ap (λ b. b.block_height) (grown_cell x (apart x other)) in
          omega (arith, same, i.room x))
  ]

  pub grown-IsSound : IsSound linked_store linked_heap
  grown-IsSound = record {
    store = grown-IsStore;
    room = grown_room;
    no_parent = λ x above.
        let past = grown_next in rw (grown_cell x (λ e. omega arith)) (i.no_parent x (omega arith));
    undecided = λ x above.
        let past = grown_next in
        ap (λ b. b.decided) (grown_cell x (λ e. omega arith)) ∙ i.undecided x (omega arith);
    parent_used = λ x y e. omega (arith, grown_next, grown_parent x y e);
    cached_used = λ k x e. omega (arith, grown_next, grown_cached k x e);
  }

  fresh_hash : get_hash (bigger.cell h.next) ≡ sodium.hash_header wire.header
  unfolding loaded_block receive_block get_hash empty_qc
  fresh_hash = ap (λ b. b.self_qc.obj_hash) (alloc_new fresh h)

  pub store_here :
      get_block (sodium.hash_header wire.header) s ≡ none
      → get_block (sodium.hash_header wire.header) linked_store ≡ some h.next
  unfolding get_block link_block
  store_here gone =
      let key = get_hash (bigger.cell h.next) in
      let free : find key s.block_cache ≡ none = ap (λ k. find k s.block_cache) fresh_hash ∙ gone in
      let new : find key (emplace key h.next s.block_cache) ≡ some h.next =
        ground (arith, free, find-emplace key key h.next s.block_cache i.store.sorted) in
      ap (λ k. find k (emplace key h.next s.block_cache)) (sym fresh_hash) ∙ new

  pub store_kept : (k : Hash) (x : Ptr) → get_block k s ≡ some x → get_block k linked_store ≡ some x
  unfolding get_block link_block
  store_kept k x e =
      find-emplace_keeps k (get_hash (bigger.cell h.next)) h.next x s.block_cache i.store.sorted e

  pub store_else :
      (k : Hash) (x : Ptr)
      → get_block k linked_store ≡ some x
      → (get_block k s ≡ some x) ⊎ (k ≡ sodium.hash_header wire.header)
  unfolding get_block link_block
  store_else k x e =
      elim (find-emplace_cases k (get_hash (bigger.cell h.next)) h.next x s.block_cache
        i.store.sorted e) [ inl old ↦ inl old | inr (_, key) ↦ inr (sym key ∙ fresh_hash) ]

  pub cell_kept : (k : Hash) (x : Ptr) → get_block k s ≡ some x → linked_heap.cell x ≡ h.cell x
  unfolding get_block
  cell_kept k x e = let below = i.cached_used k x e in grown_cell x (λ same. omega arith)
