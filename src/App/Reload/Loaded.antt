-- ===== src/App/Reload/Loaded.antt =====
-- One block that is loaded goes into the store, under its parent.
use cs244b_fp.Prelude.{
  suc, ◌^◌, ◌<◌, ◌≡◌, refl, ap, ◌∙◌, inl, inr, ◌⊎◌, false, Option, none, some, ok,
}
use mathlib.Core.Path.{subst}
use cs244b_fp.Config.{Hash}
use cs244b_fp.Wire.{HotstuffBlockWire, Sodium}
use cs244b_fp.Crypto.Certs.{parse_qc}
use cs244b_fp.Block.{Ptr, Heap, loaded_block, alloc}
use cs244b_fp.Storage.BlockStore.{
  BlockStore, get_block, insert_block, link_block, is_missing, MissingDependencies,
}
use cs244b_fp.App.Reload.{load_one}
use cs244b_fp.App.Reload.Fresh.{
  IsSound, insert_fresh, grown_new, grown-IsSound, store_here, store_kept, store_else, cell_kept,
}

load_one-steps :
    (sodium : Sodium) (load : Hash → Option HotstuffBlockWire) (hash : Hash) (s t : BlockStore)
    (h g : Heap) (wire : HotstuffBlockWire) (m : MissingDependencies)
    → load hash ≡ some wire
    → insert_block (alloc (loaded_block sodium wire) h).0 s (alloc (loaded_block sodium wire) h).1
      ≡ ok (m, t, g)
    → is_missing m ≡ false
    → load_one sodium load hash s h ≡ ok ((alloc (loaded_block sodium wire) h).0, t, g)
unfolding load_one
load_one-steps sodium load hash s t h g wire m on_disk inserted all =
    rw on_disk (rw inserted (rw all refl))

-- `blk` has been loaded under `hash`: the store has it besides what it had, and the rest of the heap
-- is what it was.
pub record Loaded (hash : Hash) (parent blk : Ptr) (s t : BlockStore) (h g : Heap) : Type 0 where
  pub sound : IsSound t g
  pub here : get_block hash t ≡ some blk
  pub above : (g.cell blk).block_height ≡ suc (h.cell parent).block_height
  pub kept :
      (k : Hash) (x : Ptr)
      → get_block k s ≡ some x
      → (get_block k t ≡ some x) × (g.cell x ≡ h.cell x)
  pub nothing_else :
      (k : Hash) (x : Ptr) → get_block k t ≡ some x → (get_block k s ≡ some x) ⊎ (k ≡ hash)

module _ (sodium : Sodium) (load : Hash → Option HotstuffBlockWire) (hash : Hash) (s : BlockStore)
    (h : Heap) (i : IsSound s h) (wire : HotstuffBlockWire) (p q : Ptr) where
  -- A block whose bytes are on disk and whose parent and certified block are in the cache, while it is
  -- not, is loaded.
  pub load_one-Loaded :
      load hash ≡ some wire
      → sodium.hash_header wire.header ≡ hash
      → get_block hash s ≡ none
      → get_block wire.header.parent_hash s ≡ some p
      → get_block (parse_qc wire.header.qc).obj_hash s ≡ some q
      → suc (suc (h.cell p).block_height) < 2 ^ 64
      → (t : BlockStore) × (g : Heap) × (load_one sodium load hash s h ≡ ok (h.next, t, g))
        × Loaded hash p h.next s t h g
  unfolding alloc
  load_one-Loaded on_disk named absent_before parent justify low =
      let b = loaded_block sodium wire in
      let big = (alloc b h).1 in
      let l = link_block p q h.next s big in
      let (m, all, inserted) = insert_fresh sodium load s h i wire p q parent justify low in
      (
        l.0,
        l.1,
        load_one-steps sodium load hash s l.0 h l.1 wire m on_disk inserted all,
        record {
          sound = grown-IsSound sodium load s h i wire p q parent justify low;
          here =
              subst (λ k. get_block k l.0 ≡ some h.next) named
                (store_here sodium load s h i wire p q parent justify low
                  (ap (λ k. get_block k s) named ∙ absent_before));
          above = (grown_new sodium load s h i wire p q parent justify low).1;
          kept = λ k x e. (
            store_kept sodium load s h i wire p q parent justify low k x e,
            cell_kept sodium load s h i wire p q parent justify low k x e,
          );
          nothing_else = λ k x e.
              elim (store_else sodium load s h i wire p q parent justify low k x e) [
                | inl old ↦ inl old
                | inr key ↦ inr (key ∙ named)
              ];
        },
      )
