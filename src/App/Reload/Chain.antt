-- ===== src/App/Reload/Chain.antt =====
-- The decided chain is put back as it was.
use mathlib.Core.Path.{subst}
use cs244b_fp.Prelude.{
  ℕ, suc, ◌^◌, ◌%◌, ◌<◌, ◌≡◌, refl, sym, ap, ◌∙◌, inl, inr, true, false, Option, none, some, List,
  [], ◌∷◌, Result, ok, ◌==◌, ltb, All, member, arith, Bool-cases, Option-cases, ==_iff,
}
use cs244b_fp.Config.{Hash}
use cs244b_fp.Wire.{HotstuffBlockWire, QuorumCertificateWire, Sodium}
use cs244b_fp.Crypto.Certs.{QuorumCertificate, parse_qc}
use cs244b_fp.Block.{Ptr, Heap}
use cs244b_fp.Consensus.{Core, height, update_hqc, reload_state_from_index}
use cs244b_fp.Storage.BlockStore.{BlockStore, get_block}
use cs244b_fp.Storage.Index.Layouts.{Lmdb, Layout}
use cs244b_fp.Storage.Index.{Index, forward_cursor, get_highest_qc}
use cs244b_fp.App.{HotstuffApp, find_block_by_hash}
use cs244b_fp.App.Reload.{load_one, load_all, reload_decided_blocks}
use cs244b_fp.App.Reload.Fresh.{IsSound}
use cs244b_fp.App.Reload.Loaded.{Loaded, load_one-Loaded}

-- The store has the blocks with these hashes, and no other.
pub record Holds (s : BlockStore) (known : List Hash) : Type 0 where
  pub has : (k : Hash) → member k known ≡ true → (x : Ptr) × (get_block k s ≡ some x)
  pub only : (k : Hash) (x : Ptr) → get_block k s ≡ some x → member k known ≡ true

abbrev pub last_height : ℕ → List (ℕ × Hash) → ℕ
last_height n [] = n
last_height n ((k, hash) ∷ es) = last_height k es

abbrev pub last_hash : Hash → List (ℕ × Hash) → Hash
last_hash prev [] = prev
last_hash prev ((k, hash) ∷ es) = last_hash hash es

-- The blocks with these heights and hashes are on disk and form a chain on the block `prev` of height
-- `n`: each is the child of the one before, is justified by a block that is known when it comes, and
-- is new.
abbrev pub IsChain :
    Sodium → (Hash → Option HotstuffBlockWire) → Hash → ℕ → List Hash → List (ℕ × Hash) → Type 0
IsChain sodium load prev n known [] = Unit
IsChain sodium load prev n known ((k, hash) ∷ es) =
    ((wire : HotstuffBlockWire) × (load hash ≡ some wire)
      × (sodium.hash_header wire.header ≡ hash)
      × (wire.header.parent_hash ≡ prev)
      × (member (parse_qc wire.header.qc).obj_hash known ≡ true))
    × (member hash known ≡ false)
    × (k ≡ suc n)
    × (suc k < 2 ^ 64)
    × IsChain sodium load hash k (hash ∷ known) es

-- Every block that the list names is in the store, at its height.
abbrev pub AreStored : BlockStore → Heap → List (ℕ × Hash) → Type 0
AreStored s h es =
    All (λ e. (x : Ptr) × (get_block e.1 s ≡ some x) × ((h.cell x).block_height ≡ e.0)) es

not_cached :
    (s : BlockStore) (known : List Hash) (k : Hash)
    → Holds s known
    → member k known ≡ false
    → get_block k s ≡ none
not_cached s known k holds out = elim (Option-cases (get_block k s)) [
  | inl gone ↦ gone
  | inr (x, e) ↦ (let clash : true ≡ false = sym (holds.only k x e) ∙ out in absurd cc)
]

Loaded-Holds :
    {hash : Hash} {p blk : Ptr} {s t : BlockStore} {h g : Heap} (known : List Hash)
    → Loaded hash p blk s t h g
    → Holds s known
    → Holds t (hash ∷ known)
Loaded-Holds {hash} {p} {blk} {s} {t} known l holds = record {
  has = λ k e. elim (Bool-cases (hash == k)) [
    | inl same ↦ (blk, subst (λ k. get_block k t ≡ some blk) ((==_iff hash k).0 same) l.here)
    | inr other ↦
        (let (x, there) = holds.has k (ground (arith, other, e)) in (x, (l.kept k x there).0))
  ];
  only = λ k x e. elim (l.nothing_else k x e) [
    | inl old ↦ (let old_one = holds.only k x old in ground (arith, old_one))
    | inr same ↦ ground (arith, same)
  ];
}

-- What loading the rest of the list leaves.
pub record Restored (s t : BlockStore) (h g : Heap) (es : List (ℕ × Hash)) : Type 0 where
  pub sound : IsSound t g
  pub stored : AreStored t g es
  pub kept :
      (k : Hash) (x : Ptr)
      → get_block k s ≡ some x
      → (get_block k t ≡ some x) × (g.cell x ≡ h.cell x)

load_all-next :
    (sodium : Sodium) (load : Hash → Option HotstuffBlockWire) (k n : ℕ) (hash : Hash)
    (es : List (ℕ × Hash)) (s t : BlockStore) (h g : Heap) (blk : Ptr)
    → load_one sodium load hash s h ≡ ok (blk, t, g)
    → (g.cell blk).block_height ≡ k
    → load_all sodium load ((k, hash) ∷ es) n s h ≡ load_all sodium load es k t g
unfolding load_all
load_all-next sodium load k n hash es s t h g blk e same =
    rw e (ap (λ m. load_all sodium load es m t g) same)

pub load_all-Restored :
    (sodium : Sodium) (load : Hash → Option HotstuffBlockWire) (es : List (ℕ × Hash)) (prev : Hash)
    (n : ℕ) (known : List Hash) (s : BlockStore) (h : Heap) (p : Ptr)
    → IsSound s h
    → Holds s known
    → get_block prev s ≡ some p
    → (h.cell p).block_height ≡ n
    → IsChain sodium load prev n known es
    → (t : BlockStore) × (g : Heap) × (load_all sodium load es n s h ≡ ok (last_height n es, t, g))
      × Restored s t h g es
      × ((x : Ptr) × (get_block (last_hash prev es) t ≡ some x)
          × ((g.cell x).block_height ≡ last_height n es))
unfolding load_all
load_all-Restored sodium load [] prev n known s h p sound holds there high chain =
    (s, h, refl, record { sound = sound; stored = tt; kept = λ k x e. (e, refl) }, (p, there, high))
load_all-Restored sodium load ((k, hash) ∷ es) prev n known s h p sound holds there high chain =
    let ((wire, on_disk, named, parent, justify), out, up, low, rest) = chain in
    let (q, certified) = holds.has _ justify in
    let (t, g, loaded, l) =
      load_one-Loaded sodium load hash s h sound wire p q on_disk named
        (not_cached s known hash holds out) (ap (λ k. get_block k s) parent ∙ there) certified
        (omega (arith, up, low, high)) in
    let same : (g.cell h.next).block_height ≡ k = l.above ∙ ap suc high ∙ sym up in
    let (t', g', all, r, last) =
      load_all-Restored sodium load es hash k (hash ∷ known) t g h.next l.sound
        (Loaded-Holds known l holds) l.here same rest in
    (
      t',
      g',
      load_all-next sodium load k n hash es s t h g h.next loaded same ∙ all,
      record {
        sound = r.sound;
        stored = (
          (
            h.next,
            (r.kept hash h.next l.here).0,
            ap (λ b. b.block_height) (r.kept hash h.next l.here).1 ∙ same,
          ),
          r.stored,
        );
        kept = λ j x e.
            let (in_t, cell_t) = l.kept j x e in
            let (in_t', cell_t') = r.kept j x in_t in (in_t', cell_t' ∙ cell_t);
      },
      last,
    )

update_hqc-heap : (p : Ptr) (qc : QuorumCertificate) (c : Core) → (update_hqc p qc c).heap ≡ c.heap
unfolding update_hqc
update_hqc-heap p qc c = elim (Bool-cases (ltb (height c c.hqc_block) (height c p))) [
  | inl up ↦ rw up refl
  | inr same ↦ rw same refl
]

-- The core after `reload_state_from_index`.
record At (wire : QuorumCertificateWire) (x : Ptr) (c d : Core) : Type 0 where
  pub reloaded :
      (find : Hash → Result Ptr)
      → find wire.justify ≡ ok x
      → reload_state_from_index (ok wire) find c ≡ ok d
  pub same_heap : d.heap ≡ c.heap
  pub executed : d.b_exec ≡ x
  pub locked : d.b_lock ≡ x
  pub voted : d.vheight ≡ height c x % 2 ^ 32

reload_state_from_index-At :
    (wire : QuorumCertificateWire) (x : Ptr) (c : Core) → (d : Core) × At wire x c d
unfolding reload_state_from_index
reload_state_from_index-At wire x c = (
  record (update_hqc x (parse_qc wire) c) { vheight = height c x % 2 ^ 32; b_exec = x; b_lock = x },
  record {
    reloaded = λ find e. rw e refl;
    same_heap = update_hqc-heap x (parse_qc wire) c;
    executed = refl;
    locked = refl;
    voted = refl;
  },
)

module _ {V : Type 0} (sodium : Sodium) (load : Hash → Option HotstuffBlockWire) (lmdb : Lmdb)
    (layout : Layout) (index : Index lmdb layout) (app : HotstuffApp V) (es : List (ℕ × Hash))
    (wire : QuorumCertificateWire) (prev : Hash) (known : List Hash) (p : Ptr) where
  -- Where the index lists a chain of blocks that are on disk, on the block of height 0 that the store
  -- starts with, and its certificate is on the last of them, all are put back into the store at their
  -- heights. The core continues at the last block, as executed and locked, with its height voted for.
  pub reload_decided_blocks-Restored :
      forward_cursor lmdb layout index ≡ ok es
      → get_highest_qc lmdb layout index ≡ ok wire
      → IsSound app.network.block_store app.core.heap
      → Holds app.network.block_store known
      → get_block prev app.network.block_store ≡ some p
      → height app.core p ≡ 0
      → IsChain sodium load prev 0 known es
      → wire.justify ≡ last_hash prev es
      → (app' : HotstuffApp V) × (reload_decided_blocks sodium load lmdb layout index app
          ≡ ok (last_height 0 es, app'))
        × AreStored app'.network.block_store app'.core.heap es
        × IsSound app'.network.block_store app'.core.heap
        × (get_block wire.justify app'.network.block_store ≡ some app'.core.b_exec)
        × (height app'.core app'.core.b_exec ≡ last_height 0 es)
        × (app'.core.b_lock ≡ app'.core.b_exec)
        × (app'.core.vheight ≡ last_height 0 es % 2 ^ 32)
  unfolding reload_decided_blocks find_block_by_hash
  reload_decided_blocks-Restored listed certified sound holds there high chain top =
      let (t, g, loaded, r, (x, found, at)) =
        load_all-Restored sodium load es prev 0 known app.network.block_store app.core.heap p sound
          holds there high chain in
      let app' : HotstuffApp V = record app {
        core = record app.core { heap = g };
        network = record app.network { block_store = t; heap = g };
      } in
      let (d, state) = reload_state_from_index-At wire x app'.core in
      let in_t : get_block wire.justify t ≡ some x = ap (λ k. get_block k t) top ∙ found in
      let again = state.reloaded (λ hash. find_block_by_hash hash app') (rw in_t refl) in
      (
        record app' { core = d },
        rw listed (rw loaded (rw certified (rw again refl))),
        subst (λ m. AreStored t m es) (sym state.same_heap) r.stored,
        subst (IsSound t) (sym state.same_heap) r.sound,
        in_t ∙ ap some (sym state.executed),
        ap (λ m. (m.cell d.b_exec).block_height) state.same_heap
            ∙ ap (λ y. (g.cell y).block_height) state.executed
            ∙ at,
        state.locked ∙ sym state.executed,
        state.voted ∙ ap (λ m. m % 2 ^ 32) at,
      )
