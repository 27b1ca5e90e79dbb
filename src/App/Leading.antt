-- ===== src/App/Leading.antt =====
-- A replica that reacts to proposals and votes, and proposes for itself.
use mathlib.Core.Path.{subst}
use cs244b_fp.Prelude.{
  ◌≤◌, arith, ℕ, suc, ◌+◌, ◌%◌, ◌^◌, ◌≡◌, refl, sym, ap, ◌∙◌, Bool, false, inl, inr, ◌⊎◌, some,
  List, ◌∷◌, Result, ok, first-ok, ok_injective,
}
use cs244b_fp.Config.{Hash, ReplicaId, ReplicaConfig}
use cs244b_fp.Wire.{Sodium}
use cs244b_fp.Block.Shape.{Extends}
use cs244b_fp.Consensus.{height, init_core}
use cs244b_fp.Consensus.Advance.{applied, votes, All-keeps}
use cs244b_fp.Consensus.Invariant.{Inv, Line-grows, Descends-same, Grows-height}
use cs244b_fp.Consensus.Run.{Reach, Reach-Inv, init_core-Inv}
use cs244b_fp.Consensus.Leaf.{
  LeafExtends, Reach-LeafExtends, init_core-LeafExtends, Grows-height_up, Reach-hqc_up,
}
use cs244b_fp.App.{
  HotstuffApp, supports_nonempty_child_proposal, propose_block, do_propose, do_empty_propose,
}
use cs244b_fp.App.Propose.{IsReady, Proposed, propose_block-Proposed}

module _ {V : Type 0} (sodium : Sodium)
    (get_next_vm_block : Bool → ℕ → V → Result (List ℕ × V)) where
  -- What changes the core: proposals and votes that are received, blocks that are stored, and the
  -- proposals of the replica itself. All else may change in between.
  pub data Turn (before after : HotstuffApp V) : Type 0 where
    reacts : Reach before.core after.core → Turn before after
    proposes :
        (hash : Hash)
        → IsReady before
        → (do_propose sodium get_next_vm_block before ≡ ok (hash, after))
          ⊎ (do_empty_propose sodium get_next_vm_block before ≡ ok (hash, after))
        → Turn before after

  pub data Turns (app : HotstuffApp V) : HotstuffApp V → Type 0 where
    none_yet : Turns app app
    then : {a b : HotstuffApp V} → Turns app a → Turn a b → Turns app b

  proposed_with :
      (nonempty : Bool) (before after : HotstuffApp V) (hash : Hash)
      → IsReady before
      → propose_block sodium get_next_vm_block nonempty before ≡ ok (hash, after)
      → Proposed before after hash
  unfolding propose_block
  proposed_with nonempty before after hash r e =
      let c = before.core in
      let ((body, vm), gives, e') =
        first-ok (get_next_vm_block nonempty ((height c c.b_leaf + 1) % 2 ^ 64) before.vm) _ e in
      let (hash', after', made, p) =
        propose_block-Proposed sodium get_next_vm_block before r nonempty body vm gives in
      let same = ok_injective (sym made ∙ e) in subst (λ x. Proposed before x.1 x.0) same p

  proposed_full :
      (before after : HotstuffApp V) (hash : Hash)
      → IsReady before
      → do_propose sodium get_next_vm_block before ≡ ok (hash, after)
      → Proposed before after hash
  unfolding do_propose
  proposed_full before after hash r e =
      let c = before.core in
      let (nonempty, f, e') =
        first-ok (supports_nonempty_child_proposal c.heap c.self_id 3 c.b_leaf)
          (λ x. propose_block sodium get_next_vm_block x before) e in
      proposed_with nonempty before after hash r e'

  proposed_empty :
      (before after : HotstuffApp V) (hash : Hash)
      → IsReady before
      → do_empty_propose sodium get_next_vm_block before ≡ ok (hash, after)
      → Proposed before after hash
  unfolding do_empty_propose
  proposed_empty before after hash r e = proposed_with false before after hash r e

  either-Proposed :
      (before after : HotstuffApp V) (hash : Hash)
      → IsReady before
      → (do_propose sodium get_next_vm_block before ≡ ok (hash, after))
        ⊎ (do_empty_propose sodium get_next_vm_block before ≡ ok (hash, after))
      → Proposed before after hash
  either-Proposed before after hash r (inl e) = proposed_full before after hash r e
  either-Proposed before after hash r (inr e) = proposed_empty before after hash r e

  Proposed-Inv :
      {before after : HotstuffApp V} {hash : Hash}
      → Proposed before after hash
      → Inv before.core
      → Inv after.core
  Proposed-Inv {before} {after} p i =
      let c = before.core in
      let g = after.core.heap in
      let grown : Inv (record c { heap = g; b_leaf = after.core.b_leaf }) = record {
        linked = p.grown.grown_linked;
        with_qc = p.grown.grown_qc;
        committed = Line-grows p.grown c.genesis _ c.b_exec i.committed;
        all_decided = All-keeps c.heap g (applied c.trace) p.grown.stays_decided i.all_decided;
        ballots =
            Descends-same c.heap g (suc c.vheight) (votes c.trace) (Grows-height i.linked p.grown)
              i.ballots;
      } in
      subst Inv (sym p.same_core) grown

  Proposed-Extends :
      {before after : HotstuffApp V} {hash : Hash}
      → Proposed before after hash
      → LeafExtends before.core
      → Extends after.core.heap after.core.b_leaf before.core.hqc_block
  Proposed-Extends {before} {after} p (xs, l) =
      let c = before.core in
      (
        after.core.b_leaf ∷ xs,
        (c.b_leaf, refl, p.child, Line-grows p.grown c.hqc_block xs c.b_leaf l),
      )

  Proposed-LeafExtends :
      {before after : HotstuffApp V} {hash : Hash}
      → Proposed before after hash
      → LeafExtends before.core
      → LeafExtends after.core
  Proposed-LeafExtends {before} {after} p l =
      subst (λ x. Extends after.core.heap after.core.b_leaf x)
        (ap (λ x. x.hqc_block) (sym p.same_core)) (Proposed-Extends p l)

  Proposed-hqc_up :
      {before after : HotstuffApp V} {hash : Hash}
      → Proposed before after hash
      → Inv before.core
      → height before.core before.core.hqc_block ≤ height after.core after.core.hqc_block
  Proposed-hqc_up {before} {after} p i =
      let c = before.core in
      subst (λ x. height c c.hqc_block ≤ height after.core x)
        (ap (λ x. x.hqc_block) (sym p.same_core))
        (Grows-height_up c after.core.heap i.linked p.grown c.hqc_block)

  -- What the invariants give after a change of the core.
  abbrev Keeps : HotstuffApp V → HotstuffApp V → Type 0
  Keeps before after =
      Inv after.core
      × LeafExtends after.core
      × (height before.core before.core.hqc_block ≤ height after.core after.core.hqc_block)

  Turn-Keeps :
      {before after : HotstuffApp V}
      → Turn before after
      → Inv before.core
      → LeafExtends before.core
      → Keeps before after
  Turn-Keeps (reacts r) i l = (Reach-Inv i r, Reach-LeafExtends r i l, Reach-hqc_up r i)
  Turn-Keeps {before} {after} (proposes hash r e) i l =
      let p = either-Proposed before after hash r e in
      (Proposed-Inv p i, Proposed-LeafExtends p l, Proposed-hqc_up p i)

  Turns-Keeps :
      {app after : HotstuffApp V}
      → Turns app after
      → Inv app.core
      → LeafExtends app.core
      → Keeps app after
  Turns-Keeps none_yet i l = (i, l, omega arith)
  Turns-Keeps (then ts t) i l =
      let (i', l', up) = Turns-Keeps ts i l in
      let (i'', l'', up') = Turn-Keeps t i' l' in (i'', l'', omega (arith, up, up'))

  -- A replica has started, and has received votes and proposals at heights below 2 ^ 32, stored blocks
  -- and proposed, in any order. Then a block that it proposes, full or empty, extends the block that
  -- its certificate is for. That is the block with the certificate that the replica keeps as its
  -- highest, which is at least as high as the one that it kept at any earlier point. The store and the
  -- core fit together (`IsReady`) whenever it proposes.
  pub do_propose-Extends :
      (config : ReplicaConfig) (self_id : ReplicaId) (first mid app after : HotstuffApp V)
      (hash : Hash)
      → first.core ≡ init_core config self_id
      → Turns first mid
      → Turns mid app
      → IsReady app
      → (do_propose sodium get_next_vm_block app ≡ ok (hash, after))
        ⊎ (do_empty_propose sodium get_next_vm_block app ≡ ok (hash, after))
      → ((after.core.heap.cell after.core.b_leaf).justify_block_ptr ≡ some app.core.hqc_block)
        × Extends after.core.heap after.core.b_leaf app.core.hqc_block
        × (height mid.core mid.core.hqc_block ≤ height app.core app.core.hqc_block)
  do_propose-Extends config self_id first mid app after hash begins early late r e =
      let p = either-Proposed app after hash r e in
      let (i, l, up) =
        Turns-Keeps early (subst Inv (sym begins) (init_core-Inv config self_id))
          (subst LeafExtends (sym begins) (init_core-LeafExtends config self_id)) in
      let (i', l', up') = Turns-Keeps late i l in (p.justified, Proposed-Extends p l', up')
