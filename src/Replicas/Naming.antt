-- ===== src/Replicas/Naming.antt =====
-- The blocks that the replicas speak about, named by their hashes: a hash stands for one block, and
-- with it for one parent, one certified block and one height.
use cs244b_fp.Prelude.{
  ℕ, zero, suc, ◌+◌, ◌-◌, ◌≤◌, ◌<◌, ◌≡◌, refl, sym, ap, ◌∙◌, List, [], ◌∷◌, ◌++◌, arith,
}
use mathlib.Core.Path.{subst}
use cs244b_fp.Config.{Hash}

pub record World : Type 0 where
  pub parent_of : Hash → Hash
  pub justify_of : Hash → Hash
  pub height_of : Hash → ℕ

-- `n` steps from parent to parent.
abbrev pub up : World → ℕ → Hash → Hash
up w zero k = k
up w (suc n) k = up w n (w.parent_of k)

-- The blocks that `n` such steps pass.
abbrev pub path : World → ℕ → Hash → List Hash
path w zero k = []
path w (suc n) k = k ∷ path w n (w.parent_of k)

-- `b` extends `a`, or is `a`.
pub record Follows (w : World) (b a : Hash) : Type 0 where
  pub steps : ℕ
  pub heights : w.height_of b ≡ steps + w.height_of a
  pub arrives : up w steps b ≡ a

-- Genesis, whose hash is zero, is the block of height zero, and stands for its own certificate. Each block extends the block that it
-- certifies.
pub record IsWorld (w : World) : Type 0 where
  pub step : (k : Hash) → 0 < w.height_of k → w.height_of k ≡ suc (w.height_of (w.parent_of k))
  pub genesis : w.height_of 0 ≡ 0
  pub root_justify : w.justify_of 0 ≡ 0
  pub only_genesis : (k : Hash) → w.height_of k ≡ 0 → k ≡ 0
  pub behind : (k : Hash) → 0 < w.height_of k → Follows w k (w.justify_of k)

up_add : (w : World) (n m : ℕ) (k : Hash) → up w (n + m) k ≡ up w m (up w n k)
up_add w zero m k = ap (λ i. up w i k) {x = 0 + m} {y = m} (omega arith)
up_add w (suc n) m k =
    ap (λ i. up w i k) {x = suc n + m} {y = suc (n + m)} (omega arith)
    ∙ up_add w n m (w.parent_of k)

path_add : (w : World) (n m : ℕ) (k : Hash) → path w (n + m) k ≡ path w n k ++ path w m (up w n k)
path_add w zero m k = ap (λ i. path w i k) {x = 0 + m} {y = m} (omega arith)
path_add w (suc n) m k =
    ap (λ i. path w i k) {x = suc n + m} {y = suc (n + m)} (omega arith)
    ∙ ap (λ t. k ∷ t) (path_add w n m (w.parent_of k))

module _ {w : World} where
  pub Follows-refl : (k : Hash) → Follows w k k
  Follows-refl k = record { steps = 0; heights = omega arith; arrives = refl }

  pub Follows-trans : {a b c : Hash} → Follows w c b → Follows w b a → Follows w c a
  Follows-trans {a} {b} {c} g f = record {
    steps = g.steps + f.steps;
    heights = omega (arith, f.heights, g.heights);
    arrives = up_add w g.steps f.steps c ∙ ap (up w f.steps) g.arrives ∙ f.arrives;
  }

  pub Follows-parent :
      {a b : Hash}
      → Follows w (w.parent_of b) a
      → w.height_of b ≡ suc (w.height_of (w.parent_of b))
      → Follows w b a
  Follows-parent f e = record {
    steps = suc f.steps;
    heights = omega (arith, f.heights, e);
    arrives = f.arrives;
  }

  pub Follows-same : {a b : Hash} → Follows w b a → w.height_of b ≡ w.height_of a → b ≡ a
  Follows-same {a} {b} f e =
      ap (λ n. up w n b) {x = 0} {y = f.steps} (omega (arith, f.heights, e)) ∙ f.arrives

  -- Every block extends genesis.
  pub Follows-genesis : IsWorld w → (n : ℕ) (k : Hash) → w.height_of k ≡ n → Follows w k 0
  Follows-genesis is zero k e =
      subst (λ k. Follows w k 0) (sym (is.only_genesis k e)) (Follows-refl 0)
  Follows-genesis is (suc n) k e =
      let up = is.step k (omega (arith, e)) in
      Follows-parent (Follows-genesis is n (w.parent_of k) (omega (arith, e, up))) up

  -- At one height a block has one ancestor.
  pub Follows-comparable :
      {a b c : Hash} → Follows w c a → Follows w c b → w.height_of a ≤ w.height_of b → Follows w b a
  Follows-comparable {a} {b} {c} f g le =
      let d = f.steps - g.steps in
      record {
        steps = d;
        heights = omega (arith, f.heights, g.heights, le);
        arrives =
            ap (up w d) (sym g.arrives)
            ∙ sym (up_add w g.steps d c)
            ∙ ap (λ n. up w n c) {x = g.steps + d} {y = f.steps}
                (omega (arith, f.heights, g.heights, le))
            ∙ f.arrives;
      }

  -- The way down from a block goes through those that it extends.
  pub path-Follows :
      {a b : Hash} (f : Follows w b a)
      → path w (w.height_of b) b ≡ path w f.steps b ++ path w (w.height_of a) a
  path-Follows {a} {b} f =
      ap (λ n. path w n b) f.heights
      ∙ path_add w f.steps (w.height_of a) b
      ∙ ap (λ k. path w f.steps b ++ path w (w.height_of a) k) f.arrives
