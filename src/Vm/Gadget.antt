-- ===== src/Vm/Gadget.antt =====
-- vm/speculative_exec_gadget.h: the block ids that the state machine has executed, or is to execute,
-- ahead of commitment, by height. The mutex is left out. An iterator into the forward list is the
-- position of its node; `end()` is `none`.
pub mod Fifo
use cs244b_fp.Prelude.{
  ℕ, zero, suc, ◌+◌, ◌%◌, ◌^◌, Bool, true, false, not, Option, none, some, List, [], ◌∷◌, ◌==◌,
  if◌then◌else◌, Result, ok, err, empty_gadget, commit_gap,
}

pub record Gadget (V : Type 0) : Type 0 where
  pub height_map : List (ℕ × V)
  pub last_elt_iter : Option ℕ
  pub speculation_head_hotstuff_height : ℕ
  pub highest_committed_height : ℕ

-- The position of a node after the first node is erased.
abbrev pub moved : Option ℕ → Option ℕ
moved none = none
moved (some zero) = none
moved (some (suc i)) = some i

module _ {V : Type 0} where
  unfoldable pub new_gadget : Gadget V
  new_gadget = record {
    height_map = [];
    last_elt_iter = none;
    speculation_head_hotstuff_height = 1;
    highest_committed_height = 0;
  }

  unfoldable pub empty : Gadget V → Bool
  empty g = elim g.last_elt_iter [ none ↦ true | some _ ↦ false ]

  -- `forward_list::insert_after`.
  unfoldable pub insert_after : ℕ → ℕ × V → List (ℕ × V) → List (ℕ × V)
  insert_after i x [] = x ∷ []
  insert_after zero x (y ∷ ys) = y ∷ x ∷ ys
  insert_after (suc i) x (y ∷ ys) = y ∷ insert_after i x ys

  unfoldable pub add_height_pair : ℕ → V → Gadget V → Gadget V
  unfolding insert_after
  add_height_pair hotstuff_height vm_value g =
      if not (g.speculation_head_hotstuff_height == hotstuff_height)
      then g
      else elim g.last_elt_iter [
        | none ↦ record g {
          speculation_head_hotstuff_height = (g.speculation_head_hotstuff_height + 1) % 2 ^ 64;
          height_map = (hotstuff_height, vm_value) ∷ g.height_map;
          last_elt_iter = some 0;
        }
        | some i ↦ record g {
          speculation_head_hotstuff_height = (g.speculation_head_hotstuff_height + 1) % 2 ^ 64;
          height_map = insert_after i (hotstuff_height, vm_value) g.height_map;
          last_elt_iter = some (suc i);
        }
      ]

  unfoldable pub on_commit_hotstuff : ℕ → Gadget V → Result (V × Gadget V)
  unfolding empty
  on_commit_hotstuff hotstuff_height g = if empty g then err empty_gadget else elim g.height_map [
    | [] ↦ err empty_gadget
    | front ∷ rest ↦
        if not (hotstuff_height == front.0)
        then err commit_gap
        else ok (
          front.1,
          record g {
            height_map = rest;
            highest_committed_height = front.0;
            last_elt_iter = elim rest [ [] ↦ none | _ ∷ _ ↦ moved g.last_elt_iter ];
          },
        )
  ]

  unfoldable pub clear : Gadget V → Gadget V
  clear g = record g {
    height_map = [];
    last_elt_iter = none;
    speculation_head_hotstuff_height = (g.highest_committed_height + 1) % 2 ^ 64;
  }

  unfoldable pub init_from_disk : ℕ → Gadget V → Gadget V
  unfolding clear
  init_from_disk highest_decided_height g =
      clear (record g { highest_committed_height = highest_decided_height })

  unfoldable pub get_lowest_speculative_hotstuff_height : Gadget V → Result (ℕ × V)
  unfolding empty
  get_lowest_speculative_hotstuff_height g =
      if empty g
      then err empty_gadget
      else elim g.height_map [ [] ↦ err empty_gadget | front ∷ _ ↦ ok front ]
