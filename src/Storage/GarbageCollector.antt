-- ===== src/Storage/GarbageCollector.antt =====
-- block_storage/garbage_collector: drops the bodies of blocks below a height. A thread of its own
-- runs `run_once` for each round of `run`; `invoke_gc` and `add_block` are called by others.
pub mod Collected
use cs244b_fp.Prelude.{
  ℕ, zero, suc, Bool, true, false, Option, none, some, List, [], ◌∷◌, ◌++◌, ltb, length, Result, ok,
  err, out_of_fuel,
}
use cs244b_fp.Block.{Ptr, Heap, flush_from_memory, modify}

pub record Collector : Type 0 where
  pub hotstuff_height_to_gc : Option ℕ
  pub gc_list : List Ptr
  pub gc_list_buffer : List Ptr

unfoldable pub new_collector : Collector
new_collector = record { hotstuff_height_to_gc = none; gc_list = []; gc_list_buffer = [] }

unfoldable pub push_buffer_to_gc_list : Collector → Collector
push_buffer_to_gc_list g = record g { gc_list = g.gc_list ++ g.gc_list_buffer; gc_list_buffer = [] }

unfoldable pub exists_work_to_do : Collector → Bool
exists_work_to_do g = elim g.hotstuff_height_to_gc [ none ↦ false | some _ ↦ true ]

-- The last entry of a list that starts with `x`, and the list without it.
unfoldable pub back : Ptr → List Ptr → Ptr
back x [] = x
back x (y ∷ ys) = back y ys

unfoldable pub pop_back : Ptr → List Ptr → List Ptr
pop_back x [] = []
pop_back x (y ∷ ys) = x ∷ pop_back y ys

-- The loop of `do_gc` from the iterator on, over what is left of the list; the entries that it has
-- passed are kept. A flushed block is overwritten by the last entry, and the list gets shorter.
unfoldable pub gc_loop : ℕ → ℕ → List Ptr → Heap → Result (List Ptr × Heap)
unfolding back pop_back
gc_loop zero low rest h = err out_of_fuel
gc_loop (suc fuel) low [] h = ok ([], h)
gc_loop (suc fuel) low (blk ∷ rest) h = elim (ltb (h.cell blk).block_height low) [
  | true ↦ elim rest [
    | [] ↦ gc_loop fuel low [] (modify flush_from_memory blk h)
    | y ∷ ys ↦ gc_loop fuel low (back y ys ∷ pop_back y ys) (modify flush_from_memory blk h)
  ]
  | false ↦ elim (gc_loop fuel low rest h) [ ok (kept, h') ↦ ok (blk ∷ kept, h') | err e ↦ err e ]
]

unfoldable pub do_gc : ℕ → Collector → Heap → Result (Collector × Heap)
unfolding gc_loop
do_gc low g h = elim (gc_loop (suc (length g.gc_list)) low g.gc_list h) [
  | ok (kept, h') ↦ ok (record g { gc_list = kept }, h')
  | err e ↦ err e
]

-- One round of `run`, once woken with work to do.
unfoldable pub run_once : Collector → Heap → Result (Collector × Heap)
unfolding push_buffer_to_gc_list do_gc
run_once g h = elim g.hotstuff_height_to_gc [
  | none ↦ ok (g, h)
  | some low ↦ do_gc low (record (push_buffer_to_gc_list g) { hotstuff_height_to_gc = none }) h
]

unfoldable pub invoke_gc : ℕ → Collector → Collector
invoke_gc low g = record g { hotstuff_height_to_gc = some low }

unfoldable pub add_block : Ptr → Collector → Collector
add_block blk g = record g { gc_list_buffer = g.gc_list_buffer ++ blk ∷ [] }
