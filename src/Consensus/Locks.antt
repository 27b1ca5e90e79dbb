-- ===== src/Consensus/Locks.antt =====
-- What `update` does to the lock, and which blocks it decides.
use mathlib.Core.Path.{subst}
use mathlib.Core.Option.{some-injective}
use cs244b_fp.Prelude.{
  ℕ, suc, ◌≤◌, ◌≡◌, refl, sym, ap, ◌∙◌, inl, inr, ◌⊎◌, true, some, List, [], ◌∷◌, arith, ltb,
  Bool-cases, Option-cases, ◌==◌, ==_iff, All, Result, ok, err, if◌then◌else◌, ◌>>=◌,
}
use cs244b_fp.Crypto.Certs.{serialize}
use cs244b_fp.Block.{Ptr, Heap, modify, decide, get_justify_qc}
use cs244b_fp.Block.Shape.{IsLinked, IsLinked-same, Line}
use cs244b_fp.Block.Disk.{is_decided, write_to_disk-Written}
use cs244b_fp.Consensus.{
  Core, height, points_to, update_hqc, decide_queue, finish_commit, commit_chain, open_txn,
  update_commit, lock_and_write, update_lock, update, save_blocks, notify_vm_of_qc_on_nonself_block,
}
use cs244b_fp.Consensus.Walk.{walk_down_total}
use cs244b_fp.Consensus.ThreeChain.{HasQc, HasQc-same, decide_queue-Decided}
use cs244b_fp.Consensus.Counting.{AfterOk}
use cs244b_fp.Consensus.Commit.{points_to-some}

-- Decided blocks are no higher than the lock.
abbrev pub DecidedBelowLock : Core → Type 0
DecidedBelowLock c = (x : Ptr) → is_decided c.heap x ≡ true → height c x ≤ height c c.b_lock

-- A move that leaves the lock and decides only blocks up to a height.
record Decides (n : ℕ) (c d : Core) : Type 0 where
  same_lock : d.b_lock ≡ c.b_lock
  decided_up_to :
      (x : Ptr) → is_decided d.heap x ≡ true → (is_decided c.heap x ≡ true) ⊎ (height c x ≤ n)

Decides-none : (n : ℕ) (c : Core) → Decides n c c
Decides-none n c = record { same_lock = refl; decided_up_to = λ x e. inl e }

raise : {n m : ℕ} {c d : Core} → Decides n c d → n ≤ m → Decides m c d
raise s le = record {
  same_lock = s.same_lock;
  decided_up_to = λ x e. elim (s.decided_up_to x e) [
    | inl old ↦ inl old
    | inr low ↦ inr (omega (arith, low, le))
  ];
}

pub AfterOk-map :
    (P Q : Core → Type 0) (r : Result Core) → ((d : Core) → P d → Q d) → AfterOk P r → AfterOk Q r
AfterOk-map P Q (ok d) f p = f d p
AfterOk-map P Q (err x) f p = tt

decide_queue-Decides :
    (n : ℕ) (queue : List Ptr) (c : Core)
    → All (λ b. height c b ≤ n) queue
    → Decides n c (decide_queue queue c)
unfolding decide_queue decide modify
decide_queue-Decides n [] c low = Decides-none n c
decide_queue-Decides n (b ∷ queue) c low =
    let rest = decide_queue-Decides n queue c low.1 in
    record {
      same_lock = rest.same_lock;
      decided_up_to = λ x e. elim (Bool-cases (b == x)) [
        | inl here ↦ inr (omega (arith, low.0, ap (height c) ((==_iff b x).0 here)))
        | inr other ↦ rest.decided_up_to x (ground (arith, e, other))
      ];
    }

Line-below :
    (h : Heap) (a : Ptr) (xs : List Ptr) (b : Ptr)
    → IsLinked h
    → Line h a xs b
    → All (λ x. (h.cell x).block_height ≤ (h.cell b).block_height) xs
Line-below h a xs b l line = at xs b line (h.cell b).block_height (omega arith)
  where
    at :
        (xs : List Ptr) (b : Ptr)
        → Line h a xs b
        → (n : ℕ) → (h.cell b).block_height ≤ n
        → All (λ x. (h.cell x).block_height ≤ n) xs
    at [] b line n le = tt
    at (x ∷ xs) b (q, e, p, line) n le =
        let here : (h.cell x).block_height ≤ n =
          omega (arith, le, ap (λ z. (h.cell z).block_height) e) in
        (here, at xs q line n (omega (arith, here, l.step x q p)))

commit_chain-Decides :
    (blk1 blk : Ptr) (c : Core)
    → IsLinked c.heap
    → HasQc c.heap
    → (c.heap.cell blk1).justify_block_ptr ≡ some blk
    → AfterOk (Decides (height c blk) c) (commit_chain blk1 blk c)
unfolding commit_chain finish_commit get_justify_qc
commit_chain-Decides blk1 blk c l q j =
    let (queue, end, e, s) =
      walk_down_total (suc (height c blk)) c.heap (height c c.b_exec) blk l (omega arith) in
    elim (Bool-cases (end == c.b_exec)) [
      | inr other ↦ rw (e, other, commit_chain) tt
      | inl met ↦
          let opened = record c { trace = open_txn ∷ c.trace } in
          let did = decide_queue-Decided queue opened in
          let (qc, f) = HasQc-same did.tree q blk1 blk (did.tree.same_justify blk1 ∙ j) in
          let marks =
            decide_queue-Decides (height c blk) queue opened
              (Line-below c.heap end queue blk l s.line) in
          rw (e, met, f, commit_chain, get_justify_qc)
            (record { same_lock = marks.same_lock; decided_up_to = marks.decided_up_to })
    ]

update_commit-Decides :
    (blk2 blk1 : Ptr) (c : Core)
    → IsLinked c.heap
    → HasQc c.heap
    → AfterOk (Decides (height c blk1) c) (update_commit blk2 blk1 c)
unfolding update_commit
update_commit-Decides blk2 blk1 c l q = elim (Option-cases (c.heap.cell blk1).justify_block_ptr) [
  | inl last ↦ rw (last, update_commit) (Decides-none (height c blk1) c)
  | inr (blk, j) ↦ elim (Bool-cases (c.heap.cell blk).decided) [
    | inl old ↦ rw (j, old, update_commit) (Decides-none (height c blk1) c)
    | inr new ↦ elim (Bool-cases (points_to (c.heap.cell blk2).parent_block_ptr blk1)) [
      | inr apart ↦ rw (j, new, apart, update_commit) (Decides-none (height c blk1) c)
      | inl p2 ↦ elim (Bool-cases (points_to (c.heap.cell blk1).parent_block_ptr blk)) [
        | inr apart ↦ rw (j, new, p2, apart, update_commit) (Decides-none (height c blk1) c)
        | inl p1 ↦
            let up = l.step blk1 blk (points_to-some _ blk p1) in
            rw (j, new, p2, p1, update_commit)
              (AfterOk-map (Decides (height c blk) c) (Decides (height c blk1) c)
                (commit_chain blk1 blk c) (λ d m. raise m (omega (arith, up)))
                (commit_chain-Decides blk1 blk c l q j))
      ]
    ]
  ]
]

-- What `update` on a block that certifies `blk2` leaves: the lock is the old one or the block that
-- `blk2` certifies, and is no lower than these; no decided block is above it.
pub record Guards (blk2 : Ptr) (c d : Core) : Type 0 where
  pub lock_from :
      (d.b_lock ≡ c.b_lock)
      ⊎ ((i : Ptr) × ((c.heap.cell blk2).justify_block_ptr ≡ some i) × (d.b_lock ≡ i))
  pub rises : height c c.b_lock ≤ height c d.b_lock
  pub covers :
      (i : Ptr) → (c.heap.cell blk2).justify_block_ptr ≡ some i → height c i ≤ height c d.b_lock
  pub decided_low : (x : Ptr) → is_decided d.heap x ≡ true → height c x ≤ height c d.b_lock

lock_and_write-Guards :
    (blk2 blk1 : Ptr) (c : Core)
    → IsLinked c.heap
    → HasQc c.heap
    → DecidedBelowLock c
    → (c.heap.cell blk2).justify_block_ptr ≡ some blk1
    → AfterOk (Guards blk2 c) (lock_and_write blk1 c >>= update_commit blk2 blk1)
unfolding lock_and_write
lock_and_write-Guards blk2 blk1 c l q low j =
    let lock = if ltb (height c c.b_lock) (height c blk1) then blk1 else c.b_lock in
    let (saved, g, e, w) = write_to_disk-Written lock c.heap l in
    let c' : Core = record c { b_lock = lock; heap = g; trace = save_blocks saved ∷ c.trace } in
    let locked : height c blk1 ≤ height c lock = ground arith in
    let rises : height c c.b_lock ≤ height c lock = ground arith in
    let from : (lock ≡ c.b_lock) ⊎ (lock ≡ blk1) = ground arith in
    rw (e, lock_and_write)
      (AfterOk-map (Decides (height c' blk1) c') (Guards blk2 c) (update_commit blk2 blk1 c')
        (λ d m. record {
          lock_from = elim from [
            | inl old ↦ inl (m.same_lock ∙ old)
            | inr new ↦ inr (blk1, j, m.same_lock ∙ new)
          ];
          rises = omega (arith, rises, ap (height c) m.same_lock);
          covers = λ i k. omega (
            arith,
            locked,
            ap (height c) m.same_lock,
            ap (height c) (some-injective blk1 i (sym j ∙ k)),
          );
          decided_low = λ x k. elim (m.decided_up_to x k) [
            | inl old ↦
                omega (arith, low x (sym (w.decisions x) ∙ old), rises, ap (height c) m.same_lock)
            | inr under ↦ omega (
              arith,
              under,
              locked,
              w.shape.same_height x,
              w.shape.same_height blk1,
              ap (height c) m.same_lock,
            )
          ];
        })
        (update_commit-Decides blk2 blk1 c' (IsLinked-same w.shape l) (HasQc-same w.shape q)))

Guards-none :
    (blk2 : Ptr) (c : Core)
    → DecidedBelowLock c
    → ((i : Ptr) → (c.heap.cell blk2).justify_block_ptr ≡ some i → height c i ≤ height c c.b_lock)
    → Guards blk2 c c
Guards-none blk2 c low covers = record {
  lock_from = inl refl;
  rises = omega arith;
  covers = covers;
  decided_low = low;
}

update_lock-Guards :
    (blk2 : Ptr) (c : Core)
    → IsLinked c.heap
    → HasQc c.heap
    → DecidedBelowLock c
    → AfterOk (Guards blk2 c) (update_lock blk2 c)
unfolding update_lock
update_lock-Guards blk2 c l q low = elim (Option-cases (c.heap.cell blk2).justify_block_ptr) [
  | inl last ↦ rw (last, update_lock) (Guards-none blk2 c low (λ i e. cc))
  | inr (blk1, j1) ↦ elim (Bool-cases (c.heap.cell blk1).decided) [
    | inl old ↦
        rw (j1, old, update_lock)
          (Guards-none blk2 c low (λ i e.
            subst (λ x. height c x ≤ height c c.b_lock) (some-injective blk1 i (sym j1 ∙ e))
              (low blk1 old)))
    | inr new ↦ rw (j1, new, update_lock) (lock_and_write-Guards blk2 blk1 c l q low j1)
  ]
]

-- A block is no lower than the block that it certifies.
abbrev pub JustifyBelow : Heap → Type 0
JustifyBelow h =
    (p j : Ptr)
    → (h.cell p).justify_block_ptr ≡ some j
    → (h.cell j).block_height ≤ (h.cell p).block_height

pub update-Guards :
    (nblk blk2 : Ptr) (c : Core)
    → IsLinked c.heap
    → HasQc c.heap
    → JustifyBelow c.heap
    → DecidedBelowLock c
    → (c.heap.cell nblk).justify_block_ptr ≡ some blk2
    → AfterOk (Guards blk2 c) (update nblk c)
unfolding update update_hqc get_justify_qc
update-Guards nblk blk2 c l q below low j2 = elim (Bool-cases (c.heap.cell blk2).decided) [
  | inl old ↦
      rw (j2, old, update)
        (Guards-none blk2 c low (λ i e. omega (arith, below blk2 i e, low blk2 old)))
  | inr new ↦
      let (qc, f) = q nblk blk2 j2 in
      elim (Bool-cases (ltb (height c c.hqc_block) (height c blk2))) [
        | inr same ↦ rw (j2, new, f, update, same) (update_lock-Guards blk2 c l q low)
        | inl higher ↦
            let c' : Core = record c {
              hqc_block = blk2;
              hqc_wire = serialize qc;
              b_leaf = blk2;
              trace =
                  if (c.heap.cell blk2).proposer == c.self_id
                  then c.trace
                  else notify_vm_of_qc_on_nonself_block blk2 ∷ c.trace;
            } in
            rw (j2, new, f, update, higher)
              (AfterOk-map (Guards blk2 c') (Guards blk2 c) (update_lock blk2 c')
                (λ d m. record {
                  lock_from = m.lock_from;
                  rises = m.rises;
                  covers = m.covers;
                  decided_low = m.decided_low;
                })
                (update_lock-Guards blk2 c' l q low))
      ]
]
