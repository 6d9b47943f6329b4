-- ===== src/Protocol/Rows/Depth.antt =====
-- protocol.rs: how deep an allocation node is taken to lie.
use oprofiler.Base.{
  ℕ, zero, suc, ◌+◌, ◌≤◌, ◌≡◌, ◌∙◌, true, false, ℤ, List, Option, none, some, arith, min, is_nonneg,
  eq_ℤ, find_first, Bool-cases, Option-cases, inl, inr,
}
use oprofiler.Protocol.Messages.{AllocationTreeNode}
use oprofiler.Protocol.Rows.{depth_rounds, allocation_depth}

-- The first node with an id.
abbrev pub node_of : ℤ → List AllocationTreeNode → Option AllocationTreeNode
node_of id nodes = find_first (λ node. eq_ℤ node.id id) nodes

-- The chain of parents from an id upwards has a length: it ends at a negative id, or after an id
-- that no node has.
pub data Chain (nodes : List AllocationTreeNode) : ℤ → ℕ → Type 0 where
  top : (id : ℤ) → is_nonneg id ≡ false → Chain nodes id 0
  lost : (id : ℤ) → is_nonneg id ≡ true → node_of id nodes ≡ none → Chain nodes id 1
  under :
      (id : ℤ) (parent : AllocationTreeNode) (n : ℕ)
      → is_nonneg id ≡ true
      → node_of id nodes ≡ some parent
      → Chain nodes parent.parent_id n
      → Chain nodes id (suc n)

depth_rounds-Chain :
    (nodes : List AllocationTreeNode) (rounds depth : ℕ) (id : ℤ) (n : ℕ)
    → Chain nodes id n
    → depth_rounds rounds depth id nodes ≡ depth + min n rounds
unfolding depth_rounds
depth_rounds-Chain nodes zero depth id n c = omega arith
depth_rounds-Chain nodes (suc rounds) depth _ _ (top id e) = rw e (omega arith)
depth_rounds-Chain nodes (suc rounds) depth _ _ (lost id e f) = rw (e, f) (omega arith)
depth_rounds-Chain nodes (suc rounds) depth _ _ (under id parent n e f c) =
    rw (e, f) (omega (arith, depth_rounds-Chain nodes rounds (depth + 1) parent.parent_id n c))

depth_rounds-le :
    (nodes : List AllocationTreeNode) (rounds depth : ℕ) (id : ℤ)
    → depth_rounds rounds depth id nodes ≤ depth + rounds
unfolding depth_rounds
depth_rounds-le nodes zero depth id = omega arith
depth_rounds-le nodes (suc rounds) depth id = elim (Bool-cases (is_nonneg id)) [
  | inr e ↦ rw e (omega arith)
  | inl e ↦ elim (Option-cases (node_of id nodes)) [
    | inl f ↦ rw (e, f) (omega arith)
    | inr (parent, f) ↦
        rw (e, f) (omega (arith, depth_rounds-le nodes rounds (depth + 1) parent.parent_id))
  ]
]

-- The depth of a node is the length of its chain of parents, cut at 16; and it is at most 16 also
-- where the parents run in a circle.
pub allocation_depth-Chain :
    (nodes : List AllocationTreeNode) (id : ℤ)
    → (allocation_depth id nodes ≤ 16)
      × ((n : ℕ) → Chain nodes id n → allocation_depth id nodes ≡ min n 16)
unfolding allocation_depth
allocation_depth-Chain nodes id =
    (depth_rounds-le nodes 16 0 id, λ n c. depth_rounds-Chain nodes 16 0 id n c ∙ omega arith)
