-- ===== src/CallTree/Children.antt =====
-- model.rs and crates/tui/src/call_tree.rs: the children of a node of a tree that was built.
use oprofiler.Base.{
  ℕ, zero, suc, ◌<◌, ◌≡◌, refl, List, [], ◌∷◌, Option, none, some, length, arith, All, get_elem?,
  Option-cases, inl, inr, subst,
}
use oprofiler.Base.Text.{Text}
use oprofiler.Model.Floats.{Host}
use oprofiler.Model.Threads.{StackSample}
use oprofiler.Model.Tree.{CallTreeNode, children_of, nodes_at}
use oprofiler.CallTree.{CallTreeConfig, build_call_tree}
use oprofiler.CallTree.Shape.{Under, ArePlaced}
use oprofiler.CallTree.Built.{build_call_tree-ArePlaced}

module _ {F : Type 0} where
  -- The lookup returns that many nodes.
  abbrev pub Finds : ℕ → Option (List (CallTreeNode F)) → Type 0
  Finds n none = ⊥
  Finds n (some nodes) = length nodes ≡ n

  get_elem?-Some :
      (nodes : List (CallTreeNode F)) (i : ℕ) → get_elem? nodes i ≡ none → i < length nodes → ⊥
  get_elem?-Some [] i e lt = omega arith
  get_elem?-Some (node ∷ rest) zero e lt = ground arith
  get_elem?-Some (node ∷ rest) (suc i) e lt = get_elem?-Some rest i e (omega arith)

  get_elem?-ArePlaced :
      (n start : ℕ) (nodes : List (CallTreeNode F)) (i : ℕ) (node : CallTreeNode F)
      → ArePlaced n start nodes
      → get_elem? nodes i ≡ some node
      → All (Under n) node.children
  get_elem?-ArePlaced n start [] i node a e = absurd (ground arith)
  get_elem?-ArePlaced n start (m ∷ rest) zero node ((id, parent, children), a) e =
      subst (λ o. elim o as (λ _. Type 0) [ none ↦ Unit {0} | some k ↦ All (Under n) k.children ]) e
        children
  get_elem?-ArePlaced n start (m ∷ rest) (suc i) node (p, a) e =
      get_elem?-ArePlaced n (suc start) rest i node a e

  nodes_at-Finds :
      (nodes : List (CallTreeNode F)) (is : List ℕ)
      → All (Under (length nodes)) is
      → Finds (length is) (nodes_at nodes is)
  unfolding nodes_at
  nodes_at-Finds nodes [] a = refl
  nodes_at-Finds nodes (i ∷ is) (lt, a) = elim (Option-cases (get_elem? nodes i)) [
    | inl e ↦ absurd (get_elem?-Some nodes i e lt)
    | inr (node, e) ↦ ground (arith, nodes_at-Finds nodes is a)
  ]

module _ {F : Type 0} (host : Host F) (config : CallTreeConfig F) where
  -- In a tree that was built, asking a node for its children never runs out of bounds: it returns as
  -- many nodes as the node has children.
  pub children_of-Finds :
      (samples : List (StackSample F)) (thread_filter : Text) (i : ℕ) (node : CallTreeNode F)
      → get_elem? (build_call_tree host config samples thread_filter).nodes i ≡ some node
      → Finds
          (length node.children)
          (children_of (build_call_tree host config samples thread_filter) i)
  unfolding children_of
  children_of-Finds samples thread_filter i node e =
      let tree = build_call_tree host config samples thread_filter in
      let (placed, joined) = build_call_tree-ArePlaced host config samples thread_filter in
      rw (e, children_of)
        (nodes_at-Finds tree.nodes node.children
          (get_elem?-ArePlaced (length tree.nodes) 0 tree.nodes i node placed e))
