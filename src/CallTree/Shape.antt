-- ===== src/CallTree/Shape.antt =====
-- crates/tui/src/call_tree.rs: the shape of the tree that is built. Indices that the builder keeps
-- are indices of nodes, so that no lookup of a child or an edge's end goes out of bounds.
use oprofiler.Base.{
  ℕ, zero, suc, ◌+◌, ◌<◌, ◌≡◌, refl, List, [], ◌∷◌, ◌++◌, Option, none, some, length, arith, All,
  subst,
}
use oprofiler.Seq.{All-append}
use oprofiler.Base.Text.{Text, text_eq}
use oprofiler.Base.Maps.{lookup, insert}
use oprofiler.Model.Tree.{CallTreeNode, MethodEdge}
use oprofiler.CallTree.{Builder, update_node, update_edge, adopt}

-- The parent of a node, if it has one, is below a bound.
abbrev ParentBelow : ℕ → Option ℕ → Type 0
ParentBelow n none = Unit {0}
ParentBelow n (some p) = p < n

abbrev pub Under : ℕ → ℕ → Type 0
Under n i = i < n

abbrev pub Known : ℕ → List (Text × ℕ) → Type 0
Known n [] = Unit {0}
Known n ((key, i) ∷ rest) = (i < n) × Known n rest

All-weaken : (n : ℕ) (is : List ℕ) → All (Under n) is → All (Under (suc n)) is
All-weaken n [] a = tt
All-weaken n (i ∷ is) (lt, a) = (omega arith, All-weaken n is a)

Known-weaken : (n : ℕ) (m : List (Text × ℕ)) → Known n m → Known (suc n) m
Known-weaken n [] b = tt
Known-weaken n ((k, i) ∷ rest) (lt, below) = (omega arith, Known-weaken n rest below)

pub lookup-Known :
    (n : ℕ) (m : List (Text × ℕ)) (key : Text) (i : ℕ)
    → Known n m
    → lookup text_eq key m ≡ some i
    → i < n
unfolding lookup
lookup-Known n [] key i b e = absurd (ground arith)
lookup-Known n ((k, j) ∷ rest) key i (lt, below) e = ground (arith, lookup-Known n rest key i below)

pub insert-Known :
    (n : ℕ) (m : List (Text × ℕ)) (key : Text) → Known n m → Known (suc n) (insert text_eq key n m)
unfolding insert
insert-Known n [] key b = (omega arith, tt)
insert-Known n ((k, i) ∷ rest) key (lt, below) =
    ground (arith, insert-Known n rest key below, Known-weaken n rest below)

module _ {F : Type 0} where
  -- A node at place `i` of `n` nodes: its id is its place, its parent stands before it, and its
  -- children are nodes.
  abbrev pub IsPlaced : ℕ → ℕ → CallTreeNode F → Type 0
  IsPlaced n i node = (node.id ≡ i) × ParentBelow i node.parent_id × All (Under n) node.children

  abbrev pub ArePlaced : ℕ → ℕ → List (CallTreeNode F) → Type 0
  ArePlaced n i [] = Unit {0}
  ArePlaced n i (node ∷ rest) = IsPlaced n i node × ArePlaced n (suc i) rest

  abbrev pub Joins : ℕ → MethodEdge F → Type 0
  Joins n e = (e.from_id < n) × (e.to_id < n)

  pub ArePlaced-weaken :
      (n i : ℕ) (nodes : List (CallTreeNode F)) → ArePlaced n i nodes → ArePlaced (suc n) i nodes
  ArePlaced-weaken n i [] a = tt
  ArePlaced-weaken n i (node ∷ rest) ((id, parent, children), a) =
      ((id, parent, All-weaken n node.children children), ArePlaced-weaken n (suc i) rest a)

  pub ArePlaced-append :
      (n i : ℕ) (nodes : List (CallTreeNode F)) (node : CallTreeNode F)
      → ArePlaced n i nodes
      → IsPlaced n (i + length nodes) node
      → ArePlaced n i (nodes ++ node ∷ [])
  ArePlaced-append n i [] node a p = (subst (λ k. IsPlaced n k node) (omega arith) p, tt)
  ArePlaced-append n i (m ∷ rest) node (q, a) p =
      (q, ArePlaced-append n (suc i) rest node a (subst (λ k. IsPlaced n k node) (omega arith) p))

  pub ArePlaced-update :
      (n i : ℕ) (f : CallTreeNode F → CallTreeNode F)
      → ((k : ℕ) (node : CallTreeNode F) → IsPlaced n k node → IsPlaced n k (f node))
      → (nodes : List (CallTreeNode F)) (at : ℕ) → ArePlaced n i nodes
      → ArePlaced n i (update_node nodes at f)
  unfolding update_node
  ArePlaced-update n i f keeps [] at a = tt
  ArePlaced-update n i f keeps (node ∷ rest) zero (q, a) = (keeps i node q, a)
  ArePlaced-update n i f keeps (node ∷ rest) (suc at) (q, a) =
      (q, ArePlaced-update n (suc i) f keeps rest at a)

  pub length-update_node :
      (f : CallTreeNode F → CallTreeNode F) (nodes : List (CallTreeNode F)) (at : ℕ)
      → length (update_node nodes at f) ≡ length nodes
  unfolding update_node
  length-update_node f [] at = refl
  length-update_node f (node ∷ rest) zero = refl
  length-update_node f (node ∷ rest) (suc at) = omega (arith, length-update_node f rest at)

  pub adopt-IsPlaced :
      (n k child : ℕ) (node : CallTreeNode F)
      → child < n
      → IsPlaced n k node
      → IsPlaced n k (adopt child node)
  adopt-IsPlaced n k child node lt (id, parent, children) =
      let more = All-append (Under n) node.children (child ∷ []) children (lt, tt) in
      ground (arith, more)

  pub Joins-weaken :
      (n : ℕ) (edges : List (MethodEdge F)) → All (Joins n) edges → All (Joins (suc n)) edges
  Joins-weaken n [] a = tt
  Joins-weaken n (e ∷ edges) ((from, to), a) = ((omega arith, omega arith), Joins-weaken n edges a)

  pub Joins-update :
      (n : ℕ) (f : MethodEdge F → MethodEdge F)
      → ((e : MethodEdge F) → Joins n e → Joins n (f e))
      → (edges : List (MethodEdge F)) (at : ℕ) → All (Joins n) edges
      → All (Joins n) (update_edge edges at f)
  unfolding update_edge
  Joins-update n f keeps [] at a = tt
  Joins-update n f keeps (e ∷ edges) zero (j, a) = (keeps e j, a)
  Joins-update n f keeps (e ∷ edges) (suc at) (j, a) = (j, Joins-update n f keeps edges at a)

  -- The builder between two frames.
  pub record IsBuilt (b : Builder F) : Type 0 where
    pub placed : ArePlaced (length b.nodes) 0 b.nodes
    pub known : Known (length b.nodes) b.node_map
    pub joined : All (Joins (length b.nodes)) b.edges
    pub rooted : 0 < length b.nodes
