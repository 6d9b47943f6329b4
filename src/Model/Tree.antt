-- ===== src/Model/Tree.antt =====
-- model.rs: the call tree as a vector of nodes that name one another by index.
use oprofiler.Base.{ℕ, Bool, true, false, List, [], ◌∷◌, Option, none, some, get_elem?, keep}
use oprofiler.Base.Text.{Text, codes}
use oprofiler.Model.Threads.{qualified, place}

pub record CallTreeNode (F : Type 0) : Type 0 where
  pub id : ℕ
  pub parent_id : Option ℕ
  pub class_name : Text
  pub method_name : Text
  pub descriptor : Text
  pub file_name : Option Text
  pub line_number : Option ℕ
  pub self_duration_ms : F
  pub total_duration_ms : F
  pub call_count : ℕ
  pub children : List ℕ

pub record MethodEdge (F : Type 0) : Type 0 where
  pub from_id : ℕ
  pub to_id : ℕ
  pub call_count : ℕ
  pub total_duration_ms : F

pub record CallTree (F : Type 0) : Type 0 where
  pub nodes : List (CallTreeNode F)
  pub edges : List (MethodEdge F)

abbrev pub is_none {ℓ} : {A : Type ℓ} → Option A → Bool
is_none none = true
is_none (some a) = false

module _ {F : Type 0} where
  unfoldable pub node_full_name : CallTreeNode F → Text
  unfolding qualified
  node_full_name n = qualified n.class_name n.method_name n.descriptor

  unfoldable pub node_location : CallTreeNode F → Text
  unfolding place
  node_location n = place n.file_name n.line_number (codes "(Unknown Source)")

  unfoldable pub root_nodes : CallTree F → List (CallTreeNode F)
  root_nodes t = keep (λ n. is_none n.parent_id) t.nodes

  -- The nodes at the given places; `none` is the panic of an index out of bounds.
  unfoldable pub nodes_at : List (CallTreeNode F) → List ℕ → Option (List (CallTreeNode F))
  nodes_at nodes [] = some []
  nodes_at nodes (i ∷ is) = elim (get_elem? nodes i) [
    | none ↦ none
    | some n ↦ elim (nodes_at nodes is) [ none ↦ none | some rest ↦ some (n ∷ rest) ]
  ]

  unfoldable pub children_of : CallTree F → ℕ → Option (List (CallTreeNode F))
  unfolding nodes_at
  children_of t i = elim (get_elem? t.nodes i) [
    | none ↦ none
    | some n ↦ nodes_at t.nodes n.children
  ]
