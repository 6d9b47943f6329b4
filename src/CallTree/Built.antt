-- ===== src/CallTree/Built.antt =====
-- crates/tui/src/call_tree.rs: building the tree keeps its shape, frame by frame.
use oprofiler.Base.{
  ℕ, suc, ◌+◌, ◌-◌, ◌≤◌, ◌<◌, ◌≡◌, refl, Bool, not, ◌&&◌, List, [], ◌∷◌, ◌++◌, length, arith,
  Option-cases, Bool-cases, inl, inr, ◌==◌, All, keep, reverse, length-append, subst, sym,
}
use oprofiler.Seq.{All-append}
use oprofiler.Base.Text.{Text, text_eq}
use oprofiler.Base.Maps.{lookup, insert}
use oprofiler.Model.Floats.{Host}
use oprofiler.Model.Threads.{StackTraceElement, StackSample}
use oprofiler.Model.Tree.{CallTreeNode}
use oprofiler.CallTree.{
  CallTreeConfig, Builder, root_id, frame_key, update_node, adopt, count_sample, new_node,
  enter_frame, count_edge, walk_frames, is_skipped, is_frame, add_samples, start_builder,
  build_call_tree, same_pair,
}
use oprofiler.CallTree.Shape.{
  ArePlaced, Joins, Known, IsBuilt, ArePlaced-weaken, ArePlaced-append, ArePlaced-update,
  length-update_node, adopt-IsPlaced, Joins-weaken, Joins-update, lookup-Known, insert-Known,
}

module _ {F : Type 0} (host : Host F) (config : CallTreeConfig F) where
  met_again :
      (b : Builder F) (idx : ℕ) (is_leaf : Bool)
      → IsBuilt b
      → IsBuilt (record b { nodes = update_node b.nodes idx (count_sample host config is_leaf) })
  met_again b idx is_leaf v =
      let same = length-update_node (count_sample host config is_leaf) b.nodes idx in
      record {
        placed =
            subst (λ n. ArePlaced n 0 (update_node b.nodes idx (count_sample host config is_leaf)))
              (sym same)
              (ArePlaced-update (length b.nodes) 0 (count_sample host config is_leaf)
                (λ k node p. p) b.nodes idx v.placed);
        known = subst (λ n. Known n b.node_map) (sym same) v.known;
        joined = subst (λ n. All (Joins n) b.edges) (sym same) v.joined;
        rooted = omega (arith, same, v.rooted);
      }

  abbrev grown : Builder F → ℕ → Bool → StackTraceElement → List (CallTreeNode F)
  grown b parent is_leaf frame =
      update_node (b.nodes ++ new_node host config (length b.nodes) parent is_leaf frame ∷ [])
        parent (adopt (length b.nodes))

  length-grown :
      (b : Builder F) (parent : ℕ) (is_leaf : Bool) (frame : StackTraceElement)
      → length (grown b parent is_leaf frame) ≡ suc (length b.nodes)
  length-grown b parent is_leaf frame =
      let node = new_node host config (length b.nodes) parent is_leaf frame in
      omega (
        arith,
        length-update_node (adopt (length b.nodes)) (b.nodes ++ node ∷ []) parent,
        length-append b.nodes (node ∷ []),
      )

  met_first :
      (b : Builder F) (parent : ℕ) (is_leaf : Bool) (frame : StackTraceElement)
      → parent < length b.nodes
      → IsBuilt b
      → IsBuilt (record b {
        nodes = grown b parent is_leaf frame;
        node_map = insert text_eq (frame_key frame) (length b.nodes) b.node_map;
      })
  met_first b parent is_leaf frame lt v =
      let n = length b.nodes in
      let longer = length-grown b parent is_leaf frame in
      let node = new_node host config n parent is_leaf frame in
      record {
        placed =
            subst (λ k. ArePlaced k 0 (grown b parent is_leaf frame)) (sym longer)
              (ArePlaced-update (suc n) 0 (adopt n)
                (λ k m p. adopt-IsPlaced (suc n) k n m (omega arith) p) (b.nodes ++ node ∷ [])
                parent
                (ArePlaced-append (suc n) 0 b.nodes node (ArePlaced-weaken n 0 b.nodes v.placed)
                  (omega arith, omega arith, tt)));
        known =
            subst (λ k. Known k (insert text_eq (frame_key frame) n b.node_map)) (sym longer)
              (insert-Known n b.node_map (frame_key frame) v.known);
        joined = subst (λ k. All (Joins k) b.edges) (sym longer) (Joins-weaken n b.edges v.joined);
        rooted = omega (arith, longer);
      }

  -- A frame leaves the builder well-formed, with a place for the frame's method.
  abbrev Entered : Builder F × ℕ → Builder F → Type 0
  Entered (after, node) b =
      IsBuilt after × (node < length after.nodes) × (length b.nodes ≤ length after.nodes)

  enter_frame-Entered :
      (b : Builder F) (parent : ℕ) (is_leaf : Bool) (frame : StackTraceElement)
      → parent < length b.nodes
      → IsBuilt b
      → Entered (enter_frame host config b parent is_leaf frame) b
  unfolding enter_frame
  enter_frame-Entered b parent is_leaf frame lt v =
      elim (Option-cases (lookup text_eq (frame_key frame) b.node_map)) [
        | inl e ↦
            let longer = length-grown b parent is_leaf frame in
            rw (e, enter_frame)
              (met_first b parent is_leaf frame lt v, omega (arith, longer), omega (arith, longer))
        | inr (idx, e) ↦
            let same = length-update_node (count_sample host config is_leaf) b.nodes idx in
            let known = lookup-Known (length b.nodes) b.node_map (frame_key frame) idx v.known e in
            rw (e, enter_frame)
              (met_again b idx is_leaf v, omega (arith, same, known), omega (arith, same))
      ]

  counted_edge :
      (b : Builder F) (parent node : ℕ)
      → parent < length b.nodes
      → node < length b.nodes
      → IsBuilt b
      → IsBuilt (count_edge host config b parent node)
        × (length (count_edge host config b parent node).nodes ≡ length b.nodes)
  unfolding count_edge
  counted_edge b parent node lt lt' v =
      elim (Bool-cases (not (parent == root_id) && not (parent == node))) [
        | inr e ↦ rw e (v, refl)
        | inl e ↦ elim (Option-cases (lookup same_pair (parent, node) b.edge_map)) [
          | inl f ↦
              rw (e, f)
                (
                  record {
                    placed = v.placed;
                    known = v.known;
                    joined = All-append (Joins (length b.nodes)) b.edges _ v.joined ((lt, lt'), tt);
                    rooted = v.rooted;
                  },
                  refl,
                )
          | inr (edge, f) ↦
              rw (e, f)
                (
                  record {
                    placed = v.placed;
                    known = v.known;
                    joined = Joins-update (length b.nodes) _ (λ d j. j) b.edges edge v.joined;
                    rooted = v.rooted;
                  },
                  refl,
                )
        ]
      ]

  walk_frames-IsBuilt :
      (total i parent : ℕ) (frames : List StackTraceElement) (b : Builder F)
      → parent < length b.nodes
      → IsBuilt b
      → IsBuilt (walk_frames host config total i parent frames b)
  unfolding walk_frames
  walk_frames-IsBuilt total i parent [] b lt v = v
  walk_frames-IsBuilt total i parent (frame ∷ rest) b lt v =
      let (entered, inside, grows) = enter_frame-Entered b parent (i == total - 1) frame lt v in
      let (counted, same) = counted_edge _ parent _ (omega (arith, grows, lt)) inside entered in
      walk_frames-IsBuilt total (i + 1) _ rest _ (omega (arith, inside, same)) counted

  add_samples-IsBuilt :
      (thread_filter : Text) (samples : List (StackSample F)) (b : Builder F)
      → IsBuilt b
      → IsBuilt (add_samples host config thread_filter samples b)
  unfolding add_samples
  add_samples-IsBuilt thread_filter [] b v = v
  add_samples-IsBuilt thread_filter (sample ∷ rest) b v =
      elim (Bool-cases (is_skipped host config thread_filter sample)) [
        | inl e ↦ rw (e, add_samples) (add_samples-IsBuilt thread_filter rest b v)
        | inr e ↦
            rw (e, add_samples)
              (add_samples-IsBuilt thread_filter rest _ (
                walk_frames-IsBuilt (length (keep is_frame sample.stack_trace)) 0 root_id
                  (reverse (keep is_frame sample.stack_trace)) b v.rooted v))
      ]

  start_builder-IsBuilt : IsBuilt (start_builder host config)
  unfolding start_builder
  start_builder-IsBuilt = record {
    placed = ((refl, tt, tt), tt);
    known = (omega arith, tt);
    joined = tt;
    rooted = omega arith;
  }

  built :
      (samples : List (StackSample F)) (thread_filter : Text)
      → IsBuilt (add_samples host config thread_filter samples (start_builder host config))
  built samples thread_filter = add_samples-IsBuilt thread_filter samples _ start_builder-IsBuilt

  -- Whatever the samples and the filter, the tree that is built has its nodes at the places that
  -- their ids say, every parent before its children, every child a node of the tree, and every edge
  -- between two nodes of the tree.
  pub build_call_tree-ArePlaced :
      (samples : List (StackSample F)) (thread_filter : Text)
      → let tree = build_call_tree host config samples thread_filter in
        ArePlaced (length tree.nodes) 0 tree.nodes × All (Joins (length tree.nodes)) tree.edges
  unfolding build_call_tree
  build_call_tree-ArePlaced samples thread_filter =
      let v = built samples thread_filter in (v.placed, v.joined)
