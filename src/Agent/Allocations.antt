-- ===== src/Agent/Allocations.antt =====
-- jvmti-agent/src/lib.rs: the allocation event, and the names that it reads.
use oprofiler.Base.{
  ℕ, zero, suc, ◌+◌, Bool, not, ◌&&◌, ◌||◌, ℤ, List, [], ◌∷◌, ◌++◌, Option, none, some, take, drop,
  is_empty, map, ◌==◌, if◌then◌else◌, saturating_add, is_positive, pos_part, pop_back,
}
use oprofiler.Base.Text.{
  Text, codes, text_eq, starts_with, ends_with, replace_char, to_decimal, join,
}
use oprofiler.Base.Maps.{lookup, insert}
use oprofiler.Agent.{AgentState, NativeMethodMeta, NativeAllocationStats}

-- `repeat`.
unfoldable pub repeat_text : ℕ → Text → Text
repeat_text zero t = []
repeat_text (suc n) t = t ++ repeat_text n t

-- The leading `[` of a type signature, and the rest.
unfoldable pub strip_arrays : Text → ℕ × Text
strip_arrays [] = (0, [])
strip_arrays (c ∷ s) =
    let (depth, rest) = strip_arrays s in if c == b'[' then (depth + 1, rest) else (0, c ∷ s)

unfoldable pub primitive_name : Text → Option Text
primitive_name s =
    if text_eq s (codes "B")
    then some (codes "byte")
    else if text_eq s (codes "C")
    then some (codes "char")
    else if text_eq s (codes "D")
    then some (codes "double")
    else if text_eq s (codes "F")
    then some (codes "float")
    else if text_eq s (codes "I")
    then some (codes "int")
    else if text_eq s (codes "J")
    then some (codes "long")
    else if text_eq s (codes "S")
    then some (codes "short")
    else if text_eq s (codes "Z")
    then some (codes "boolean")
    else none

abbrev or_text : Option Text → Text → Text
or_text none d = d
or_text (some t) d = t

unfoldable pub base_name : Text → Text
unfolding primitive_name
base_name rest =
    if starts_with rest (codes "L") && ends_with rest (codes ";")
    then replace_char b'/' b'.' (pop_back (drop 1 rest))
    else or_text (primitive_name rest) (replace_char b'/' b'.' rest)

unfoldable pub class_name_from_signature : Text → Text
unfolding strip_arrays base_name repeat_text
class_name_from_signature signature =
    let (array_depth, rest) = strip_arrays signature in
    if array_depth == 0
    then base_name rest
    else base_name rest ++ repeat_text array_depth (codes "[]")

-- The agent's own frames and those of its libraries are not counted as allocation sites.
unfoldable pub should_skip_allocation_top_frame : Text → Bool
should_skip_allocation_top_frame class_name =
    starts_with class_name (codes "com.openprofiler.agent.")
    || starts_with class_name (codes "com.openprofiler.protocol.")
    || starts_with class_name (codes "com.google.protobuf.")
    || starts_with class_name (codes "org.objectweb.asm.")

unfoldable pub allocation_path_key : List ℕ → Text
allocation_path_key path = join (codes ">") (map to_decimal path)

unfoldable pub tsv_clean : Text → Text
tsv_clean value = replace_char 10 32 (replace_char 13 32 (replace_char 9 32 value))

abbrev same_nat : ℕ → ℕ → Bool
same_nat a b = a == b

-- The metadata of a method: from the cache, or asked of JVMTI and kept.
unfoldable pub jvmti_method_meta :
    (ℕ → Option NativeMethodMeta) → ℕ → AgentState → Option NativeMethodMeta × AgentState
jvmti_method_meta ask key s = elim (lookup same_nat key s.method_meta) [
  | some meta ↦ (some meta, s)
  | none ↦ elim (ask key) [
    | none ↦ (none, s)
    | some meta ↦ (some meta, record s { method_meta = insert same_nat key meta s.method_meta })
  ]
]

-- What the loop over the frames has found: the methods with metadata, or that the event is skipped.
pub data Walk : Type 0 where
  found : List (ℕ × NativeMethodMeta) → Walk
  skipped : Walk

unfoldable pub walk_frames :
    (ℕ → Option NativeMethodMeta)
    → List ℕ
    → List (ℕ × NativeMethodMeta)
    → AgentState
    → Walk × AgentState
unfolding jvmti_method_meta should_skip_allocation_top_frame
walk_frames ask [] seen s = (found seen, s)
walk_frames ask (method ∷ rest) seen s =
    let (answer, s') = jvmti_method_meta ask method s in
    elim answer [
      | none ↦ walk_frames ask rest seen s'
      | some meta ↦
          if is_empty seen && should_skip_allocation_top_frame meta.class_name
          then (skipped, s')
          else walk_frames ask rest (seen ++ (method, meta) ∷ []) s'
    ]

abbrev stats_or : Option NativeAllocationStats → NativeAllocationStats → NativeAllocationStats
stats_or none d = d
stats_or (some st) d = st

abbrev ids : List (ℕ × NativeMethodMeta) → List ℕ
ids [] = []
ids ((id, meta) ∷ rest) = id ∷ ids rest

-- One round of the loop over the depths: the entry of a path grows by one object.
unfoldable pub add_allocation :
    Text
    → ℕ
    → List ℕ
    → NativeMethodMeta
    → List (Text × NativeAllocationStats)
    → List (Text × NativeAllocationStats)
unfolding allocation_path_key
add_allocation allocated_type size path method m =
    let key = allocation_path_key path in
    let entry = stats_or (lookup text_eq key m) (record {
      path = path;
      method = method;
      allocated_type = allocated_type;
      allocated_size = 0;
      instance_count = 0;
    }) in
    insert text_eq key
      (record entry {
        allocated_size = saturating_add 64 entry.allocated_size size;
        instance_count = saturating_add 64 entry.instance_count 1;
      })
      m

-- The loop over the depths: `above` is the path so far.
unfoldable pub add_depths :
    Text
    → ℕ
    → List ℕ
    → List (ℕ × NativeMethodMeta)
    → List (Text × NativeAllocationStats)
    → List (Text × NativeAllocationStats)
unfolding add_allocation
add_depths allocated_type size above [] m = m
add_depths allocated_type size above ((id, meta) ∷ rest) m =
    add_depths allocated_type size (above ++ id ∷ []) rest
      (add_allocation allocated_type size (above ++ id ∷ []) meta m)

-- `VMObjectAlloc`: the frames are what `GetStackTrace` gives, innermost first, or none at an error.
unfoldable pub on_vm_object_alloc :
    (ℕ → Option NativeMethodMeta) → Option (List ℕ) → Option Text → ℤ → AgentState → AgentState
unfolding walk_frames add_depths
on_vm_object_alloc ask frames klass size s =
    if not s.recording || s.snapshot_in_progress || not (is_positive size) then s else elim frames [
      | none ↦ s
      | some methods ↦
          let (walk, s') = walk_frames ask (take 12 methods) [] s in
          elim walk [
            | skipped ↦ s'
            | found seen ↦ record s' {
              allocations =
                  add_depths (or_text klass (codes "<unknown>")) (pos_part size) [] seen
                    s'.allocations;
            }
          ]
    ]
