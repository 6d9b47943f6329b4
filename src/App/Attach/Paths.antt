-- ===== src/App/Attach/Paths.antt =====
-- app.rs: where the files that the agent is attached with are found.
pub mod Found
use oprofiler.Base.{
  ◌>>=◌, List, [], ◌∷◌, true, false, none, some, Option, Bool, ℕ, if◌then◌else◌, find_first, ◌++◌,
  Result, failed, map, done, is_empty, map_err,
}
use oprofiler.Base.Text.{Text, codes, text_eq, join, to_decimal}
use oprofiler.Base.Options.{or_else}
use oprofiler.Base.Sort.{sort_by}
use oprofiler.Jvm.Output.{on_success, Output}

-- The file system and the platform's paths: what exists, how paths are joined, compared and printed.
pub record Files : Type 0 where
  pub exists : Text → Bool
  pub join_path : Text → Text → Text
  pub same_path : Text → Text → Bool
  pub less_path : Text → Text → Bool
  pub display : Text → Text

pub data Platform : Type 0 where
  windows macos other_platform : Platform

unfoldable pub native_library_file_name : Platform → Text
native_library_file_name windows = codes "jvmti_agent_rust.dll"
native_library_file_name macos = codes "libjvmti_agent_rust.dylib"
native_library_file_name other_platform = codes "libjvmti_agent_rust.so"

pub record AgentRuntimePaths : Type 0 where
  pub agent_jar : Text
  pub attach_classpath : Text
  pub native_dll : Option Text

-- The variables of the loop over the roots.
pub record PathsFound : Type 0 where
  pub agent_jar : Option Text
  pub attach_classpath : Option Text
  pub native_dll : Option Text

-- `dedup`: of equal neighbours the first stays. `last` is the element before, which is kept.
unfoldable pub dedup_from {ℓ} : {A : Type ℓ} → (A → A → Bool) → A → List A → List A
dedup_from eq last [] = []
dedup_from eq last (y ∷ rest) =
    let kept = dedup_from eq (if eq y last then last else y) rest in
    if eq y last then kept else y ∷ kept

unfoldable pub dedup {ℓ} : {A : Type ℓ} → (A → A → Bool) → List A → List A
unfolding dedup_from
dedup eq [] = []
dedup eq (x ∷ rest) = x ∷ dedup_from eq x rest

module _ (files : Files) (platform : Platform) where
  unfoldable pub agent_jar_candidates : Text → List Text
  agent_jar_candidates root =
      files.join_path root (codes "java-agent-0.1.0.jar")
      ∷ files.join_path root (codes "java-agent/target/java-agent-0.1.0.jar")
      ∷ []

  unfoldable pub attach_classpath_candidates : Text → List Text
  attach_classpath_candidates root =
      files.join_path root (codes "attach") ∷ files.join_path root (codes "tools") ∷ []

  unfoldable pub native_dll_candidates : Text → List Text
  unfolding native_library_file_name
  native_dll_candidates cwd =
      let name = native_library_file_name platform in
      let crate_target =
        files.join_path (files.join_path cwd (codes "crates/jvmti-agent")) (codes "target") in
      let target = files.join_path cwd (codes "target") in
      files.join_path cwd name
      ∷ files.join_path (files.join_path target (codes "release")) name
      ∷ files.join_path (files.join_path target (codes "debug")) name
      ∷ files.join_path (files.join_path crate_target (codes "release")) name
      ∷ files.join_path (files.join_path crate_target (codes "debug")) name
      ∷ []

  unfoldable pub release_or_debug_native_dll : Text → Option Text
  unfolding native_dll_candidates
  release_or_debug_native_dll cwd = find_first files.exists (native_dll_candidates cwd)

  unfoldable pub find_agent_jar : Text → Option Text
  unfolding agent_jar_candidates
  find_agent_jar root = find_first files.exists (agent_jar_candidates root)

  unfoldable pub find_attach_classpath : Text → Option Text
  unfolding attach_classpath_candidates
  find_attach_classpath root =
      find_first (λ path. files.exists (files.join_path path (codes "AttachAgent.class")))
        (attach_classpath_candidates root)

  -- What a root adds to what the roots before it have given.
  unfoldable pub search_root : Text → PathsFound → PathsFound
  unfolding find_agent_jar find_attach_classpath release_or_debug_native_dll
  search_root root found = record {
    agent_jar = or_else found.agent_jar (find_agent_jar root);
    attach_classpath = or_else found.attach_classpath (find_attach_classpath root);
    native_dll = or_else found.native_dll (release_or_debug_native_dll root);
  }

  unfoldable pub search_roots : List Text → PathsFound → PathsFound
  unfolding search_root
  search_roots [] found = found
  search_roots (root ∷ rest) found = search_roots rest (search_root root found)

  unfoldable pub runtime_roots : Text → Option Text → List Text
  unfolding dedup
  runtime_roots cwd none = dedup files.same_path (sort_by files.less_path (cwd ∷ []))
  runtime_roots cwd (some exe_dir) =
      dedup files.same_path (sort_by files.less_path (exe_dir ∷ cwd ∷ []))

  abbrev pub not_found : Text → List Text → Text
  not_found what roots =
      what
      ++ (codes " not found. Checked runtime roots: "
          ++ join (codes ", ") (map files.display roots))

  abbrev pub checked_paths : List Text → PathsFound → Result AgentRuntimePaths
  checked_paths roots found = elim found.agent_jar [
    | none ↦ failed (not_found (codes "java agent jar") roots)
    | some jar ↦ elim found.attach_classpath [
      | none ↦ failed (not_found (codes "AttachAgent.class") roots)
      | some classpath ↦
          done (record {
            agent_jar = jar;
            attach_classpath = classpath;
            native_dll = found.native_dll;
          })
    ]
  ]

  unfoldable pub resolve_agent_runtime_paths : Text → Option Text → Result AgentRuntimePaths
  unfolding search_roots runtime_roots
  resolve_agent_runtime_paths cwd exe_dir =
      let roots = runtime_roots cwd exe_dir in
      checked_paths roots (
        search_roots roots
          (record { agent_jar = none; attach_classpath = none; native_dll = none }))

  -- The options that the agent is loaded with.
  unfoldable pub agent_options : ℕ → Option Text → Option Text → Text
  agent_options port native_dll includes =
      let base : Text = elim native_dll [
        | some dll ↦
            codes "port="
            ++ (to_decimal port
                ++ (codes ",native=" ++ (files.display dll ++ codes ",jdbc=true,jdbcMode=native")))
        | none ↦ codes "port=" ++ (to_decimal port ++ codes ",jdbc=true,jdbcMode=id")
      ] in
      elim includes [
        | none ↦ base
        | some text ↦ if is_empty text then base else base ++ (codes ",includes=" ++ text)
      ]

  -- `cwd` and `exe_dir` are what the operating system answers, and `run` is what running the attach
  -- helper of the paths with the options gives.
  unfoldable pub attach_openprofiler_agent :
      Result Text
      → Option Text
      → (AgentRuntimePaths → Text → Result Output)
      → ℕ
      → ℕ
      → Option Text
      → Result Text
  unfolding resolve_agent_runtime_paths agent_options on_success
  attach_openprofiler_agent cwd exe_dir run pid port includes = do
    dir ← map_err (λ e. codes "cannot resolve cwd: " ++ e) cwd
    paths ← resolve_agent_runtime_paths dir exe_dir
    on_success (codes "AttachAgent") (codes "failed to execute java attach helper: ")
        (run paths (agent_options port paths.native_dll includes))
        (λ output. done (
          codes "OpenProfiler agent attached to JVM "
          ++ (to_decimal pid ++ (codes " on localhost:" ++ to_decimal port))))
