-- ===== src/App/Attach/Paths/Found.antt =====
-- app.rs: which files the agent is attached with.
use oprofiler.Base.{
  ◌≡◌, ◌↔◌, List, [], ◌∷◌, true, none, some, Option, refl, ap, sym, inl, inr, done, Option-cases,
  arith, ◌∙◌, find_first-found,
}
use oprofiler.Base.Text.{Text, codes}
use oprofiler.Base.Options.{or_else}
use oprofiler.App.Attach.Paths.{
  Files, Platform, PathsFound, AgentRuntimePaths, find_agent_jar, find_attach_classpath,
  release_or_debug_native_dll, search_root, search_roots, runtime_roots, checked_paths,
  resolve_agent_runtime_paths, agent_jar_candidates, attach_classpath_candidates,
  native_dll_candidates,
}

-- What the first of the roots that has something has.
abbrev pub first_of {ℓ} : {A : Type ℓ} → (Text → Option A) → List Text → Option A
first_of find [] = none
first_of find (root ∷ rest) = or_else (find root) (first_of find rest)

or_else_assoc {ℓ} :
    {A : Type ℓ} (a b c : Option A) → or_else (or_else a b) c ≡ or_else a (or_else b c)
or_else_assoc none b c = refl
or_else_assoc (some a) b c = refl

or_else-none {ℓ} : {A : Type ℓ} (a : Option A) → or_else a none ≡ a
or_else-none none = refl
or_else-none (some a) = refl

first_of-found {ℓ κ} :
    {A : Type ℓ} (P : A → Type κ) (find : Text → Option A)
    → ((root : Text) (a : A) → find root ≡ some a → P a)
    → (roots : List Text) (a : A) → first_of find roots ≡ some a
    → P a
first_of-found P find holds [] a found = absurd (ground arith)
first_of-found P find holds (root ∷ rest) a found = elim (Option-cases (find root)) [
  | inl e ↦
      first_of-found P find holds rest a
        (rw (sym (ap (λ o. or_else o (first_of find rest)) e)) found)
  | inr (b, e) ↦ holds root a (e ∙ (sym (ap (λ o. or_else o (first_of find rest)) e) ∙ found))
]

module _ (files : Files) (platform : Platform) where
  abbrev found_after : List Text → PathsFound → PathsFound
  found_after roots found = record {
    agent_jar = or_else found.agent_jar (first_of (find_agent_jar files platform) roots);
    attach_classpath =
        or_else found.attach_classpath (first_of (find_attach_classpath files platform) roots);
    native_dll =
        or_else found.native_dll (first_of (release_or_debug_native_dll files platform) roots);
  }

  search_roots-found_after :
      (roots : List Text) (found : PathsFound)
      → search_roots files platform roots found ≡ found_after roots found
  unfolding search_roots
  search_roots-found_after [] found = simp (or_else-none)
  search_roots-found_after (root ∷ rest) found =
      rw (search_roots-found_after rest (search_root files platform root found))
        (simp (or_else_assoc))

  checked_paths_iff :
      (roots : List Text) (jar classpath dll : Option Text) (paths : AgentRuntimePaths)
      → (checked_paths files platform roots
            (record { agent_jar = jar; attach_classpath = classpath; native_dll = dll })
          ≡ done paths)
        ↔ ((jar ≡ some paths.agent_jar)
            × ((classpath ≡ some paths.attach_classpath) × (dll ≡ paths.native_dll)))
  checked_paths_iff roots none classpath dll paths = ground arith
  checked_paths_iff roots (some jar) none dll paths = ground arith
  checked_paths_iff roots (some jar) (some classpath) dll paths = ground arith

  -- The roots are searched for the three parts one by one: the paths are resolved to `paths` exactly
  -- if the jar and the class path are the first ones that the roots have, in their order, and the
  -- native library is the first one that they have, or none where they have none.
  pub resolve_agent_runtime_paths_iff :
      (cwd : Text) (exe_dir : Option Text) (paths : AgentRuntimePaths)
      → (resolve_agent_runtime_paths files platform cwd exe_dir ≡ done paths) ↔ (
          (first_of (find_agent_jar files platform) (runtime_roots files platform cwd exe_dir)
            ≡ some paths.agent_jar)
          × ((first_of
                  (find_attach_classpath files platform)
                  (runtime_roots files platform cwd exe_dir)
                ≡ some paths.attach_classpath)
              × (first_of
                    (release_or_debug_native_dll files platform)
                    (runtime_roots files platform cwd exe_dir)
                  ≡ paths.native_dll)))
  unfolding resolve_agent_runtime_paths
  resolve_agent_runtime_paths_iff cwd exe_dir paths =
      let roots = runtime_roots files platform cwd exe_dir in
      rw
        (search_roots-found_after roots
          (record { agent_jar = none; attach_classpath = none; native_dll = none }))
        (checked_paths_iff roots (first_of (find_agent_jar files platform) roots)
          (first_of (find_attach_classpath files platform) roots)
          (first_of (release_or_debug_native_dll files platform) roots) paths)

  jar_exists :
      (root : Text) (jar : Text)
      → find_agent_jar files platform root ≡ some jar
      → files.exists jar ≡ true
  unfolding find_agent_jar
  jar_exists root jar found =
      find_first-found files.exists (agent_jar_candidates files platform root) jar found

  classpath_exists :
      (root : Text) (classpath : Text)
      → find_attach_classpath files platform root ≡ some classpath
      → files.exists (files.join_path classpath (codes "AttachAgent.class")) ≡ true
  unfolding find_attach_classpath
  classpath_exists root classpath found =
      find_first-found (λ path. files.exists (files.join_path path (codes "AttachAgent.class")))
        (attach_classpath_candidates files platform root) classpath found

  dll_exists :
      (root : Text) (dll : Text)
      → release_or_debug_native_dll files platform root ≡ some dll
      → files.exists dll ≡ true
  unfolding release_or_debug_native_dll
  dll_exists root dll found =
      find_first-found files.exists (native_dll_candidates files platform root) dll found

  -- The files of resolved paths exist: the jar, the helper's class in the class path, and the native
  -- library where there is one.
  pub resolve_agent_runtime_paths-exists :
      (cwd : Text) (exe_dir : Option Text) (paths : AgentRuntimePaths)
      → resolve_agent_runtime_paths files platform cwd exe_dir ≡ done paths
      → (files.exists paths.agent_jar ≡ true)
        × ((files.exists (files.join_path paths.attach_classpath (codes "AttachAgent.class"))
              ≡ true)
            × ((dll : Text) → paths.native_dll ≡ some dll → files.exists dll ≡ true))
  resolve_agent_runtime_paths-exists cwd exe_dir paths resolved =
      let roots = runtime_roots files platform cwd exe_dir in
      let (jar, (classpath, dll)) =
        (resolve_agent_runtime_paths_iff cwd exe_dir paths).0 resolved in
      (
        first_of-found (λ path. files.exists path ≡ true) (find_agent_jar files platform) jar_exists
            roots paths.agent_jar jar,
        (
          first_of-found
              (λ path. files.exists (files.join_path path (codes "AttachAgent.class")) ≡ true)
              (find_attach_classpath files platform) classpath_exists roots paths.attach_classpath
              classpath,
          λ path is_path.
              first_of-found (λ path. files.exists path ≡ true)
                (release_or_debug_native_dll files platform) dll_exists roots path (dll ∙ is_path),
        ),
      )
