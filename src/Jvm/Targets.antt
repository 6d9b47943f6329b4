-- ===== src/Jvm/Targets.antt =====
-- jvm.rs: the lines of `jps -lv`, and which of the JVMs is preferred.
use oprofiler.Base.{
  ℕ, ◌-◌, ◌^◌, Bool, ◌||◌, List, [], ◌∷◌, ◌++◌, Option, none, some, reverse, get_or, if◌then◌else◌,
  filter_map,
}
use oprofiler.Base.Text.{
  Text, codes, contains_text, ends_with, split_whitespace, split_char, join, parse_radix, lines,
}
use oprofiler.Model.Floats.{Host}
use oprofiler.Model.Rows.{JvmTarget}

abbrev or_text : Option Text → Text → Text
or_text none d = d
or_text (some t) d = t

module _ {F : Type 0} (host : Host F) where
  unfoldable pub is_profiler_ui_process : Text → Text → Bool
  is_profiler_ui_process main_class arguments =
      let text = host.to_lowercase (main_class ++ (codes " " ++ arguments)) in
      contains_text text (codes "oprofiler.exe") || contains_text text (codes "oprofiler.jar")

  unfoldable pub is_likely_demo_server : JvmTarget → Bool
  is_likely_demo_server jvm =
      let text = host.to_lowercase (jvm.main_class ++ (codes " " ++ jvm.arguments)) in
      contains_text text (codes "demo") || contains_text text (codes "server")

  -- The JDK's own tools and the profiler are not offered.
  unfoldable pub is_excluded : Text → Text → Bool
  unfolding is_profiler_ui_process
  is_excluded main_class rest =
      contains_text main_class (codes "Jps")
      || contains_text main_class (codes "sun.tools.jps")
      || contains_text main_class (codes "jdk.jcmd")
      || contains_text main_class (codes "sun.tools.jcmd")
      || is_profiler_ui_process main_class rest

  unfoldable pub display_name_of : Text → Text
  display_name_of main_class =
      if ends_with main_class (codes ".jar")
      then or_text (host.file_name main_class) main_class
      else get_or (reverse (split_char b'.' main_class)) 0 main_class

  unfoldable pub target_of : ℕ → Text → Text → Option JvmTarget
  unfolding is_excluded display_name_of
  target_of pid main_class rest =
      if is_excluded main_class rest
      then none
      else some (record {
        pid = pid;
        display_name = display_name_of main_class;
        main_class = main_class;
        arguments = rest;
        profiled =
            contains_text rest (codes "oprofiler")
            || contains_text rest (codes "oprofilerti")
            || contains_text main_class (codes "oprofiler");
      })

  abbrev parse_parts : List Text → Option JvmTarget
  parse_parts [] = none
  parse_parts (first ∷ rest) = elim (parse_radix 10 (2 ^ 32 - 1) first) [
    | none ↦ none
    | some pid ↦ elim rest [
      | [] ↦ target_of pid (codes "<unknown>") []
      | main_class ∷ arguments ↦ target_of pid main_class (join (codes " ") arguments)
    ]
  ]

  unfoldable pub parse_jps_line : Text → Option JvmTarget
  unfolding target_of
  parse_jps_line line = parse_parts (split_whitespace line)

  -- What `spawn_refresh_jvms` answers with when `jps` has succeeded.
  unfoldable pub parse_jps_output : Text → List JvmTarget
  unfolding parse_jps_line
  parse_jps_output text = filter_map parse_jps_line (lines text)
