-- ===== src/Model/Threads.antt =====
-- model.rs: stack frames, thread dumps and samples.
use oprofiler.Base.{ℕ, Bool, List, Option, none, some, ◌++◌, is_empty, if◌then◌else◌}
use oprofiler.Base.Text.{Text, codes, to_decimal}

pub record StackTraceElement : Type 0 where
  pub class_name : Text
  pub method_name : Text
  pub descriptor : Text
  pub file_name : Option Text
  pub line_number : Option ℕ
  pub native_method : Bool
  pub raw : Text

-- `{class}.{method}{descriptor}`: both `full_name` methods.
unfoldable pub qualified : Text → Text → Text → Text
qualified class_name method_name descriptor =
    if is_empty descriptor
    then class_name ++ (codes "." ++ method_name)
    else class_name ++ (codes "." ++ (method_name ++ descriptor))

unfoldable pub full_name : StackTraceElement → Text
unfolding qualified
full_name e = qualified e.class_name e.method_name e.descriptor

-- What both `location` methods print, with the text for a frame that has neither file nor line.
unfoldable pub place : Option Text → Option ℕ → Text → Text
place (some file) (some line) _ =
    codes "(" ++ (file ++ (codes ":" ++ (to_decimal line ++ codes ")")))
place (some file) none _ = codes "(" ++ (file ++ codes ")")
place none (some line) _ = codes "Unknown:" ++ to_decimal line
place none none other = other

unfoldable pub location : StackTraceElement → Text
unfolding place
location e =
    place e.file_name e.line_number
      (if e.native_method then codes "(Native Method)" else codes "(Unknown Source)")

pub record LockInfo : Type 0 where
  pub lock_class : Text
  pub lock_identity : ℕ
  pub waiting_on : Option Text
  pub owning : Option Text

pub record ThreadInfo : Type 0 where
  pub name : Text
  pub state : Text
  pub nid : Text
  pub top_frame : Text
  pub frames : List Text
  pub stack_trace : List StackTraceElement
  pub lock_info : Option LockInfo

pub record ThreadDump : Type 0 where
  pub captured_at : Text
  pub raw : Text
  pub threads : List ThreadInfo

pub record ThreadSummary (F : Type 0) : Type 0 where
  pub elapsed_secs : F
  pub runnable : ℕ
  pub waiting : ℕ
  pub timed_waiting : ℕ
  pub blocked : ℕ
  pub other : ℕ

pub record StackSample (F : Type 0) : Type 0 where
  pub thread : Text
  pub state : Text
  pub frames : List Text
  pub stack_trace : List StackTraceElement
  pub captured_at : Text
  pub elapsed_secs : F
