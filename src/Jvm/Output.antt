-- ===== src/Jvm/Output.antt =====
-- jvm.rs: what a finished tool leaves behind, and what the profiler tells of it.
pub mod Logged
use oprofiler.Base.{
  List, [], ◌∷◌, ◌++◌, Bool, map, Result, if◌then◌else◌, map_err, is_empty, take, ◌>>=◌, keep,
  reverse, failed, not,
}
use oprofiler.Base.Text.{Text, codes, trim, lines}
use oprofiler.Model.Rows.{OperationLog, LogLevel}

-- `std::process::Output`: whether the exit status is a success, the status as it is printed, and what
-- was written, decoded.
pub record Output : Type 0 where
  pub success : Bool
  pub status : Text
  pub stdout : Text
  pub stderr : Text

unfoldable pub command_output_message : Text → Output → Text
command_output_message command output =
    let message = command ++ (codes " exited with " ++ output.status) in
    let detail = if is_empty (trim output.stderr) then trim output.stdout else trim output.stderr in
    if is_empty detail then message else message ++ (codes ": " ++ detail)

-- The lines that are not blank, trimmed, at most eight, standard output first.
unfoldable pub output_lines : Output → List Text
output_lines output = map trim (
    take 8 (keep (λ line. not (is_empty (trim line))) (lines output.stdout ++ lines output.stderr)))

-- `for line in lines { logs.push_front(..) }`.
unfoldable pub push_lines : Text → Text → List Text → List OperationLog → List OperationLog
push_lines stamp action [] logs = logs
push_lines stamp action (line ∷ rest) logs =
    push_lines stamp action rest
      (record { at = stamp; level = LogLevel.info; action = action; message = line } ∷ logs)

-- `stamp` is the local time, taken to be the same for all lines.
unfoldable pub append_command_output : Text → List OperationLog → Text → Output → List OperationLog
unfolding output_lines push_lines
append_command_output stamp logs action output =
    if is_empty (output_lines output)
    then logs
    else push_lines stamp action (reverse (output_lines output)) logs

-- A tool that cannot be run, that fails, or whose output is used.
unfoldable pub on_success {ℓ} :
    {A : Type ℓ} → Text → Text → Result Output → (Output → Result A) → Result A
unfolding command_output_message
on_success command context ran use_output = map_err (λ err. context ++ err) ran >>= λ output.
    if output.success then use_output output else failed (command_output_message command output)
