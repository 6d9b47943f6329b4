-- ===== src/Jvm/Output/Logged.antt =====
-- jvm.rs: what the output of a tool adds to the log.
use oprofiler.Base.{
  ◌≡◌, ◌≤◌, List, [], ◌∷◌, ◌++◌, map, reverse, length, ap, refl, ◌∙◌, inl, inr, arith, take,
  is_empty, length-take, ◌⊎◌, keep, not, length-map,
}
use oprofiler.Base.Text.{Text, trim, lines}
use mathlib.Core.List.{reverse-cons}
use oprofiler.Jvm.Output.{Output, output_lines, push_lines, append_command_output}
use oprofiler.Model.Rows.{OperationLog, LogLevel}

abbrev pub log_line : Text → Text → Text → OperationLog
log_line stamp action line = record {
  at = stamp;
  level = LogLevel.info;
  action = action;
  message = line;
}

push_lines-append :
    (stamp action : Text) (xs ys : List Text) (logs : List OperationLog)
    → push_lines stamp action (xs ++ ys) logs
      ≡ push_lines stamp action ys (push_lines stamp action xs logs)
unfolding push_lines
push_lines-append stamp action [] ys logs = refl
push_lines-append stamp action (x ∷ xs) ys logs =
    push_lines-append stamp action xs ys (log_line stamp action x ∷ logs)

push_lines-reverse :
    (stamp action : Text) (xs : List Text) (logs : List OperationLog)
    → push_lines stamp action (reverse xs) logs ≡ map (log_line stamp action) xs ++ logs
unfolding push_lines
push_lines-reverse stamp action [] logs = refl
push_lines-reverse stamp action (x ∷ xs) logs = rw (reverse-cons x xs) (
    push_lines-append stamp action (reverse xs) (x ∷ []) logs
    ∙ ap (λ ls. log_line stamp action x ∷ ls) (push_lines-reverse stamp action xs logs))

List-cases {ℓ} :
    {A : Type ℓ} (xs : List A) → (xs ≡ []) ⊎ ((x : A) × ((rest : List A) × (xs ≡ x ∷ rest)))
List-cases [] = inl refl
List-cases (x ∷ rest) = inr (x, (rest, refl))

length-output_lines : (output : Output) → length (output_lines output) ≤ 8
unfolding output_lines
length-output_lines output =
    let kept =
      keep (λ line. not (is_empty (trim line))) (lines output.stdout ++ lines output.stderr) in
    omega (arith, length-map trim (take 8 kept), length-take 8 kept)

-- A tool's output stands at the top of the log in the order in which the tool wrote it, one entry
-- for each kept line and at most eight of them, with the older entries unchanged below.
pub append_command_output-logs :
    (stamp : Text) (logs : List OperationLog) (action : Text) (output : Output)
    → (append_command_output stamp logs action output
        ≡ map (log_line stamp action) (output_lines output) ++ logs)
      × (length (output_lines output) ≤ 8)
unfolding append_command_output
append_command_output-logs stamp logs action output = (
  elim (List-cases (output_lines output)) [
    | inl e ↦ rw e refl
    | inr (line, (rest, e)) ↦ rw e (push_lines-reverse stamp action (line ∷ rest) logs)
  ],
  length-output_lines output,
)
