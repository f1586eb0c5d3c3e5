-- ===== src/ApprovalGate/Triage.antt =====
-- `_is_safe_readonly` of src/zero/app/approval_gate.py: the tool calls that only read.
use zero_agent_dev_telegram.Common.{
  Bool, true, false, ◌&&◌, Option, none, some, String, List, [], ◌∷◌, any, text_eq, strip, lower_is,
  if◌then◌else◌,
}
use zero_agent_dev_telegram.Common.Json.{Json, Fields, get_field, is_truthy, texts_of}

unfoldable pub readonly_git_subcommands : List String
readonly_git_subcommands =
    "status" ∷ "log" ∷ "diff" ∷ "show" ∷ "branch" ∷ "rev-parse" ∷ "ls-files" ∷ "cat-file"
    ∷ "describe" ∷ "blame" ∷ "shortlog" ∷ "grep" ∷ []

-- `git` and its arguments.
unfoldable is_readonly_git : List String → Bool
unfolding lower_is readonly_git_subcommands
is_readonly_git [] = false
is_readonly_git (sub ∷ rest) =
    if any (lower_is (strip sub)) readonly_git_subcommands
    then true
    else lower_is (strip sub) "worktree" && starts_with_list rest
  where
    starts_with_list : List String → Bool
    starts_with_list [] = false
    starts_with_list (a ∷ more) = lower_is (strip a) "list"

unfoldable is_readonly_command : String → List String → Bool
unfolding is_readonly_git
is_readonly_command command args =
    if text_eq command "ls"
    then true
    else if text_eq command "grep"
    then true
    else if text_eq command "git"
    then is_readonly_git args
    else false

-- `input_data.get("args") or []`, where a value that is neither is no list of texts.
unfoldable args_of : Option Json → Option (List String)
unfolding texts_of
args_of none = some []
args_of (some (Json.array items)) = texts_of items
args_of (some v) = if is_truthy v then none else some []

unfoldable command_of : Option Json → Option String
command_of (some (Json.str command)) = if text_eq command "" then none else some command
command_of v = none

unfoldable with_args : String → Option (List String) → Bool
unfolding is_readonly_command
with_args command none = false
with_args command (some args) = is_readonly_command command args

unfoldable with_command : Option String → Option (List String) → Bool
unfolding with_args
with_command none args = false
with_command (some command) args = with_args command args

unfoldable pub is_safe_readonly : String → Fields → Bool
unfolding with_command command_of args_of get_field
is_safe_readonly tool_name input_data =
    if text_eq tool_name "read_file"
    then true
    else if text_eq tool_name "capture_diff"
    then true
    else if text_eq tool_name "run_command"
    then with_command (command_of (get_field "command" input_data))
        (args_of (get_field "args" input_data))
    else false
