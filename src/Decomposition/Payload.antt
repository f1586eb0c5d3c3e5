-- ===== src/Decomposition/Payload.antt =====
-- `validate_decomposition` of src/zero/app/task_decomposition.py, from the parsed answer on: the tasks
-- that a model's answer lists, entry by entry. A refusal is `none`.
use zero_agent_dev_telegram.Common.{
  ℕ, Bool, not, ◌&&◌, ◌||◌, Option, none, some, String, List, [], ◌∷◌, ltb, select, text_eq, strip,
  text_length, text_take, if◌then◌else◌,
}
use zero_agent_dev_telegram.Common.Json.{Json, Items, Fields, none_left, item, get_field, is_truthy}
use zero_agent_dev_telegram.Repository.Plan.{take}
use zero_agent_dev_telegram.WorkerService.Evidence.{member}
use zero_agent_dev_telegram.WorkerService.Specs.{TaskSpec}

-- What the language does: `str` of a value that is no text, and `str.isalnum` of a key without its
-- underscores.
pub record Language : Type 0 where
  pub repr : Json → String
  pub is_key_text : String → Bool

abbrev pub supported_evidence_labels : List String
supported_evidence_labels =
    "provider_response" ∷ "diff" ∷ "test_report" ∷ "exit_status" ∷ "stdout" ∷ "stderr"
    ∷ "source_snapshot" ∷ []

abbrev pub max_tasks : ℕ
max_tasks = 256

abbrev pub max_edges : ℕ
max_edges = 1024

unfoldable pub items_of : Items → List Json
items_of none_left = []
items_of (item v rest) = v ∷ items_of rest

abbrev pub cons_label : String → Option (List String) → Option (List String)
cons_label label none = none
cons_label label (some labels) =
    if member label supported_evidence_labels then some (label ∷ labels) else none

unfoldable pub clean_evidence : List Json → Option (List String)
clean_evidence [] = some []
clean_evidence (Json.str s ∷ rest) = cons_label (strip s) (clean_evidence rest)
clean_evidence (v ∷ rest) = none

-- `dict.fromkeys`: the first of each.
unfoldable pub keep_first : List String → List String
keep_first [] = []
keep_first (x ∷ xs) = x ∷ select (λ y. not (text_eq y x)) (keep_first xs)

abbrev pub kept : Option (List String) → Option (List String)
kept none = none
kept (some labels) = some (keep_first labels)

unfoldable pub read_evidence : Option Json → Option (List String)
unfolding clean_evidence items_of
read_evidence none = some []
read_evidence (some Json.null) = some []
read_evidence (some (Json.array items)) = kept (clean_evidence (take 8 (items_of items)))
read_evidence (some v) = none

abbrev pub with_lists :
    String → String → Option (List String) → Option (List String) → Option TaskSpec
with_lists key objective none evidence = none
with_lists key objective (some scope) none = none
with_lists key objective (some scope) (some evidence) = some (record {
  objective = objective;
  permitted_scope = scope;
  expected_evidence = evidence;
  key = some key;
  agent_type_id = none;
})

abbrev pub is_objective : String → Bool
is_objective objective = not (text_eq objective "" || ltb 8192 (text_length objective))

abbrev pub key_or_empty : Option String → String
key_or_empty none = ""
key_or_empty (some key) = key

abbrev pub spec_key : TaskSpec → String
spec_key spec = key_or_empty spec.key

abbrev pub cons_spec : TaskSpec → Option (List TaskSpec) → Option (List TaskSpec)
cons_spec spec none = none
cons_spec spec (some specs) = some (spec ∷ specs)

module _ (l : Language) where
  -- `str(value)`.
  abbrev pub to_text : Json → String
  to_text (Json.str s) = s
  to_text v = l.repr v

  -- `str(entry.get(key) or "")`.
  abbrev text_or_empty : Option Json → String
  text_or_empty none = ""
  text_or_empty (some v) = if is_truthy v then to_text v else ""

  abbrev pub raw_text : String → Fields → String
  raw_text key fields = text_or_empty (get_field key fields)

  -- `str(item)[:256]` of the items that are not blank.
  unfoldable pub clean_scope : List Json → List String
  clean_scope [] = []
  clean_scope (v ∷ rest) =
      let others = clean_scope rest in
      if text_eq (strip (to_text v)) "" then others else text_take 256 (to_text v) ∷ others

  unfoldable pub read_scope : Option Json → Option (List String)
  unfolding clean_scope items_of
  read_scope none = some []
  read_scope (some Json.null) = some []
  read_scope (some (Json.array items)) = some (clean_scope (take 64 (items_of items)))
  read_scope (some v) = none

  abbrev pub is_key : String → Bool
  is_key key = not (text_eq key "") && l.is_key_text key

  -- An entry, behind the keys that were seen before it.
  unfoldable pub read_entry : List String → Fields → Option TaskSpec
  unfolding read_scope read_evidence
  read_entry seen fields =
      let key = strip (raw_text "key" fields) in
      let objective = strip (raw_text "objective" fields) in
      if is_key key && is_objective objective && not (member key seen)
      then with_lists key objective (read_scope (get_field "scope" fields))
          (read_evidence (get_field "evidence" fields))
      else none

  -- The first loop over the entries.
  unfoldable pub read_entries : List String → Items → Option (List TaskSpec)
  unfolding read_entry
  read_entries seen none_left = some []
  read_entries seen (item (Json.object fields) rest) = elim (read_entry seen fields) [
    | none ↦ none
    | some spec ↦ cons_spec spec (read_entries (spec_key spec ∷ seen) rest)
  ]
  read_entries seen (item v rest) = none
