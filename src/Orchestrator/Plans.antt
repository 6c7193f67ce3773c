-- ===== src/Orchestrator/Plans.antt =====
-- remote_robot/orchestrator.py: the plans that the workers of a phase receive, who takes part in a
-- program, and the workers' replies as the journal keeps them.
use Prim.Native.String
use text.Mathlib.Text.{is_le}
use remote_robot.Prelude.{
  ℕ, zero, suc, ◌/◌, ◌%◌, String, Bool, true, false, ◌&&◌, ◌||◌, none, some, List, [], ◌∷◌, ◌++◌,
  map, ◌==◌, string_eq, if◌then◌else◌, ltb, eqb, set_add, sort_by,
}
use remote_robot.Text.{count}
use remote_robot.Value.{Value, Items, Fields, bool, str, list, dict, nil, cons, end, field, get}
use remote_robot.Orchestrator.{Result, ok, raise, program_error, key_error, Reply, returned, raised}

infixl 5 ◌>>=◌
abbrev pub ◌>>=◌ {κ ℓ} : {X : Type κ} {Y : Type ℓ} → Result X → (X → Result Y) → Result Y
raise e >>= next = raise e
ok x >>= next = next x

-- `CompiledProgram`, as the orchestrator reads it
pub record CompiledProgram : Type 0 where
  pub root_id : String
  pub manifest_hash : String
  pub sha256 : String
  pub phases : List Fields
  pub outline : Fields

-- The order of keys in canonical CBOR: by length, then by bytes.
unfoldable pub key_le : String → String → Bool
key_le a b =
    ltb (String.len a) (String.len b)
    || (eqb (String.len a) (String.len b) && is_le (String.compare a b))

unfoldable pub fields_of : List (String × Value) → Fields
fields_of [] = end
fields_of ((k, v) ∷ entries) = field (str k) v (fields_of entries)

-- A dict of texts to values, its entries in canonical order.
unfoldable pub mapping : List (String × Value) → Fields
unfolding fields_of key_le sort_by
mapping entries = fields_of (sort_by (λ a b. key_le a.0 b.0) entries)

-- one entry of `_safe_results`
unfoldable pub safe_result : Reply → Value
safe_result (returned fs) = dict (field (str "ok") (bool true) (field (str "result") (dict fs) end))
safe_result (raised name) =
    dict (field (str "ok") (bool false) (field (str "error_type") (str name) end))

-- `_safe_results`
unfoldable pub safe_results : List (String × Reply) → Value
unfolding mapping safe_result
safe_results replies = dict (mapping (map (λ r. (r.0, safe_result r.1)) replies))

-- `list(phase["sequences"])`, of mappings
unfoldable pub sequences_of : Items → Result (List Fields)
sequences_of nil = ok []
sequences_of (cons (dict s) xs) = do rest ← sequences_of xs; ok (s ∷ rest)
sequences_of (cons _ xs) = raise program_error

-- `sequence["resolved_target"]["physical_node_id"]`, a mapping with a text
unfoldable pub physical_id : Fields → Result String
physical_id sequence = elim (get "resolved_target" sequence) [
  | some (dict target) ↦ elim (get "physical_node_id" target) [
    | some (str name) ↦ ok name
    | _ ↦ raise program_error
  ]
  | _ ↦ raise program_error
]

-- `phase.get("sequences", ())`
unfoldable pub phase_sequences : Fields → Result (List Fields)
unfolding sequences_of
phase_sequences phase = elim (get "sequences" phase) [
  | none ↦ ok []
  | some (list xs) ↦ sequences_of xs
  | _ ↦ raise program_error
]

unfoldable pub add_ids : List Fields → List String → Result (List String)
unfolding physical_id
add_ids [] ids = ok ids
add_ids (sequence ∷ sequences) ids = do
  name ← physical_id sequence
  add_ids sequences (set_add name ids)

unfoldable pub add_phases : List Fields → List String → Result (List String)
unfolding phase_sequences add_ids
add_phases [] ids = ok ids
add_phases (phase ∷ phases) ids = do
  sequences ← phase_sequences phase
  more ← add_ids sequences ids
  add_phases phases more

-- `_participant_worker_ids`, a set without repetitions
unfoldable pub participant_worker_ids : CompiledProgram → Result (List String)
unfolding add_phases
participant_worker_ids program = add_phases program.phases []

-- `text[:n]`
unfoldable pub first_chars : ℕ → String → String
first_chars zero s = String.[]
first_chars (suc n) String.[] = String.[]
first_chars (suc n) (String.◌∷◌ c s) = String.◌∷◌ c (first_chars n s)

-- A digit, and a number in decimal, on fuel: one step for each digit, so the number is enough.
unfoldable pub digit_text : ℕ → String
digit_text zero = "0"
digit_text (suc zero) = "1"
digit_text (suc (suc zero)) = "2"
digit_text (suc (suc (suc zero))) = "3"
digit_text (suc (suc (suc (suc zero)))) = "4"
digit_text (suc (suc (suc (suc (suc zero))))) = "5"
digit_text (suc (suc (suc (suc (suc (suc zero)))))) = "6"
digit_text (suc (suc (suc (suc (suc (suc (suc zero))))))) = "7"
digit_text (suc (suc (suc (suc (suc (suc (suc (suc zero)))))))) = "8"
digit_text _ = "9"

unfoldable pub decimal_from : ℕ → ℕ → String
unfolding digit_text
decimal_from zero n = digit_text (n % 10)
decimal_from (suc fuel) n =
    let front = decimal_from fuel (n / 10) in
    if ltb n 10 then digit_text n else String.◌++◌ front (digit_text (n % 10))

unfoldable pub decimal : ℕ → String
unfolding decimal_from
decimal n = decimal_from n n

-- `f"{run_id}:{phase_index}:{phase_sha[:12]}"`
unfoldable pub execution_id : String → ℕ → String → String
unfolding decimal first_chars
execution_id run_id phase_index phase_sha = String.◌++◌ run_id (
    String.◌++◌ ":"
      (String.◌++◌ (decimal phase_index) (String.◌++◌ ":" (first_chars 12 phase_sha))))

-- `tracks.setdefault(name, []).append(sequence)`
unfoldable pub add_track :
    List (String × List Fields) → String → Fields → List (String × List Fields)
add_track [] name sequence = (name, sequence ∷ []) ∷ []
add_track ((other, track) ∷ tracks) name sequence =
    if other == name
    then (other, track ++ sequence ∷ []) ∷ tracks
    else (other, track) ∷ add_track tracks name sequence

-- The loop of `_worker_phase_plans`.
unfoldable pub tracks_of :
    List Fields → List (String × List Fields) → Result (List (String × List Fields))
unfolding add_track physical_id
tracks_of [] tracks = ok tracks
tracks_of (sequence ∷ sequences) tracks = do
  name ← physical_id sequence
  tracks_of sequences (add_track tracks name sequence)

unfoldable pub items_of : List Fields → Items
items_of [] = nil
items_of (fs ∷ rest) = cons (dict fs) (items_of rest)

-- `d[key]`
unfoldable pub entry : String → Fields → Result Value
entry key fs = elim (get key fs) [ none ↦ raise key_error | some v ↦ ok v ]

-- the plan of one worker
unfoldable pub plan_of :
    String → CompiledProgram → String → Value → Value → Value → List Fields → Fields
unfolding items_of
plan_of run_id program execution phase_id duration completion track =
    field (str "run_id") (str run_id) (
      field (str "tracks") (list (items_of track)) (
        field (str "root_id") (str program.root_id) (
          field (str "phase_id") phase_id (
            field (str "completion") completion (
              field (str "duration_us") duration (
                field (str "transitions") (list nil) (
                  field (str "manifest_hash") (str program.manifest_hash)
                    (field (str "phase_execution_id") (str execution) end))))))))

-- `phase["sha256"]`, a text of at least 12 characters
unfoldable pub phase_digest : Fields → Result String
unfolding count
phase_digest phase = elim (get "sha256" phase) [
  | some (str sha) ↦ if ltb (count sha) 12 then raise program_error else ok sha
  | _ ↦ raise program_error
]

-- `_worker_phase_plans`: the id of the execution and the plans, by worker
unfoldable pub worker_phase_plans :
    String → CompiledProgram → ℕ → Fields → Result (String × List (String × Fields))
unfolding phase_digest execution_id phase_sequences tracks_of entry plan_of
worker_phase_plans run_id program phase_index phase = do
  sha ← phase_digest phase
  let execution = execution_id run_id phase_index sha
  sequences ← entry "sequences" phase
  checked ← phase_sequences phase
  tracks ← tracks_of checked []
  phase_id ← entry "phase_id" phase
  duration ← entry "duration_us" phase
  completion ← entry "completion" phase
  ok (
    execution,
    map (λ t. (t.0, plan_of run_id program execution phase_id duration completion t.1)) tracks,
  )
