-- ===== src/Scheduler/Classify.antt =====
-- src/core/operation-scheduler.ts: `classifyOperation`.
use Prim.Native.String.{String}
use text.Mathlib.Text.{◌==◌ as str_eq}
use desktop_remote.Common.{Bool, false, ◌||◌, List, [], ◌∷◌, if◌then◌else◌, any}
use desktop_remote.Scheduler.Classes.{OperationClass, light, heavy, process, document}

abbrev search_operations : List String
search_operations =
    "start_search" ∷ "get_more_search_results" ∷ "stop_search" ∷ "list_searches" ∷ []

abbrev process_operations : List String
process_operations =
    "start_process" ∷ "read_process_output" ∷ "interact_with_process" ∷ "force_terminate"
    ∷ "list_sessions" ∷ "list_processes" ∷ "kill_process" ∷ []

abbrev document_operations : List String
document_operations = "write_pdf" ∷ []

-- A field of the input: text, a list of texts, or anything else (an absent field too).
pub data Field : Type 0 where
  a_text : String → Field
  a_list : List String → Field
  neither : Field

pub record Input : Type 0 where
  pub path : Field
  pub file_path : Field
  pub output_path : Field
  pub paths : Field

abbrev has : List String → String → Bool
has names name = any (str_eq name) names

-- The regular expression's test is an argument: whether the text ends in a document's extension.
module _ (document_extension : String → Bool) where
  unfoldable pub is_document_path : Field → Bool
  is_document_path (a_text s) = document_extension s
  is_document_path _ = false

  unfoldable pub some_document : Field → Bool
  some_document (a_list ss) = any document_extension ss
  some_document _ = false

  unfoldable pub has_document_path : String → Input → Bool
  unfolding is_document_path some_document any
  has_document_path name input =
      if str_eq name "read_multiple_files"
      then some_document input.paths
      else if str_eq name "read_file" || str_eq name "write_file" || str_eq name "edit_block"
      then is_document_path input.path
        || is_document_path input.file_path
        || is_document_path input.output_path
      else false

  unfoldable pub classify_operation : String → Input → OperationClass
  unfolding has_document_path any
  classify_operation name input =
      if has process_operations name
      then process
      else if has search_operations name
      then heavy
      else if has document_operations name || has_document_path name input
      then document
      else light
