-- ===== src/Records/Rows.antt =====
-- What the methods of ProjectState in core/db/models/project_state.py do to its list of files, and the
-- rows that a new project starts with.
use gpt_pilot.Prelude.{
  String, Option, none, some, List, [], ◌∷◌, ◌++◌, ◌==◌, string_eq, find?, update_first,
}
use gpt_pilot.Records.{File, FileContent, Specification, KnowledgeBase}

abbrev pub empty_specification : Specification
empty_specification = record {
  original_description = none;
  description = "";
  template_summary = none;
  architecture = "";
  system_dependencies = [];
  package_dependencies = [];
  templates = none;
  complexity = "hard";
  example_project = none;
}

abbrev pub empty_knowledge_base : KnowledgeBase
empty_knowledge_base = record { pages = none; apis = none; utility_functions = none }

abbrev pub clone_file : File → File
clone_file f = record { path = f.path; content = f.content; meta = f.meta }

-- The loop over `self.files` that looks for a path.
unfoldable pub find_file : String → List File → Option File
find_file path = find? (λ f. path == f.path)

abbrev pub content_or_empty : Option File → String
content_or_empty none = ""
content_or_empty (some file) = file.content.content

-- `file.content = content`, at the file that was found.
unfoldable pub set_content : String → FileContent → List File → List File
set_content path content = update_first (λ f. path == f.path) (λ f. record f { content = content })

-- The files after `save_file`: the file that was found has the content, or a new file is appended.
unfoldable pub store_file : String → FileContent → List File → List File
store_file path content files = elim (find_file path files) [
  | some _ ↦ set_content path content files
  | none ↦ files ++ record { path = path; content = content; meta = [] } ∷ []
]
