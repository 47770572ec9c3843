-- ===== src/App/Lint.antt =====
-- apps/ovayra-spike/src/evidence_lint.rs: the JSON values, the files and the directories of evidence.
--
-- A directory tree is what the file system says of it, the checks against files that change in between
-- included. A JSON document is the tree that the library reads, with its keys in the order of the
-- text; an error of the visitor is reported before one of the syntax. The digest of an entry's path,
-- which an error carries beside its category, is left out.
pub mod Bounds
use ovayra.Prelude.{
  ℕ, ◌+◌, ◌*◌, Bool, true, false, not, ◌&&◌, ◌||◌, Option, none, some, List, [], ◌∷◌, ◌++◌, leb,
  ◌==◌, if◌then◌else◌, Result, ok, err, ◌>>=◌, ◌>>◌, guard, ok_or, map_err, length, find, any,
  is_utf8, Text, bytes, text_list_eq, option_eq, contains, has_infix,
}
use ovayra.Contracts.Evidence.{Value, text, array, object, Values, nil, cons, Fields, end, field}
use ovayra.App.Scan.{
  Category, category_as_str, missing_directory, not_directory, symlink, non_regular, too_many_files,
  oversized, binary_or_invalid_text, unsupported_file, invalid_json, duplicate_key,
  invalid_evidence, forbidden_key_category, api_key, upload_header, private_key, upload_url,
  url_credential, home_path, unsafe_name_category, max_depth, too_many_directories, changed_entry,
  io, Scanned, scan_text, forbidden_key, is_ascii,
}

abbrev pub max_file_bytes : ℕ
max_file_bytes = 1048576

abbrev pub max_files : ℕ
max_files = 1024

abbrev pub max_directories : ℕ
max_directories = 128

abbrev pub max_depth_allowed : ℕ
max_depth_allowed = 32

abbrev pub max_total_bytes : ℕ
max_total_bytes = 8 * 1048576

-- What the lint asks of libraries and of the other crate. `located` is the message of a visitor's
-- error, with the place that serde_json adds.
pub record LintLibraries : Type 0 where
  pub normalize : Text → Text
  pub parse_tree : Text → Option Value
  pub located : Category → Text
  pub is_evidence : Text → Bool
  pub is_proof : Text → Bool
  pub sha256_hex : Text → Text

-- The file as it is found, opened, read and found again.
pub record FoundFile : Type 0 where
  pub is_regular : Bool
  pub opens : Bool
  pub unchanged_before : Bool
  pub extension : Option Text
  pub content : Option Text
  pub unchanged_after : Bool
  pub len_after : ℕ

mutual
  -- `folder` has whether it is within the root, and whether it can be read.
  pub data Node : Type 0 where
    link special unreadable : Node
    plain : FoundFile → Node
    folder : (inside readable : Bool) → Nodes → Node

  pub data Nodes : Type 0 where
    no_more broken : Nodes
    entry : Text → Node → Nodes → Nodes

abbrev pub Path_ : Type 0
Path_ = List Text

-- The directories counted and the files found so far.
abbrev pub Found : Type 0
Found = ℕ × List (Path_ × FoundFile)

module _ (libs : LintLibraries) where
  -- `SafeJson`, with its two loops; an object's loop keeps the keys that it has seen
  mutual
    unfolding forbidden_key scan_text contains

    pub scan_value : Value → Scanned
    scan_value (text t) = scan_text t
    scan_value (array values) = scan_values values
    scan_value (object fields) = scan_fields [] fields
    scan_value _ = ok tt

    scan_values : Values → Scanned
    scan_values nil = ok tt
    scan_values (cons v values) = scan_value v >> scan_values values

    scan_fields : List Text → Fields → Scanned
    scan_fields keys end = ok tt
    scan_fields keys (field key v fields) =
        guard (not (contains keys key)) duplicate_key
        >> (guard (not (forbidden_key libs.normalize key)) forbidden_key_category
            >> (scan_value v >> scan_fields (key ∷ keys) fields))

  abbrev reported_categories : List Category
  reported_categories =
      duplicate_key ∷ forbidden_key_category ∷ api_key ∷ upload_header ∷ private_key ∷ upload_url
      ∷ url_credential ∷ home_path ∷ []

  category_from_json_error : Text → Category
  unfolding category_as_str has_infix
  category_from_json_error message =
      elim (find (λ c. has_infix message (category_as_str c)) reported_categories) [
        | none ↦ invalid_json
        | some c ↦ c
      ]

  scan_tree : Option Value → Scanned
  unfolding category_from_json_error
  scan_tree none = err invalid_json
  scan_tree (some v) = map_err (λ c. category_from_json_error (libs.located c)) (scan_value v)

  unfoldable pub parse_and_scan_json : Text → Scanned
  unfolding scan_tree
  parse_and_scan_json contents = scan_tree (libs.parse_tree contents)

  passes : Scanned → Bool
  passes (ok _) = true
  passes (err _) = false

  unfoldable pub unsafe_name : Path_ → Bool
  unfolding passes is_ascii scan_text forbidden_key
  unsafe_name path =
      any
        (λ name.
          not (is_ascii name) || not (passes (scan_text name)) || forbidden_key libs.normalize name)
        path

  unfoldable pub lint_contents : Bool → Text → Scanned
  unfolding parse_and_scan_json
  lint_contents true contents = scan_text contents
  lint_contents false contents = do
    parse_and_scan_json contents
    guard (libs.is_evidence contents || libs.is_proof contents) invalid_evidence

  is_json : Option Text → Bool
  unfolding option_eq
  is_json extension = option_eq extension (some (bytes "json"))

  is_gitkeep : Path_ → Bool
  unfolding text_list_eq
  is_gitkeep path = text_list_eq path (bytes ".gitkeep" ∷ [])

  unfoldable pub lint_file : Bool → Path_ → FoundFile → Result Category Text
  unfolding unsafe_name lint_contents is_json is_gitkeep
  lint_file text_mode path file = if not text_mode && is_gitkeep path then ok [] else do
    guard (not (unsafe_name path)) unsafe_name_category
    guard file.is_regular changed_entry
    guard file.opens io
    guard file.unchanged_before changed_entry
    guard (text_mode || is_json file.extension) unsupported_file
    content ← ok_or io file.content
    guard (leb (length content) max_file_bytes) oversized
    guard (file.unchanged_after && (file.len_after == length content)) changed_entry
    guard (not (any (λ c. c == 0) content) && is_utf8 content) binary_or_invalid_text
    lint_contents text_mode content
    ok content

-- the checks on entering a directory; the first number is the depth
folder_checks : ℕ → (inside readable : Bool) → Scanned
folder_checks depth inside readable = do
  guard (leb depth max_depth_allowed) max_depth
  guard inside changed_entry
  guard readable io

-- `collect_regular_files`, from its loop on
unfoldable mutual
  unfolding folder_checks

  pub collect_nodes : ℕ → Path_ → Nodes → Found → Result Category Found
  collect_nodes depth path no_more found = ok found
  collect_nodes depth path broken found = err io
  collect_nodes depth path (entry name node rest) found =
      collect_node depth (path ++ (name ∷ [])) node found >>= collect_nodes depth path rest

  collect_node : ℕ → Path_ → Node → Found → Result Category Found
  collect_node depth path link found = err symlink
  collect_node depth path special found = err non_regular
  collect_node depth path unreadable found = err io
  collect_node depth path (plain file) (directories, files) =
      guard (leb (length files + 1) max_files) too_many_files
      >> ok (directories, files ++ ((path, file) ∷ []))
  collect_node depth path (folder inside readable nodes) (directories, files) =
      guard (leb (directories + 1) max_directories) too_many_directories
      >> (folder_checks (depth + 1) inside readable
          >> collect_nodes (depth + 1) path nodes (directories + 1, files))

unfoldable pub collect_folder :
    ℕ → Path_ → (inside readable : Bool) → Nodes → Found → Result Category Found
unfolding folder_checks
collect_folder depth path inside readable nodes found = do
  folder_checks depth inside readable
  collect_nodes depth path nodes found

-- `VerifiedEvidence`
pub record VerifiedEvidence : Type 0 where
  pub content : Text
  pub sha256 : Text

-- What stands at the root: nothing, or a node.
unfoldable pub collect_root : Option Node → Result Category Found
collect_root none = err missing_directory
collect_root (some (folder inside readable nodes)) =
    collect_folder 0 [] inside readable nodes (1, [])
collect_root (some link) = err symlink
collect_root (some unreadable) = err io
collect_root (some _) = err not_directory

module _ (libs : LintLibraries) where
  verified_if : Text → List VerifiedEvidence → List VerifiedEvidence
  verified_if [] rest = rest
  verified_if (c ∷ s) rest = record { content = c ∷ s; sha256 = libs.sha256_hex (c ∷ s) } ∷ rest

  -- `for file in files`, with the total of the bytes so far
  unfoldable pub lint_files :
      Bool → List (Path_ × FoundFile) → ℕ → Result Category (List VerifiedEvidence)
  unfolding lint_file verified_if
  lint_files text_mode [] total = ok []
  lint_files text_mode ((path, file) ∷ files) total = do
    content ← lint_file libs text_mode path file
    guard (leb (total + length content) max_total_bytes) oversized
    rest ← lint_files text_mode files (total + length content)
    ok (verified_if content rest)

  unfoldable pub lint_verified : Bool → Option Node → Result Category (List VerifiedEvidence)
  unfolding collect_root lint_files
  lint_verified text_mode root = do
    (directories, files) ← collect_root root
    guard (leb (length files) max_files) too_many_files
    lint_files text_mode files 0
