-- ===== src/App/Scan.antt =====
-- apps/ovayra-spike/src/evidence_lint.rs: what no text of an evidence file may hold: keys of APIs,
-- upload headers, private keys, home directories, and URLs with credentials or upload paths. The
-- searches run over the bytes of the UTF-8 text.
pub mod Runs
pub mod Armor
pub mod Urls
use ovayra.Prelude.{
  ℕ, zero, suc, ◌-◌, Bool, true, false, not, ◌&&◌, ◌||◌, Option, none, some, List, [], ◌∷◌, ◌++◌,
  reverse, ltb, leb, ◌==◌, Result, ok, ◌>>=◌, ◌>>◌, guard, length, drop, any, all, keep_if,
  space_width, Text, bytes, starts_with, has_infix, to_ascii_lowercase, is_ascii_digit,
}

pub data Category : Type 0 where
  missing_directory not_directory symlink non_regular too_many_files oversized
        binary_or_invalid_text unsupported_file invalid_json duplicate_key invalid_evidence
        forbidden_key_category api_key upload_header private_key upload_url url_credential home_path
        unsafe_name_category max_depth too_many_directories changed_entry io :
      Category

unfoldable pub category_as_str : Category → Text
category_as_str missing_directory = bytes "missing-directory"
category_as_str not_directory = bytes "not-directory"
category_as_str symlink = bytes "symlink"
category_as_str non_regular = bytes "non-regular"
category_as_str too_many_files = bytes "too-many-files"
category_as_str oversized = bytes "oversized"
category_as_str binary_or_invalid_text = bytes "binary-or-invalid-text"
category_as_str unsupported_file = bytes "unsupported-file"
category_as_str invalid_json = bytes "invalid-json"
category_as_str duplicate_key = bytes "duplicate-key"
category_as_str invalid_evidence = bytes "invalid-evidence"
category_as_str forbidden_key_category = bytes "forbidden-key"
category_as_str api_key = bytes "api-key"
category_as_str upload_header = bytes "upload-header"
category_as_str private_key = bytes "private-key"
category_as_str upload_url = bytes "upload-url"
category_as_str url_credential = bytes "url-credential"
category_as_str home_path = bytes "home-path"
category_as_str unsafe_name_category = bytes "unsafe-name"
category_as_str max_depth = bytes "max-depth"
category_as_str too_many_directories = bytes "too-many-directories"
category_as_str changed_entry = bytes "changed-entry"
category_as_str io = bytes "io"

abbrev pub Scanned : Type 0
Scanned = Result Category (Unit {0})

abbrev pub api_key_markers : List Text
api_key_markers =
    bytes "aiza"
    ∷ bytes "sk-"
    ∷ bytes "ya29."
    ∷ bytes "akia"
    ∷ bytes "api_key="
    ∷ bytes "api-key="
    ∷ bytes "authorization: bearer"
    ∷ bytes "bearer "
    ∷ []

-- the third is `:\users\`
abbrev pub home_markers : List Text
home_markers =
    bytes "/users/" ∷ bytes "/home/" ∷ ((58 ∷ 92 ∷ []) ++ (bytes "users" ++ (92 ∷ []))) ∷ []

abbrev pub armor : Text
armor = bytes "-----begin "

-- what stands before the next five dashes
unfoldable pub before_dashes : Text → Text → Option Text
before_dashes run [] = none
before_dashes run (c ∷ s) = elim (starts_with (c ∷ s) (bytes "-----")) [
  | true ↦ some (reverse run)
  | false ↦ before_dashes (c ∷ run) s
]

-- The loop of `contains_armored_private_key`; the number is the bytes of a marker still to be passed.
unfoldable pub armored_from : ℕ → Text → Bool
unfolding before_dashes starts_with has_infix
armored_from k [] = false
armored_from (suc k) (c ∷ s) = armored_from k s
armored_from zero (c ∷ s) = elim (starts_with (c ∷ s) armor) [
  | true ↦ elim (before_dashes [] (drop (length armor) (c ∷ s))) [
    | none ↦ false
    | some label ↦ elim (has_infix (armor ++ label) (bytes "private key")) [
      | true ↦ true
      | false ↦ armored_from (length armor - 1) s
    ]
  ]
  | false ↦ armored_from 0 s
]

unfoldable pub contains_armored_private_key : Text → Bool
unfolding armored_from
contains_armored_private_key value = armored_from 0 value

-- a URL stops at white space, a quote or a closing bracket
unfoldable pub stops : Text → Bool
unfolding space_width
stops [] = true
stops (c ∷ s) = not (space_width (c ∷ s) == 0) || (c == 34) || (c == 39) || (c == 41) || (c == 93)

unfoldable pub url_of : Text → Text
unfolding stops
url_of [] = []
url_of (c ∷ s) = elim (stops (c ∷ s)) [ true ↦ [] | false ↦ c ∷ url_of s ]

-- up to the first slash
unfoldable pub until_slash : Text → Text
until_slash [] = []
until_slash (c ∷ s) = elim (c == 47) [ true ↦ [] | false ↦ c ∷ until_slash s ]

unfoldable pub authority_of : Text → Text → Text
unfolding until_slash
authority_of scheme url = until_slash (drop (length scheme) url)

abbrev pub has_byte : ℕ → Text → Bool
has_byte b s = any (λ c. c == b) s

-- the test of one URL
unfoldable pub check_url : Text → Text → Scanned
unfolding authority_of to_ascii_lowercase has_infix
check_url scheme url = do
  guard (not (has_byte 63 url || has_byte 35 url || has_byte 64 (authority_of scheme url)))
      url_credential
  guard
      (not (
        has_infix (to_ascii_lowercase (authority_of scheme url)) (bytes "upload")
        || has_infix (to_ascii_lowercase url) (bytes "/upload/")))
      upload_url

-- The search for one scheme; the number is the bytes of a scheme still to be passed.
unfoldable pub scan_scheme : Text → ℕ → Text → Scanned
unfolding check_url url_of starts_with to_ascii_lowercase
scan_scheme scheme k [] = ok tt
scan_scheme scheme (suc k) (c ∷ s) = scan_scheme scheme k s
scan_scheme scheme zero (c ∷ s) = elim (starts_with (to_ascii_lowercase (c ∷ s)) scheme) [
  | true ↦ check_url scheme (url_of (c ∷ s)) >> scan_scheme scheme (length scheme - 1) s
  | false ↦ scan_scheme scheme 0 s
]

abbrev pub https : Text
https = bytes "https://"

abbrev pub http : Text
http = bytes "http://"

unfoldable pub scan_urls : Text → Scanned
unfolding scan_scheme
scan_urls value = do scan_scheme https 0 value; scan_scheme http 0 value

unfoldable pub holds_any : List Text → Text → Bool
unfolding has_infix
holds_any markers value = any (has_infix value) markers

unfoldable pub scan_text : Text → Scanned
unfolding holds_any contains_armored_private_key scan_urls to_ascii_lowercase
scan_text value = do
  guard (not (holds_any api_key_markers (to_ascii_lowercase value))) api_key
  guard (not (holds_any (bytes "x-goog-upload" ∷ []) (to_ascii_lowercase value))) upload_header
  guard (not (contains_armored_private_key (to_ascii_lowercase value))) private_key
  guard (not (holds_any home_markers (to_ascii_lowercase value))) home_path
  scan_urls value

abbrev pub forbidden_key_parts : List Text
forbidden_key_parts =
    bytes "apikey"
    ∷ bytes "token"
    ∷ bytes "secret"
    ∷ bytes "password"
    ∷ bytes "uploadurl"
    ∷ bytes "prompt"
    ∷ bytes "result"
    ∷ bytes "mediapath"
    ∷ bytes "filename"
    ∷ []

unfoldable pub is_ascii_alphanumeric : ℕ → Bool
unfolding is_ascii_digit
is_ascii_alphanumeric c = is_ascii_digit c || (leb 65 c && leb c 90) || (leb 97 c && leb c 122)

unfoldable pub is_ascii : Text → Bool
is_ascii s = all (λ c. ltb c 128) s

-- `forbidden_key`; `normalize` stands for the compatibility form in lower case, which is library code
unfoldable pub forbidden_key : (Text → Text) → Text → Bool
unfolding is_ascii is_ascii_alphanumeric holds_any
forbidden_key normalize key =
    not (is_ascii (normalize key))
    || holds_any forbidden_key_parts (keep_if is_ascii_alphanumeric (normalize key))
