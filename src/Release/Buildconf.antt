-- ===== src/Release/Buildconf.antt =====
-- crates/spike-release/src/ffmpeg_policy.rs: the `configuration:` record of an FFmpeg build, taken
-- apart into tokens as a shell would, and the flags that it may and must hold.
--
-- The bytes of a character stand for the character: only ASCII characters and white space have a
-- meaning here, and no byte inside another character is one of them.
pub mod Quoted
pub mod Flags
use ovayra.Prelude.{
  ℕ, zero, suc, Bool, true, false, not, ◌&&◌, ◌||◌, Option, none, some, List, [], ◌∷◌, ◌++◌,
  reverse, ◌==◌, if◌then◌else◌, Result, ok, err, ◌>>=◌, ◌>>◌, guard, ok_or, find, trim, trim_start,
  space_width, strip_prefix, lines, Text, bytes, sort, contains, is_empty, starts_with,
}

-- `FfmpegPolicyError`, less the parts of messages that libraries write
pub data FfmpegPolicyError : Type 0 where
  missing_artifact unsafe_path invalid_checksum_manifest checksum_mismatch forbidden_configure_flag
        missing_configure_flag invalid_buildconf invalid_sbom executable_check :
      Text → FfmpegPolicyError
  io : FfmpegPolicyError

abbrev pub Policed : Type 0 → Type 0
Policed A = Result FfmpegPolicyError A

abbrev pub baseline_flags : List Text
baseline_flags =
    bytes "--disable-autodetect"
    ∷ bytes "--disable-debug"
    ∷ bytes "--disable-doc"
    ∷ bytes "--disable-ffplay"
    ∷ bytes "--disable-network"
    ∷ bytes "--enable-ffmpeg"
    ∷ bytes "--enable-ffprobe"
    ∷ bytes "--enable-libopus"
    ∷ bytes "--enable-libvpx"
    ∷ bytes "--enable-version3"
    ∷ bytes "--disable-gpl"
    ∷ bytes "--disable-nonfree"
    ∷ []

-- `tokens.push(current)` unless it is empty; the current token is kept reversed
push_token : Text → List Text → List Text
push_token [] rest = rest
push_token (c ∷ run) rest = reverse (c ∷ run) ∷ rest

prepend : Text → Option (List Text) → Option (List Text)
unfolding push_token
prepend run none = none
prepend run (some tokens) = some (push_token run tokens)

-- The loop of `parse_tokens`: the bytes of white space that are left, the open quote, whether the
-- next character is escaped, and the current token. `none` is an open quote or escape at the end.
tokens_from : ℕ → Option ℕ → Bool → Text → Text → Option (List Text)
unfolding push_token prepend space_width
tokens_from k (some delimiter) escaped run [] = none
tokens_from k none true run [] = none
tokens_from k none false run [] = some (push_token run [])
tokens_from (suc k) quote escaped run (c ∷ s) = tokens_from k quote escaped run s
tokens_from zero quote true run (c ∷ s) = tokens_from zero quote false (c ∷ run) s
tokens_from zero (some delimiter) false run (c ∷ s) = elim (c == delimiter) [
  | true ↦ tokens_from zero none false run s
  | false ↦ elim ((delimiter == 34) && (c == 92)) [
    | true ↦ tokens_from zero (some delimiter) true run s
    | false ↦ tokens_from zero (some delimiter) false (c ∷ run) s
  ]
]
tokens_from zero none false run (c ∷ s) = elim (c == 92) [
  | true ↦ tokens_from zero none true run s
  | false ↦ elim ((c == 39) || (c == 34)) [
    | true ↦ tokens_from zero (some c) false run s
    | false ↦ elim (space_width (c ∷ s)) [
      | zero ↦ tokens_from zero none false (c ∷ run) s
      | suc k ↦ prepend run (tokens_from k none false [] s)
    ]
  ]
]

checked_tokens : Option (List Text) → Policed (List Text)
checked_tokens none = err (invalid_buildconf (bytes "unbalanced quoting or trailing escape"))
checked_tokens (some []) = err (invalid_buildconf (bytes "empty configuration"))
checked_tokens (some (t ∷ tokens)) = ok (t ∷ tokens)

unfoldable pub parse_tokens : Text → Policed (List Text)
unfolding tokens_from checked_tokens
parse_tokens input = checked_tokens (tokens_from 0 none false [] input)

-- The lines that continue a record: options, and blank lines while nothing has been read.
continued : Text → List Text → Text
unfolding trim starts_with
continued record_text [] = record_text
continued record_text (line ∷ rest) = elim (starts_with (trim line) (bytes "--")) [
  | true ↦
      continued (if is_empty record_text then trim line else record_text ++ (32 ∷ trim line)) rest
  | false ↦ elim (not (is_empty (trim line)) || not (is_empty record_text)) [
    | true ↦ record_text
    | false ↦ continued record_text rest
  ]
]

-- `configuration`: the record after the first line that starts with its name
configuration_of : List Text → Option Text
unfolding continued strip_prefix trim trim_start
configuration_of [] = none
configuration_of (line ∷ rest) = elim (strip_prefix (trim_start line) (bytes "configuration:")) [
  | none ↦ configuration_of rest
  | some inline ↦ some (continued (trim inline) rest)
]

-- a `BTreeSet` of the tokens is smaller than their list
unfoldable pub has_duplicate : List Text → Bool
has_duplicate [] = false
has_duplicate (t ∷ tokens) = contains tokens t || has_duplicate tokens

forbid : List Text → List Text → Policed (Unit {0})
forbid [] values = ok tt
forbid (flag ∷ flags) values = do
  guard (not (contains values flag)) (forbidden_configure_flag flag)
  forbid flags values

require_flags : List Text → List Text → Policed (Unit {0})
require_flags [] values = ok tt
require_flags (flag ∷ flags) values = do
  guard (contains values flag) (missing_configure_flag flag)
  require_flags flags values

-- `values.iter().find(…)`, in the order of the set
no_flag : Option Text → Policed (Unit {0})
no_flag none = ok tt
no_flag (some flag) = err (forbidden_configure_flag flag)

forbid_prefixes : List Text → List Text → Policed (Unit {0})
unfolding no_flag
forbid_prefixes [] values = ok tt
forbid_prefixes (prefix ∷ prefixes) values = do
  no_flag (find (λ flag. starts_with flag prefix) (sort values))
  forbid_prefixes prefixes values

abbrev pub forbidden_flags : List Text
forbidden_flags = bytes "--enable-gpl" ∷ bytes "--enable-nonfree" ∷ []

abbrev pub forbidden_prefixes : List Text
forbidden_prefixes = bytes "--enable-gpl=" ∷ bytes "--enable-nonfree=" ∷ []

unfoldable pub check_flags : List Text → Policed (Unit {0})
unfolding has_duplicate forbid require_flags forbid_prefixes
check_flags tokens = do
  guard (not (has_duplicate tokens)) (invalid_buildconf (bytes "duplicate configure token"))
  forbid forbidden_flags tokens
  require_flags baseline_flags tokens
  forbid_prefixes forbidden_prefixes tokens

unfoldable pub configuration : Text → Option Text
unfolding configuration_of lines
configuration buildconf = configuration_of (lines buildconf)

-- `FfmpegBundle::validate_buildconf`
unfoldable pub validate_buildconf : Text → Policed (Unit {0})
unfolding configuration parse_tokens check_flags
validate_buildconf buildconf = do
  found ← ok_or (invalid_buildconf (bytes "missing configuration record")) (configuration buildconf)
  tokens ← parse_tokens found
  check_flags tokens
