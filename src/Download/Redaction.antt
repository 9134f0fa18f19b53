-- ===== src/Download/Redaction.antt =====
-- yt-download.py, `redact_extractor_argument` and `redact_command`: what diagnostics show of the
-- extractor arguments in a command.
mod Pieces
pub mod Laws
use yt_media_tools.Prelude.{
  ℕ, Bool, true, false, not, ◌&&◌, ◌||◌, Option, none, some, List, [], ◌∷◌, ◌++◌, Text, codes, any,
  map, ◌==◌, if◌then◌else◌,
}
use yt_media_tools.Query.Like.{equal_text}
use yt_media_tools.Query.Evaluator.{is_within}

-- Python's `name.strip().lower()`
pub record Letters : Type 0 where
  pub strip_lower : Text → Text

-- `s.split(separator)`: never empty
abbrev pub put_first : ℕ → List Text → List Text
put_first c [] = (c ∷ []) ∷ []
put_first c (piece ∷ pieces) = (c ∷ piece) ∷ pieces

unfoldable pub split : ℕ → Text → List Text
split separator [] = [] ∷ []
split separator (c ∷ cs) =
    let rest = split separator cs in if c == separator then [] ∷ rest else put_first c rest

-- `separator.join(pieces)`
unfoldable pub join_with : ℕ → List Text → Text
join_with separator [] = []
join_with separator (piece ∷ []) = piece
join_with separator (piece ∷ (next ∷ pieces)) =
    piece ++ (separator ∷ join_with separator (next ∷ pieces))

-- `s.partition(separator)`: the name before it, and what follows, if there is one
abbrev pub extend : ℕ → Text × Option Text → Text × Option Text
extend c (name, value) = (c ∷ name, value)

unfoldable pub partition : ℕ → Text → Text × Option Text
partition separator [] = ([], none)
partition separator (c ∷ cs) =
    let rest = partition separator cs in if c == separator then ([], some cs) else extend c rest

-- `.replace("-", "_")`
unfoldable pub underscored : Text → Text
underscored [] = []
underscored (c ∷ cs) = (if c == b'-' then b'_' else c) ∷ underscored cs

-- SENSITIVE_EXTRACTOR_ARGUMENT_NAMES
abbrev pub sensitive_names : List Text
sensitive_names =
    codes "api_key"
    ∷ (codes "app_info"
        ∷ (codes "authorization"
            ∷ (codes "client_id"
                ∷ (codes "credential"
                    ∷ (codes "data_sync_id"
                        ∷ (codes "device_id"
                            ∷ (codes "hls_key"
                                ∷ (codes "innertube_key"
                                    ∷ (codes "password"
                                        ∷ (codes "po_token"
                                            ∷ (codes "refresh_token"
                                                ∷ (codes "secret"
                                                    ∷ (codes "token"
                                                        ∷ (codes "visitor_data" ∷ []))))))))))))))

abbrev pub markers : List Text
markers = codes "token" ∷ (codes "password" ∷ (codes "secret" ∷ (codes "credential" ∷ [])))

abbrev pub redacted_mark : Text
redacted_mark = codes "<redacted>"

module _ ⦃ls : Letters⦄ where
  unfoldable pub is_sensitive : Text → Bool
  unfolding underscored is_within equal_text
  is_sensitive name =
      let normalised = underscored (ls.strip_lower name) in
      any (equal_text normalised) sensitive_names
      || any (λ marker. is_within marker normalised) markers

  -- one clause, from its partition at "="
  unfoldable pub redact_parts : Text → Text × Option Text → Text
  unfolding is_sensitive
  redact_parts clause (name, none) = clause
  redact_parts clause (name, some value) =
      if is_sensitive name then name ++ (b'=' ∷ redacted_mark) else clause

  unfoldable pub redact_clause : Text → Text
  unfolding redact_parts partition
  redact_clause clause = redact_parts clause (partition b'=' clause)

  -- from the partition at ":"
  unfoldable pub redact_arguments : Text → Text × Option Text → Text
  unfolding redact_clause join_with split
  redact_arguments value (extractor, none) = value
  redact_arguments value (extractor, some argument_text) =
      extractor ++ (b':' ∷ join_with b';' (map redact_clause (split b';' argument_text)))

  -- `redact_extractor_argument`
  unfoldable pub redact_extractor_argument : Text → Text
  unfolding redact_arguments
  redact_extractor_argument value = redact_arguments value (partition b':' value)

  -- `redact_command`: an item is redacted where the item before it is the option
  unfoldable pub redact_after : Bool → List Text → List Text
  unfolding redact_extractor_argument equal_text
  redact_after option [] = []
  redact_after option (item ∷ items) =
      (if option then redact_extractor_argument item else item)
      ∷ redact_after (equal_text item (codes "--extractor-args")) items

  unfoldable pub redact_command : List Text → List Text
  unfolding redact_after
  redact_command command = redact_after false command
