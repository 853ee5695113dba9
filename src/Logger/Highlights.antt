-- ===== src/Logger/Highlights.antt =====
-- pkg/logger/highlight.go: the patterns of the connections' highlights, and their reload. encoding/json
-- and regexp are parameters.
pub mod Reload
use lierc.Base.{
  ℕ, Bool, true, false, List, [], ◌∷◌, ◌++◌, Option, none, some, if◌then◌else◌, Text, text, Map,
  lookup, insert,
}
use lierc.Irc.{IrcMessage, Prefix}
use lierc.Logger.{match_highlight}
use lierc.Logger.Store.{highlight_rows}

-- json.Unmarshal to a list of texts, nonBlank's MatchString, regexp.QuoteMeta, and regexp.Compile with
-- the MatchString of what it returns; none for an error.
pub record Regexps : Type 0 where
  pub decode_words : Text → Option (List Text)
  pub non_blank : Text → Bool
  pub quote_meta : Text → Text
  pub compile : Text → Option (Text → Bool)

-- A pattern, no pattern, or an error.
pub data Compiled : Type 0 where
  pattern : (Text → Bool) → Compiled
  no_words : Compiled
  bad_highlight : Compiled

abbrev pub compiled : Option (Text → Bool) → Compiled
compiled none = bad_highlight
compiled (some matches) = pattern matches

unfoldable pub join_words : List Text → Text
join_words [] = []
join_words (w ∷ []) = w
join_words (w ∷ ws) = w ++ b'|' ∷ join_words ws

module _ ⦃re : Regexps⦄ where
  unfoldable pub quoted_words : List Text → List Text
  quoted_words [] = []
  quoted_words (w ∷ ws) =
      let rest = quoted_words ws in if re.non_blank w then re.quote_meta w ∷ rest else rest

  unfoldable pub compile_parts : List Text → Compiled
  unfolding join_words
  compile_parts [] = no_words
  compile_parts (p ∷ ps) =
      compiled (re.compile (text "(?i)\\b(?:" ++ (join_words (p ∷ ps) ++ text ")\\b")))

  -- compileHighlight
  unfoldable pub compile_highlight : List Text → Compiled
  unfolding quoted_words compile_parts
  compile_highlight terms = compile_parts (quoted_words terms)

  -- One round of the loop of compileHighlights.
  unfoldable pub compile_config : Text → Compiled
  unfolding compile_highlight
  compile_config config = elim (re.decode_words config) [
    | none ↦ bad_highlight
    | some terms ↦ compile_highlight terms
  ]

  abbrev pub with_pattern : Text → Compiled → Map (Text → Bool) → Map (Text → Bool)
  with_pattern id (pattern matches) ps = insert id matches ps
  with_pattern id no_words ps = ps
  with_pattern id bad_highlight ps = ps

  -- compileHighlights: the patterns; the errors are only logged.
  unfoldable pub compile_highlights : Map Text → Map (Text → Bool) → Map (Text → Bool)
  unfolding compile_config
  compile_highlights [] ps = ps
  compile_highlights ((id, config) ∷ rest) ps =
      compile_highlights rest (with_pattern id (compile_config config) ps)

  -- reloadHighlights: what Highlights returned, or none for an error, and the patterns there were.
  unfoldable pub reload : Option (Map Text) → Map (Text → Bool) → Map (Text → Bool)
  unfolding compile_highlights
  reload none ps = ps
  reload (some configs) ps = compile_highlights configs []

  -- Match, with the connection's pattern.
  unfoldable pub match : Map (Text → Bool) → Text → Prefix → IrcMessage → Bool
  unfolding match_highlight
  match ps connection p m = match_highlight (lookup connection ps) p m
