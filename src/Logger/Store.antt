-- ===== src/Logger/Store.antt =====
-- pkg/logger/store.go: what the store asks the database and makes of its answers. encoding/json and the
-- database are parameters: `encode` is none for an error, and an answer is what Scan returns.
use lierc.Base.{ℕ, Bool, if◌then◌else◌, List, [], ◌∷◌, Option, none, some, Text, Map, insert, map}
use lierc.Unicode.{Unicode}
use lierc.Irc.{IrcMessage, Prefix}
use lierc.Logger.{Stored, stored, no_connection, store_failed}

-- The arguments of the statement of InsertMessage, and those of InsertMessages.
pub record LogRow : Type 0 where
  pub connection : Text
  pub channel : Text
  pub command : Text
  pub message : Text
  pub time : ℕ
  pub self : Bool
  pub highlight : Bool

pub record LogRows : Type 0 where
  pub connection : Text
  pub channels : List Text
  pub command : Text
  pub message : Text
  pub time : ℕ
  pub self : Bool

-- One row's id, sql.ErrNoRows, or another error.
pub data Scanned : Type 0 where
  scanned : ℕ → Scanned
  no_rows : Scanned
  scan_failed : Scanned

-- max(id), which is NULL where no row was inserted, or an error.
pub data Greatest : Type 0 where
  greatest : Option ℕ → Greatest
  query_failed : Greatest

unfoldable pub stored_row : Scanned → Stored
stored_row (scanned id) = stored id
stored_row no_rows = no_connection
stored_row scan_failed = store_failed

unfoldable pub stored_rows : Greatest → Stored
stored_rows (greatest none) = no_connection
stored_rows (greatest (some id)) = stored id
stored_rows query_failed = store_failed

module _ ⦃u : Unicode⦄ (encode : IrcMessage → Option Text) where
  unfoldable pub log_row : Text → Prefix → IrcMessage → Text → Bool → Text → LogRow
  log_row connection p m channel highlight body = record {
    connection = connection;
    channel = u.lower channel;
    command = u.upper m.command;
    message = body;
    time = m.time;
    self = p.self;
    highlight = highlight;
  }

  -- InsertMessage
  unfoldable pub insert_message :
      (LogRow → Scanned) → Text → Prefix → IrcMessage → Text → Bool → Stored
  unfolding log_row stored_row
  insert_message query connection p m channel highlight = elim (encode m) [
    | none ↦ store_failed
    | some body ↦ stored_row (query (log_row connection p m channel highlight body))
  ]

  unfoldable pub log_rows : Text → Prefix → IrcMessage → List Text → Text → LogRows
  log_rows connection p m channels body = record {
    connection = connection;
    channels = map u.lower channels;
    command = u.upper m.command;
    message = body;
    time = m.time;
    self = p.self;
  }

  -- InsertMessages
  unfoldable pub insert_messages :
      (LogRows → Greatest) → Text → Prefix → IrcMessage → List Text → Stored
  unfolding log_rows stored_rows
  insert_messages query connection p m [] = stored 0
  insert_messages query connection p m (c ∷ cs) = elim (encode m) [
    | none ↦ store_failed
    | some body ↦ stored_rows (query (log_rows connection p m (c ∷ cs) body))
  ]

-- The loop of Highlights, over the rows: an id and a highlight that may be NULL, or none where Scan
-- fails.
unfoldable pub highlight_rows : List (Option (Text × Option Text)) → Map Text → Option (Map Text)
highlight_rows [] configs = some configs
highlight_rows (none ∷ rows) configs = none
highlight_rows (some (id, none) ∷ rows) configs = highlight_rows rows configs
highlight_rows (some (id, some words) ∷ rows) configs =
    highlight_rows rows (insert id words configs)

-- Highlights: the rows, none where the query fails, and whether rows.Err is nil behind them.
unfoldable pub highlights : Option (List (Option (Text × Option Text))) → Bool → Option (Map Text)
unfolding highlight_rows
highlights none whole = none
highlights (some rows) whole = elim (highlight_rows rows []) [
  | none ↦ none
  | some configs ↦ if whole then some configs else none
]

-- The arguments of the statements of InsertPrivate and of MergeConfig.
pub record PrivateRow : Type 0 where
  pub connection : Text
  pub nick : Text
  pub time : ℕ

pub record ConfigRow : Type 0 where
  pub connection : Text
  pub fields : Text

-- InsertPrivate and MergeConfig, by which statements succeed.
unfoldable pub insert_private : (PrivateRow → Bool) → Text → Text → ℕ → Bool
insert_private exec connection nick time =
    exec (record { connection = connection; nick = nick; time = time })

unfoldable pub merge_config : (ConfigRow → Bool) → Text → Text → Bool
merge_config exec connection fields = exec (record { connection = connection; fields = fields })
