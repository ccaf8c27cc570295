-- ===== src/Sql.antt =====
-- The SQL statement guard of src/agent/sqlite_tool.c. A statement is the list of bytes before its NUL,
-- a pointer into it is what stands from there on, and a refusal stands for its message.
pub mod Bare
pub mod Cte
pub mod Suffix
pub mod Words
pub mod Read
pub mod Scan
pub mod Rounds
pub mod Fuel
pub mod Write
mod Tests
use agent_httpd.Base.{
  ℕ, zero, suc, ◌+◌, ◌-◌, Bool, true, false, not, ◌&&◌, ◌||◌, Option, none, some, List, [], ◌∷◌,
  length, take, drop, ltb, leb, ◌==◌, if◌then◌else◌, Bytes, codes, after_ci, is_some, is_alnum,
  same_ci, to_lower, past, drop_while,
}
use agent_httpd.Host.{behind_text}
use agent_httpd.Range.{strtoll}

-- `sql_busy_timeout_ms`, of the variable's value; a text without digits leaves `end` in front of it.
abbrev pub timeout_of : Option (Bool × ℕ × Bytes) → ℕ
timeout_of none = 5000
timeout_of (some (neg, v, c ∷ rest)) = 5000
timeout_of (some (neg, v, [])) = if neg && ltb 0 v then 5000 else if ltb 60000 v then 60000 else v

abbrev pub sql_busy_timeout_ms : Option Bytes → ℕ
sql_busy_timeout_ms none = 5000
sql_busy_timeout_ms (some []) = 5000
sql_busy_timeout_ms (some (c ∷ s)) = timeout_of (strtoll (c ∷ s))

-- The messages of `db_validate_read` and `db_validate_write`.
pub data Refusal : Type 0 where
  empty_sql multiple_statements only_select : Refusal
  only_add_column no_table_name no_column_name no_column_type unsafe_type : Refusal
  dangerous mirror_table no_where only_create_table only_writes : Refusal
  empty_subquery not_read_only write_keyword bad_token : Refusal
  no_cte_name bad_column_list no_as no_body unbalanced no_statement only_prefix : Refusal

-- A test that refuses, and what is done with its result.
abbrev pub refuse_or : Refusal → Option Bytes → (Bytes → Option Refusal) → Option Refusal
refuse_or r none f = some r
refuse_or r (some s) f = f s

abbrev pub is_word : ℕ → Bool
is_word c = is_alnum c || c == b'_'

-- `sql_break`, of the first byte; the end counts as a boundary.
abbrev pub sql_break : Bytes → Bool
sql_break [] = true
sql_break (c ∷ s) = not (is_word c)

abbrev pub is_blank : ℕ → Bool
is_blank c = c == b' ' || c == b'\t' || c == b'\r' || c == b'\n'

abbrev pub starts_blank : Bytes → Bool
starts_blank [] = false
starts_blank (c ∷ s) = is_blank c

abbrev pub hidden_tables : List Bytes
hidden_tables = codes "lost_and_found" ∷ []

abbrev pub any_table : List Bytes → Bytes → Bool
any_table [] name = false
any_table (t ∷ ts) name = same_ci name t || any_table ts name

-- `table_hidden`; `none` is NULL.
abbrev pub table_hidden : Option Bytes → Bool
table_hidden none = false
table_hidden (some name) = any_table hidden_tables name

-- A keyword matched in front: the last byte it takes, and what follows.
unfoldable pub matched : Option ℕ → Bytes → Bytes → Option (Option ℕ × Bytes)
matched prev [] s = some (prev, s)
matched prev (x ∷ w) [] = none
matched prev (x ∷ w) (c ∷ s) = if to_lower c == to_lower x then matched (some c) w s else none

-- `ci_strstr` and `strcasestr`: the byte before the first match, and the match.
unfoldable pub seek : Bytes → Option ℕ → Bytes → Option (Option ℕ × Option ℕ × Bytes)
seek w prev [] = none
seek w prev (c ∷ s) =
    let next = seek w (some c) s in
    elim (matched prev w (c ∷ s)) [ none ↦ next | some m ↦ some (prev, m.0, m.1) ]

-- Nothing stands before, or no byte of a word.
abbrev pub left_ok : Option ℕ → Bool
left_ok none = true
left_ok (some c) = not (is_word c)

-- The loop of `kw_anywhere` and of `sql_touches_hidden`.
unfoldable pub kw_loop : ℕ → Bytes → Option ℕ → Bytes → Bool
kw_loop zero w prev s = false
kw_loop (suc fuel) w prev s = elim (seek w prev s) [
  | none ↦ false
  | some (before, last, t) ↦ left_ok before && sql_break t || kw_loop fuel w last t
]

unfoldable pub kw_anywhere : Bytes → Bytes → Bool
kw_anywhere s w = kw_loop (suc (length s)) w none s

abbrev pub touches : List Bytes → Bytes → Bool
touches [] s = false
touches (t ∷ ts) s = kw_anywhere s t || touches ts s

-- `sql_touches_hidden`.
unfoldable pub sql_touches_hidden : Bytes → Bool
sql_touches_hidden s = touches hidden_tables s

-- `ci_strstr(s, w) != NULL`.
unfoldable pub mentions : Bytes → Bytes → Bool
mentions w [] = false
mentions w (c ∷ s) = is_some (after_ci w (c ∷ s)) || mentions w s

-- A comment in front.
pub data Comment : Type 0 where
  no_comment unended : Comment
  ended : Bytes → Comment

abbrev pub ended_by : Option Bytes → Comment
ended_by none = unended
ended_by (some s) = ended s

unfoldable pub comment_at : Bytes → Comment
comment_at [] = no_comment
comment_at (c ∷ []) = no_comment
comment_at (c ∷ d ∷ s) =
    if c == b'-' && d == b'-'
    then ended_by (past b'\n' s)
    else if c == b'/' && d == b'*'
    then ended_by (behind_text (codes "*/") s)
    else no_comment

unfoldable pub strip_loop : ℕ → Bytes → Bytes
strip_loop zero s = s
strip_loop (suc k) s = elim (comment_at (drop_while is_blank s)) [
  | no_comment ↦ drop_while is_blank s
  | unended ↦ []
  | ended t ↦ strip_loop k t
]

-- `strip_comments`, into a buffer of `n` bytes.
abbrev pub strip_comments : Bytes → ℕ → Bytes
strip_comments s n = take (n - 1) (strip_loop 64 s)

-- The text without a semicolon at its end.
unfoldable pub without_semicolon : Bytes → Bytes
without_semicolon [] = []
without_semicolon (c ∷ []) = if c == b';' then [] else c ∷ []
without_semicolon (c ∷ d ∷ s) = c ∷ without_semicolon (d ∷ s)

-- What both guards run first, and the statement that they look at; `body` is what it is a part of.
abbrev pub one_of : Bytes → Option Refusal
one_of [] = some empty_sql
one_of (c ∷ t) =
    if is_some (past b';' (without_semicolon (c ∷ t))) then some multiple_statements else none

unfoldable pub one_statement : Bytes → Option Refusal
one_statement s = one_of (drop_while is_blank s)

abbrev pub body_of : Bytes → ℕ → Bytes
body_of s n = strip_comments (drop_while is_blank s) n

abbrev pub statement : Bytes → ℕ → Bytes
statement s n = drop_while is_blank (body_of s n)

-- A refusal, or the next test.
abbrev pub unless_refused : Option Refusal → Option Refusal → Option Refusal
unless_refused none next = next
unless_refused (some r) next = some r

-- A keyword and the blank behind it, as `strncasecmp` and the test of the next byte.
abbrev pub behind_blank : Option Bytes → Option Bytes
behind_blank none = none
behind_blank (some []) = none
behind_blank (some (c ∷ s)) = if is_blank c then some s else none

abbrev pub is_select : Bytes → Bool
is_select b = is_some (behind_blank (after_ci (codes "select") b))

-- `db_validate_read`.
unfoldable pub db_validate_read : Bytes → ℕ → Option Refusal
db_validate_read s n =
    unless_refused (one_statement s) (if is_select (statement s n) then none else some only_select)

abbrev pub at_break : Option Bytes → Option Bytes
at_break none = none
at_break (some s) = if sql_break s then some s else none

-- A keyword with a boundary behind it, and what follows.
abbrev pub keyword : Bytes → Bytes → Option Bytes
keyword w s = at_break (after_ci w s)

abbrev pub kw_at : Bytes → Bytes → Bool
kw_at s w = is_some (keyword w s)

abbrev pub kw_at_any : Bytes → List Bytes → Bool
kw_at_any s [] = false
kw_at_any s (w ∷ ws) = kw_at s w || kw_at_any s ws

-- `sql_scan_ident`.
unfoldable pub sql_scan_ident : Bytes → Option Bytes
sql_scan_ident [] = none
sql_scan_ident (c ∷ s) =
    if c == b'"' then past b'"' s else if is_word c then some (drop_while is_word s) else none
