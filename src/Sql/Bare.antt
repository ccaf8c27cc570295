-- ===== src/Sql/Bare.antt =====
-- The guard of a bare write, and of ALTER TABLE: src/agent/sqlite_tool.c.
use agent_httpd.Base.{
  ℕ, Bool, true, not, ◌&&◌, ◌||◌, Option, none, some, List, [], ◌∷◌, drop, ◌==◌, if◌then◌else◌,
  Bytes, codes, after_ci, is_some, drop_while,
}
use agent_httpd.Sql.{
  Refusal, only_add_column, no_table_name, no_column_name, no_column_type, unsafe_type, dangerous,
  mirror_table, no_where, only_create_table, only_writes, refuse_or, is_word, behind_blank, keyword,
  kw_at, kw_at_any, kw_anywhere, mentions, sql_scan_ident,
}

abbrev pub is_tab : ℕ → Bool
is_tab c = c == b' ' || c == b'\t'

abbrev pub skip_tabs : Bytes → Bytes
skip_tabs s = drop_while is_tab s

abbrev pub behind_column : Option Bytes → Bytes → Bytes
behind_column none s = s
behind_column (some t) s = skip_tabs t

abbrev pub is_type_byte : ℕ → Bool
is_type_byte c = is_word c || is_tab c || c == b'(' || c == b')' || c == b','

unfoldable pub all_type : Bytes → Bool
all_type [] = true
all_type (c ∷ s) = is_type_byte c && all_type s

abbrev pub column_type : Bytes → Option Refusal
column_type [] = some no_column_type
column_type (c ∷ s) = if all_type (c ∷ s) then none else some unsafe_type

-- `sql_validate_alter_add`.
unfoldable pub sql_validate_alter_add : Bytes → Option Refusal
sql_validate_alter_add b =
    refuse_or only_add_column (keyword (codes "table") (skip_tabs (drop 5 b))) (λ p.
      refuse_or no_table_name (sql_scan_ident (skip_tabs p)) (λ q.
        refuse_or only_add_column (keyword (codes "add") (skip_tabs q)) (λ r.
          refuse_or no_column_name
            (sql_scan_ident (behind_column (keyword (codes "column") (skip_tabs r)) (skip_tabs r)))
            (λ t. column_type (skip_tabs t)))))

abbrev pub dangerous_words : List Bytes
dangerous_words =
    codes "drop"
    ∷ codes "truncate"
    ∷ codes "vacuum"
    ∷ codes "attach"
    ∷ codes "detach"
    ∷ codes "reindex"
    ∷ codes "pragma"
    ∷ codes "grant"
    ∷ codes "revoke"
    ∷ codes "copy"
    ∷ []

abbrev pub data_words : List Bytes
data_words = codes "insert" ∷ codes "update" ∷ codes "delete" ∷ []

-- The branch on CREATE.
abbrev pub create_table : Option Bytes → Option Refusal
create_table none = some only_writes
create_table (some s) =
    if is_some (behind_blank (after_ci (codes "table") s)) then none else some only_create_table

abbrev pub needs_where : Bytes → Bool
needs_where b =
    (kw_at b (codes "update") || kw_at b (codes "delete")) && not (kw_anywhere b (codes "where"))

-- `db_validate_write_stmt`.
unfoldable pub db_validate_write_stmt : Bytes → Option Refusal
db_validate_write_stmt b =
    if kw_at_any b dangerous_words
    then some dangerous
    else if mentions (codes "portfolio") b
    then some mirror_table
    else if kw_at b (codes "alter")
    then sql_validate_alter_add b
    else if kw_at_any b data_words
    then (if needs_where b then some no_where else none)
    else create_table (behind_blank (after_ci (codes "create") b))
