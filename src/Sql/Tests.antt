-- ===== src/Sql/Tests.antt =====
-- The statement guard: runs, and the theorems at concrete inputs.
use agent_httpd.Base.{
  ℕ, true, false, none, ◌++◌, ◌≡◌, ◌⊎◌, refl, Bytes, codes, after_ci, past, drop_while,
}
use agent_httpd.Sql.{
  matched, seek, kw_loop, kw_anywhere, sql_touches_hidden, comment_at, strip_loop,
  without_semicolon, one_statement, statement, db_validate_read, sql_scan_ident, mentions, kw_at,
}
use agent_httpd.Sql.Bare.{sql_validate_alter_add, all_type, db_validate_write_stmt}
use agent_httpd.Sql.Cte.{
  skip_loop, sql_skip_ws_comment, sql_skip_string, match_loop, sql_match_paren, words_loop,
  sql_cte_body_ok, columns_loop, cte_loop, db_validate_write_cte, db_validate_write,
}
use agent_httpd.Sql.Read.{single}
use agent_httpd.Sql.Suffix.{Ends}
use agent_httpd.Sql.{kw_at}
use agent_httpd.Sql.Write.{IsWrite, db_validate_write-IsWrite}

abbrev sql_max : ℕ
sql_max = 8192

-- A WHERE in a comment is enough.
where_in_comment : db_validate_write (codes "DELETE FROM t -- where") sql_max ≡ none
unfolding db_validate_write db_validate_write_stmt one_statement comment_at strip_loop
    without_semicolon past drop_while after_ci mentions kw_anywhere kw_loop seek matched
where_in_comment = refl

abbrev mirror_read : Bytes
mirror_read = codes "WITH a(x, y) AS (SELECT ')' FROM portfolio) INSERT INTO t SELECT x FROM a;"

-- A subquery may name the mirror table.
mirror_in_subquery : db_validate_write mirror_read sql_max ≡ none
unfolding db_validate_write db_validate_write_stmt one_statement comment_at strip_loop
    without_semicolon past drop_while after_ci mentions db_validate_write_cte cte_loop columns_loop
    sql_cte_body_ok words_loop sql_match_paren match_loop sql_skip_string sql_skip_ws_comment
    skip_loop sql_scan_ident
mirror_in_subquery = refl

add_column : sql_validate_alter_add (codes "ALTER TABLE \"my t\" ADD price DECIMAL(10,2)") ≡ none
unfolding sql_validate_alter_add sql_scan_ident past after_ci drop_while all_type
add_column = refl

hidden_quoted : sql_touches_hidden (codes "SELECT * FROM \"Lost_And_Found\"") ≡ true
unfolding sql_touches_hidden kw_anywhere kw_loop seek matched
hidden_quoted = refl

abbrev select_text : Bytes
select_text = codes " -- all\n SELECT 1;"

select_passes : db_validate_read select_text sql_max ≡ none
unfolding db_validate_read one_statement comment_at strip_loop without_semicolon past drop_while
    after_ci
select_passes = refl

db_validate_write-IsWrite_example :
    (single (statement mirror_read sql_max) ≡ true)
    × (((kw_at (statement mirror_read sql_max) (codes "with") ≡ false)
          × IsWrite (statement mirror_read sql_max))
        ⊎ ((kw_at (statement mirror_read sql_max) (codes "with") ≡ true)
            × ((p : Bytes) × Ends p (statement mirror_read sql_max) × IsWrite p)))
db_validate_write-IsWrite_example = db_validate_write-IsWrite mirror_read sql_max mirror_in_subquery

abbrev update_text : Bytes
update_text = codes "update t set a = 1 where b"

update_passes : db_validate_write update_text sql_max ≡ none
unfolding db_validate_write db_validate_write_stmt one_statement comment_at strip_loop
    without_semicolon past drop_while after_ci mentions kw_anywhere kw_loop seek matched
update_passes = refl

update_bare : kw_at (statement update_text sql_max) (codes "with") ≡ false
unfolding comment_at strip_loop past drop_while after_ci
update_bare = refl

update_statement : statement update_text sql_max ≡ codes "update t " ++ codes "set a = 1 where b"
unfolding comment_at strip_loop past drop_while
update_statement = refl
