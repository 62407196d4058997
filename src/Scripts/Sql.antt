-- ===== src/Scripts/Sql.antt =====
-- scripts/verify_simulator_smoke.py: the SQL texts that the script sends.
-- `snapshot_json` is the text that `json.dumps` makes of the snapshot.
pub mod Literals
use Prim.Native.Char.{Char, code}
use Prim.Native.String
use Prim.Native.String.{◌++◌}
use storepulse.Prelude.{Bool, String, List, [], ◌∷◌, if◌then◌else◌, ◌==◌}
use storepulse.Scripts.Process.{join}

abbrev pub is_quote : Char → Bool
is_quote c = code c == b'\''

-- `value.replace("'", "''")`
unfoldable pub double_quotes : String → String
double_quotes String.[] = String.[]
double_quotes (String.◌∷◌ c s) =
    let rest = double_quotes s in
    if is_quote c then String.◌∷◌ c (String.◌∷◌ c rest) else String.◌∷◌ c rest

unfoldable pub sql_literal : String → String
unfolding double_quotes
sql_literal value = "'" ++ (double_quotes value ++ "'")

unfoldable pub source_pattern : String → String
source_pattern run_tag = "simulator-%:" ++ (run_tag ++ ":%")

unfoldable pub build_snapshot_sql : String
build_snapshot_sql =
    "SELECT COALESCE(\n  json_agg(\n    json_build_object(\n      'id', id::text,\n      'code', code,\n      'last_seen_at', last_seen_at,\n      'updated_at', updated_at\n    )\n    ORDER BY code\n  ),\n  '[]'::json\n)::text\nFROM stores;"

abbrev pub snapshot_clause : String → String
snapshot_clause encoded =
    "WITH snapshot AS (\n  SELECT *\n  FROM json_to_recordset("
    ++ (encoded
        ++ "::json)\n    AS x(id uuid, code text, last_seen_at timestamptz, updated_at timestamptz)\n)\n")

unfoldable pub build_restore_sql : String → String
unfolding sql_literal
build_restore_sql snapshot_json =
    snapshot_clause (sql_literal snapshot_json)
    ++ "UPDATE stores AS s\nSET last_seen_at = snapshot.last_seen_at,\n    updated_at = snapshot.updated_at\nFROM snapshot\nWHERE s.id = snapshot.id;"

unfoldable pub build_snapshot_mismatch_sql : String → String
unfolding sql_literal
build_snapshot_mismatch_sql snapshot_json =
    snapshot_clause (sql_literal snapshot_json)
    ++ "SELECT count(*)\nFROM snapshot\nLEFT JOIN stores AS s ON s.id = snapshot.id\nWHERE s.id IS NULL\n   OR s.last_seen_at IS DISTINCT FROM snapshot.last_seen_at\n   OR s.updated_at IS DISTINCT FROM snapshot.updated_at;"

unfoldable pub build_metrics_sql : String → String
unfolding sql_literal source_pattern
build_metrics_sql run_tag =
    "SELECT\n  count(DISTINCT store_id),\n  count(*) FILTER (WHERE event_type = 'SALE'),\n  count(*) FILTER (WHERE event_type = 'REFUND'),\n  count(*) FILTER (WHERE occurred_at < received_at - interval '1 second')\nFROM pos_events\nWHERE source_instance LIKE "
    ++ (sql_literal (source_pattern run_tag) ++ ";")

unfoldable pub build_duplicate_count_sql : String → String → String
unfolding sql_literal source_pattern
build_duplicate_count_sql run_tag event_id =
    "SELECT count(*)\nFROM pos_events\nWHERE event_id = "
    ++ (sql_literal event_id
        ++ ("::uuid\n  AND source_instance LIKE " ++ (sql_literal (source_pattern run_tag) ++ ";")))

-- With 'SALE' or 'REFUND'; the guard against other texts never fires.
unfoldable pub build_delete_sql : String → String → String
unfolding sql_literal source_pattern
build_delete_sql run_tag event_type =
    "DELETE FROM pos_events\nWHERE source_instance LIKE "
    ++ (sql_literal (source_pattern run_tag)
        ++ ("\n  AND event_type = " ++ (sql_literal event_type ++ ";")))

unfoldable pub build_cleanup_transaction_sql : String → String → String
unfolding build_delete_sql build_restore_sql join
build_cleanup_transaction_sql run_tag snapshot_json = join "\n" (
    "BEGIN;"
    ∷ build_delete_sql run_tag "REFUND"
    ∷ build_delete_sql run_tag "SALE"
    ∷ build_restore_sql snapshot_json
    ∷ "COMMIT;"
    ∷ [])

unfoldable pub build_remaining_sql : String → String
unfolding sql_literal source_pattern
build_remaining_sql run_tag =
    "SELECT count(*) FROM pos_events WHERE source_instance LIKE "
    ++ (sql_literal (source_pattern run_tag) ++ ";")
