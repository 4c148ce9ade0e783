-- ===== src/SessionExamples.antt =====
-- Runs of what asks a session, over small databases.
use oraduck.Session.{Call, query, execute, Database, Rows, rows, session_calls}
use oraduck.Session.Inversion.{Returned}
use oraduck.ReadSql.{SplitStrategy, SnapshotMode}
use oraduck.Names.{OracleTypeFamily, classify_oracle_type}
use oraduck.Prelude.Numerals.{stoul, stoi}
use oraduck.Prelude.Int.{pos}
use oraduck.DescribeSource.{
  SourceKind, OracleTableDescription, empty_description, max_synonym_depth, object_type_sql,
  synonym_sql, resolve, describe_source, describe_calls, kind_of_type, columns_sql, table_sql,
  charsets_sql,
}
use oraduck.DescribeSource.Kept.{IsOwner}
use oraduck.DescribeSource.Synonyms.{
  Dictionary, Serves, Leads, first_owner, type_of, type_rows, synonym_rows, resolve_iff,
  describe_source-Led,
}
use oraduck.DescribeSource.Schema.{
  SchemaObjects, describe_schema, schema_objects_sql, schema_columns_sql, schema_tables_sql,
  schema_calls,
}
use oraduck.DescribeSource.Schema.Ordered.{names, IsAscending}
use oraduck.DescribeSource.Schema.Listed.{ListsNothing, Describes, describe_schema-Describes}
use oraduck.WorkUnits.{WorkPlan, snapshot_probe}
use oraduck.WorkUnits.Plan.{hash_probe, hash_slices, plan_work, work_units}
use oraduck.WorkUnits.Plan.Shape.{IsPlanned, plan_work-Reads}
use oraduck.WorkUnits.Plan.Cover.{in_slice, hash_slices-cover}
use oraduck.WorkUnits.Extents.{slices_from_parallel_execute}
use oraduck.WorkUnits.Extents.Task.{Settled, slices_from_parallel_execute-Settled}
use oraduck.Prelude.{
  ℕ, ◌≤◌, ◌≡◌, refl, ◌⊎◌, ◌↔◌, true, false, none, some, List, [], ◌∷◌, arith, if◌then◌else◌, get_or,
  is_empty, count_if, Bytes, codes, bytes_eq, starts_with,
}

-- Every query has one row, of a seven.
abbrev seven_db : Database
seven_db log call = rows ((codes "7" ∷ []) ∷ [])

abbrev employees : OracleTableDescription
employees = record empty_description { owner = codes "HR"; name = codes "EMP" }

abbrev seven_plan : WorkPlan
seven_plan = record {
  strategy = SplitStrategy.hash;
  slices = hash_slices 2 2 0;
  scn = codes "7";
  notes = [];
}

abbrev seven_calls : List Call
seven_calls =
    query (codes "SELECT TO_CHAR(DBMS_FLASHBACK.GET_SYSTEM_CHANGE_NUMBER) FROM dual") []
    ∷ query (hash_probe employees) []
    ∷ query (snapshot_probe employees) (codes "7" ∷ [])
    ∷ []

seven_run :
    Returned
      (plan_work seven_db employees SplitStrategy.hash SnapshotMode.auto 2 (codes "T"))
      []
      seven_plan
      seven_calls
unfolding work_units
seven_run = refl

plan_work-Reads_example :
    IsPlanned seven_db employees SplitStrategy.hash SnapshotMode.auto 2
      (codes "T")
      []
      seven_plan
      seven_calls
plan_work-Reads_example =
    plan_work-Reads seven_db employees SplitStrategy.hash SnapshotMode.auto 2 (codes "T") []
      seven_run

slices_from_parallel_execute-Settled_example :
    Settled seven_db employees
      (codes "T")
      []
      ((slices_from_parallel_execute seven_db employees 2 (codes "T") []).1)
slices_from_parallel_execute-Settled_example =
    slices_from_parallel_execute-Settled seven_db employees (codes "T") [] 2

hash_slices-cover_example : count_if (in_slice (λ largest. largest)) (hash_slices 3 3 0) ≡ 1
hash_slices-cover_example =
    hash_slices-cover (λ largest. largest) 3 (λ largest. omega arith) (omega arith)

-- HR.EMP is a materialized view, which is listed twice, and HR.E a synonym of it.
abbrev people : Dictionary
people = record {
  types_of = λ owner name.
      if bytes_eq name (codes "EMP")
      then codes "TABLE" ∷ codes "MATERIALIZED VIEW" ∷ []
      else if bytes_eq name (codes "E")
      then codes "SYNONYM" ∷ []
      else [];
  synonym_of =
      λ owner name. if bytes_eq name (codes "E") then some (codes "HR", codes "EMP", []) else none;
}

abbrev nth_text : List Bytes → ℕ → Bytes
nth_text texts n = get_or texts n []

abbrev people_db : Database
people_db log (query sql binds) =
    if bytes_eq sql object_type_sql
    then rows (type_rows (people.types_of (nth_text binds 0) (nth_text binds 1)))
    else if bytes_eq sql synonym_sql
    then rows (synonym_rows (people.synonym_of (nth_text binds 0) (nth_text binds 1)))
    else rows (
        (codes "7" ∷ codes "7" ∷ codes "7" ∷ codes "7" ∷ codes "7" ∷ codes "7" ∷ codes "7" ∷ [])
        ∷ [])
people_db log (execute sql) = rows []

people_db-Serves : Serves people_db people
unfolding bytes_eq
people_db-Serves = record { types = λ log owner name. refl; synonyms = λ log owner name. refl }

resolve_iff_example :
    ((log' : List Call) × Returned
        (resolve people_db
          (codes "HR")
          (codes "E")
          false
          (codes "HR")
          (codes "E")
          max_synonym_depth)
        []
        (codes "HR", codes "EMP", type_of people (codes "HR") (codes "EMP"))
        log')
    ↔ ((steps : ℕ) × (steps ≤ max_synonym_depth)
        × Leads people steps
            (first_owner people false (codes "HR") (codes "E"))
            (codes "E")
            (codes "HR")
            (codes "EMP"))
resolve_iff_example =
    resolve_iff people_db people people_db-Serves (codes "HR") (codes "E") false (codes "HR")
      (codes "E") (codes "HR") (codes "EMP") []

abbrev employee_table : OracleTableDescription
employee_table = record {
  owner = codes "HR";
  name = codes "EMP";
  kind = SourceKind.table;
  partitioned = false;
  num_rows = pos 7;
  owned_by_session_user = false;
  db_charset = [];
  nchar_charset = codes "7";
  columns =
      record {
        name = codes "7";
        data_type = codes "7";
        family = OracleTypeFamily.unsupported;
        data_length = 7;
        precision = pos 7;
        scale = pos 7;
        nullable = false;
        char_length = 7;
        national = false;
        collation = [];
      }
      ∷ [];
}

abbrev described_calls : List Call
described_calls =
    query object_type_sql (codes "HR" ∷ codes "E" ∷ [])
    ∷ query synonym_sql (codes "HR" ∷ codes "E" ∷ [])
    ∷ query object_type_sql (codes "HR" ∷ codes "EMP" ∷ [])
    ∷ query (codes "SELECT USER FROM dual") []
    ∷ query columns_sql (codes "HR" ∷ codes "EMP" ∷ [])
    ∷ query table_sql (codes "HR" ∷ codes "EMP" ∷ [])
    ∷ query charsets_sql []
    ∷ []

described_run :
    Returned
      (describe_source people_db (record { owner = codes "HR"; table = codes "E" }))
      []
      employee_table
      described_calls
unfolding describe_calls session_calls stoul stoi bytes_eq classify_oracle_type starts_with
described_run = refl

describe_source-Led_example :
    (owner : Bytes) × IsOwner people_db (record { owner = codes "HR"; table = codes "E" }) [] owner
    × ((steps : ℕ) × (steps ≤ max_synonym_depth)
        × Leads people steps
            (first_owner people (is_empty (codes "HR")) owner (codes "E"))
            (codes "E")
            (codes "HR")
            (codes "EMP"))
    × (SourceKind.table ≡ kind_of_type (type_of people (codes "HR") (codes "EMP")))
describe_source-Led_example =
    describe_source-Led people_db people people_db-Serves
      (record { owner = codes "HR"; table = codes "E" }) [] described_run

-- A schema that lists B twice, and A behind it.
abbrev schema_db : Database
schema_db log (execute sql) = rows []
schema_db log (query sql binds) =
    if bytes_eq sql schema_objects_sql
    then rows (
        (codes "B" ∷ codes "TABLE" ∷ [])
        ∷ (codes "A" ∷ codes "VIEW" ∷ [])
        ∷ (codes "B" ∷ codes "MATERIALIZED VIEW" ∷ [])
        ∷ [])
    else if bytes_eq sql schema_columns_sql
    then rows []
    else if bytes_eq sql schema_tables_sql
    then rows ((codes "B" ∷ codes "YES" ∷ codes "5" ∷ codes "NO" ∷ []) ∷ [])
    else rows ((codes "X" ∷ codes "Y" ∷ []) ∷ [])

abbrev schema_made : SchemaObjects
schema_made =
    record empty_description {
      owner = codes "HR";
      name = codes "A";
      kind = SourceKind.view;
      nchar_charset = codes "Y";
    }
    ∷ record empty_description {
      owner = codes "HR";
      name = codes "B";
      partitioned = true;
      num_rows = pos 5;
      nchar_charset = codes "Y";
    }
    ∷ []

abbrev schema_log : List Call
schema_log =
    query schema_objects_sql (codes "HR" ∷ [])
    ∷ query (codes "SELECT USER FROM dual") []
    ∷ query charsets_sql []
    ∷ query schema_columns_sql (codes "HR" ∷ [])
    ∷ query schema_tables_sql (codes "HR" ∷ [])
    ∷ []

schema_run : Returned (describe_schema schema_db (codes "HR")) [] schema_made schema_log
unfolding schema_calls session_calls stoul stoi bytes_eq classify_oracle_type starts_with
schema_run = refl

describe_schema-Describes_example :
    (listed : Rows) × (schema_db [] (query schema_objects_sql (codes "HR" ∷ [])) ≡ rows listed)
    × IsAscending (names schema_made)
    × (ListsNothing schema_db (codes "HR") listed schema_made
        ⊎ Describes schema_db (codes "HR") listed schema_made)
describe_schema-Describes_example = describe_schema-Describes schema_db (codes "HR") [] schema_run
