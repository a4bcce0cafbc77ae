-- ===== src/PgSqlModel.antt =====
-- `PgSqlModel` of cpp-source/pgsql-model.cpp: its columns, its errors, and the database that it
-- asks. pqxx and the server behind it are a parameter, `Database`.
pub mod Rows
pub mod Statements
pub mod Operations
use libjaypea.Base.{
  ℕ, ◌+◌, ◌/◌, ◌%◌, Bytes, codes, [], ◌∷◌, List, Bool, true, false, ◌&&◌, not, ◌==◌, equal,
  if◌then◌else◌, Option, Dict,
}
use libjaypea.Json.{JsonObject, of_type, of_string, set_field, object}
use libjaypea.Util.Replace.{strict_compare_inequal, differ}

pub record Column : Type 0 where
  pub name : Bytes
  pub flags : ℕ

-- `flags & COL_AUTO` and `flags & COL_HIDDEN`, the bits of 1 and 2.
abbrev pub is_auto : Column → Bool
is_auto c = c.flags % 2 == 1

abbrev pub is_hidden : Column → Bool
is_hidden c = (c.flags / 2) % 2 == 1

pub record Model : Type 0 where
  pub table : Bytes
  pub cols : List Column
  pub num_insert_values : ℕ

unfoldable pub count_insert_values : List Column → ℕ → ℕ
count_insert_values [] n = n
count_insert_values (c ∷ cols) n =
    count_insert_values cols
      (if not (is_auto c) && strict_compare_inequal c.name (codes "owner_id") 8 then n + 1 else n)

abbrev pub model : Bytes → List Column → Model
model table cols = record {
  table = table;
  cols = cols;
  num_insert_values = count_insert_values cols 0;
}

unfoldable pub has_column : List Column → Bytes → Bool
has_column [] name = false
has_column (c ∷ cols) name = if equal c.name name then true else has_column cols name

abbrev pub error : Bytes → JsonObject
error message = set_field (codes "error") (of_string message) (of_type object)

-- A row of a `pqxx::result`: the names of its fields, with their texts or null.
abbrev pub Row : Type 0
Row = Dict (Option Bytes)

-- `txn.quote`, and `txn.exec` with the rows of its result, or an exception of pqxx.
pub record Database {ℓ} (D : Type ℓ) : Type ℓ where
  pub quote : Bytes → Bytes
  pub exec : Bytes → D → Option (List Row) × D

-- What an operation gives: an object, a null pointer, an exception that is not caught, or a read
-- of the first row of a result without rows, which pqxx does not check.
pub data Reply : Type 0 where
  returned : JsonObject → Reply
  null_pointer : Reply
  thrown : Reply
  undefined : Reply
