-- ===== src/Statement.antt =====
-- src/parser.rs: the parsed statements, which the executor and the catalog take. An `Identifier` is
-- the byte string that the source wraps.
use rusthouse.Prelude.{ℕ, Bool, Option, none, some}
use rusthouse.Prelude.Int.{ℤ}
use rusthouse.Prelude.Bytes.{Bytes}
use rusthouse.Storage.{DataType}
use rusthouse.Scan.{ComparisonOperator, NullPredicate}
use rusthouse.Order.{OrderDirection, NullOrder}

abbrev pub Identifier : Type 0
Identifier = Bytes

pub record ColumnDefinition : Type 0 where
  pub name : Identifier
  pub data_type : DataType
  pub nullable : Bool

pub record CreateTableStatement : Type 0 where
  pub table_name : Identifier
  pub column : ColumnDefinition
  pub if_not_exists : Bool

pub record InsertStatement : Type 0 where
  pub table_name : Identifier
  pub value : Option ℤ

pub record ComparisonPredicate : Type 0 where
  pub column_name : Identifier
  pub operator : ComparisonOperator
  pub value : ℤ

pub record NullnessPredicate : Type 0 where
  pub column_name : Identifier
  pub predicate : NullPredicate

pub data SelectPredicate : Type 0 where
  comparison : ComparisonPredicate → SelectPredicate
  nullness : NullnessPredicate → SelectPredicate

-- `SelectPredicate::column_name`
abbrev pub predicate_column : SelectPredicate → Identifier
predicate_column (comparison p) = p.column_name
predicate_column (nullness p) = p.column_name

pub record OrderByClause : Type 0 where
  pub column_name : Identifier
  pub direction : OrderDirection
  pub null_order : NullOrder

pub record SelectStatement : Type 0 where
  pub column_name : Identifier
  pub table_name : Identifier
  pub predicate : Option SelectPredicate
  pub order_by : Option OrderByClause
  pub limit : Option ℕ

-- The joins of the source have the same fields.
pub record InnerJoinStatement : Type 0 where
  pub projected_column_name : Identifier
  pub left_table_name : Identifier
  pub right_table_name : Identifier
  pub left_column_name : Identifier
  pub right_column_name : Identifier

pub record LeftJoinStatement : Type 0 where
  pub projected_column_name : Identifier
  pub left_table_name : Identifier
  pub right_table_name : Identifier
  pub left_column_name : Identifier
  pub right_column_name : Identifier

pub data ScalarCountArgument : Type 0 where
  star : ScalarCountArgument
  column : Identifier → ScalarCountArgument

-- `ScalarCountArgument::column_name`
abbrev pub argument_column : ScalarCountArgument → Option Identifier
argument_column star = none
argument_column (column name) = some name

pub record ScalarCountStatement : Type 0 where
  pub argument : ScalarCountArgument
  pub table_name : Identifier
  pub predicate : Option ComparisonPredicate

pub record ScalarSumStatement : Type 0 where
  pub column_name : Identifier
  pub table_name : Identifier
  pub predicate : Option ComparisonPredicate

pub record ScalarMinStatement : Type 0 where
  pub column_name : Identifier
  pub table_name : Identifier

pub record SelectDistinctStatement : Type 0 where
  pub column_name : Identifier
  pub table_name : Identifier
