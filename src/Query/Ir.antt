-- ===== src/Query/Ir.antt =====
-- crates/evalhub-query/src/ir.rs: the checked, resolved query. A UUID is its 128-bit value.
use evalhub.Base.{ℕ, String, Option, none, some, List, if◌then◌else◌}
use evalhub.Core.Ids.{is_valid_id}
use evalhub.Json.{Value}

pub data RecordType : Type 0 where
  card eval : RecordType

pub data VersionSelector : Type 0 where
  latest all : VersionSelector

pub data Expand : Type 0 where
  relations badges fingerprints changed : Expand

pub data Op : Type 0 where
  eq ne gt gte lt lte in_list prefix contains : Op

pub data ArrayTable : Type 0 where
  results relations attachments : ArrayTable

pub data ValueType : Type 0 where
  number string boolean : ValueType

pub data ResultField : Type 0 where
  value label : ResultField

-- The text form is checked when the reference is parsed.
pub record CardRef : Type 0 where
  pub text : String

unfoldable pub parse_card_ref : String → Option CardRef
parse_card_ref s = if is_valid_id s then some (record { text = s }) else none

pub data ArrayColumn : Type 0 where
  result_metric result_aggregation result_value result_n relation_type relation_to : ArrayColumn
  attachment_path attachment_sha256 : ArrayColumn

unfoldable pub table : ArrayColumn → ArrayTable
table result_metric = results
table result_aggregation = results
table result_value = results
table result_n = results
table relation_type = ArrayTable.relations
table relation_to = ArrayTable.relations
table attachment_path = attachments
table attachment_sha256 = attachments

pub data RunColumn : Type 0 where
  run_id status error_kind started_at ended_at : RunColumn
  facet : List String → RunColumn
  fingerprint metric : String → RunColumn
  result : (card : CardRef) (metric : String) (field : ResultField) → RunColumn

pub data Column : Type 0 where
  generated fingerprint : String → Column
  ext : (path : List String) (ty : ValueType) → Column
  body : List String → Column
  array : ArrayColumn → Column
  run : RunColumn → Column

pub record Cmp : Type 0 where
  pub column : Column
  pub op : Op
  pub value : Value

mutual
  pub data Filter : Type 0 where
    and or : Filters → Filter
    not : Filter → Filter
    cmp : Cmp → Filter
    exists : Column → Filter
    any : ArrayTable → List Cmp → Filter

  pub data Filters : Type 0 where
    nil : Filters
    cons : Filter → Filters → Filters

pub data Dir : Type 0 where
  asc desc : Dir

pub data SortKey : Type 0 where
  column : Column → SortKey
  metric : String → SortKey
  created_at : SortKey
  run : RunColumn → SortKey

pub record Sort : Type 0 where
  pub key : SortKey
  pub dir : Dir

pub record Cursor : Type 0 where
  pub keys : List Value
  pub version_id : ℕ

pub record Query : Type 0 where
  pub record_type : RecordType
  pub filter : Option Filter
  pub sort : List Sort
  pub limit : ℕ
  pub cursor : Option Cursor
  pub expand : List Expand
  pub version : VersionSelector

pub record RunCursor : Type 0 where
  pub keys : List Value
  pub run_id : String

pub record RunQuery : Type 0 where
  pub cards : List CardRef
  pub filter : Option Filter
  pub sort : List Sort
  pub limit : ℕ
  pub cursor : Option RunCursor
