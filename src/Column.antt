-- ===== src/Column.antt =====
-- Values, pages and columns of include/utils.h (`value_t`, `buffer_t`, `column_t`) and of
-- include/plan.h (`Page`). A page is its bytes, a buffer is the part of its array that has been
-- written, so that `none` also stands for a read of memory that nothing has written.
pub mod Packed
pub mod Readable
use optimized_hash_join_pipe.Base.{
  ℕ, ◌+◌, ◌*◌, ◌/◌, ◌%◌, ◌^◌, ◌==◌, if◌then◌else◌, Option, some, none, List, [],
}
use optimized_hash_join_pipe.Base.Partial.{◌>>=◌, load}

-- `DataType`
pub data DataType : Type 0 where
  int32 int64 fp64 varchar : DataType

-- `value_t`, by its member `int32_val`: two 32-bit patterns.
pub record Value : Type 0 where
  pub val : ℕ
  pub status : ℕ

-- The same eight bytes by the member `str_val`.
abbrev pub str_table_id : Value → ℕ
str_table_id v = v.val % 2 ^ 16

abbrev pub str_col_id : Value → ℕ
str_col_id v = v.val / 2 ^ 16

abbrev pub str_page_id : Value → ℕ
str_page_id v = v.status % 2 ^ 16

abbrev pub str_offset : Value → ℕ
str_offset v = v.status / 2 ^ 16

-- A write to `str_val`, each field cut to 16 bits.
abbrev pub str_value : ℕ → ℕ → ℕ → ℕ → Value
str_value table_id col_id page_id offset = record {
  val = table_id % 2 ^ 16 + col_id % 2 ^ 16 * 2 ^ 16;
  status = page_id % 2 ^ 16 + offset % 2 ^ 16 * 2 ^ 16;
}

-- `PAGE_SIZE` and `MAX_PER_BUFFER_ENTRY`
abbrev pub page_size : ℕ
page_size = 8192

abbrev pub max_per_buffer : ℕ
max_per_buffer = 1024

abbrev pub Page : Type 0
Page = List ℕ

-- `read_u16`, `read_i32`, the second as a 32-bit pattern.
unfoldable pub read_u16 : Page → ℕ → Option ℕ
read_u16 page p = do low ← load page p; high ← load page (p + 1); some (low + 2 ^ 8 * high)

unfoldable pub read_i32 : Page → ℕ → Option ℕ
unfolding read_u16
read_i32 page p = do low ← read_u16 page p; high ← read_u16 page (p + 2); some (low + 2 ^ 16 * high)

-- `buffer_t`
abbrev pub Buffer : Type 0
Buffer = List Value

-- `column_t`; `original_col` holds the pages of the column that it points to.
pub record ColumnT : Type 0 where
  pub buffers : List Buffer
  pub num_rows : ℕ
  pub type : DataType
  pub original_col : Option (List Page)
  pub rows_per_page : ℕ
  pub page_rowids : List ℕ

-- `column_t(dt)`
abbrev pub new_column : DataType → ColumnT
new_column dt = record {
  buffers = [];
  num_rows = 0;
  type = dt;
  original_col = none;
  rows_per_page = 0;
  page_rowids = [];
}

-- The branch of `get_value` that reads a page. A division by zero is undefined.
unfoldable pub page_value : List Page → ℕ → ℕ → Option Value
page_value pages rows_per_page row_idx =
    if rows_per_page == 0
    then none
    else (load pages (row_idx / rows_per_page) >>= λ page.
        read_i32 page (4 + 4 * (row_idx % rows_per_page)) >>= λ v.
        some (record { val = v; status = 1 }))

unfoldable pub buffer_value : List Buffer → ℕ → Option Value
buffer_value buffers row_idx =
    load buffers (row_idx / max_per_buffer) >>= λ buffer. load buffer (row_idx % max_per_buffer)

unfoldable pub get_value : ColumnT → ℕ → Option Value
unfolding page_value buffer_value
get_value c row_idx = elim c.original_col [
  | none ↦ buffer_value c.buffers row_idx
  | some pages ↦ page_value pages c.rows_per_page row_idx
]
