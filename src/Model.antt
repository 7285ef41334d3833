-- ===== src/Model.antt =====
-- The database model (app/models.py): the status enumerations and the rows of the tables.
pub mod Enums
pub mod Rows
pub use Enums.*
pub use Rows.*
unfoldable pub use setuora_lite.Model.Enums.{
  SerialStatus-discrete, BatchStatus-discrete, BatchType-discrete,
}
