-- ===== src/Inventory/Loaded.antt =====
-- A batch as the ORM holds it: the row, and each item with the serial and the product that the
-- session loaded. Another session may have changed the serial's row since.
use setuora_lite.Base.{List, update_where, nat_beq}
use setuora_lite.Model.{Batch, BatchItem, Serial, Product, Db}

pub record LoadedItem : Type 0 where
  pub item : BatchItem
  pub serial : Serial
  pub product : Product

pub record Loaded : Type 0 where
  pub batch : Batch
  pub items : List LoadedItem

-- The flush of a changed item and of a changed batch.
unfoldable pub save_item : BatchItem → Db → Db
save_item item db = record db {
  items = update_where (λ r. nat_beq r.id item.id) (λ _. item) db.items;
}

unfoldable pub save_batch : Batch → Db → Db
save_batch batch db = record db {
  batches = update_where (λ r. nat_beq r.id batch.id) (λ _. batch) db.batches;
}
