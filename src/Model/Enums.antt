-- ===== src/Model/Enums.antt =====
-- The enumerations of app/models.py.
use setuora_lite.Base.{Eq, eq_of_discrete, Bool, true, false}

pub data Role : Type 0 where
  super_admin admin directors warehouse_manager purchase sales auditor : Role

pub data SerialStatus : Type 0 where
  generated purchased received in_stock sold returned purchase_return issued : SerialStatus
  audited damaged missing invalid replaced in_transit : SerialStatus

pub data BatchType : Type 0 where
  purchase receive sale audit purchase_return sales_return issue qr_assignment : BatchType

pub data GstTreatment : Type 0 where
  intra_state inter_state : GstTreatment

pub data TransactionType : Type 0 where
  purchase sale sales_return purchase_return issue audit qr_assignment : TransactionType
  qr_replacement relocation transfer_out transfer_in : TransactionType

pub data WarehouseLevel : Type 0 where
  company_warehouse c_and_f master_franchise taluk_franchise home_franchise : WarehouseLevel

pub data BatchStatus : Type 0 where
  draft submitted syncing synced pending_sync failed closed : BatchStatus

pub data OutboxStatus : Type 0 where
  pending sending sent failed : OutboxStatus

pub data InboxStatus : Type 0 where
  received applied failed : InboxStatus

pub data ReceiptStatus : Type 0 where
  pending approved denied : ReceiptStatus

pub data TransferDirection : Type 0 where
  outbound inbound : TransferDirection

pub data TransferStatus : Type 0 where
  draft pending_master dispatched awaiting_receipt partially_received received failed :
      TransferStatus

unfoldable pub SerialStatus-discrete : Discrete SerialStatus
SerialStatus-discrete = hlevel

instance abbrev pub status_eq : Eq SerialStatus
status_eq = eq_of_discrete SerialStatus-discrete

unfoldable pub BatchStatus-discrete : Discrete BatchStatus
BatchStatus-discrete = hlevel

instance abbrev pub batch_status_eq : Eq BatchStatus
batch_status_eq = eq_of_discrete BatchStatus-discrete

unfoldable pub BatchType-discrete : Discrete BatchType
BatchType-discrete = hlevel

instance abbrev pub batch_type_eq : Eq BatchType
batch_type_eq = eq_of_discrete BatchType-discrete

-- Comparisons with one constant.
abbrev pub is_draft : BatchStatus → Bool
is_draft BatchStatus.draft = true
is_draft _ = false

abbrev pub is_audit : BatchType → Bool
is_audit BatchType.audit = true
is_audit _ = false

abbrev pub is_sale : BatchType → Bool
is_sale BatchType.sale = true
is_sale _ = false

unfoldable pub TransferDirection-discrete : Discrete TransferDirection
TransferDirection-discrete = hlevel

instance abbrev pub direction_eq : Eq TransferDirection
direction_eq = eq_of_discrete TransferDirection-discrete

unfoldable pub TransferStatus-discrete : Discrete TransferStatus
TransferStatus-discrete = hlevel

instance abbrev pub transfer_status_eq : Eq TransferStatus
transfer_status_eq = eq_of_discrete TransferStatus-discrete
