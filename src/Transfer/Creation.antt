-- ===== src/Transfer/Creation.antt =====
-- The creation of a draft.
pub mod Effects
use setuora_lite.Base.{
  ℕ, [], ◌∷◌, strip_upper, nat_eq, text_eq, none, some, Bool, Text, leb, ◌&&◌, ◌||◌, if◌then◌else◌,
  ◌==◌, false, is_empty, true, ltb, length, not, ◌++◌,
}
use setuora_lite.Model.{TransferDirection, TransferStatus, User}
use setuora_lite.Sync.Codes.{normalize_franchise_code}
use setuora_lite.Transfer.Rows.{Transfer, Stock, Outcome, returns, raises, TransferError}

-- What the database and the configuration give: the row's id, its uuid, and the franchise code.
pub record Given : Type 0 where
  pub next_id : ℕ
  pub uuid : Text
  pub local_code : Text

unfoldable pub new_transfer : User → Text → Given → Transfer
new_transfer user destination given = record {
  id = given.next_id;
  transfer_uuid = given.uuid;
  direction = TransferDirection.outbound;
  status = TransferStatus.draft;
  local_franchise_code = if is_empty given.local_code then none else some given.local_code;
  peer_code = destination;
  created_by_id = some user.id;
  dispatched_at = none;
  received_at = none;
}

unfoldable pub create_outbound_transfer : User → Text → Given → Stock → Outcome (Transfer × Stock)
create_outbound_transfer user peer_code given st =
    let destination = normalize_franchise_code peer_code in
    let made = new_transfer user destination given in
    if is_empty destination
    then raises TransferError.no_destination
    else if ltb 40 (length destination)
    then raises TransferError.long_destination
    else if not (is_empty given.local_code) && destination == given.local_code
    then raises TransferError.same_franchise
    else returns (made, record st { transfers = st.transfers ++ made ∷ [] })
