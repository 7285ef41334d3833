-- ===== src/Transfer/Creation/Effects.antt =====
-- What a created draft is: its destination is a code, short enough, and another franchise.
use setuora_lite.Base.{
  [], ◌∷◌, refl, arith, ◌≢◌, text_eq, Text, ◌≡◌, is_empty, false, ◌≤◌, length, nat_eq, ◌++◌, ltb,
  length_of_filled,
}
use setuora_lite.Transfer.Rows.{returns, Stock, Transfer}
use setuora_lite.Sync.Codes.{IsCode, normalize_franchise_code-IsCode, normalize_franchise_code}
use setuora_lite.Transfer.Creation.{
  create_outbound_transfer, new_transfer, Given, User, TransferStatus, TransferDirection,
}

-- A creation that returns adds one outbound draft at the end of the transfers; its destination is a
-- code of 1 to 40 characters and is not the local code, if there is one.
pub create-effect :
    (user : User) (peer_code : Text) (given : Given) (st : Stock) (t' : Transfer) (st' : Stock)
    → create_outbound_transfer user peer_code given st ≡ returns (t', st')
    → IsCode t'.peer_code
      × (1 ≤ length t'.peer_code)
      × (length t'.peer_code ≤ 40)
      × (is_empty given.local_code ≡ false → t'.peer_code ≢ given.local_code)
      × (t'.status ≡ TransferStatus.draft)
      × (t'.direction ≡ TransferDirection.outbound)
      × (st'.transfers ≡ st.transfers ++ t' ∷ [])
      × (st'.items ≡ st.items)
unfolding create_outbound_transfer new_transfer
create-effect user peer_code given st t' st' h =
    let destination = normalize_franchise_code peer_code in
    let same : t' ≡ new_transfer user destination given = ground arith in
    let filled : is_empty destination ≡ false = ground arith in
    let short : ltb 40 (length destination) ≡ false = ground arith in
    rw same (
      normalize_franchise_code-IsCode peer_code,
      length_of_filled destination filled,
      ground arith,
      λ local own.
          let test = (text_eq.same_iff destination given.local_code).1 own in
          ground (arith, test, local),
      refl,
      refl,
      ground arith,
      ground arith,
    )
