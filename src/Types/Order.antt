-- ===== src/Types/Order.antt =====
-- types/order.go: the 0x order, its texts, and its EIP-712 hash. An address is 20 bytes and a
-- uint256 is 32 bytes, as the Go arrays are. Keccak256 and abi.U256 of go-ethereum are parameters.
-- The struct that encoding/json carries is modelled, not the JSON text around its strings.
pub mod Json
pub mod Binding
use openrelay.Prelude.{
  ℕ, Bool, true, false, List, [], ◌∷◌, ◌++◌, Bytes, if◌then◌else◌, ℤ, Outcome, ok, ◌>>=◌, bytes_eq,
  copy, zeros, codes, writes, Option, none, some, or_err, big, length,
}
use openrelay.Types.Text.{Str, hex_string_to_bytes, int_string_to_bytes, sprint_hex, dec_string}
use openrelay.Types.AssetData.{address}

pub record Order : Type 0 where
  pub maker : Bytes
  pub taker : Bytes
  pub maker_asset_address : Bytes
  pub taker_asset_address : Bytes
  pub maker_asset_data : Bytes
  pub taker_asset_data : Bytes
  pub fee_recipient : Bytes
  pub exchange_address : Bytes
  pub sender_address : Bytes
  pub maker_asset_amount : Bytes
  pub taker_asset_amount : Bytes
  pub maker_fee : Bytes
  pub taker_fee : Bytes
  pub expiration_timestamp_in_sec : Bytes
  pub salt : Bytes
  pub signature : Bytes
  pub taker_asset_amount_filled : Bytes
  pub cancelled : Bool
  pub pool_id : Bytes

-- jsonOrder: one string for each field; also the sixteen arguments of NewOrder.
pub record JsonOrder : Type 0 where
  pub maker : Str
  pub taker : Str
  pub maker_asset_data : Str
  pub taker_asset_data : Str
  pub fee_recipient : Str
  pub exchange_address : Str
  pub sender_address : Str
  pub maker_asset_amount : Str
  pub taker_asset_amount : Str
  pub maker_fee : Str
  pub taker_fee : Str
  pub expiration_timestamp_in_sec : Str
  pub salt : Str
  pub signature : Str
  pub taker_asset_amount_filled : Str
  pub cancelled : Str

-- Order.Initialize leaves the pool's id alone.
unfoldable pub initialize : Order → Order
initialize o = record {
  maker = zeros 20;
  taker = zeros 20;
  maker_asset_address = zeros 20;
  taker_asset_address = zeros 20;
  maker_asset_data = zeros 20;
  taker_asset_data = zeros 20;
  fee_recipient = zeros 20;
  exchange_address = zeros 20;
  sender_address = zeros 20;
  maker_asset_amount = zeros 32;
  taker_asset_amount = zeros 32;
  maker_fee = zeros 32;
  taker_fee = zeros 32;
  expiration_timestamp_in_sec = zeros 32;
  salt = zeros 32;
  signature = [];
  taker_asset_amount_filled = zeros 32;
  cancelled = false;
  pool_id = o.pool_id;
}

-- The zero value of the struct, with the arrays that Initialize allocates.
abbrev pub empty_order : Order
empty_order = record {
  maker = [];
  taker = [];
  maker_asset_address = [];
  taker_asset_address = [];
  maker_asset_data = [];
  taker_asset_data = [];
  fee_recipient = [];
  exchange_address = [];
  sender_address = [];
  maker_asset_amount = [];
  taker_asset_amount = [];
  maker_fee = [];
  taker_fee = [];
  expiration_timestamp_in_sec = [];
  salt = [];
  signature = [];
  taker_asset_amount_filled = [];
  cancelled = false;
  pool_id = [];
}

abbrev pub true_text : Str
true_text = codes "true"

abbrev pub false_text : Str
false_text = codes "false"

module _ (u256 : ℤ → Bytes) where
  -- The copies at the end of fromStrings, from the decoded texts into the initialised order.
  unfoldable pub from_strings : Order → JsonOrder → Outcome Order
  unfolding initialize copy bytes_eq
  from_strings receiver j = do
    let o = initialize receiver
    maker_bytes ← hex_string_to_bytes j.maker
    taker_bytes ← hex_string_to_bytes j.taker
    maker_asset_data_bytes ← hex_string_to_bytes j.maker_asset_data
    taker_asset_data_bytes ← hex_string_to_bytes j.taker_asset_data
    fee_recipient_bytes ← hex_string_to_bytes j.fee_recipient
    exchange_address_bytes ← hex_string_to_bytes j.exchange_address
    sender_address_bytes ← hex_string_to_bytes j.sender_address
    signature_bytes ← hex_string_to_bytes j.signature
    maker_amount_bytes ← int_string_to_bytes u256 j.maker_asset_amount
    taker_amount_bytes ← int_string_to_bytes u256 j.taker_asset_amount
    maker_fee_bytes ← int_string_to_bytes u256 j.maker_fee
    taker_fee_bytes ← int_string_to_bytes u256 j.taker_fee
    expiration_bytes ← int_string_to_bytes u256 j.expiration_timestamp_in_sec
    salt_bytes ← int_string_to_bytes u256 j.salt
    filled_bytes ← int_string_to_bytes u256 j.taker_asset_amount_filled
    taker_address ← address taker_asset_data_bytes
    maker_address ← address maker_asset_data_bytes
    ok (record {
      maker = copy o.maker maker_bytes;
      taker = copy o.taker taker_bytes;
      maker_asset_address = maker_address;
      taker_asset_address = taker_address;
      maker_asset_data = maker_asset_data_bytes;
      taker_asset_data = taker_asset_data_bytes;
      fee_recipient = copy o.fee_recipient fee_recipient_bytes;
      exchange_address = copy o.exchange_address exchange_address_bytes;
      sender_address = copy o.sender_address sender_address_bytes;
      maker_asset_amount = copy o.maker_asset_amount maker_amount_bytes;
      taker_asset_amount = copy o.taker_asset_amount taker_amount_bytes;
      maker_fee = copy o.maker_fee maker_fee_bytes;
      taker_fee = copy o.taker_fee taker_fee_bytes;
      expiration_timestamp_in_sec = copy o.expiration_timestamp_in_sec expiration_bytes;
      salt = copy o.salt salt_bytes;
      signature = o.signature ++ signature_bytes;
      taker_asset_amount_filled = copy o.taker_asset_amount_filled filled_bytes;
      cancelled = bytes_eq j.cancelled true_text;
      pool_id = o.pool_id;
    })

  unfoldable pub new_order : JsonOrder → Outcome Order
  unfolding from_strings
  new_order j = from_strings empty_order j

  abbrev default_text : Str → Str → Str
  default_text d [] = d
  default_text d (c ∷ cs) = c ∷ cs

  -- `decoded` is what json.Unmarshal makes of the text, `none` for its error.
  unfoldable pub unmarshal_json : Order → Option JsonOrder → Outcome Order
  unfolding from_strings
  unmarshal_json receiver decoded = do
    j ← or_err "encoding/json" decoded
    from_strings receiver (record j {
      taker_asset_amount_filled = default_text (codes "0") j.taker_asset_amount_filled;
      cancelled = default_text false_text j.cancelled;
    })

unfoldable pub marshal_json : Order → JsonOrder
unfolding sprint_hex dec_string big
marshal_json o = record {
  maker = sprint_hex o.maker;
  taker = sprint_hex o.taker;
  maker_asset_data = sprint_hex o.maker_asset_data;
  taker_asset_data = sprint_hex o.taker_asset_data;
  fee_recipient = sprint_hex o.fee_recipient;
  exchange_address = sprint_hex o.exchange_address;
  sender_address = sprint_hex o.sender_address;
  maker_asset_amount = dec_string (big o.maker_asset_amount);
  taker_asset_amount = dec_string (big o.taker_asset_amount);
  maker_fee = dec_string (big o.maker_fee);
  taker_fee = dec_string (big o.taker_fee);
  expiration_timestamp_in_sec = dec_string (big o.expiration_timestamp_in_sec);
  salt = dec_string (big o.salt);
  signature = sprint_hex o.signature;
  taker_asset_amount_filled = dec_string (big o.taker_asset_amount_filled);
  cancelled = if o.cancelled then true_text else false_text;
}

-- What encoding/json carries: the fields tagged `json:"-"` stay behind.
unfoldable pub wire : JsonOrder → JsonOrder
wire j = record j { taker_asset_amount_filled = []; cancelled = [] }

abbrev pub eip191_header : Bytes
eip191_header = 25 ∷ 1 ∷ []

abbrev pub domain_schema : Bytes
domain_schema = codes "EIP712Domain(string name,string version,address verifyingContract)"

abbrev pub order_schema : Bytes
order_schema =
    codes
      "Order(address makerAddress,address takerAddress,address feeRecipientAddress,address senderAddress,uint256 makerAssetAmount,uint256 takerAssetAmount,uint256 makerFee,uint256 takerFee,uint256 expirationTimeSeconds,uint256 salt,bytes makerAssetData,bytes takerAssetData)"

module _ (keccak256 : Bytes → Bytes) where
  -- What is written to domainSha, one entry for each call of Write.
  abbrev pub domain_parts : Order → List Bytes
  domain_parts o =
      keccak256 domain_schema
      ∷ keccak256 (codes "0x Protocol")
      ∷ keccak256 (codes "2")
      ∷ zeros 12
      ∷ o.exchange_address
      ∷ []

  unfoldable pub domain_bytes : Order → Bytes
  domain_bytes o = writes (domain_parts o)

  -- What is written to orderSha.
  abbrev pub order_parts : Order → List Bytes
  order_parts o =
      keccak256 order_schema
      ∷ zeros 12
      ∷ o.maker
      ∷ zeros 12
      ∷ o.taker
      ∷ zeros 12
      ∷ o.fee_recipient
      ∷ zeros 12
      ∷ o.sender_address
      ∷ o.maker_asset_amount
      ∷ o.taker_asset_amount
      ∷ o.maker_fee
      ∷ o.taker_fee
      ∷ o.expiration_timestamp_in_sec
      ∷ o.salt
      ∷ keccak256 o.maker_asset_data
      ∷ keccak256 o.taker_asset_data
      ∷ []

  unfoldable pub order_bytes : Order → Bytes
  order_bytes o = writes (order_parts o)

  abbrev pub hash_parts : Order → List Bytes
  hash_parts o = eip191_header ∷ keccak256 (domain_bytes o) ∷ keccak256 (order_bytes o) ∷ []

  unfoldable pub hash : Order → Bytes
  hash o = keccak256 (writes (hash_parts o))
