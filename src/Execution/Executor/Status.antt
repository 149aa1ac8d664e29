-- ===== src/Execution/Executor/Status.antt =====
-- src/polymarket_agent/execution/executor.py: reading the exchange's answer on an order. A value of the
-- answer is of a type `V`; `to_float` is `float(v)`, where it does not raise, `to_text` is `str(v)` and
-- `lower` is `str.lower`.
use poly_cortex.Base.{Option, none, some, List, [], ◌∷◌, String}
use poly_cortex.Float.{Float, nought}

-- A key of the answer: it is absent, its value is None, or it has a value.
pub data Field (V : Type 0) : Type 0 where
  absent null : Field V
  value : V → Field V

-- The answer of one of the client's methods.
pub data MethodReply (V : Type 0) : Type 0 where
  no_method type_error request_failed no_dict : MethodReply V
  answer : (String → Field V) → MethodReply V

pub record StatusRow (F : Type 0) : Type 0 where
  pub status : String
  pub filled_size_usdc : F
  pub average_fill_price : Option F

abbrev pub status_fields : List String
status_fields = "status" ∷ "state" ∷ "order_status" ∷ []

abbrev pub filled_fields : List String
filled_fields = "size_matched" ∷ "filled_size" ∷ "filled" ∷ "filled_size_usdc" ∷ []

abbrev pub avg_price_fields : List String
avg_price_fields = "avg_price" ∷ "average_price" ∷ "price" ∷ []

module _ {V : Type 0} where
  -- The first key that is there, even where its value is None.
  unfoldable pub first_key : List String → (String → Field V) → Option V
  first_key [] response = none
  first_key (k ∷ ks) response = elim (response k) [
    | absent ↦ first_key ks response
    | null ↦ none
    | value v ↦ some v
  ]

  -- The first key whose value is not None.
  unfoldable pub first_value : List String → (String → Field V) → Option V
  first_value [] response = none
  first_value (k ∷ ks) response = elim (response k) [
    | absent ↦ first_value ks response
    | null ↦ first_value ks response
    | value v ↦ some v
  ]

module _ {F V : Type 0} ⦃f : Float F⦄ (to_float : V → Option F) (to_text : V → String)
    (lower : String → String) where
  abbrev pub float_at : List String → (String → Field V) → Option F
  float_at keys response = elim (first_value keys response) [ none ↦ none | some v ↦ to_float v ]

  unfoldable pub parse_live_status_response : (String → Field V) → Option (StatusRow F)
  unfolding first_key first_value
  parse_live_status_response response = elim (first_key status_fields response) [
    | none ↦ none
    | some v ↦ some (record {
      status = lower (to_text v);
      filled_size_usdc = elim (float_at filled_fields response) [ none ↦ nought | some x ↦ x ];
      average_fill_price = float_at avg_price_fields response;
    })
  ]

  -- The methods in their order, `get_order` and `get_order_status`.
  unfoldable pub fetch_live_exchange_status : List (MethodReply V) → Option (StatusRow F)
  unfolding parse_live_status_response
  fetch_live_exchange_status [] = none
  fetch_live_exchange_status (reply ∷ replies) = elim reply [
    | no_method ↦ fetch_live_exchange_status replies
    | type_error ↦ fetch_live_exchange_status replies
    | request_failed ↦ none
    | no_dict ↦ fetch_live_exchange_status replies
    | answer response ↦ elim (parse_live_status_response response) [
      | none ↦ fetch_live_exchange_status replies
      | some row ↦ some row
    ]
  ]
