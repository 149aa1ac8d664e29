-- ===== src/Execution/StateMachine/Persist.antt =====
-- `to_dict` and `from_dict`: a dictionary is read with its missing keys and its unknown values. The
-- printing and reading of times is the standard library's, and is a parameter.
use poly_cortex.Base.{
  ◌≡◌, refl, Option, none, some, List, [], ◌∷◌, map, String, Result, ok, err, arith, str_eq,
  if◌then◌else◌,
}
use poly_cortex.Execution.StateMachine.{
  OrderState, created, validated, signed, submitted, acknowledged, partial_fill, filled, settled,
  redeemed, rejected, cancelled, expired, StateTransition, OrderStateMachine, init,
}

-- What `from_dict` raises.
pub data LoadError : Type 0 where
  key_error value_error : LoadError

-- The text of a StrEnum member.
pub value : OrderState → String
value created = "created"
value validated = "validated"
value signed = "signed"
value submitted = "submitted"
value acknowledged = "acknowledged"
value partial_fill = "partial_fill"
value filled = "filled"
value settled = "settled"
value redeemed = "redeemed"
value rejected = "rejected"
value cancelled = "cancelled"
value expired = "expired"

pub members : List OrderState
members =
    created ∷ validated ∷ signed ∷ submitted ∷ acknowledged ∷ partial_fill ∷ filled ∷ settled
    ∷ redeemed ∷ rejected ∷ cancelled ∷ expired ∷ []

-- `OrderState(text)`: the member of that text.
pub of_text : String → List OrderState → Result LoadError OrderState
unfolding value
of_text v [] = err value_error
of_text v (s ∷ ss) = if str_eq (value s) v then ok s else of_text v ss

pub of_value : String → Result LoadError OrderState
unfolding of_text members
of_value v = of_text v members

of_value-value : (s : OrderState) → of_value (value s) ≡ ok s
unfolding of_value value
of_value-value created = refl
of_value-value _ = refl

pub record TransitionDict : Type 0 where
  pub from : Option String
  pub to : Option String
  pub timestamp : Option String
  pub reason : Option String

pub record MachineDict : Type 0 where
  pub order_id : Option String
  pub state : Option String
  pub created_at : Option String
  pub history : Option (List TransitionDict)

infixl 5 ◌>>=◌
abbrev pub ◌>>=◌ {ℓ κ} :
    {A : Type ℓ} {B : Type κ} → Result LoadError A → (A → Result LoadError B) → Result LoadError B
ok a >>= f = f a
err e >>= f = err e

-- `d[k]`
abbrev pub required {ℓ} : {A : Type ℓ} → Option A → Result LoadError A
required none = err key_error
required (some a) = ok a

-- `d.get(k, default)`
abbrev pub get_or {ℓ} : {A : Type ℓ} → Option A → A → A
get_or none d = d
get_or (some a) d = a

module _ {T : Type 0} (isoformat : T → String) (fromisoformat : String → Option T) where
  pub transition_to_dict : StateTransition T → TransitionDict
  transition_to_dict t = record {
    from = some (value t.from_state);
    to = some (value t.to_state);
    timestamp = some (isoformat t.timestamp);
    reason = some t.reason;
  }

  pub to_dict : OrderStateMachine T → MachineDict
  unfolding transition_to_dict
  to_dict sm = record {
    order_id = some sm.order_id;
    state = some (value sm.state);
    created_at = some (isoformat sm.created_at);
    history = some (map transition_to_dict sm.history);
  }

  abbrev pub read_time : String → Result LoadError T
  read_time s = elim (fromisoformat s) [ none ↦ err value_error | some t ↦ ok t ]

  pub transition_from_dict : TransitionDict → Result LoadError (StateTransition T)
  transition_from_dict d = do
    from ← required d.from
    from_state ← of_value from
    to ← required d.to
    to_state ← of_value to
    stamp ← required d.timestamp
    timestamp ← read_time stamp
    ok (record {
      from_state = from_state;
      to_state = to_state;
      timestamp = timestamp;
      reason = get_or d.reason "";
    })

  pub transitions_from_dict : List TransitionDict → Result LoadError (List (StateTransition T))
  transitions_from_dict [] = ok []
  transitions_from_dict (d ∷ ds) = do
    t ← transition_from_dict d
    ts ← transitions_from_dict ds
    ok (t ∷ ts)

  -- The machine is built by its constructor, which reads the clock, and its fields are replaced.
  pub from_dict : T → MachineDict → Result LoadError (OrderStateMachine T)
  unfolding init
  from_dict now d = do
    order_id ← required d.order_id
    state ← of_value (get_or d.state "created")
    let sm = init order_id state now
    stamp ← required d.created_at
    created_at ← read_time stamp
    history ← transitions_from_dict (get_or d.history [])
    ok (record sm { created_at = created_at; history = history })

  module _ (round_trip : (t : T) → fromisoformat (isoformat t) ≡ some t) where
    read-transition : (t : StateTransition T) → transition_from_dict (transition_to_dict t) ≡ ok t
    unfolding transition_from_dict transition_to_dict
    read-transition t =
        ground
          (arith, of_value-value t.from_state, of_value-value t.to_state, round_trip t.timestamp)

    read-transitions :
        (ts : List (StateTransition T)) → transitions_from_dict (map transition_to_dict ts) ≡ ok ts
    unfolding transitions_from_dict
    read-transitions [] = refl
    read-transitions (t ∷ ts) = ground (arith, read-transition t, read-transitions ts)

    -- A machine that is written to a dictionary is read back whole, whatever the clock says then,
    -- if a printed time is read back as itself.
    pub from_dict-to_dict :
        (sm : OrderStateMachine T) (now : T) → from_dict now (to_dict sm) ≡ ok sm
    unfolding from_dict to_dict
    from_dict-to_dict sm now =
        ground
          (arith, of_value-value sm.state, read-transitions sm.history, round_trip sm.created_at)
