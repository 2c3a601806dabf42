-- ===== src/Validator/History.antt =====
-- Every history of the validator: messages validated and states of duties cleaned, in any order, at
-- any time and over any network state (anchor/message_validator/src/lib.rs).
use anchor.Base.{ℕ, ◌<◌, ◌≡◌, sym, ◌∙◌, none, some}
use anchor.Ssv.Message.{Bytes}
use anchor.Validator.Context.{Foreign, DutiesProvider}
use anchor.Validator.Machine.{Validator, NetworkState, TopicContext, validate_bytes, clean}
use anchor.Validator.Sound.{Sound, validate_bytes-Sound, clean-Sound}

-- The histories. The clock, the duties and the network state may be others at each step.
pub data History : Validator → Type 0 where
  started :
      (v : Validator)
      → 0 < v.slots_per_epoch
      → ((id : Bytes) → v.duty_state_map id ≡ none)
      → History v
  validated :
      (foreign : Foreign) (duties : DutiesProvider) (v : Validator) (bytes : Bytes)
      (topic : TopicContext) (received_at : ℕ)
      → History v
      → History (validate_bytes foreign duties v bytes topic received_at).1
  changed :
      (v : Validator) (n : NetworkState) → History v → History (record v { network_state = n })
  cleaned : (v : Validator) (now : ℕ) → History v → History (clean v now)

-- In every history of the validator, whatever arrives from the network and whatever the cleaner
-- drops, every state of duties that it stores is well-formed: for each message identifier, operator
-- and slot at most one message of each kind is counted and the budgets of signing roots are kept.
pub History-Sound : (v : Validator) → History v → Sound v
History-Sound _ (started v p fresh) = record {
  slots = p;
  states = λ id d h. let x : none ≡ some d = sym (fresh id) ∙ h in cc;
}
History-Sound _ (validated foreign duties v bytes topic received_at h) =
    validate_bytes-Sound foreign duties v bytes topic received_at (History-Sound v h)
History-Sound _ (changed v n h) =
    let s = History-Sound v h in record { slots = s.slots; states = s.states }
History-Sound _ (cleaned v now h) = clean-Sound v now (History-Sound v h)
