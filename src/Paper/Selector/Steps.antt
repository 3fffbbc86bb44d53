-- ===== src/Paper/Selector/Steps.antt =====
-- What each call may make of the status of a strategy.
use bot_crypto.Prelude.{String, ◌≡◌, true, false, List, [], ◌∷◌, arith, str_eq}
use bot_crypto.Paper.Selector.{
  StrategyStatus, pending, ready, active, suspended, deprecated, StrategyConfig, Call, may_activate,
  register, activate, deactivate, trade,
}

module _ {F J : Type 0} where
  -- What a call makes of the status of the strategy `id`: an activation starts a ready or suspended strategy and leaves
  -- one that is pending, active or out of use as it is, a deactivation suspends it, and any other call keeps it.
  pub data Step (id : String) : Call F J → StrategyStatus → StrategyStatus → Type 0 where
    start : (key : String) → key ≡ id → Step id (activate key) ready active
    resume : (key : String) → key ≡ id → Step id (activate key) suspended active
    refuse_pending : (key : String) → key ≡ id → Step id (activate key) pending pending
    refuse_active : (key : String) → key ≡ id → Step id (activate key) active active
    refuse_deprecated : (key : String) → key ≡ id → Step id (activate key) deprecated deprecated
    suspend :
        (key : String) (status : StrategyStatus)
        → key ≡ id
        → Step id (deactivate key) status suspended
    activate_other :
        (key : String) (status : StrategyStatus)
        → str_eq key id ≡ false
        → Step id (activate key) status status
    deactivate_other :
        (key : String) (status : StrategyStatus)
        → str_eq key id ≡ false
        → Step id (deactivate key) status status
    traded :
        (key : String) (pnl now : F) (status : StrategyStatus)
        → Step id (trade key pnl now) status status
    registered :
        (d : StrategyConfig F J) (status : StrategyStatus) → Step id (register d) status status

  -- The steps of the calls, in their order.
  pub data Steps (id : String) : List (Call F J) → StrategyStatus → StrategyStatus → Type 0 where
    done : (a : StrategyStatus) → Steps id [] a a
    next :
        (call : Call F J) (cs : List (Call F J)) (a b c : StrategyStatus)
        → Step id call a b
        → Steps id cs b c
        → Steps id (call ∷ cs) a c

  pub activation :
      (key id : String) (status : StrategyStatus)
      → key ≡ id
      → may_activate status ≡ true
      → Step id (activate key) status active
  activation key id pending e h = ground arith
  activation key id ready e h = start key e
  activation key id active e h = ground arith
  activation key id suspended e h = resume key e
  activation key id deprecated e h = ground arith

  pub refusal :
      (key id : String) (status : StrategyStatus)
      → key ≡ id
      → may_activate status ≡ false
      → Step id (activate key) status status
  refusal key id pending e h = refuse_pending key e
  refusal key id ready e h = ground arith
  refusal key id active e h = refuse_active key e
  refusal key id suspended e h = ground arith
  refusal key id deprecated e h = refuse_deprecated key e
