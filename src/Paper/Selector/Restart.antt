-- ===== src/Paper/Selector/Restart.antt =====
-- What a selector that is started again on its directory knows.
use bot_crypto.Prelude.{
  String, ◌≡◌, refl, ap, ◌∙◌, Option, none, some, List, [], ◌∷◌, arith, All, eq_iff, inl, inr,
  Option-cases,
}
use bot_crypto.Float.{Float}
use bot_crypto.Dict.{Dict, lookup, insert, IsUnique, lookup-insert, insert-IsUnique}
use bot_crypto.Paper.Selector.{
  StrategyConfig, Saved, StrategySelector, Call, to_dict, of_dict, store, load_files,
  load_strategies, register_strategy, with_status, activate_strategy, deactivate_strategy,
  update_trade_stats, with_trade, get_strategy, apply, run, active, suspended, register, activate,
  deactivate, trade,
}

module _ {F : Type 0} where
  -- Every file is named after the strategy in it.
  abbrev pub IsKeyed : Dict (Saved F) → Type 0
  IsKeyed files = All (λ f. f.1.identity.strategy_id ≡ f.0) files

  lookup-keyed :
      (files : Dict (Saved F)) (id : String) (d : Saved F)
      → IsKeyed files
      → lookup id files ≡ some d
      → d.identity.strategy_id ≡ id
  lookup-keyed [] id d k h = ground arith
  lookup-keyed ((key, e) ∷ files) id d k h =
      ground (arith, lookup-keyed files id d k.1, eq_iff key id)

  insert-IsKeyed :
      (files : Dict (Saved F)) (d : Saved F)
      → IsKeyed files
      → IsKeyed (insert d.identity.strategy_id d files)
  insert-IsKeyed [] d k = (refl, tt)
  insert-IsKeyed ((key, e) ∷ files) d k =
      ground (arith, insert-IsKeyed files d k.1, eq_iff key d.identity.strategy_id)

module _ {F J : Type 0} where
  abbrev saved_of : Option (StrategyConfig F J) → Option (Saved F)
  saved_of none = none
  saved_of (some c) = some (to_dict c)

  abbrev pub read_back : J → Option (Saved F) → Option (StrategyConfig F J)
  read_back no_rules none = none
  read_back no_rules (some d) = some (of_dict no_rules d)

  -- What the files keep of a strategy: all but its rules and the time of its last trade.
  abbrev pub forget : J → Option (StrategyConfig F J) → Option (StrategyConfig F J)
  forget no_rules none = none
  forget no_rules (some c) =
      some (record c { entry_rules = no_rules; exit_rules = no_rules; last_trade_at = none })

  record IsSynced (s : StrategySelector F J) : Type 0 where
    unique : IsUnique s.files
    keyed : IsKeyed s.files
    agree : (id : String) → lookup id s.files ≡ saved_of (lookup id s.strategies)

  lookup-load_files :
      (no_rules : J) (files : Dict (Saved F)) (d : Dict (StrategyConfig F J)) (id : String)
      → IsUnique files
      → IsKeyed files
      → lookup id (load_files no_rules files d)
        ≡ elim (lookup id files) [ none ↦ lookup id d | some e ↦ some (of_dict no_rules e) ]
  unfolding load_files
  lookup-load_files no_rules [] d id u k = refl
  lookup-load_files no_rules ((key, e) ∷ files) d id u k = ground (
    arith,
    lookup-load_files no_rules files (insert e.identity.strategy_id (of_dict no_rules e) d) id u.1
        k.1,
    lookup-insert e.identity.strategy_id id (of_dict no_rules e) d,
    eq_iff key id,
  )

  load-IsSynced :
      (no_rules : J) (files : Dict (Saved F))
      → IsUnique files
      → IsKeyed files
      → IsSynced (load_strategies no_rules files)
  unfolding load_strategies to_dict of_dict
  load-IsSynced no_rules files u k = record {
    unique = u;
    keyed = k;
    agree = λ id. ground (arith, lookup-load_files no_rules files [] id u k);
  }

  store-IsSynced :
      (id : String) (c : StrategyConfig F J) (s : StrategySelector F J)
      → IsSynced s
      → c.identity.strategy_id ≡ id
      → IsSynced (store id c s)
  unfolding store to_dict
  store-IsSynced id c s h e = record {
    unique = insert-IsUnique c.identity.strategy_id (to_dict c) s.files h.unique;
    keyed = insert-IsKeyed s.files (to_dict c) h.keyed;
    agree = λ j. ground (
      arith,
      h.agree j,
      lookup-insert id j c s.strategies,
      lookup-insert c.identity.strategy_id j (to_dict c) s.files,
    );
  }

  named :
      (s : StrategySelector F J) (id : String) (c : StrategyConfig F J)
      → IsSynced s
      → lookup id s.strategies ≡ some c
      → c.identity.strategy_id ≡ id
  unfolding to_dict
  named s id c h e = lookup-keyed s.files id (to_dict c) h.keyed (h.agree id ∙ ap saved_of e)

  activate-IsSynced :
      (id : String) (s : StrategySelector F J) → IsSynced s → IsSynced (activate_strategy id s).0
  unfolding activate_strategy with_status
  activate-IsSynced id s h = elim (Option-cases (lookup id s.strategies)) [
    | inl e ↦ ground arith
    | inr (c, e) ↦ ground (arith, store-IsSynced id (with_status active c) s h, named s id c h e)
  ]

  deactivate-IsSynced :
      (id : String) (s : StrategySelector F J) → IsSynced s → IsSynced (deactivate_strategy id s).0
  unfolding deactivate_strategy with_status
  deactivate-IsSynced id s h = elim (Option-cases (lookup id s.strategies)) [
    | inl e ↦ ground arith
    | inr (c, e) ↦ ground (arith, store-IsSynced id (with_status suspended c) s h, named s id c h e)
  ]

module _ {F J : Type 0} ⦃fl : Float F⦄ where
  trade-IsSynced :
      (id : String) (pnl now : F) (s : StrategySelector F J)
      → IsSynced s
      → IsSynced (update_trade_stats id pnl now s)
  unfolding update_trade_stats
  trade-IsSynced id pnl now s h = elim (Option-cases (lookup id s.strategies)) [
    | inl e ↦ ground arith
    | inr (c, e) ↦ ground (arith, store-IsSynced id (with_trade pnl now c) s h, named s id c h e)
  ]

  apply-IsSynced : (c : Call F J) (s : StrategySelector F J) → IsSynced s → IsSynced (apply c s)
  unfolding apply register_strategy
  apply-IsSynced (register c) s h = store-IsSynced c.identity.strategy_id c s h refl
  apply-IsSynced (activate id) s h = activate-IsSynced id s h
  apply-IsSynced (deactivate id) s h = deactivate-IsSynced id s h
  apply-IsSynced (trade id pnl now) s h = trade-IsSynced id pnl now s h

  run-IsSynced :
      (cs : List (Call F J)) (s : StrategySelector F J) → IsSynced s → IsSynced (run cs s)
  unfolding run
  run-IsSynced [] s h = h
  run-IsSynced (c ∷ cs) s h = run-IsSynced cs (apply c s) (apply-IsSynced c s h)

  -- A selector that was started on a directory, whose files are named after their strategies, and then used by any
  -- calls, leaves a directory from which a new selector reads back exactly its strategies, but for their rules and
  -- the times of their last trades.
  pub load-run :
      (no_rules : J) (files : Dict (Saved F)) (cs : List (Call F J)) (id : String)
      → IsUnique files
      → IsKeyed files
      → let s = run cs (load_strategies no_rules files) in
        get_strategy id (load_strategies no_rules s.files) ≡ forget no_rules (get_strategy id s)
  unfolding get_strategy load_strategies to_dict of_dict
  load-run no_rules files cs id u k =
      let s = run cs (load_strategies no_rules files) in
      let h = run-IsSynced cs (load_strategies no_rules files) (load-IsSynced no_rules files u k) in
      ground (arith, lookup-load_files no_rules s.files [] id h.unique h.keyed, h.agree id)
