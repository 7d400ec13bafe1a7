-- ===== src/Engine/Notify.antt =====
-- `_setStatus`, `_log` and the subscriptions.
use vidhi_trading_platform.Prelude.{
  ℕ, ◌==◌, not, String, List, [], ◌∷◌, ◌++◌, map, Option, none, some, find, filter_by, push_capped,
}
use vidhi_trading_platform.Engine.Types.{
  Status, Shown, Engine, state_told, complete_told, status_told,
}

-- `this.logHistory[this.logHistory.length - 1] || ''`
abbrev pub last_log : List String → String
last_log [] = ""
last_log (m ∷ []) = m
last_log (m ∷ n ∷ ms) = last_log (n ∷ ms)

abbrev pub tell_states : Shown → Engine → Engine
tell_states s e = record e { told = e.told ++ map (λ i. state_told i s) e.subscribers }

abbrev pub tell_complete : Shown → Engine → Engine
tell_complete s e = record e {
  told = e.told ++ map (λ i. complete_told i s) e.complete_subscribers;
}

abbrev pub tell_status : Status → Option String → Engine → Engine
tell_status s m e = record e { told = e.told ++ map (λ i. status_told i s m) e.status_subscribers }

-- `_setStatus`
unfoldable pub set_status : Status → Engine → Engine
set_status s e = tell_status s (some (last_log e.log_history)) (record e { status = s })

-- `_log`: the fifty newest lines.
unfoldable pub log : String → Engine → Engine
unfolding push_capped
log m e = tell_status e.status (some m) (record e { log_history = push_capped 50 e.log_history m })

-- `Set.add`
abbrev pub add_to : ℕ → List ℕ → List ℕ
add_to i is = elim (find (λ j. j == i) is) [ none ↦ is ++ (i ∷ []) | some j ↦ is ]

abbrev pub drop_from : ℕ → List ℕ → List ℕ
drop_from i = filter_by (λ j. not (j == i))

-- `subscribe`, `onStatus` and `onComplete`, and what they return.
unfoldable pub subscribe : ℕ → Engine → Engine
subscribe i e =
    let e' = record e { subscribers = add_to i e.subscribers } in
    elim e.last_state [ none ↦ e' | some s ↦ record e' { told = e.told ++ (state_told i s ∷ []) } ]

unfoldable pub on_status : ℕ → Engine → Engine
on_status i e = record e {
  status_subscribers = add_to i e.status_subscribers;
  told = e.told ++ (status_told i e.status none ∷ []);
}

unfoldable pub on_complete : ℕ → Engine → Engine
on_complete i e = record e { complete_subscribers = add_to i e.complete_subscribers }

unfoldable pub unsubscribe : ℕ → Engine → Engine
unsubscribe i e = record e { subscribers = drop_from i e.subscribers }

unfoldable pub off_status : ℕ → Engine → Engine
off_status i e = record e { status_subscribers = drop_from i e.status_subscribers }

unfoldable pub off_complete : ℕ → Engine → Engine
off_complete i e = record e { complete_subscribers = drop_from i e.complete_subscribers }
