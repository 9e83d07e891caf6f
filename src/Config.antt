-- ===== src/Config.antt =====
-- src/trader/config/mode.py
use kyo_trading_tool.Prelude.{
  ◌≡◌, ◌↔◌, refl, sym, subst, arith, Bool, true, false, not, ◌||◌, Option, String, str_eq, eq_iff,
  text_or_empty, is_text, if◌then◌else◌,
}
use kyo_trading_tool.Domain.Result.{Result, ok, err}

pub data TradingMode : Type 0 where
  paper live : TradingMode

-- `mode.value`
abbrev pub mode_value : TradingMode → String
mode_value TradingMode.paper = "paper"
mode_value TradingMode.live = "live"

-- `ConfigError`, one constructor for each message
pub data ConfigError : Type 0 where
  unknown_mode : String → ConfigError
  refused_in_test : ConfigError
  keys_missing : ConfigError
  not_confirmed : ConfigError

-- `_LIVE_CONFIRM_TOKEN`
abbrev pub live_confirm_token : String
live_confirm_token = "I_ACCEPT_REAL_MONEY_RISK"

-- `str.strip` is a parameter
unfoldable pub decide_mode :
    (String → String)
    → Option String
    → Option String
    → Bool
    → Option String
    → Result ConfigError TradingMode
decide_mode strip mode_env trader_env live_keys_present live_confirm =
    let normalized = strip (text_or_empty mode_env) in
    if str_eq normalized "" || str_eq normalized "paper"
    then ok TradingMode.paper
    else if not (str_eq normalized "live")
    then err (unknown_mode normalized)
    else if is_text "test" trader_env
    then err refused_in_test
    else if not live_keys_present
    then err keys_missing
    else if not (is_text live_confirm_token live_confirm)
    then err not_confirmed
    else ok TradingMode.live

live_text : (s : String) → str_eq s "live" ≡ true → (str_eq s "" || str_eq s "paper") ≡ false
live_text s h =
    subst (λ x. (str_eq x "" || str_eq x "paper") ≡ false) (sym ((eq_iff s "live").0 h)) refl

-- Live mode is chosen exactly when the stripped mode is `live`, the environment is not `test`, the
-- live keys are present, and the confirmation is the fixed phrase.
pub decide_mode-live_iff :
    (strip : String → String) (mode_env trader_env : Option String) (live_keys_present : Bool)
    (live_confirm : Option String)
    → (decide_mode strip mode_env trader_env live_keys_present live_confirm ≡ ok TradingMode.live)
      ↔ ((str_eq (strip (text_or_empty mode_env)) "live" ≡ true)
          × (is_text "test" trader_env ≡ false)
          × (live_keys_present ≡ true)
          × (is_text live_confirm_token live_confirm ≡ true))
unfolding decide_mode
decide_mode-live_iff strip mode_env trader_env live_keys_present live_confirm =
    ground (arith, live_text (strip (text_or_empty mode_env)))
