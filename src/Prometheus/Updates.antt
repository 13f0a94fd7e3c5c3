-- ===== src/Prometheus/Updates.antt =====
-- rust/ethers-prometheus/src/lib.rs: the updates of the gauges of the middleware. The floating-point
-- numbers are a parameter.
use ethmexico.Base.{ℕ, ◌%◌, ◌^◌, Bool, ◌||◌, if◌then◌else◌, Option, none, some, List, [], ◌∷◌, ◌++◌}
use ethmexico.Base.Bytes.{Bytes, codes}
use ethmexico.Prometheus.{TokenInfo, WalletInfo, PrometheusMiddlewareConf}
use ethmexico.Prometheus.Middleware.{
  ProviderMetrics, Report, height, gas_price, balance, text_or, chain_name, encode_hex, when,
}

-- Floating-point numbers, as far as they are used: a quotient of integers, and its 1e9-fold.
pub record Floats : Type 1 where
  pub F : Type 0
  pub quotient : ℕ → ℕ → F
  pub times_1e9 : F → F

pub record Block : Type 0 where
  pub number : Option ℕ
  pub base_fee_per_gas : Option ℕ

-- What the inner middleware answers to the requests of an update; `none` is an error, or no block.
pub record Answers : Type 0 where
  pub latest_block : Option Block
  pub balance_of_wallet : ℕ → Option ℕ
  pub balance_of_token : ℕ → ℕ → Option ℕ

module _ (floats : Floats) (answers : Answers) where
  open floats use {F, quotient, times_1e9}
  open answers use {latest_block, balance_of_wallet, balance_of_token}

  -- `10u64.pow` wraps around.
  unfoldable pub u256_as_scaled_f64 : ℕ → ℕ → F
  u256_as_scaled_f64 value decimals = quotient value ((10 ^ decimals) % 2 ^ 64)

  abbrev pub gas_reports : Bytes → Bool → Option ℕ → List (Report F)
  gas_reports chain wanted none = []
  gas_reports chain wanted (some london_fee) =
      when wanted (gas_price chain (times_1e9 (u256_as_scaled_f64 london_fee 18)) ∷ [])

  -- `none` is a panic: a block without a number.
  abbrev pub block_reports : ProviderMetrics → Bytes → Block → Option ℕ → Option (List (Report F))
  block_reports m chain block (some number) = some (
      when m.block_height (height chain number ∷ [])
      ++ gas_reports chain m.gas_price_gwei block.base_fee_per_gas)
  block_reports m chain block none =
      if m.block_height
      then none
      else some (gas_reports chain m.gas_price_gwei block.base_fee_per_gas)

  unfoldable pub update_block_details : ProviderMetrics → Bytes → Option (List (Report F))
  update_block_details m chain = elim latest_block [
    | none ↦ some []
    | some block ↦ block_reports m chain block block.number
  ]

  abbrev pub native_report : Bytes → ℕ → Bytes → Option ℕ → List (Report F)
  native_report chain wallet_addr wallet_name none = []
  native_report chain wallet_addr wallet_name (some value) =
      balance
        (record {
          chain = chain;
          wallet_address = encode_hex wallet_addr;
          wallet_name = wallet_name;
          token_address = codes "none";
          token_symbol = codes "Native";
          token_name = codes "Native";
        })
        (u256_as_scaled_f64 value 18)
      ∷ []

  abbrev pub token_report : Bytes → ℕ → Bytes → ℕ → TokenInfo → Option ℕ → List (Report F)
  token_report chain wallet_addr wallet_name token_addr token none = []
  token_report chain wallet_addr wallet_name token_addr token (some value) =
      balance
        (record {
          chain = chain;
          wallet_address = encode_hex wallet_addr;
          wallet_name = wallet_name;
          token_address = encode_hex token_addr;
          token_symbol = token.symbol;
          token_name = token.symbol;
        })
        (u256_as_scaled_f64 value token.decimals)
      ∷ []

  unfoldable pub token_reports : Bytes → ℕ → Bytes → List (ℕ × TokenInfo) → List (Report F)
  token_reports chain wallet_addr wallet_name [] = []
  token_reports chain wallet_addr wallet_name ((token_addr, token) ∷ tokens) =
      token_report chain wallet_addr wallet_name token_addr token
        (balance_of_token token_addr wallet_addr)
      ++ token_reports chain wallet_addr wallet_name tokens

  unfoldable pub update_wallet_balances :
      List (ℕ × TokenInfo) → Bytes → List (ℕ × WalletInfo) → List (Report F)
  update_wallet_balances tokens chain [] = []
  update_wallet_balances tokens chain ((wallet_addr, wallet_info) ∷ wallets) =
      let wallet_name = text_or (codes "none") wallet_info.name in
      native_report chain wallet_addr wallet_name (balance_of_wallet wallet_addr)
      ++ token_reports chain wallet_addr wallet_name tokens
      ++ update_wallet_balances tokens chain wallets

  abbrev pub and_reports : Option (List (Report F)) → List (Report F) → Option (List (Report F))
  and_reports none more = none
  and_reports (some reports) more = some (reports ++ more)

  unfoldable pub update : ProviderMetrics → PrometheusMiddlewareConf → Option (List (Report F))
  update m conf =
      let chain = chain_name conf.chain in
      and_reports
        (if m.block_height || m.gas_price_gwei then update_block_details m chain else some [])
        (when m.wallet_balance (update_wallet_balances conf.tokens chain conf.wallets))
