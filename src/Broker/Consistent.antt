-- ===== src/Broker/Consistent.antt =====
-- fake/broker.py: the balances of an account against its positions.
use portfolio_copilot.Prelude.{
  true, false, some_injective, ok_injective, refl, >>=-eq-ok, [], ◌>>=◌,
}
use portfolio_copilot.Prelude.Dict
use portfolio_copilot.Domain.Money
use portfolio_copilot.Decimal
use portfolio_copilot.Domain.Money.{Money, IsMoney}
use portfolio_copilot.Broker.{
  store_position, new_position, set_position, add_account, held, market_total, Balances, recomputed,
  FakeBroker, recompute_balances,
}
use portfolio_copilot.Prelude.{
  ℕ, Option, none, ap, ◌∙◌, sym, str_eq, Option-cases, if◌then◌else◌, Bool-cases, inl, arith, inr,
  Result-cases, ok, some, ◌≡◌, String, List,
}
use portfolio_copilot.Domain.Portfolio.{BrokerAccount, Position}
use portfolio_copilot.Prelude.Dict.{Dict}
use mathlib.Core.Path.{ap₂, subst}
use text.Mathlib.TextPositions.{eq_refl}
use portfolio_copilot.Domain.Symbol.{Symbol}
use portfolio_copilot.Decimal.Number.{Decimal}

-- The balances of an account that holds `ps`.
pub record Agrees (ps : List Position) (bal : Balances) : Type 0 where
  pub market : market_total Money.zero_usd ps ≡ ok bal.market_value
  pub net : Money.add bal.cash bal.market_value ≡ ok bal.net_liquidation
  pub power : bal.buying_power ≡ bal.net_liquidation

-- For every account the market value is the sum over its positions, and net liquidation and buying
-- power are the cash and that sum.
pub record IsBalanced {Spec : Type 0} (b : FakeBroker Spec) : Type 0 where
  pub at :
      (id : String) (bal : Balances)
      → Dict.get id b.balances ≡ some bal
      → Agrees (Dict.values (held id b.positions)) bal

recomputed-Agrees :
    (ps : List Position) (bal bal' : Balances) → recomputed ps bal ≡ (ok tt, bal') → Agrees ps bal'
unfolding recomputed
recomputed-Agrees ps bal bal' h = elim (Result-cases (market_total Money.zero_usd ps)) [
  | inr (e, p) ↦ absurd (ground arith)
  | inl (total, p) ↦ elim (Result-cases (Money.add bal.cash total)) [
    | inr (e, q) ↦ absurd (ground arith)
    | inl (net, q) ↦ record { market = ground arith; net = ground arith; power = ground arith }
  ]
]

held-put :
    (id j : String) (d : Dict Position) (ps : Dict (Dict Position))
    → held j (Dict.put id d ps) ≡ (if str_eq id j then d else held j ps)
unfolding held
held-put id j d ps = ground (arith, Dict.get-put id j d ps)

-- The positions and the balances of one account, written anew.
abbrev rewritten :
    {Spec : Type 0} → String → Dict Position → Balances → FakeBroker Spec → FakeBroker Spec
rewritten id d bal b = record b {
  positions = Dict.put id d b.positions;
  balances = Dict.put id bal b.balances;
}

-- Cash in US dollars and no positions.
cash_only :
    (cash : Money)
    → IsMoney cash
    → Decimal.fits cash.amount ≡ true
    → cash.currency ≡ "USD"
    → Money.add cash Money.zero_usd ≡ ok cash
unfolding Money.add
cash_only cash v short usd =
    let same : Decimal.in_context (Decimal.add cash.amount (Decimal.of_ℕ 0)) ≡ cash.amount =
      rw Decimal.add-of_zero (Decimal.in_context-fits cash.amount short) in
    rw (usd, same) (ground (arith, v.places, v.code, usd))

module _ {Spec : Type 0} where
  rewritten-IsBalanced :
      (id : String) (d : Dict Position) (bal : Balances) (b : FakeBroker Spec)
      → IsBalanced b
      → Agrees (Dict.values d) bal
      → IsBalanced (rewritten id d bal b)
  rewritten-IsBalanced id d bal b v a = record {
    at = λ j other e. elim (Bool-cases (str_eq id j)) [
      | inl same ↦
          let e' : some bal ≡ some other = rw (Dict.get-put, same) at e in
          rw (held-put, same, ← some_injective e') a
      | inr differ ↦
          let e' : Dict.get j b.balances ≡ some other = rw (Dict.get-put, differ) at e in
          rw (held-put, differ) (v.at j other e')
    ];
  }

  recompute_step :
      (id : String) (d : Dict Position) (b : FakeBroker Spec) (bal : Balances)
      → Dict.get id b.balances ≡ some bal
      → let (r, bal') = recomputed (Dict.values d) bal in
        recompute_balances id (record b { positions = Dict.put id d b.positions })
        ≡ (r, rewritten id d bal' b)
  unfolding recompute_balances
  recompute_step id d b bal found = rw (found, recompute_balances, held-put, eq_refl)

  recompute-IsBalanced :
      (id : String) (d : Dict Position) (b b' : FakeBroker Spec)
      → IsBalanced b
      → recompute_balances id (record b { positions = Dict.put id d b.positions }) ≡ (ok tt, b')
      → IsBalanced b'
  recompute-IsBalanced id d b b' v h = elim (Option-cases (Dict.get id b.balances)) [
    | inl missing ↦ absurd (unfold recompute_balances in ground arith)
    | inr (bal, found) ↦
        let bal' : Balances = (recomputed (Dict.values d) bal).1 in
        let h' = sym (recompute_step id d b bal found) ∙ h in
        let a : Agrees (Dict.values d) bal' =
          recomputed-Agrees (Dict.values d) bal bal' (ap (λ x. (x.0, bal')) h') in
        subst IsBalanced (ap (λ x. x.1) h') (rewritten-IsBalanced id d bal' b v a)
  ]

  -- A call of `set_position` that returns a position keeps the balances of every account equal to
  -- what its positions and its cash add up to.
  pub set_position-IsBalanced :
      (id : String) (symbol : Symbol) (quantity : Decimal) (cost : Money) (value : Option Money)
      (now : ℕ) (b b' : FakeBroker Spec) {p : Position}
      → IsBalanced b
      → set_position id symbol quantity cost value now b ≡ (ok p, b')
      → IsBalanced b'
  unfolding set_position
  set_position-IsBalanced id symbol quantity cost value now b b' {p} v h =
      elim (Result-cases (new_position id symbol quantity cost value now)) [
        | inr (e, q) ↦ absurd (ground arith)
        | inl (stored, q) ↦
            let d = Dict.put stored.symbol.ticker stored (held id b.positions) in
            let step = recompute_balances id (store_position id stored b) in
            let k : (step.0 >>= (λ _. ok stored), step.1) ≡ (ok p, b') =
              rw (q, set_position) at h in
            let (u, returned, _) = >>=-eq-ok step.0 (λ _. ok stored) (ap (λ x. x.0) k) in
            recompute-IsBalanced id d b b' v
              (unfold store_position in ap₂ (λ r s. (r, s)) returned (ap (λ x. x.1) k))
      ]

  -- Registering an account whose identifier holds no positions keeps the balances right, if its
  -- cash is well-formed US dollars of at most 28 digits.
  pub add_account-IsBalanced :
      (account : BrokerAccount) (cash : Money) (b : FakeBroker Spec)
      → IsBalanced b
      → Dict.get account.account_id b.positions ≡ none
      → IsMoney cash
      → Decimal.fits cash.amount ≡ true
      → cash.currency ≡ "USD"
      → IsBalanced (add_account account (some cash) b)
  unfolding add_account market_total Dict.values
  add_account-IsBalanced account cash b v new fits short usd =
      let bal : Balances = record {
        cash = cash;
        market_value = Money.zero_usd;
        net_liquidation = cash;
        buying_power = cash;
      } in
      let a : Agrees [] bal = record {
        market = refl;
        net = cash_only cash fits short usd;
        power = refl;
      } in
      let same : Dict.set_default account.account_id [] b.positions
          ≡ Dict.put account.account_id [] b.positions =
        Dict.set_default-new account.account_id [] b.positions new in
      let w = rewritten-IsBalanced account.account_id [] bal b v a in rw same (record { at = w.at })

  -- Registering an account anew resets its market value to zero, and its net liquidation and buying
  -- power to its cash, but keeps its positions: if the value of these is not zero, the balances no
  -- longer agree with them.
  pub add_account_again_unbalances :
      (account : BrokerAccount) (cash : Option Money) (b : FakeBroker Spec) (d : Dict Position)
      (total : Money)
      → Dict.get account.account_id b.positions ≡ some d
      → market_total Money.zero_usd (Dict.values d) ≡ ok total
      → Money.is_zero total ≡ false
      → let b' = add_account account cash b in
        (held account.account_id b'.positions ≡ d)
        × ((bal : Balances) × (Dict.get account.account_id b'.balances ≡ some bal)
            × (bal.market_value ≡ Money.zero_usd)
            × (bal.net_liquidation ≡ bal.cash)
            × (bal.buying_power ≡ bal.cash))
        × ¬ IsBalanced b'
  unfolding add_account held
  add_account_again_unbalances account cash b d total found worth nonzero =
      let id = account.account_id in
      let stored = Dict.get-put_self id _ b.balances in
      let kept : held id (Dict.set_default id [] b.positions) ≡ d =
        rw (Dict.set_default-old id [] b.positions found) (rw (found, held)) in
      (
        kept,
        (_, stored, refl, refl, refl),
        λ v.
            let a = v.at id _ stored in
            let none_left : total ≡ Money.zero_usd = ok_injective (
              sym worth
              ∙ ap (λ x. market_total Money.zero_usd (Dict.values x)) (sym kept)
              ∙ a.market) in
            cc (ap Money.is_zero none_left, nonzero),
      )
