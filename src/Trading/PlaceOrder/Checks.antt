-- ===== src/Trading/PlaceOrder/Checks.antt =====
-- place_order.py: the orders that are previewed and submitted.
use portfolio_copilot.Decimal
use portfolio_copilot.Decimal.{Decimal}
use portfolio_copilot.Prelude.Effect.{>>=-keeps, lift, >>=-err, >>=-eq-ok}
use portfolio_copilot.Trading.EquitySpec.{build_equity_spec, SchwabOrders}
use portfolio_copilot.Trading.Command.{is_buy, quantity_at, PlaceOrderCommand, check_buying_power}
use portfolio_copilot.Trading.PlaceOrder.{
  preview, submit, OrderPreview, resolve_quantity, preview_of, BrokerLike,
}
use portfolio_copilot.Prelude.{
  ◌∙◌, ok_injective, err, Error, refl, inr, arith, inl, Bool-cases, [], true, ◌∷◌, ◌++◌, ok, String,
  ◌≡◌, List,
}
use portfolio_copilot.Domain.Execution.{OrderSide}
use portfolio_copilot.Prelude.Int.{ℤ}
use portfolio_copilot.Domain.Symbol.{equity, make_symbol, Symbol}
use portfolio_copilot.Decimal.Number.{Le}
use portfolio_copilot.Domain.Portfolio.{Account, Quote}

-- What the documentation says of the broker's calls and of its orders: only `submit_place_order`
-- places an order, and it places the one that it is given.
pub record PlacesOnSubmit {Spec : Type 0} (broker : BrokerLike Spec) : Type 0 where
  pub placed : broker.State → List (String × Spec)
  pub get_account : (id : String) (s : broker.State) → placed (broker.get_account id s).1 ≡ placed s
  pub get_quote : (x : Symbol) (s : broker.State) → placed (broker.get_quote x s).1 ≡ placed s
  pub preview_order :
      (id : String) (spec : Spec) (s : broker.State)
      → placed (broker.preview_order id spec s).1 ≡ placed s
  pub submit_place_order :
      (id : String) (spec : Spec) (s : broker.State) {o : broker.OrderId}
      → (broker.submit_place_order id spec s).0 ≡ ok o
      → placed (broker.submit_place_order id spec s).1 ≡ placed s ++ (id, spec) ∷ []

-- What a preview has checked and computed of the broker's answers, the quote first and then the
-- account.
pub record IsChecked (schwab : SchwabOrders) (broker : BrokerLike schwab.Spec)
    (cmd : PlaceOrderCommand) (s : broker.State) (pv : OrderPreview schwab.Spec broker.Preview)
    : Type 0 where
  pub symbol : Symbol
  pub named : make_symbol cmd.symbol equity ≡ ok symbol
  pub quote : Quote
  pub quoted : (broker.get_quote symbol s).0 ≡ ok quote
  pub account : Account
  pub answered : (broker.get_account cmd.account_id (broker.get_quote symbol s).1).0 ≡ ok account
  pub resolved : quantity_at cmd.quantity cmd.target_usd quote.last ≡ ok pv.quantity
  pub cost : pv.estimated_cost ≡ Decimal.mul (Decimal.of_ℤ pv.quantity) quote.last
  pub power : pv.buying_power_before ≡ account.buying_power.amount
  pub left : pv.buying_power_after ≡ Decimal.sub account.buying_power.amount pv.estimated_cost
  pub affordable : is_buy cmd.side ≡ true → Le pv.estimated_cost pv.buying_power_before
  pub built :
      build_equity_spec schwab cmd.symbol cmd.side
        (Decimal.of_ℤ pv.quantity)
        cmd.order_type
        cmd.limit_price
      ≡ ok pv.order_spec

check_affordable :
    (side : OrderSide) (cost power : Decimal) {w : List Decimal}
    → check_buying_power side cost power ≡ ok w
    → is_buy side ≡ true
    → Le cost power
unfolding check_buying_power
check_affordable side cost power h buying = elim (Bool-cases (Decimal.lt power cost)) [
  | inl e ↦ absurd (ground arith)
  | inr e ↦ Decimal.Le-of-not-lt cost power e
]

module _ (schwab : SchwabOrders) (broker : BrokerLike schwab.Spec) where
  open broker use {State, Preview, OrderId}

  resolve_quantity-eq-ok :
      (cmd : PlaceOrderCommand) (s : State) {r : ℤ × Decimal}
      → (resolve_quantity schwab broker cmd s).0 ≡ ok r
      → (x : Symbol) × (q : Quote) × (make_symbol cmd.symbol equity ≡ ok x)
        × ((broker.get_quote x s).0 ≡ ok q)
        × (r.1 ≡ q.last)
        × (quantity_at cmd.quantity cmd.target_usd r.1 ≡ ok r.0)
        × ((resolve_quantity schwab broker cmd s).1 ≡ (broker.get_quote x s).1)
  unfolding resolve_quantity
  resolve_quantity-eq-ok cmd s h =
      let (x, e₁, h₁, m₁) = >>=-eq-ok (lift (make_symbol cmd.symbol equity)) _ s h in
      let (q, e₂, h₂, m₂) = >>=-eq-ok (broker.get_quote x) _ s h₁ in
      let (n, e₃, h₃, m₃) =
        >>=-eq-ok (lift (quantity_at cmd.quantity cmd.target_usd q.last)) _ _ h₂ in
      (x, q, e₁, e₂, rw (← ok_injective h₃) refl, rw (← ok_injective h₃) e₃, m₁ ∙ m₂ ∙ m₃)

  preview_of-eq-ok :
      (cmd : PlaceOrderCommand) (q : ℤ × Decimal) (s : State)
      {pv : OrderPreview schwab.Spec Preview}
      → (preview_of schwab broker cmd q s).0 ≡ ok pv
      → (account : Account) × ((broker.get_account cmd.account_id s).0 ≡ ok account)
        × (pv.buying_power_before ≡ account.buying_power.amount)
        × (pv.buying_power_after ≡ Decimal.sub account.buying_power.amount pv.estimated_cost)
        × (pv.quantity ≡ q.0)
        × (pv.estimated_cost ≡ Decimal.mul (Decimal.of_ℤ q.0) q.1)
        × (check_buying_power cmd.side pv.estimated_cost pv.buying_power_before ≡ ok pv.warnings)
        × (build_equity_spec schwab cmd.symbol cmd.side
              (Decimal.of_ℤ q.0)
              cmd.order_type
              cmd.limit_price
            ≡ ok pv.order_spec)
  unfolding preview_of
  preview_of-eq-ok cmd q s h =
      let (account, e₁, h₁, _) = >>=-eq-ok (broker.get_account cmd.account_id) _ s h in
      let power = account.buying_power.amount in
      let cost = Decimal.mul (Decimal.of_ℤ q.0) q.1 in
      let (ws, e₂, h₂, _) = >>=-eq-ok (lift (check_buying_power cmd.side cost power)) _ _ h₁ in
      let (spec, e₃, h₃, _) =
        >>=-eq-ok
          (lift (
            build_equity_spec schwab cmd.symbol cmd.side (Decimal.of_ℤ q.0) cmd.order_type
              cmd.limit_price))
          _ _ h₂ in
      let (answer, e₄, h₄, _) = >>=-eq-ok (broker.preview_order cmd.account_id spec) _ _ h₃ in
      let same = ok_injective h₄ in rw (← same) (account, e₁, refl, refl, refl, refl, e₂, e₃)

  -- A preview that is returned has asked for the quote of the command's symbol and then for the
  -- command's account. Its quantity is resolved at the last price of the quote and costs that
  -- quantity times the price, which the buying power of the account covers if it buys or buys to
  -- open. It carries that buying power, what is left of it, and the order built for the quantity.
  pub preview-IsChecked :
      (cmd : PlaceOrderCommand) (s : State) {pv : OrderPreview schwab.Spec Preview}
      → (preview schwab broker cmd s).0 ≡ ok pv
      → IsChecked schwab broker cmd s pv
  unfolding preview
  preview-IsChecked cmd s {pv} h =
      let (q, resolved, h₁, _) =
        >>=-eq-ok (resolve_quantity schwab broker cmd) (preview_of schwab broker cmd) s h in
      let (account, known, power, left, n, cost, checked, built) = preview_of-eq-ok cmd q _ h₁ in
      let (x, quote, named, quoted, last, price, moved) = resolve_quantity-eq-ok cmd s resolved in
      record {
        symbol = x;
        named = named;
        quote = quote;
        quoted = quoted;
        account = account;
        answered = rw (← moved) known;
        power = power;
        left = left;
        resolved = rw (n, ← last) price;
        cost = rw (n, ← last) cost;
        affordable = check_affordable cmd.side pv.estimated_cost pv.buying_power_before checked;
        built = rw n built;
      }

  module _ (law : PlacesOnSubmit broker) where
    resolve_quantity-placed :
        (cmd : PlaceOrderCommand) (s : State)
        → law.placed (resolve_quantity schwab broker cmd s).1 ≡ law.placed s
    unfolding resolve_quantity
    resolve_quantity-placed cmd =
        >>=-keeps law.placed _ _ (λ s. refl)
          (λ x.
            >>=-keeps law.placed _ _ (law.get_quote x)
              (λ q. >>=-keeps law.placed _ _ (λ s. refl) (λ n s. refl)))

    preview_of-placed :
        (cmd : PlaceOrderCommand) (q : ℤ × Decimal) (s : State)
        → law.placed (preview_of schwab broker cmd q s).1 ≡ law.placed s
    unfolding preview_of
    preview_of-placed cmd q = >>=-keeps law.placed _ _ (law.get_account cmd.account_id) (λ a.
        >>=-keeps law.placed _ _ (λ s. refl)
          (λ w.
            >>=-keeps law.placed _ _ (λ s. refl)
              (λ spec.
                >>=-keeps law.placed _ _ (law.preview_order cmd.account_id spec) (λ x s. refl))))

    -- A preview places no order, whether it returns or raises.
    pub preview_places_none :
        (cmd : PlaceOrderCommand) (s : State)
        → law.placed (preview schwab broker cmd s).1 ≡ law.placed s
    unfolding preview
    preview_places_none cmd =
        >>=-keeps law.placed _ _ (resolve_quantity-placed cmd) (preview_of-placed cmd)

    -- A submission that returns has placed exactly one order, for the account of the command: the
    -- one of a preview, with every check passed, that it made itself.
    pub submit_places_one :
        (cmd : PlaceOrderCommand) (s : State) {o : OrderId}
        → (submit schwab broker cmd s).0 ≡ ok o
        → (pv : OrderPreview schwab.Spec Preview) × ((preview schwab broker cmd s).0 ≡ ok pv)
          × IsChecked schwab broker cmd s pv
          × (law.placed (submit schwab broker cmd s).1
              ≡ law.placed s ++ (cmd.account_id, pv.order_spec) ∷ [])
    unfolding submit
    submit_places_one cmd s h =
        let (pv, shown, h₁, same) =
          >>=-eq-ok (preview schwab broker cmd)
            (λ pv. broker.submit_place_order cmd.account_id pv.order_spec) s h in
        (
          pv,
          shown,
          preview-IsChecked cmd s shown,
          rw (same, law.submit_place_order _ _ _ h₁, preview_places_none cmd s) refl,
        )

    -- Where the preview raises, the submission raises the same and places nothing.
    pub submit_needs_preview :
        (cmd : PlaceOrderCommand) (s : State) {e : Error}
        → (preview schwab broker cmd s).0 ≡ err e
        → ((submit schwab broker cmd s).0 ≡ err e)
          × (law.placed (submit schwab broker cmd s).1 ≡ law.placed s)
    unfolding submit
    submit_needs_preview cmd s h =
        let ended =
          >>=-err (preview schwab broker cmd)
            (λ pv. broker.submit_place_order cmd.account_id pv.order_spec) s h in
        rw ended (refl, preview_places_none cmd s)
