-- ===== src/Broker/PaperOrders.antt =====
-- Paper orders and their numbers.
use portfolio_copilot.Prelude.Dict.{contains}
use portfolio_copilot.Broker.{put_order, FakeBroker, cancel_order, find_order, submit_place_order}
use portfolio_copilot.Prelude.{
  sym, ap, arith, refl, ◌==◌, ◌∷◌, if◌then◌else◌, some, none, [], ok, ◌≤◌, true, ◌≡◌, length, ◌+◌,
  List, String, ℕ,
}

module _ {Spec : Type 0} where
  -- The orders carry the numbers from `k` on, in order.
  abbrev pub IsNumbered : ℕ → List (ℕ × Spec) → Type 0
  IsNumbered k [] = Unit
  IsNumbered k ((m, _) ∷ rest) = (m ≡ k) × IsNumbered (k + 1) rest

  not_found :
      (n k : ℕ) (orders : List (ℕ × Spec))
      → IsNumbered k orders
      → k + length orders ≤ n
      → find_order n orders ≡ none
  unfolding find_order
  not_found n k [] h e = refl
  not_found n k ((m, spec) ∷ rest) h e = ground (arith, not_found n (k + 1) rest h.1)

  put_new :
      (n k : ℕ) (spec : Spec) (orders : List (ℕ × Spec))
      → IsNumbered k orders
      → n ≡ k + length orders
      → IsNumbered k (put_order n spec orders)
  unfolding put_order
  put_new n k spec [] h e = omega arith
  put_new n k spec ((m, old) ∷ rest) h e = ground (arith, put_new n (k + 1) spec rest h.1)

  find-put_order :
      (n m : ℕ) (spec : Spec) (orders : List (ℕ × Spec))
      → find_order m (put_order n spec orders) ≡ (if n == m then some spec else find_order m orders)
  unfolding find_order put_order
  find-put_order n m spec [] = refl
  find-put_order n m spec ((i, old) ∷ rest) = ground (arith, find-put_order n m spec rest)

  -- While the orders carry the numbers from 1 on, as they do before the first cancellation, a
  -- submission for a known account stores its spec under the next number, which no order has,
  -- keeps every other order, and leaves the numbers consecutive.
  pub submit-IsNumbered :
      (id : String) (spec : Spec) (b : FakeBroker Spec) (m : ℕ)
      → contains id b.balances ≡ true
      → IsNumbered 1 b.paper_orders
      → let n = length b.paper_orders + 1 in
        let (r, b') = submit_place_order id spec b in
        (r ≡ ok n)
        × (find_order n b.paper_orders ≡ none)
        × (find_order m b'.paper_orders
            ≡ (if n == m then some spec else find_order m b.paper_orders))
        × IsNumbered 1 b'.paper_orders
  unfolding submit_place_order
  submit-IsNumbered id spec b m known h =
      let n = length b.paper_orders + 1 in
      rw known (
        refl,
        not_found n 1 b.paper_orders h (omega arith),
        find-put_order n m spec b.paper_orders,
        put_new n 1 spec b.paper_orders h (omega arith),
      )

  abbrev with_orders : List (ℕ × Spec) → FakeBroker Spec → FakeBroker Spec
  with_orders orders b = record b { paper_orders = orders }

  submit_known :
      (id : String) (spec : Spec) (orders : List (ℕ × Spec)) (b : FakeBroker Spec)
      → contains id b.balances ≡ true
      → submit_place_order id spec (with_orders orders b)
        ≡ (ok (length orders + 1), with_orders (put_order (length orders + 1) spec orders) b)
  unfolding submit_place_order
  submit_known id spec orders b known = rw known

  -- From a broker without orders, whatever the account and the specs: two orders, a cancellation of
  -- the first and a third order. The third takes the number of the second, which is then lost,
  -- though it was never cancelled.
  pub cancel_loses_order :
      (id : String) (first second third : Spec) (b : FakeBroker Spec)
      → contains id b.balances ≡ true
      → b.paper_orders ≡ []
      → let b₁ = (submit_place_order id first b).1 in
        let b₂ = (submit_place_order id second b₁).1 in
        let b₃ = (cancel_order 1 b₂).1 in
        let (r, b₄) = submit_place_order id third b₃ in
        ((submit_place_order id second b₁).0 ≡ ok 2)
        × (find_order 2 b₃.paper_orders ≡ some second)
        × (r ≡ ok 2)
        × (b₄.paper_orders ≡ (2, third) ∷ [])
  cancel_loses_order id first second third b known empty =
      let none_yet : with_orders [] b ≡ b = ap (λ l. with_orders l b) (sym empty) in
      rw (← none_yet) (
        rw (submit_known id first [] b known) (
          unfold put_order in
          rw (submit_known id second ((1, first) ∷ []) b known) (
            unfold put_order cancel_order find_order in
            rw (submit_known id third ((2, second) ∷ []) b known) (refl, refl, refl, refl))))
