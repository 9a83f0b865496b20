-- ===== src/Massive/Priced.antt =====
-- The prices of the quotes that `get_quotes` of adapters/massive/client.py returns.
use portfolio_copilot.Decimal
use portfolio_copilot.Schwab.Values.{or_zero, decimal}
use portfolio_copilot.Prelude.Dict
use portfolio_copilot.Prelude.Dict.{Dict}
use portfolio_copilot.Json.{Json}
use portfolio_copilot.Prelude.Int.{neg_part, pos_part, ℤ, pos, negsuc}
use portfolio_copilot.Domain.Portfolio.{Quote}
use portfolio_copilot.Massive.Client.{
  gaps, tickers_of, add_quote, prev_volume, get_object, unless_zero, Service, get_quotes,
  fan_out_prev_quotes, fetch_prev, prev_quote, keep_priced, put_all, fill_gaps, or_fan_out,
  first_result,
}
use portfolio_copilot.Prelude.{
  ◌>>=◌, massive_auth_error, refl, err, sym, Result, none, ok_injective, arith, ◌+◌, ◌^◌, ◌*◌,
  >>=-eq-ok, some, ok, ltb, str_eq, inr, inl, ◌==◌, Bool-cases, [], ◌∷◌, List, ℕ, All, true, false,
  Option, ◌≡◌, String,
}
use portfolio_copilot.Decimal.Number.{Decimal}
use portfolio_copilot.Prelude.Dict.{Dict}
use portfolio_copilot.Domain.Symbol.{Symbol}
use portfolio_copilot.Massive.Parsing.{parse_snapshot_quotes}

-- The last price is not zero.
abbrev pub IsPriced : Quote → Type 0
IsPriced q = Decimal.same_value q.last (Decimal.of_ℕ 0) ≡ false

pos-same_zero :
    (d : Decimal) → Decimal.is_pos d ≡ true → Decimal.same_value d (Decimal.of_ℕ 0) ≡ false
pos-same_zero d h = by_sign d.int d.scale h
  where
    by_sign :
        (z : ℤ) (s : ℕ)
        → ltb 0 (pos_part z) ≡ true
        → (pos_part z * 10 ^ 0 + 0 * 10 ^ s == 0 * 10 ^ s + neg_part z * 10 ^ 0) ≡ false
    by_sign (pos n) s h = grind arith
    by_sign (negsuc n) s h = grind arith

values-put :
    {V : Type 0} (P : V → Type 0) (k : String) (v : V) (d : Dict V)
    → P v
    → All P (Dict.values d)
    → All P (Dict.values (Dict.put k v d))
unfolding Dict.put Dict.values
values-put P k v [] hv h = (hv, tt)
values-put P k v ((j, w) ∷ d) hv h = elim (Bool-cases (str_eq j k)) [
  | inl e ↦ rw e (hv, h.1)
  | inr e ↦ rw e (h.0, values-put P k v d hv h.1)
]

module _ (read : String → Option Decimal) (service : Service) (now : ℕ) where
  unless_zero-IsPriced :
      (s : Symbol) (close : Decimal) (volume : Option ℕ) (q : Quote)
      → unless_zero read service now s close volume ≡ some q
      → IsPriced q
  unfolding unless_zero
  unless_zero-IsPriced s close volume q h =
      elim (Bool-cases (Decimal.same_value close (Decimal.of_ℕ 0))) [
        | inl e ↦ grind arith
        | inr e ↦ grind arith
      ]

  prev_quote-IsPriced :
      (s : Symbol) (r : Option (Dict Json)) (q : Quote)
      → prev_quote read service now s r ≡ ok (some q)
      → IsPriced q
  unfolding prev_quote
  prev_quote-IsPriced s none q h = cc
  prev_quote-IsPriced s (some r) q h =
      let (close, p, h1) = >>=-eq-ok (decimal read (or_zero (Dict.get "c" r))) _ h in
      let (volume, p2, h2) =
        >>=-eq-ok (prev_volume read service now (Dict.get "v" r))
          (λ v. ok (unless_zero read service now s close v)) h1 in
      unless_zero-IsPriced s close volume q (ok_injective h2)

  fetch_prev-IsPriced :
      (s : Symbol) (q : Quote) → fetch_prev read service now s ≡ ok (some q) → IsPriced q
  unfolding fetch_prev
  fetch_prev-IsPriced s q h =
      let (payload, p, h1) = >>=-eq-ok (get_object (service.prev s.ticker)) _ h in
      let (r, p2, h2) =
        >>=-eq-ok (first_result (Dict.get "results" payload)) (prev_quote read service now s) h1 in
      prev_quote-IsPriced s r q h2

  add_quote-IsPriced :
      (r : Result (Option Quote)) (qs : List Quote)
      → ((q : Quote) → r ≡ ok (some q) → IsPriced q)
      → All IsPriced qs
      → All IsPriced (add_quote read service now r qs)
  add_quote-IsPriced (err e) qs hr h = h
  add_quote-IsPriced (ok none) qs hr h = h
  add_quote-IsPriced (ok (some q)) qs hr h = (hr q refl, h)

  fan_out_IsPriced : (ss : List Symbol) → All IsPriced (fan_out_prev_quotes read service now ss)
  unfolding fan_out_prev_quotes
  fan_out_IsPriced [] = tt
  fan_out_IsPriced (s ∷ ss) =
      add_quote-IsPriced (fetch_prev read service now s) (fan_out_prev_quotes read service now ss)
        (fetch_prev-IsPriced s) (fan_out_IsPriced ss)

  put_all-IsPriced :
      (qs : List Quote) (d : Dict Quote)
      → All IsPriced qs
      → All IsPriced (Dict.values d)
      → All IsPriced (Dict.values (put_all read service now qs d))
  unfolding put_all
  put_all-IsPriced [] d hq hd = hd
  put_all-IsPriced (q ∷ qs) d hq hd =
      put_all-IsPriced qs _ hq.1 (values-put IsPriced q.symbol.ticker q d hq.0 hd)

  keep_priced-IsPriced :
      (qs : List Quote) (d : Dict Quote)
      → All IsPriced (Dict.values d)
      → All IsPriced (Dict.values (keep_priced read service now qs d))
  unfolding keep_priced
  keep_priced-IsPriced [] d h = h
  keep_priced-IsPriced (q ∷ qs) d h = elim (Bool-cases (Decimal.is_pos q.last)) [
    | inl e ↦ rw e (
        keep_priced-IsPriced qs _
          (values-put IsPriced q.symbol.ticker q d (pos-same_zero q.last e) h))
    | inr e ↦ rw e (keep_priced-IsPriced qs d h)
  ]

  fill_gaps-IsPriced :
      (ss : List Symbol) (snapshot : List Quote)
      → All IsPriced (fill_gaps read service now ss snapshot)
  unfolding fill_gaps Dict.values
  fill_gaps-IsPriced ss snapshot =
      let d = keep_priced read service now snapshot [] in
      let missing = gaps read service now ss d in
      put_all-IsPriced (fan_out_prev_quotes read service now missing) d (fan_out_IsPriced missing)
        (keep_priced-IsPriced snapshot [] tt)

  or_fan_out-IsPriced :
      (ss : List Symbol) (r : Result (List Quote)) {qs : List Quote}
      → or_fan_out read service now ss r ≡ ok qs
      → All IsPriced qs
  unfolding or_fan_out
  or_fan_out-IsPriced ss (ok snapshot) h =
      rw (sym (ok_injective h)) (fill_gaps-IsPriced ss snapshot)
  or_fan_out-IsPriced ss (err massive_auth_error) h =
      rw (sym (ok_injective h)) (fan_out_IsPriced ss)
  or_fan_out-IsPriced ss (err e) h = cc

  -- No quote that `get_quotes` returns has a last price of zero.
  pub get_quotes-IsPriced :
      (symbols : List Symbol) {qs : List Quote}
      → get_quotes read service now symbols ≡ ok qs
      → All IsPriced qs
  unfolding get_quotes tickers_of
  get_quotes-IsPriced [] h = rw (sym (ok_injective h)) tt
  get_quotes-IsPriced (s ∷ ss) h =
      or_fan_out-IsPriced (s ∷ ss)
        (get_object (service.snapshot (tickers_of read service now (s ∷ ss))) >>= λ payload.
          parse_snapshot_quotes read payload (s ∷ ss))
        h
