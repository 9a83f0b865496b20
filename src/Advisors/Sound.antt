-- ===== src/Advisors/Sound.antt =====
-- The views of application/advisors/agent.py, whatever the language model answers.
use portfolio_copilot.Decimal
use portfolio_copilot.Decimal.{Decimal}
use portfolio_copilot.Json.{Json}
use portfolio_copilot.Prelude.Dict
use portfolio_copilot.Advisors.Llm.{extract_json}
use portfolio_copilot.Advisors.Agent.{
  to_float, parse_stance, AdvisorView, Stance, neutral, Texts, Advisor, FundamentalsSnapshot,
  form_view, or_abstain, view_of, abstain, parse, parse_confidence, in_range,
}
use portfolio_copilot.Prelude.{
  value_error, if◌then◌else◌, ap, some, ok_injective, >>=-eq-ok, ◌&&◌, sym, err, false, refl, none,
  is_some, ok, true, ◌≡◌, Result, Bool, String, Option,
}

-- A view that abstains is neutral, without confidence and with a reason.
abbrev pub IsExplained : Bool → AdvisorView → Type 0
IsExplained true v =
    (v.stance ≡ neutral) × (v.confidence ≡ Decimal.of_ℕ 0) × (is_some v.abstain_reason ≡ true)
IsExplained false v = v.abstain_reason ≡ none

-- A confidence from 0 to 100, and the prompts that were sent for the snapshot.
pub record IsSound (a : Advisor) (snapshot : FundamentalsSnapshot) (v : AdvisorView) : Type 0 where
  pub least : Decimal.le (Decimal.of_ℕ 0) v.confidence ≡ true
  pub most : Decimal.le v.confidence (Decimal.of_ℕ 100) ≡ true
  pub explained : IsExplained v.abstained v
  pub system : v.system_prompt ≡ a.system_prompt
  pub user : v.user_prompt ≡ snapshot.rendered
  pub hash : v.snapshot_hash ≡ snapshot.content_hash

both_true : (a b : Bool) → (a && b) ≡ true → (a ≡ true) × (b ≡ true)
both_true true true h = (refl, refl)
both_true true false h = cc
both_true false b h = cc

kept_value :
    (b : Bool) {c d : Decimal} → (if b then ok c else err value_error) ≡ ok d → (b ≡ true) × (c ≡ d)
kept_value true h = (refl, ok_injective h)
kept_value false h = cc

module _ (texts : Texts) where
  parse_confidence-in_range :
      (v : Option Json) {d : Decimal} → parse_confidence texts v ≡ ok d → in_range texts d ≡ true
  unfolding parse_confidence
  parse_confidence-in_range none h = rw (sym (ok_injective h)) refl
  parse_confidence-in_range (some v) h =
      let (c, p, h1) = >>=-eq-ok (to_float texts v) _ h in
      let (e, q) = kept_value (in_range texts c) h1 in rw (sym q) e

  parse-in_range :
      (response : String) {s : Stance} {d : Decimal} {why : String}
      → parse texts response ≡ ok (s, d, why)
      → in_range texts d ≡ true
  unfolding parse
  parse-in_range response {d = d} h =
      let (fields, p, h1) = >>=-eq-ok (extract_json texts.loads response) _ h in
      let (stance, q, h2) = >>=-eq-ok (parse_stance (Dict.get "signal" fields)) _ h1 in
      let (c, r, h3) = >>=-eq-ok (parse_confidence texts (Dict.get "confidence" fields)) _ h2 in
      let e : c ≡ d = ap (λ (t : Stance × Decimal × String). t.1) (ok_injective h3) in
      rw (sym e) (parse_confidence-in_range (Dict.get "confidence" fields) r)

  abstain-IsSound :
      (a : Advisor) (snapshot : FundamentalsSnapshot) (raw reason : String)
      → IsSound a snapshot (abstain texts a snapshot raw reason)
  unfolding abstain
  abstain-IsSound a snapshot raw reason = record {
    least = refl;
    most = refl;
    explained = (refl, refl, refl);
    system = refl;
    user = refl;
    hash = refl;
  }

  view_of-IsSound :
      (a : Advisor) (snapshot : FundamentalsSnapshot) (response : String)
      (r : Result (Stance × Decimal × String))
      → ((s : Stance) (d : Decimal) (why : String) → r ≡ ok (s, d, why) → in_range texts d ≡ true)
      → IsSound a snapshot (view_of texts a snapshot response r)
  unfolding view_of
  view_of-IsSound a snapshot response (err e) h = abstain-IsSound a snapshot response _
  view_of-IsSound a snapshot response (ok (s, d, why)) h =
      let (low, high) = both_true _ _ (h s d why refl) in
      record { least = low; most = high; explained = refl; system = refl; user = refl; hash = refl }

  or_abstain-IsSound :
      (a : Advisor) (snapshot : FundamentalsSnapshot) (r : Result String)
      → IsSound a snapshot (or_abstain texts a snapshot r)
  unfolding or_abstain
  or_abstain-IsSound a snapshot (err e) = abstain-IsSound a snapshot "" _
  or_abstain-IsSound a snapshot (ok response) =
      view_of-IsSound a snapshot response (parse texts response)
        (λ s d why. parse-in_range response)

  -- An advisor forms a view whatever its language model answers or raises: the confidence is from 0 to
  -- 100, the prompts are those that were sent, and a view that abstains is neutral and says why.
  pub form_view-IsSound :
      (a : Advisor) (snapshot : FundamentalsSnapshot)
      → IsSound a snapshot (form_view texts a snapshot)
  unfolding form_view
  form_view-IsSound a snapshot =
      or_abstain-IsSound a snapshot (a.complete a.system_prompt snapshot.rendered)
