-- ===== src/Ledger/Final.antt =====
-- generate_digest.py: recommendations that are no longer active, through further runs of the ledger.
use portfolio_copilot.Prelude.{
  zero, suc, ◌∙◌, ap, >>=-eq-ok, some_injective, ok_injective, [], ◌++◌, ◌∷◌, ok, none, false,
  String, Result, some, Option, ◌≡◌, List, ℕ, ◌>>=◌, arith, refl,
}
use portfolio_copilot.Ledger.Row.{RecommendationRow, is_active}
use portfolio_copilot.Ledger.Detect.{LiveBroker}
use portfolio_copilot.Ledger.Record.{ParsedRecommendation, run_ledger}
use portfolio_copilot.Ledger.Lifecycle.{
  Reaches, here, onward, stays, expires, acts, gives_way, Pointwise, run_ledger_steps,
}

reached_final : (a b : RecommendationRow) → Reaches a b → is_active a ≡ false → b ≡ a
reached_final a b (here _) h = refl
reached_final a b (onward _ _ _ (stays _) k) h = reached_final a b k h
reached_final a b (onward _ _ _ (expires _ now e) k) h = absurd (ground (arith, e, h))
reached_final a b (onward _ _ _ (acts _ now d e) k) h = absurd (ground (arith, e, h))
reached_final a b (onward _ _ _ (gives_way _ id now e) k) h = absurd (ground (arith, e, h))

-- The arguments of a run.
pub record Run : Type 0 where
  pub broker : Option LiveBroker
  pub account : String
  pub parsed : ParsedRecommendation
  pub id : String
  pub digest_dt : ℕ
  pub now : ℕ

-- One run after the other.
unfoldable pub run_all : List Run → List RecommendationRow → Result (List RecommendationRow)
run_all [] rows = ok rows
run_all (x ∷ xs) rows = do
  rows' ← run_ledger x.broker x.account x.parsed x.id x.digest_dt x.now rows
  run_all xs rows'

-- The row of a table at a place, the first at 0.
abbrev pub row_at : ℕ → List RecommendationRow → Option RecommendationRow
row_at n [] = none
row_at zero (r ∷ rows) = some r
row_at (suc n) (r ∷ rows) = row_at n rows

kept_at :
    (n : ℕ) (rows kept : List RecommendationRow) (last r : RecommendationRow)
    → Pointwise Reaches rows kept
    → row_at n rows ≡ some r
    → is_active r ≡ false
    → row_at n (kept ++ last ∷ []) ≡ some r
kept_at n [] kept last r h e k = cc e
kept_at n (x ∷ rows) [] last r h e k = absurd h
kept_at zero (x ∷ rows) (y ∷ kept) last r h e k =
    let same = some_injective e in ap some (reached_final x y h.0 (rw same k) ∙ same)
kept_at (suc n) (x ∷ rows) (y ∷ kept) last r h e k = kept_at n rows kept last r h.1 e k

-- Whatever runs of the ledger follow and return, a recommendation that is no longer active stays in
-- its place in the table as it is.
pub resolved_is_final :
    (runs : List Run) (rows : List RecommendationRow) (n : ℕ) (r : RecommendationRow)
    {final : List RecommendationRow}
    → row_at n rows ≡ some r
    → is_active r ≡ false
    → run_all runs rows ≡ ok final
    → row_at n final ≡ some r
unfolding run_all
resolved_is_final [] rows n r e k h = rw (← ok_injective h) e
resolved_is_final (x ∷ xs) rows n r e k h =
    let (rows', ran, rest) =
      >>=-eq-ok (run_ledger x.broker x.account x.parsed x.id x.digest_dt x.now rows) _ h in
    let (kept, last, same, p, _) =
      run_ledger_steps x.broker x.account x.parsed x.id x.digest_dt x.now rows ran in
    resolved_is_final xs rows' n r (rw same (kept_at n rows kept last r p e k)) k rest
