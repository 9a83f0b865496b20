-- ===== src/Ledger/Supersede.antt =====
-- A recommendation of generate_digest.py that supersedes its own day.
use portfolio_copilot.Prelude.{
  any-append_last, Bool-cases, [], ◌*◌, ◌++◌, arith, update_first, ◌∷◌, ◌≡◌, any, String, Option,
  List, ℕ, Bool, some, true, false, refl, inl, inr,
}
use portfolio_copilot.Prelude.Dict.{Dict}
use portfolio_copilot.Decimal.{Decimal}
use portfolio_copilot.Ledger.Row.{day, RecommendationRow}
use portfolio_copilot.Ledger.Record.{
  ParsedRecommendation, supersede_day, mark_superseded, record_recommendation, new_row,
  superseded_row, is_match, is_candidate,
}
use portfolio_copilot.Domain.Portfolio.{Position}

update_first-last :
    (p : RecommendationRow → Bool) (f : RecommendationRow → RecommendationRow)
    (rows : List RecommendationRow) (x : RecommendationRow)
    → any p rows ≡ false
    → p x ≡ true
    → update_first p f (rows ++ x ∷ []) ≡ rows ++ f x ∷ []
update_first-last p f [] x h e = rw e refl
update_first-last p f (r ∷ rows) x h e =
    let rest = update_first-last p f rows x in ground (arith, rest, h, e)

no_match :
    (d : ℕ) (s : Option String) (rows : List RecommendationRow)
    → any (is_candidate d) rows ≡ false
    → any (is_match d s) rows ≡ false
no_match d s [] h = refl
no_match d s (r ∷ rows) h = let rest = no_match d s rows in ground (arith, rest, h)

-- A recommendation that supersedes the day of its own digest, when no other row of that day is
-- active, supersedes itself: it is stored as no longer active, with itself as its successor.
pub record_supersedes_itself :
    (parsed : ParsedRecommendation) (id : String) (d now : ℕ) (positions : Dict Position)
    (cash : Option Decimal) (rows : List RecommendationRow)
    → parsed.supersedes_day ≡ some d
    → any (is_candidate d) rows ≡ false
    → record_recommendation parsed id (d * day) now positions cash rows
      ≡ rows ++ superseded_row id now (new_row parsed id (d * day) now positions cash) ∷ []
unfolding record_recommendation mark_superseded supersede_day new_row
record_supersedes_itself parsed id d now positions cash rows same none_yet =
    let new = new_row parsed id (d * day) now positions cash in
    let own : is_candidate d new ≡ true = ground arith in
    let match = is_match d parsed.symbol in
    let old = no_match d parsed.symbol rows none_yet in
    elim (Bool-cases (match new)) [
      | inl e ↦
          let found : any match (rows ++ new ∷ []) ≡ true =
            rw any-append_last (ground (arith, e)) in
          rw (same, found) (update_first-last match (superseded_row id now) rows new old e)
      | inr e ↦
          let missing : any match (rows ++ new ∷ []) ≡ false =
            rw any-append_last (ground (arith, old, e)) in
          rw (same, missing)
            (update_first-last (is_candidate d) (superseded_row id now) rows new none_yet own)
    ]
