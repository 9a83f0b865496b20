-- ===== src/Ledger/Lifecycle.antt =====
-- generate_digest.py: the life of a recommendation, as a step relation on its row.
use portfolio_copilot.Prelude.{
  ◌∙◌, ap, any, refl, ◌++◌, sym, arith, ◌⊎◌, if◌then◌else◌, [], update_first, ◌&&◌, ok_injective,
  Bool-cases, ◌≡◌, String, ◌∷◌, Option, List, Bool, ℕ, >>=-eq-ok, none, some, true, ok, inl, inr,
}
use portfolio_copilot.Prelude.Dict.{Dict}
use portfolio_copilot.Decimal.{Decimal}
use portfolio_copilot.Ledger.Row.{
  expired_row, is_active, is_overdue, expire_overdue, Detail, RecommendationRow,
}
use portfolio_copilot.Ledger.Record.{
  run_ledger, is_match, supersede_day, new_row, ParsedRecommendation, mark_superseded, is_candidate,
  record_recommendation, superseded_row,
}
use portfolio_copilot.Ledger.Detect.{
  fetch_live_self_directed, ledger_pre_digest, detect_live, LiveBroker, check_one, is_buy,
  detect_acted_on, marked,
}
use portfolio_copilot.Domain.Portfolio.{Position}

-- active → expired | acted_on | superseded
pub data Step : RecommendationRow → RecommendationRow → Type 0 where
  stays : (r : RecommendationRow) → Step r r
  expires : (r : RecommendationRow) (now : ℕ) → is_overdue now r ≡ true → Step r (expired_row now r)
  acts :
      (r : RecommendationRow) (now : ℕ) (d : Detail)
      → is_active r ≡ true
      → Step r (marked now (some d) r)
  gives_way :
      (r : RecommendationRow) (id : String) (now : ℕ)
      → is_active r ≡ true
      → Step r (superseded_row id now r)

-- What a row can become.
pub data Reaches : RecommendationRow → RecommendationRow → Type 0 where
  here : (r : RecommendationRow) → Reaches r r
  onward : (a b c : RecommendationRow) → Step a b → Reaches b c → Reaches a c

-- A relation between the rows of two tables of one length.
abbrev pub Pointwise :
    (RecommendationRow → RecommendationRow → Type 0)
    → List RecommendationRow
    → List RecommendationRow
    → Type 0
Pointwise R [] [] = Unit
Pointwise R (x ∷ xs) (y ∷ ys) = R x y × Pointwise R xs ys
Pointwise R _ _ = ⊥

expire_steps :
    (now : ℕ) (rows : List RecommendationRow) → Pointwise Step rows (expire_overdue now rows).1
unfolding expire_overdue
expire_steps now [] = tt
expire_steps now (r ∷ rows) = elim (Bool-cases (is_overdue now r)) [
  | inl e ↦ rw e (expires r now e, expire_steps now rows)
  | inr e ↦ rw e (stays r, expire_steps now rows)
]

marked-Step :
    (now : ℕ) (r : RecommendationRow) (seen : Option Detail)
    → (is_active r && is_buy r ≡ true) ⊎ (seen ≡ none)
    → Step r (marked now seen r)
unfolding marked
marked-Step now r none h = stays r
marked-Step now r (some d) (inl e) = acts r now d (ground (arith, e))
marked-Step now r (some d) (inr e) = cc e

detect_steps :
    (positions : Dict Position) (cash : Decimal) (now : ℕ) (rows : List RecommendationRow)
    {rows' : List RecommendationRow}
    → detect_acted_on positions cash now rows ≡ ok rows'
    → Pointwise Step rows rows'
unfolding detect_acted_on
detect_steps positions cash now [] h = rw (← ok_injective h) tt
detect_steps positions cash now (r ∷ rows) h =
    let (seen, e, h₁) =
      >>=-eq-ok (if is_active r && is_buy r then check_one r positions cash else ok none) _ h in
    let (rest, e₁, h₂) = >>=-eq-ok (detect_acted_on positions cash now rows) _ h₁ in
    rw (← ok_injective h₂)
      (marked-Step now r seen (reason seen e), detect_steps positions cash now rows e₁)
  where
    reason :
        (seen : Option Detail)
        → (if is_active r && is_buy r then check_one r positions cash else ok none) ≡ ok seen
        → (is_active r && is_buy r ≡ true) ⊎ (seen ≡ none)
    reason seen e = elim (Bool-cases (is_active r && is_buy r)) [
      | inl b ↦ inl b
      | inr b ↦ inr (sym (ok_injective (rw b at e)))
    ]

update_first_steps :
    (p : RecommendationRow → Bool) (id : String) (now : ℕ) (rows : List RecommendationRow)
    → ((r : RecommendationRow) → p r ≡ true → is_active r ≡ true)
    → Pointwise Step rows (update_first p (superseded_row id now) rows)
update_first_steps p id now [] h = tt
update_first_steps p id now (r ∷ rows) h = elim (Bool-cases (p r)) [
  | inl e ↦ rw e (gives_way r id now (h r e), all_stay rows)
  | inr e ↦ rw e (stays r, update_first_steps p id now rows h)
]
  where
    all_stay : (rows : List RecommendationRow) → Pointwise Step rows rows
    all_stay [] = tt
    all_stay (r ∷ rows) = (stays r, all_stay rows)

all_stay : (rows : List RecommendationRow) → Pointwise Step rows rows
all_stay [] = tt
all_stay (r ∷ rows) = (stays r, all_stay rows)

candidate-active : (d : ℕ) (r : RecommendationRow) → is_candidate d r ≡ true → is_active r ≡ true
candidate-active d r h = ground (arith, h)

-- Recording a recommendation adds its row at the end and takes at most a step on each.
record_steps :
    (parsed : ParsedRecommendation) (id : String) (digest_dt now : ℕ) (positions : Dict Position)
    (cash : Option Decimal) (rows : List RecommendationRow)
    → Pointwise Step
        (rows ++ new_row parsed id digest_dt now positions cash ∷ [])
        (record_recommendation parsed id digest_dt now positions cash rows)
unfolding record_recommendation mark_superseded supersede_day
record_steps parsed id digest_dt now positions cash rows = at_day parsed.supersedes_day
  where
    all : List RecommendationRow
    all = rows ++ new_row parsed id digest_dt now positions cash ∷ []

    at_day : (day : Option ℕ) → Pointwise Step all (supersede_day day id parsed.symbol now all)
    at_day none = all_stay all
    at_day (some d) = elim (Bool-cases (any (is_match d parsed.symbol) all)) [
      | inl e ↦ rw e (
          update_first_steps (is_match d parsed.symbol) id now all
            (λ r h. candidate-active d r (ground (arith, h))))
      | inr e ↦ rw e (update_first_steps (is_candidate d) id now all (candidate-active d))
    ]

Pointwise-reach :
    (a b c : List RecommendationRow)
    → Pointwise Step a b
    → Pointwise Reaches b c
    → Pointwise Reaches a c
Pointwise-reach [] [] [] h k = tt
Pointwise-reach (x ∷ a) (y ∷ b) (z ∷ c) h k = (onward x y z h.0 k.0, Pointwise-reach a b c h.1 k.1)
Pointwise-reach (x ∷ a) [] c h k = absurd h
Pointwise-reach [] (y ∷ b) c h k = absurd h
Pointwise-reach (x ∷ a) (y ∷ b) [] h k = absurd k
Pointwise-reach [] [] (z ∷ c) h k = absurd k

all_here : (rows : List RecommendationRow) → Pointwise Reaches rows rows
all_here [] = tt
all_here (r ∷ rows) = (here r, all_here rows)

-- The rows before the last one, and the last one.
split_last :
    (rows : List RecommendationRow) (x : RecommendationRow) (ys : List RecommendationRow)
    → Pointwise Step (rows ++ x ∷ []) ys
    → (kept : List RecommendationRow) × (last : RecommendationRow) × (ys ≡ kept ++ last ∷ [])
      × Pointwise Step rows kept
      × Step x last
split_last [] x [] h = absurd h
split_last [] x (y ∷ []) h = ([], y, refl, tt, h.0)
split_last [] x (y ∷ z ∷ ys) h = absurd h.1
split_last (r ∷ rows) x [] h = absurd h
split_last (r ∷ rows) x (y ∷ ys) h =
    let (kept, last, e, p, q) = split_last rows x ys h.1 in
    (y ∷ kept, last, ap (λ l. y ∷ l) e, (h.0, p), q)

live_steps :
    (positions : Dict Position) (cash : Option Decimal) (now : ℕ) (rows : List RecommendationRow)
    {rows' : List RecommendationRow}
    → detect_live positions cash now rows ≡ ok rows'
    → Pointwise Step rows rows'
unfolding detect_live
live_steps positions none now rows h = rw (← ok_injective h) (all_stay rows)
live_steps positions (some cash) now rows h = detect_steps positions cash now rows h

-- A run of the ledger adds the row of the new recommendation at the end, and every other row, in
-- its place, is one that the row there before can become: an active one may expire when it is
-- overdue, be acted on, or be superseded, and one that is not active stays as it is. The new row
-- can itself be superseded.
pub run_ledger_steps :
    (broker : Option LiveBroker) (account : String) (parsed : ParsedRecommendation) (id : String)
    (digest_dt now : ℕ) (rows : List RecommendationRow) {final : List RecommendationRow}
    → run_ledger broker account parsed id digest_dt now rows ≡ ok final
    → let (positions, cash) = fetch_live_self_directed broker account in
      (kept : List RecommendationRow) × (last : RecommendationRow) × (final ≡ kept ++ last ∷ [])
      × Pointwise Reaches rows kept
      × Step (new_row parsed id digest_dt now positions cash) last
unfolding run_ledger ledger_pre_digest
run_ledger_steps broker account parsed id digest_dt now rows {final} h =
    let (positions, cash) = fetch_live_self_directed broker account in
    let unexpired = (expire_overdue now rows).1 in
    let (r, e₀, h₀) = >>=-eq-ok (ledger_pre_digest broker account now rows) _ h in
    let (seen, e, h₁) = >>=-eq-ok (detect_live positions cash now unexpired) _ e₀ in
    let out : final ≡ record_recommendation parsed id digest_dt now positions cash seen =
      sym (ok_injective h₀)
      ∙ ap
          (λ (x : List RecommendationRow × Dict Position × Option Decimal).
            record_recommendation parsed id digest_dt now x.1 x.2 x.0)
          (sym (ok_injective h₁)) in
    let all = record_steps parsed id digest_dt now positions cash seen in
    let (kept, last, same, p, q) = split_last seen _ _ all in
    (
      kept,
      last,
      out ∙ same,
      Pointwise-reach rows unexpired kept (expire_steps now rows) (
          Pointwise-reach unexpired seen kept (live_steps positions cash now unexpired e)
            (Pointwise-reach seen kept kept p (all_here kept))),
      q,
    )
