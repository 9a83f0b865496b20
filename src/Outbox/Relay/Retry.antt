-- ===== src/Outbox/Relay/Retry.antt =====
-- outbox_relay.py: the rows whose promotion fails.
use portfolio_copilot.Outbox.Bus.{Outcome-cases, EventBus}
use portfolio_copilot.Prelude.{
  refl, inr, inl, [], arith, ◌∷◌, ◌+◌, List, update_where, true, ◌≡◌, ◌||◌, All, ◌==◌, String, not,
  ℕ,
}
use portfolio_copilot.Outbox.Relay.{settle, from_row, failed_row, relay_row, is_claimable}
use portfolio_copilot.Outbox.Store.{is_published, Db, OutboxRow}
use portfolio_copilot.Outbox.Envelope.{from_dict}

-- A row of the identifier is published, or can be claimed at the time `now`.
abbrev pub IsClaimableAgain : ℕ → ℕ → OutboxRow → Type 0
IsClaimableAgain id now r = (not (r.id == id) || (is_published r || is_claimable now r)) ≡ true

failed_rows :
    (id now : ℕ) (x : String) (rows : List OutboxRow)
    → All (IsClaimableAgain id now) (update_where (λ r. r.id == id) (failed_row x) rows)
unfolding is_claimable failed_row
failed_rows id now x [] = tt
failed_rows id now x (r ∷ rows) = (ground arith, failed_rows id now x rows)

-- A row that is not counted as published has its transaction rolled back: the log and every other
-- row are as before, the row has its error and one more retry, and at any later time it can be
-- claimed again unless it was published before.
pub relay_row_rolls_back :
    (bus : EventBus Db) (now later : ℕ) (row : OutboxRow) (n : ℕ) (db : Db)
    → (relay_row bus now row n db).0 ≡ n
    → let db' = (relay_row bus now row n db).1 in
      (x : String) × (db'.event_log ≡ db.event_log)
      × (db'.outbox ≡ update_where (λ r. r.id == row.id) (failed_row x) db.outbox)
      × All (IsClaimableAgain row.id later) db'.outbox
unfolding relay_row
relay_row_rolls_back bus now later row n db h =
    elim (Outcome-cases (from_row bus now db (from_dict row.envelope))) [
      | inl (db', p) ↦ absurd (one_more (rw (p, settle) at h))
      | inr (x, p) ↦ rw p (x, refl, refl, failed_rows row.id later x db.outbox)
    ]
  where
    one_more : n + 1 ≡ n → ⊥
    one_more e = omega arith
