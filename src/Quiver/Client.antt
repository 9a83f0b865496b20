-- ===== src/Quiver/Client.antt =====
-- adapters/quiver/client.py. An HTTP exchange is what `httpx` answers to a request; a paginated
-- endpoint is a function from the page to that answer. The loops over pages run on fuel, and `none`
-- is a loop that has not ended.
use portfolio_copilot.Prelude.{
  ◌++◌, length, zero, select, suc, ◌-◌, quiver_rate_limit_error, ◌+◌, take, quiver_auth_error, ◌||◌,
  value_error, ◌&&◌, ◌==◌, leb, quiver_parse_error, ltb, if◌then◌else◌, Bool, List, quiver_error,
  String, Result, Option, ℕ, ok, err, none, some, true, false, [], ◌∷◌, ◌>>=◌, ◌>>◌,
}
use portfolio_copilot.Prelude.Dict.{Dict}
use portfolio_copilot.Domain.Congress.{TradeDisclosure}
use portfolio_copilot.Json.{Json}
use portfolio_copilot.Ingest.Batches.{Feed, exhausted, failed, batch}
use portfolio_copilot.Quiver.Records.{parse_members, Member, parse_trade_disclosure, Libraries}
use portfolio_copilot.Prelude.Int.{pos_part, ℤ}
use portfolio_copilot.Quiver.Fields.{extract_records}

pub data Answer : Type 0 where
  request_error : Answer
  response : (status_code : ℕ) (retry_after : Option String) (json : Option Json) → Answer

unfoldable pub raise_for_status : ℕ → Option String → Result (Unit {0})
raise_for_status status retry_after =
    if status == 401 || status == 403
    then err quiver_auth_error
    else if status == 429
    then err (quiver_rate_limit_error retry_after)
    else if leb 500 status
    then err quiver_error
    else if leb 400 status
    then err quiver_error
    else ok tt

-- `response.json()`, whose ValueError becomes a QuiverError.
abbrev json_or_raise : Option Json → Result Json
json_or_raise (some v) = ok v
json_or_raise none = err quiver_error

unfoldable pub get_json : Answer → Result Json
unfolding raise_for_status
get_json request_error = err quiver_error
get_json (response status retry_after json) = do
  raise_for_status status retry_after
  json_or_raise json

-- `since is None or disclosure.disclosure_date >= since`
unfoldable pub is_since : Option ℕ → TradeDisclosure → Bool
is_since none d = true
is_since (some day) d = leb day d.disclosure_date

abbrev pub page_size : ℕ
page_size = 500

-- A turn of the loop of `_parse_records`.
abbrev pub add_record :
    Option ℕ
    → Result TradeDisclosure
    → Result (List TradeDisclosure)
    → Result (List TradeDisclosure)
add_record since (ok d) rest = rest >>= λ more. ok (if is_since since d then d ∷ more else more)
add_record since (err quiver_parse_error) rest = rest
add_record since (err e) rest = err e

-- The records of a page.
unfoldable pub page_records : Answer → Result (List (Dict Json))
unfolding get_json
page_records answer = do payload ← get_json answer; extract_records payload

module _ (lib : Libraries) where
  -- `_parse_records`
  unfoldable pub parse_records : Option ℕ → List (Dict Json) → Result (List TradeDisclosure)
  unfolding is_since
  parse_records since [] = ok []
  parse_records since (r ∷ rs) =
      add_record since (parse_trade_disclosure lib r) (parse_records since rs)

  -- `_parse_disclosures`
  unfoldable pub parse_disclosures : Option ℕ → Json → Result (List TradeDisclosure)
  unfolding parse_records
  parse_disclosures since payload = do
    records ← extract_records payload
    parse_records since records

  -- The answer of `/beta/live/congresstrading` is asked for only under a positive limit.
  unfoldable pub get_recent_disclosures : Answer → Option ℕ → ℤ → Result (List TradeDisclosure)
  unfolding get_json parse_disclosures
  get_recent_disclosures answer since limit = if leb (pos_part limit) 0 then ok [] else (do
    payload ← get_json answer
    found ← parse_disclosures since payload
    ok (take (pos_part limit) found))

  -- `/beta/historical/congresstrading/{ticker}`
  unfoldable pub get_disclosures_by_symbol : Answer → Option ℕ → Result (List TradeDisclosure)
  unfolding get_json parse_disclosures
  get_disclosures_by_symbol answer since = do
    payload ← get_json answer
    parse_disclosures since payload

  unfoldable pub get_members : Answer → Result (List Member)
  unfolding get_json
  get_members answer = do
    payload ← get_json answer
    records ← extract_records payload
    parse_members lib records

  -- The loop of `get_disclosures_by_member`, from a page on.
  unfoldable pub member_pages :
      (ℕ → Answer)
      → Option ℕ
      → ℕ
      → ℕ
      → List TradeDisclosure
      → Option (Result (List TradeDisclosure))
  unfolding page_records parse_records
  member_pages get since zero page acc = none
  member_pages get since (suc fuel) page acc = elim (page_records (get page)) [
    | err e ↦ some (err e)
    | ok [] ↦ some (ok acc)
    | ok (r ∷ rs) ↦ elim (parse_records since (r ∷ rs)) [
      | err e ↦ some (err e)
      | ok ds ↦ elim (ltb (length (r ∷ rs)) page_size) [
        | true ↦ some (ok (acc ++ ds))
        | false ↦ member_pages get since fuel (page + 1) (acc ++ ds)
      ]
    ]
  ]

  unfoldable pub get_disclosures_by_member :
      ℕ → (ℕ → Answer) → Option ℕ → Option (Result (List TradeDisclosure))
  unfolding member_pages
  get_disclosures_by_member fuel get since = member_pages get since fuel 1 []

  -- `start <= disclosure.disclosure_date <= end`
  abbrev pub is_within : ℕ → ℕ → TradeDisclosure → Bool
  is_within start end d = leb start d.disclosure_date && leb d.disclosure_date end

  -- `if disclosures: yield disclosures`
  abbrev pub yield_some : List TradeDisclosure → Option Feed → Option Feed
  yield_some [] rest = rest
  yield_some (d ∷ ds) none = none
  yield_some (d ∷ ds) (some feed) = some (batch (d ∷ ds) feed)

  -- The pages of a day, from a page on; `next` is what the later days yield.
  unfoldable pub day_pages : (ℕ → Answer) → ℕ → ℕ → Option Feed → ℕ → ℕ → Option Feed
  unfolding page_records parse_records
  day_pages get start end next zero page = none
  day_pages get start end next (suc fuel) page = elim (page_records (get page)) [
    | err e ↦ some (failed e)
    | ok [] ↦ next
    | ok (r ∷ rs) ↦ elim (parse_records none (r ∷ rs)) [
      | err e ↦ some (failed e)
      | ok ds ↦
          yield_some (select (is_within start end) ds) (elim (ltb (length (r ∷ rs)) page_size) [
            | true ↦ next
            | false ↦ day_pages get start end next fuel (page + 1)
          ])
    ]
  ]

  -- `while current <= end`, for the number of days that are left.
  unfoldable pub days : ℕ → (ℕ → ℕ → Answer) → ℕ → ℕ → ℕ → ℕ → Option Feed
  unfolding day_pages
  days fuel get start end zero current = some exhausted
  days fuel get start end (suc left) current =
      day_pages (get current) start end (days fuel get start end left (current + 1)) fuel 1

  unfoldable pub backfill : ℕ → (ℕ → ℕ → Answer) → ℕ → ℕ → Option Feed
  unfolding days
  backfill fuel get start end =
      if ltb end start
      then some (failed value_error)
      else days fuel get start end (end + 1 - start) start
