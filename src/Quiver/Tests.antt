-- ===== src/Quiver/Tests.antt =====
-- A response with a good record and a malformed one.
use portfolio_copilot.Prelude.{
  ◌*◌, quiver_error, drop-nil, value_error, arith, [], quiver_rate_limit_error, ◌==◌,
  quiver_auth_error, quiver_parse_error, drop, ◌∷◌, str_eq, ◌≤◌, ◌+◌, ◌≡◌, String, List, ℕ,
  if◌then◌else◌, refl, ok, err, none, some, false, zero, suc,
}
use portfolio_copilot.Prelude.Dict.{Dict}
use portfolio_copilot.Domain.Congress.{TradeDisclosure, TransactionType, Party, Chamber}
use portfolio_copilot.Json.{Json, str, array, object, field, no_fields, item, no_items, integer}
use portfolio_copilot.Quiver.Values.{
  parse_symbol, parse_chamber, parse_party, parse_transaction_type, dollar_range,
  parse_dollar_range, DateReaders,
}
use portfolio_copilot.Quiver.Client.{
  page_size, Answer, response, parse_records, get_disclosures_by_member, get_json,
}
use portfolio_copilot.Quiver.Pages.{get_disclosures_by_member-all, Serves}
use portfolio_copilot.Quiver.Records.{Libraries}
use portfolio_copilot.Domain.Symbol.{equity}
use portfolio_copilot.Quiver.Fields.{records_from_iterable}
use portfolio_copilot.Prelude.Int.{pos}

-- Readers that know one date and refuse every other.
abbrev dates : DateReaders
dates = record {
  strptime_ymd = λ s. none;
  from_iso_format = λ s. if str_eq s "2026-06-08T00:00:00+00:00" then some 20612 else none;
  date_parse = λ s. none;
}

abbrev lib : Libraries
lib = record {
  show = λ v. "15001.0";
  dates = dates;
  synthetic_member_id = λ name. "quiver-member:0";
  synthetic_filing_id = λ r. "quiver-filing:0";
}

abbrev trade : String → Json
trade day = object (
    field "Representative" (str " Nancy Pelosi ") (
      field "ReportDate" (str day) (
        field "TransactionDate" (str "2026-06-08T00:00:00Z") (
          field "Ticker" (str "BRK/B") (
            field "Transaction" (str "Sale (Partial)")
              (field "Range" (str "$50,001 - $100,000") no_fields))))))

abbrev good : TradeDisclosure
good = record {
  filing_id = "quiver-filing:0";
  member_id = "quiver-member:0";
  member_name = "Nancy Pelosi";
  symbol = some (record { ticker = "BRK.B"; asset_class = equity });
  asset_description = "BRK.B";
  transaction_type = TransactionType.sale_partial;
  transaction_date = 20612;
  disclosure_date = 20612;
  amount_range_low = some (pos 50001);
  amount_range_high = some (pos 100000);
  raw_blob_key = none;
}

abbrev two : List (Dict Json)
two = records_from_iterable (trade "2026-06-08T00:00:00Z" ∷ trade "?" ∷ [])

parsed : parse_records lib none two ≡ ok (good ∷ [])
unfolding parse_records records_from_iterable
    portfolio_copilot.Quiver.Records.parse_trade_disclosure portfolio_copilot.Prelude.Dict.get
    portfolio_copilot.Prelude.Text.strip portfolio_copilot.Prelude.Text.replace_char
    portfolio_copilot.Prelude.Text.upper portfolio_copilot.Domain.Symbol.make_symbol
    portfolio_copilot.Prelude.Text.lower portfolio_copilot.Prelude.Text.last_chars
parsed = refl

ranges :
    (dollar_range "Over $50,000,000" ≡ ok (some (pos 50000000), none))
    × (dollar_range " n/a " ≡ ok (none, none))
    × (dollar_range "lots" ≡ err quiver_parse_error)
    × (dollar_range "$1,001 - $15,000" ≡ ok (some (pos 1001), some (pos 15000)))
unfolding dollar_range portfolio_copilot.Prelude.Text.upper portfolio_copilot.Prelude.Text.strip
    portfolio_copilot.Prelude.Text.lower portfolio_copilot.Prelude.Text.last_chars
ranges = (refl, refl, refl, refl)

labels :
    (parse_transaction_type (some " Purchase") ≡ TransactionType.purchase)
    × (parse_transaction_type (some "SOLD") ≡ TransactionType.sale)
    × (parse_party (some "GOP") ≡ Party.republican)
    × (parse_chamber (str "Senate ") ≡ ok Chamber.senate)
    × (parse_chamber (integer (pos 1)) ≡ err quiver_parse_error)
    × (parse_symbol (some " n/a") ≡ none)
unfolding parse_transaction_type portfolio_copilot.Prelude.Text.lower
    portfolio_copilot.Prelude.Text.strip parse_party parse_chamber parse_symbol
    portfolio_copilot.Prelude.Text.upper
labels = (refl, refl, refl, refl, refl, refl)

-- An amount that comes as a number has the digits behind its point read as an upper bound.
number_amount :
    parse_dollar_range lib.show (some (integer (pos 15001))) ≡ ok (some (pos 15001), some (pos 0))
unfolding parse_dollar_range portfolio_copilot.Prelude.Text.upper
    portfolio_copilot.Prelude.Text.strip portfolio_copilot.Prelude.Text.lower
    portfolio_copilot.Prelude.Text.last_chars
number_amount = refl

-- Eight digits that are no date raise a ValueError, which the loop over the records does not catch.
eight_digits :
    parse_records lib none
      (records_from_iterable (trade "2026-06-08T00:00:00Z" ∷ trade "20269999" ∷ []))
    ≡ err value_error
unfolding parse_records records_from_iterable
    portfolio_copilot.Quiver.Records.parse_trade_disclosure portfolio_copilot.Prelude.Dict.get
    portfolio_copilot.Prelude.Text.strip portfolio_copilot.Prelude.Text.replace_char
    portfolio_copilot.Prelude.Text.upper
eight_digits = refl

statuses :
    (get_json (response 403 none none) ≡ err quiver_auth_error)
    × (get_json (response 429 (some "30") none) ≡ err (quiver_rate_limit_error (some "30")))
    × (get_json (response 500 none none) ≡ err quiver_error)
unfolding get_json
statuses = (refl, refl, refl)

abbrev payload : Json
payload = array (item (trade "2026-06-08T00:00:00Z") (item (trade "?") no_items))

-- An endpoint with one page.
abbrev get : ℕ → Answer
get page = response 200 none (some (if page == 1 then payload else array no_items))

no_more : (n : ℕ) → 2 ≤ n → drop n two ≡ []
unfolding records_from_iterable
no_more zero h = absurd (omega (arith, h))
no_more (suc zero) h = absurd (omega (arith, h))
no_more (suc (suc n)) h = drop-nil n

two_served : Serves get two
unfolding portfolio_copilot.Quiver.Client.page_records
    portfolio_copilot.Quiver.Fields.extract_records
two_served zero = refl
two_served (suc k) =
    let other : (suc k + 1 == 1) ≡ false = ground arith in
    rw (other, no_more (suc k * page_size) (omega arith)) refl

get_disclosures_by_member-all_example :
    get_disclosures_by_member lib 1 get none ≡ some (ok (good ∷ []))
unfolding records_from_iterable
get_disclosures_by_member-all_example =
    get_disclosures_by_member-all lib get none two 1 two_served parsed (omega arith)
