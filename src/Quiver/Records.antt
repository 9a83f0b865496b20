-- ===== src/Quiver/Records.antt =====
-- A trade record and a member record (adapters/quiver/parsing.py).
use portfolio_copilot.Prelude.{
  quiver_parse_error, List, Option, Result, String, ok, err, none, some, [], ◌∷◌, ◌>>=◌,
}
use portfolio_copilot.Prelude.Dict.{Dict}
use portfolio_copilot.Domain.Congress.{TradeDisclosure, Chamber, Party}
use portfolio_copilot.Json.{Json}
use portfolio_copilot.Quiver.Values.{
  parse_transaction_type, parse_symbol, parse_dollar_range, parse_party, parse_quiver_date,
  parse_chamber, DateReaders,
}
use portfolio_copilot.Quiver.Fields.{
  optional_field, required_field, optional_string, required_string,
}
use portfolio_copilot.Domain.Symbol.{Symbol}

pub record Member : Type 0 where
  pub member_id : String
  pub name : String
  pub chamber : Chamber
  pub party : Party
  pub state : Option String
  pub district : Option String
  pub bioguide_id : Option String

-- Code that the parsers call: `str` of a value that is not a text, the date readers, and the
-- digests of `hashlib.sha256` that make an identifier of a name and of a record.
pub record Libraries : Type 0 where
  pub show : Json → String
  pub dates : DateReaders
  pub synthetic_member_id : String → String
  pub synthetic_filing_id : Dict Json → String

abbrev names_of_person : List String
names_of_person = "Name" ∷ "Representative" ∷ "Senator" ∷ []

abbrev names_of_bioguide : List String
names_of_bioguide = "BioGuideID" ∷ "BioguideID" ∷ "bioguide_id" ∷ []

-- `a or b` of texts that are not empty
abbrev or_else {ℓ} : {A : Type ℓ} → Option A → A → A
or_else none b = b
or_else (some a) b = a

-- `a or b or (symbol.ticker if symbol is not None else "")`
first_description : Option String → Option String → Option Symbol → String
first_description (some a) b s = a
first_description none (some b) s = b
first_description none none (some s) = s.ticker
first_description none none none = ""

-- A step of a loop that skips the records with a QuiverParseError.
abbrev keep_or_skip {ℓ} : {A : Type ℓ} → Result A → Result (List A) → Result (List A)
keep_or_skip (ok a) rest = rest >>= λ more. ok (a ∷ more)
keep_or_skip (err quiver_parse_error) rest = rest
keep_or_skip (err e) rest = err e

module _ (lib : Libraries) where
  unfoldable pub parse_trade_disclosure : Dict Json → Result TradeDisclosure
  unfolding required_string optional_string required_field parse_quiver_date parse_dollar_range
      optional_field parse_symbol first_description parse_transaction_type
  parse_trade_disclosure record_ = do
    let string = λ (names : List String). optional_string lib.show names record_
    member_name ← required_string lib.show names_of_person record_
    traded ← required_field ("Traded" ∷ "TransactionDate" ∷ "Date" ∷ []) record_
    transaction_date ← parse_quiver_date lib.dates traded
    filed ← required_field ("Filed" ∷ "Disclosed" ∷ "ReportDate" ∷ []) record_
    disclosure_date ← parse_quiver_date lib.dates filed
    (low, high) ← parse_dollar_range lib.show (
        optional_field ("Range" ∷ "Trade_Size" ∷ "Trade_Size_USD" ∷ "TradeSize" ∷ "Amount" ∷ [])
          record_)
    let symbol = parse_symbol (string ("Ticker" ∷ "Symbol" ∷ []))
    ok (record {
      filing_id = lib.synthetic_filing_id record_;
      member_id = or_else (string names_of_bioguide) (lib.synthetic_member_id member_name);
      member_name = member_name;
      symbol = symbol;
      asset_description =
          first_description (string ("Description" ∷ "Company" ∷ "Asset" ∷ "AssetDescription" ∷ []))
            (string ("TickerType" ∷ [])) symbol;
      transaction_type = parse_transaction_type (string ("Transaction" ∷ "Type" ∷ []));
      transaction_date = transaction_date;
      disclosure_date = disclosure_date;
      amount_range_low = low;
      amount_range_high = high;
      raw_blob_key = none;
    })

  -- `parse_trade_disclosures`
  unfoldable pub parse_trade_disclosures : List (Dict Json) → Result (List TradeDisclosure)
  unfolding parse_trade_disclosure
  parse_trade_disclosures [] = ok []
  parse_trade_disclosures (r ∷ rs) =
      keep_or_skip (parse_trade_disclosure r) (parse_trade_disclosures rs)

  unfoldable pub parse_member : Dict Json → Result Member
  unfolding required_string optional_string required_field parse_chamber parse_party
  parse_member record_ = do
    let string = λ (names : List String). optional_string lib.show names record_
    name ← required_string lib.show names_of_person record_
    house ← required_field ("Chamber" ∷ "House" ∷ "Senate" ∷ []) record_
    chamber ← parse_chamber house
    ok (record {
      member_id =
          or_else (string names_of_bioguide)
            (or_else (string ("CandidateID" ∷ "candidate_id" ∷ [])) (lib.synthetic_member_id name));
      name = name;
      chamber = chamber;
      party = parse_party (string ("Party" ∷ []));
      state = string ("State" ∷ []);
      district = string ("District" ∷ []);
      bioguide_id = string names_of_bioguide;
    })

  unfoldable pub parse_members : List (Dict Json) → Result (List Member)
  unfolding parse_member
  parse_members [] = ok []
  parse_members (r ∷ rs) = keep_or_skip (parse_member r) (parse_members rs)
