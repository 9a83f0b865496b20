-- ===== src/Quiver/Pages.antt =====
-- The loop over the pages of a member in the Quiver client.
use mathlib.Core.List.{append-nil, append_assoc}
use portfolio_copilot.Prelude.{
  ltb-ge, ltb-lt, length-append, take-all, ok_injective, take-append-drop, ltb, quiver_parse_error,
  sym, if◌then◌else◌, ◌≤◌, inr, inl, ap, ◌∙◌, Bool-cases, drop-drop, zero, suc, arith, ◌<◌, length,
  Result, take, ◌*◌, ◌+◌, ◌≡◌, drop, ◌++◌, Option, List, ℕ, refl, ok, err, some, [], ◌∷◌, >>=-eq-ok,
}
use portfolio_copilot.Prelude.Dict.{Dict}
use portfolio_copilot.Domain.Congress.{TradeDisclosure}
use portfolio_copilot.Json.{Json}
use portfolio_copilot.Quiver.Records.{parse_trade_disclosure, Libraries}
use portfolio_copilot.Quiver.Client.{
  get_disclosures_by_member, is_since, add_record, page_size, page_records, member_pages,
  parse_records, Answer,
}

-- The endpoint serves the list `all`, `page_size` records a page, counted from 1.
abbrev pub Serves : (ℕ → Answer) → List (Dict Json) → Type 0
Serves get all =
    (k : ℕ) → page_records (get (k + 1)) ≡ ok (take page_size (drop (k * page_size) all))

-- A record in front of two parts.
add_record-append :
    (since : Option ℕ) (r : Result TradeDisclosure) (front whole : Result (List TradeDisclosure))
    {back : Result (List TradeDisclosure)} {ds : List TradeDisclosure}
    → ((ms : List TradeDisclosure)
        → whole ≡ ok ms
        → (a : List TradeDisclosure) × (b : List TradeDisclosure) × (front ≡ ok a)
          × (back ≡ ok b)
          × (ms ≡ a ++ b))
    → add_record since r whole ≡ ok ds
    → (a : List TradeDisclosure) × (b : List TradeDisclosure) × (add_record since r front ≡ ok a)
      × (back ≡ ok b)
      × (ds ≡ a ++ b)
add_record-append since (err quiver_parse_error) front whole parts h = parts _ h
add_record-append since (err e) front whole parts h = cc
add_record-append since (ok d) front whole {back} {ds} parts h =
    let (more, p, q) = >>=-eq-ok whole _ h in
    let (a, b, pa, pb, e) = parts more p in
    elim (Bool-cases (is_since since d)) [
      | inl t ↦ (d ∷ a, b, rw (pa, t) refl, pb, ground (arith, q, t, e))
      | inr f ↦ (a, b, rw (pa, f) refl, pb, ground (arith, q, f, e))
    ]

next_page : (k : ℕ) → k * page_size + page_size ≡ (k + 1) * page_size
next_page k = omega arith

fewer :
    (page later rest fuel : ℕ)
    → page + later ≡ rest
    → page_size ≤ page
    → rest < suc fuel * page_size
    → later < fuel * page_size
fewer page later rest fuel sum full small = omega (arith, sum, full, small)

module _ (lib : Libraries) where
  -- Records that parse, in two parts.
  parse_records-append :
      (since : Option ℕ) (xs ys : List (Dict Json)) {ds : List TradeDisclosure}
      → parse_records lib since (xs ++ ys) ≡ ok ds
      → (a : List TradeDisclosure) × (b : List TradeDisclosure) × (parse_records lib since xs
          ≡ ok a)
        × (parse_records lib since ys ≡ ok b)
        × (ds ≡ a ++ b)
  unfolding parse_records
  parse_records-append since [] ys {ds} h = ([], ds, refl, h, refl)
  parse_records-append since (x ∷ xs) ys {ds} h =
      add_record-append since (parse_trade_disclosure lib x) (parse_records lib since xs)
        (parse_records lib since (xs ++ ys)) (λ ms k. parse_records-append since xs ys k) h

  -- A page ends the loop if it is short, and is followed by the next one if it is not.
  page_step :
      (get : ℕ → Answer) (since : Option ℕ) (fuel page : ℕ) (acc : List TradeDisclosure)
      (rs : List (Dict Json)) {a : List TradeDisclosure}
      → page_records (get page) ≡ ok rs
      → parse_records lib since rs ≡ ok a
      → member_pages lib get since (suc fuel) page acc ≡ (
          if ltb (length rs) page_size
          then some (ok (acc ++ a))
          else member_pages lib get since fuel (page + 1) (acc ++ a))
  unfolding member_pages
  page_step get since fuel page acc [] e p =
      rw (member_pages, e, sym (ok_injective p), append-nil acc) refl
  page_step get since fuel page acc (r ∷ rs) e p =
      elim (Bool-cases (ltb (length (r ∷ rs)) page_size)) [
        | inl short ↦ rw (member_pages, e, p, short) refl
        | inr full ↦ rw (member_pages, e, p, full) refl
      ]

  -- From a page on, with the records that are left.
  member_pages-from :
      (get : ℕ → Answer) (since : Option ℕ) (all : List (Dict Json))
      → Serves get all
      → (fuel k : ℕ) (acc : List TradeDisclosure) {ds : List TradeDisclosure}
      → parse_records lib since (drop (k * page_size) all) ≡ ok ds
      → length (drop (k * page_size) all) < fuel * page_size
      → member_pages lib get since fuel (k + 1) acc ≡ some (ok (acc ++ ds))
  member_pages-from get since all serves zero k acc h small = absurd (omega (arith, small))
  member_pages-from get since all serves (suc fuel) k acc {ds} h small =
      let rest = drop (k * page_size) all in
      let page = take page_size rest in
      let later = drop ((k + 1) * page_size) all in
      let next : drop page_size rest ≡ later =
        drop-drop (k * page_size) page_size all ∙ ap (λ j. drop j all) (next_page k) in
      let cut : page ++ later ≡ rest = rw (sym next) (take-append-drop page_size rest) in
      let parsed : parse_records lib since (page ++ later) ≡ ok ds = rw cut h in
      let (a, b, pa, pb, e) = parse_records-append since page later parsed in
      elim (Bool-cases (ltb (length page) page_size)) [
        | inl short ↦
            let whole : page ≡ rest = take-all page_size rest (ltb-lt _ _ short) in
            let same : a ≡ ds = ok_injective (sym pa ∙ ap (parse_records lib since) whole ∙ h) in
            rw (page_step get since fuel (k + 1) acc page (serves k) pa, short, same) refl
        | inr full ↦
            let left : length later < fuel * page_size =
              fewer (length page) (length later) (length rest) fuel
                (sym (length-append page later) ∙ ap length cut) (ltb-ge _ _ full) small in
            rw
              (
                page_step get since fuel (k + 1) acc page (serves k) pa,
                full,
                e,
                sym (append_assoc acc a b),
              )
              (member_pages-from get since all serves fuel (k + 1) (acc ++ a) pb left)
      ]

  -- An endpoint that serves a list of records page by page: the loop ends once a page is not full,
  -- which happens within one turn more than there are full pages, and it returns what all the
  -- records parse to, in their order, malformed ones left out.
  pub get_disclosures_by_member-all :
      (get : ℕ → Answer) (since : Option ℕ) (all : List (Dict Json)) (fuel : ℕ)
      {ds : List TradeDisclosure}
      → Serves get all
      → parse_records lib since all ≡ ok ds
      → length all < fuel * page_size
      → get_disclosures_by_member lib fuel get since ≡ some (ok ds)
  unfolding get_disclosures_by_member
  get_disclosures_by_member-all get since all fuel serves h small =
      member_pages-from get since all serves fuel 0 [] h small
