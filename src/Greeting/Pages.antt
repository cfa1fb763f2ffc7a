-- ===== src/Greeting/Pages.antt =====
-- The pages of the history, put together.
use oss_us_web_design_system.Base.{
  ℕ, zero, suc, ◌+◌, ◌-◌, ◌*◌, ◌≤◌, ◌≡◌, ◌∙◌, refl, ap, sym, Option, none, some, List, [], ◌∷◌,
  ◌++◌, length, arith, Text, take, drop, sort_by, length-sort_by, text_eq,
}
use oss_us_web_design_system.Tenancy.{visible, select_where}
use oss_us_web_design_system.Greeting.{
  GreetingEvent, GreetingDb, page_size, newer, page_of, page, page_by_locale, history,
}

abbrev empty : (A : Type 0) → List A
empty A = []

take_nil : {A : Type 0} (k : ℕ) → take k (empty A) ≡ []
take_nil zero = refl
take_nil (suc k) = refl

take-add : {A : Type 0} (m n : ℕ) (xs : List A) → take m xs ++ take n (drop m xs) ≡ take (m + n) xs
take-add zero n xs = ap (λ k. take k xs) (omega arith)
take-add (suc m) n [] = take_nil n ∙ sym (take_nil (suc m + n))
take-add (suc m) n (x ∷ xs) =
    let e : suc (m + n) ≡ suc m + n = omega arith in
    ap (λ ys. x ∷ ys) (take-add m n xs) ∙ ap (λ k. take k (x ∷ xs)) e

take-all : {A : Type 0} (n : ℕ) (xs : List A) → length xs ≤ n → take n xs ≡ xs
take-all zero [] h = refl
take-all zero (x ∷ xs) h = absurd (omega (arith, h))
take-all (suc n) [] h = refl
take-all (suc n) (x ∷ xs) h = ap (λ ys. x ∷ ys) (take-all n xs (omega (arith, h)))

-- The rows of the pages from the first on, one page after the other.
unfoldable pub pages : ℕ → Option Text → GreetingDb → List GreetingEvent
pages zero locale db = []
pages (suc n) locale db = pages n locale db ++ (history (suc n) locale db).0

-- The rows that a history is made of.
unfoldable pub history_rows : Option Text → GreetingDb → List GreetingEvent
unfolding visible select_where
history_rows none db = visible (λ e. e.org_id) (some db.org) db.events
history_rows (some locale) db =
    select_where (λ e. e.org_id) (some db.org) (λ e. text_eq e.locale_used locale) db.events

history-page_of :
    (n : ℕ) (locale : Option Text) (db : GreetingDb)
    → history n locale db ≡ page_of n (history_rows locale db)
unfolding history page page_by_locale history_rows
history-page_of n none db = refl
history-page_of n (some locale) db = refl

pages-take :
    (n : ℕ) (locale : Option Text) (db : GreetingDb)
    → pages n locale db ≡ take (n * page_size) (sort_by newer (history_rows locale db))
unfolding pages page_of
pages-take zero locale db = refl
pages-take (suc n) locale db =
    let e : n * page_size + page_size ≡ suc n * page_size = omega arith in
    let f : suc n - 1 ≡ n = omega arith in
    rw (pages-take n locale db, history-page_of (suc n) locale db, f)
      (take-add (n * page_size) page_size (sort_by newer (history_rows locale db))
        ∙ ap (λ k. take k (sort_by newer (history_rows locale db))) e)

-- The pages of the history, from the first to any that is not before the last, are together all the
-- organization's events (of a locale, if one is given), each in one page, the newest first.
pub pages-history :
    (n : ℕ) (locale : Option Text) (db : GreetingDb)
    → (history 1 locale db).1 ≤ n * page_size
    → pages n locale db ≡ sort_by newer (history_rows locale db)
unfolding history_rows page_of
pages-history n locale db h =
    let t : length (history_rows locale db) ≤ n * page_size =
      rw (history-page_of 1 locale db) at h in
    pages-take n locale db
    ∙ take-all (n * page_size) (sort_by newer (history_rows locale db))
        (rw (length-sort_by newer (history_rows locale db)) t)
