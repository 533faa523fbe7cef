-- ===== src/Providers/Continuation/States.antt =====
-- The shape of a decoded state.
use news_collect.Base.{ℕ, ◌≤◌, ◌≡◌, Option, some, List, true, false, ◌||◌, ◌++◌, any, length}
use news_collect.Base.Int.{pos}
use news_collect.Base.Json.{
  Json, integer, string, array, Fields, no_fields, no_items, next_item, get,
}
use news_collect.Base.Order.{Text, codes, text_eq, sorted_set}
use news_collect.Providers.Continuation.{
  Codec, files_of, file_of, has_text, all_texts, listed, starts_with,
}
use news_collect.Providers.Continuation.Decode.{is_offset, is_file}

-- A text that is not empty and has at most 255 characters.
abbrev IsPart : Json → Type 0
IsPart value = (text : Text) × (value ≡ string text) × (1 ≤ length text) × (length text ≤ 255)

-- An array of two such texts.
abbrev KeyTexts : Option Json → Type 0
KeyTexts value =
    (a : Json) × (b : Json) × (value ≡ some (array (next_item a (next_item b no_items))))
    × IsPart a
    × IsPart b

module _ (codec : Codec) where
  -- A state that has something is the page, the offset, the last key or the files of its operation.
  pub data IsState (operation : Text) (config : Fields) (state : Fields) : Type 0 where
    first_request : state ≡ no_fields → IsState operation config state
    page :
        (n : ℕ)
        → text_eq operation (codes "news_all") ≡ true
        → get (codes "page") state ≡ some (integer (pos n))
        → 2 ≤ n
        → n ≤ 1000
        → IsState operation config state
    offset :
        (n : ℕ)
        → (text_eq operation (codes "electricity_retail_sales")
            || text_eq operation (codes "electricity_rto_region_data"))
          ≡ true
        → get (codes "offset") state ≡ some (integer (pos n))
        → 1 ≤ n
        → n ≤ 10000000
        → IsState operation config state
    key :
        text_eq operation (codes "company_news") ≡ true
        → KeyTexts (get (codes "last_key") state)
        → IsState operation config state
    sec :
        (cik : Text) (current : Option Text) (files : List Text)
        → text_eq operation (codes "news_all") ≡ false
        → is_offset operation ≡ false
        → text_eq operation (codes "company_news") ≡ false
        → get (codes "cik") config ≡ some (string cik)
        → file_of (get (codes "file") state) ≡ some current
        → files_of (get (codes "files") state) ≡ some files
        → length files ≤ 5
        → length (sorted_set files) ≡ length files
        → any (λ text. has_text text files) (listed current) ≡ false
        → all_texts (is_file codec) (listed current ++ files) ≡ true
        → all_texts
            (starts_with (codes "CIK" ++ cik ++ codes "-submissions-"))
            (listed current ++ files)
          ≡ true
        → IsState operation config state

  -- What the test of the files has found.
  record HasFiles (cik : Option Json) (file : Option (Option Text)) (files : Option (List Text))
      : Type 0 where
    number : Text
    current : Option Text
    behind : List Text
    is_cik : cik ≡ some (string number)
    is_current : file ≡ some current
    are_behind : files ≡ some behind
    few : length behind ≤ 5
    different : length (sorted_set behind) ≡ length behind
    other : any (λ text. has_text text behind) (listed current) ≡ false
    shaped : all_texts (is_file codec) (listed current ++ behind) ≡ true
    named :
        all_texts
          (starts_with (codes "CIK" ++ number ++ codes "-submissions-"))
          (listed current ++ behind)
        ≡ true
