-- ===== src/Filters/Tests.antt =====
-- A filter on concrete events: a value is a text, or an object with a direction and a type.

use messaging_gateway.Prelude.{
  String, some, true, false, [], ◌∷◌, if◌then◌else◌, ◌≡◌, ◌↔◌, All, str_eq,
}
use messaging_gateway.Filters.{
  View, nullish, primitive, object, text, one, EnvelopeFilter, matches_filter,
}
use messaging_gateway.Filters.Laws.{FieldMatches, DirectionFits, matches_filter_iff}

pub data Value : Type 0 where
  gone : Value
  word : String → Value
  event : String → Value

abbrev look : Value → View Value
look gone = nullish
look (word s) = primitive (text s)
look (event kind) = object

abbrev get : Value → String → Value
get (event kind) name =
    if str_eq name "direction"
    then word "inbound"
    else if str_eq name "type"
    then word kind
    else gone
get _ name = gone

abbrev no_stickers : EnvelopeFilter
no_stickers = record {
  include = [];
  exclude = ("type", one (text "sticker")) ∷ [];
  from_me = some false;
}

matches_filter_iff_example :
    (matches_filter look get gone (event "image") (some no_stickers) ≡ true) ↔ (
      DirectionFits look get gone (event "image") (some false)
      × (All (FieldMatches look get gone (event "image")) no_stickers.include
          × All (λ f. ¬ FieldMatches look get gone (event "image") f) no_stickers.exclude))
matches_filter_iff_example = matches_filter_iff look get gone (event "image") no_stickers
