-- ===== src/Messages/Format.antt =====
-- core/persistence/message-store.utils.ts, cleanText of persistence/message-row.ts, and what the
-- content of a message is reduced to for an index or for a language model.
use Prim.Native.Nat.{ℕ, zero, suc, min, max}
use Prim.Native.Char.{Char, code}
use Prim.Native.String
use messaging_gateway.Prelude.{
  String, Option, none, some, List, [], ◌∷◌, Bool, true, false, if◌then◌else◌, ◌==◌, truthy, leb,
}
use messaging_gateway.Messages.{
  UnifiedEnvelope, MessageContent, text, image, audio, video, document, sticker, location, contact,
  reaction, poll, interactive_response, system, unknown, ContactCard,
}

-- A page size as JavaScript gives it, its fraction dropped: not finite, or a whole number.
pub data PageLimit : Type 0 where
  not_finite : PageLimit
  whole : ℕ → PageLimit
  below_zero : ℕ → PageLimit

abbrev pub max_page_limit : ℕ
max_page_limit = 500

abbrev pub max_export_limit : ℕ
max_export_limit = 1000

unfoldable pub clamp_page_limit : PageLimit → ℕ → ℕ
clamp_page_limit not_finite cap = cap
clamp_page_limit (whole n) cap = min (max n 1) cap
clamp_page_limit (below_zero n) cap = min 1 cap

non_empty : Option String → Option String
non_empty none = none
non_empty (some id) = if truthy id then some id else none

unfoldable pub wa_message_id_of : UnifiedEnvelope → Option String
unfolding non_empty
wa_message_id_of envelope = elim envelope.channel_details [
  | none ↦ none
  | some details ↦ non_empty details.message_id
]

-- A native text holds no lone surrogate, so `toWellFormed` changes nothing.
unfoldable pub clean_text : String → String
clean_text String.[] = ""
clean_text (String.◌∷◌ c s) = if code c == 0 then clean_text s else String.◌∷◌ c (clean_text s)

abbrev clean? : Option String → Option String
clean? none = none
clean? (some s) = some (clean_text s)

infixr 65 ◌<>◌
abbrev ◌<>◌ : String → String → String
s <> t = String.◌++◌ s t

-- `${o ? `<before>${o}` : ''}`
after? : String → Option String → String
after? before none = ""
after? before (some s) = if truthy s then before <> s else ""

abbrev or_else : Option String → String → String
or_else none d = d
or_else (some s) d = s

join_names : List ContactCard → String
join_names [] = ""
join_names (c ∷ []) = c.name
join_names (c ∷ d ∷ cs) = c.name <> ", " <> join_names (d ∷ cs)

format_media : String → Option String → Bool → String
unfolding after?
format_media name caption true = "[" <> name <> after? ": " caption <> "]"
format_media name caption false = or_else caption ("[" <> name <> "]")

unfoldable pub format_content_for_ai : MessageContent → Bool → String
unfolding format_media join_names after?
format_content_for_ai (text body) media = body
format_content_for_ai (image _ caption) media = format_media "Image" caption media
format_content_for_ai (video _ caption _) media = format_media "Video" caption media
format_content_for_ai (audio _ voice _) media = if voice then "[Voice note]" else "[Audio]"
format_content_for_ai (document _ name caption) media =
    "[Document: " <> name <> after? " — " caption <> "]"
format_content_for_ai (sticker _ _) media = "[Sticker]"
format_content_for_ai (location lat lon name _ _) media =
    "[Location: " <> lat <> ", " <> lon <> after? " — " name <> "]"
format_content_for_ai (contact contacts) media = "[Contact: " <> join_names contacts <> "]"
format_content_for_ai (reaction emoji _) media = "[Reacted with " <> emoji <> "]"
format_content_for_ai (poll question _) media = "[Poll: " <> question <> "]"
format_content_for_ai (interactive_response _ _ selected _) media = "[Selected: " <> selected <> "]"
format_content_for_ai (system event body) media = "[System: " <> or_else body event <> "]"
format_content_for_ai (unknown _) media = "[Unknown message type]"

abbrev pub preview_limit : ℕ
preview_limit = 200

-- A character that takes two units of UTF-16.
abbrev pub is_pair : Char → Bool
is_pair c = leb 65536 (code c)

-- `substring(0, limit)`, which counts units of UTF-16. One that cuts a pair in two leaves half of it,
-- and the row stores U+FFFD for that.
unfoldable pub take_units : ℕ → String → String
take_units zero s = ""
take_units (suc n) String.[] = ""
take_units (suc zero) (String.◌∷◌ c s) = if is_pair c then "�" else String.◌∷◌ c String.[]
take_units (suc (suc n)) (String.◌∷◌ c s) =
    let narrow = take_units (suc n) s in
    let wide = take_units n s in if is_pair c then String.◌∷◌ c wide else String.◌∷◌ c narrow

abbrev preview_or : Option String → String → Option String
preview_or none d = some d
preview_or (some caption) d = some (take_units preview_limit caption)

unfoldable pub extract_preview : MessageContent → Option String
unfolding take_units join_names
extract_preview (text body) = some (take_units preview_limit body)
extract_preview (image _ caption) = preview_or caption "[Image]"
extract_preview (video _ caption _) = preview_or caption "[Video]"
extract_preview (audio _ voice _) = some (if voice then "[Voice Note]" else "[Audio]")
extract_preview (document _ name _) = some name
extract_preview (location lat lon _ _ _) = some ("[Location: " <> lat <> "," <> lon <> "]")
extract_preview (contact contacts) = some (join_names contacts)
extract_preview (reaction emoji _) = some emoji
extract_preview (poll question _) = some question
extract_preview (sticker _ _) = some "[Sticker]"
extract_preview _ = none
