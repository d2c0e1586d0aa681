-- ===== src/Messages/Context.antt =====
-- dragon_voice/messages.py: `MessageStore` and the context for a language model. `json.loads` and
-- `json.dumps`, the truth of a value and its text in an f-string are the parameters `loads`, `dumps`,
-- `truthy` and `format`. A media store is what it yields for the id of an image: the bytes of the file
-- in base64, and nothing where it raises, or the file is gone or cannot be read.
use tinker_box.Base.{
  ℕ, ◌+◌, ◌-◌, ◌/◌, ltb, max, Bool, true, false, Option, none, some, List, [], ◌∷◌, ◌++◌, length,
  drop, if◌then◌else◌, Text, codes, starts_with,
}
use tinker_box.Sessions.{Session, get_session}
use tinker_box.Tools.Value.{Value, null, str, obj, field, end, field_of}
use tinker_box.Messages.Table.{
  Role, system, Message, Db, Details, add_message, get_messages, count_messages,
}

-- The content of a message in the OpenAI format: a text, or the list of an image and a text.
pub data Content : Type 0 where
  plain : Text → Content
  multimodal : Text → Value → Content

pub record Entry : Type 0 where
  pub role : Role
  pub content : Content

abbrev pub context_budget_local : ℕ
context_budget_local = 25600

abbrev pub context_budget_cloud : ℕ
context_budget_cloud = 100000

-- `len`, which is 2 for the list of an image and a text
abbrev pub len : Content → ℕ
len (plain t) = length t
len (multimodal url t) = 2

unfoldable pub estimate_tokens : Content → ℕ
estimate_tokens c = max 1 (len c / 4)

abbrev pub default_system_prompt : Text
default_system_prompt =
    codes "You are Tinker, a helpful AI assistant on a portable device called "
    ++ (codes "TinkerClaw. Keep responses concise and conversational — they will "
        ++ codes "be spoken aloud.")

abbrev pub mm_marker : Text
mm_marker = codes "__mm__:"

unfoldable pub is_multimodal_content : Text → Bool
unfolding starts_with
is_multimodal_content content = starts_with mm_marker content

-- The prompt of the call, else of the session, else the default.
unfoldable pub prompt_of : Option Text → Option Session → Text
prompt_of (some (c ∷ t)) s = c ∷ t
prompt_of _ none = default_system_prompt
prompt_of _ (some s) = elim s.system_prompt [ [] ↦ default_system_prompt | c ∷ t ↦ c ∷ t ]

abbrev pub is_in_context : Role → Bool
is_in_context system = false
is_in_context _ = true

module _ (dumps : Value → Text) where
  unfoldable pub encode_multimodal_content : Text → Text → Text
  encode_multimodal_content media_id text =
      mm_marker
      ++ dumps (obj (field (codes "media_id") (str media_id) (field (codes "text") (str text) end)))

  -- `MessageStore.add_message`; the id is what `_generate_message_id` gives.
  unfoldable pub store_message :
      Text → Text → Role → Text → Details → Option Text → ℕ → Db → Option (Db × Message)
  unfolding add_message encode_multimodal_content
  store_message id session_id role content x media_id now d =
      let content' : Text = elim media_id [
        | some (c ∷ t) ↦ encode_multimodal_content (c ∷ t) content
        | _ ↦ content
      ] in
      add_message id session_id role content' x now d

-- `decoded.get(key, default)`
abbrev pub value_or : Text → Option Value → Value
value_or t none = str t
value_or t (some v) = v

module _ (loads : Text → Option Value) (truthy : Value → Bool) (format : Value → Text)
    (media_store : Option (Value → Option Text)) where
  unfoldable pub decode_multimodal_marker : Text → Option Value
  unfolding is_multimodal_content
  decode_multimodal_marker content =
      if is_multimodal_content content then loads (drop (length mm_marker) content) else none

  unfoldable pub hydrate_image : Value → Value → Content
  hydrate_image media_id text =
      let attached =
        plain (format text ++ (codes " [image attached: " ++ (format media_id ++ codes "]"))) in
      let expired = plain (format text ++ codes " [image expired]") in
      elim media_store [
        | none ↦ attached
        | some get ↦
            if truthy media_id
            then elim (get media_id) [
              | none ↦ expired
              | some b64 ↦ multimodal (codes "data:image/jpeg;base64," ++ b64) text
            ]
            else attached
      ]

  -- Nothing is the AttributeError of a marker whose JSON is neither an object nor null.
  unfoldable pub hydrate_multimodal_content : Text → Option Content
  unfolding decode_multimodal_marker field_of hydrate_image
  hydrate_multimodal_content content = elim (decode_multimodal_marker content) [
    | none ↦ some (plain content)
    | some null ↦ some (plain content)
    | some (obj fs) ↦ some (
        hydrate_image (value_or [] (field_of (codes "media_id") fs))
          (value_or [] (field_of (codes "text") fs)))
    | some _ ↦ none
  ]

  unfoldable pub entries_of : List Message → Option (List Entry)
  unfolding hydrate_multimodal_content
  entries_of [] = some []
  entries_of (m ∷ l) =
      let rest = entries_of l in
      if is_in_context m.role
      then elim (hydrate_multimodal_content m.content) [
        | none ↦ none
        | some c ↦ elim rest [
          | none ↦ none
          | some es ↦ some ((record { role = m.role; content = c }) ∷ es)
        ]
      ]
      else rest

  unfoldable pub get_context : Text → ℕ → Option Text → Db → Option (List Entry)
  unfolding get_session get_messages count_messages entries_of prompt_of
  get_context session_id max_messages system_prompt d =
      let prompt = prompt_of system_prompt (get_session session_id d.sessions) in
      let offset = count_messages session_id d.messages - max_messages in
      elim (entries_of (get_messages session_id max_messages offset d.messages)) [
        | none ↦ none
        | some es ↦ some ((record { role = system; content = plain prompt }) ∷ es)
      ]

-- `sum(estimate_tokens(m.get("content", "")) for m in messages)`
unfoldable pub tokens : List Entry → ℕ
unfolding estimate_tokens
tokens [] = 0
tokens (e ∷ l) = estimate_tokens e.content + tokens l

-- The `while` of `trim_context_to_budget`, on the messages behind the first.
unfoldable pub drop_oldest : ℕ → ℕ → List Entry → List Entry
unfolding estimate_tokens
drop_oldest budget total [] = []
drop_oldest budget total (e ∷ []) = e ∷ []
drop_oldest budget total (e ∷ f ∷ l) =
    let rest = drop_oldest budget (total - estimate_tokens e.content) (f ∷ l) in
    if ltb budget total then rest else e ∷ f ∷ l

unfoldable pub trim_context_to_budget : List Entry → ℕ → List Entry
unfolding tokens drop_oldest
trim_context_to_budget [] budget = []
trim_context_to_budget (e ∷ l) budget = e ∷ drop_oldest budget (tokens (e ∷ l)) l
