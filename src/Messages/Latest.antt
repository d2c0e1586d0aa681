-- ===== src/Messages/Latest.antt =====
-- The context that is built behind a new message of the user.
use mathlib.Core.Option
use tinker_box.Base.{
  ℕ, suc, ◌-◌, ◌≤◌, ◌<◌, ◌≡◌, ◌≢◌, refl, ap, ◌∙◌, Bool, false, Bool-cases, inl, inr, Option, none,
  some, Option-cases, List, [], ◌∷◌, ◌++◌, arith, keep, keep-append, length, length-append,
  length-keep, length-drop, drop, take_of_length-le, All, All-keep, All_imp, Text,
}
use tinker_box.Base.Pieces.{drop-append, All-drop, All-sort}
use tinker_box.Base.Sort.{sort, sort-snoc, length-sort}
use tinker_box.Sessions.{get_session}
use tinker_box.Tools.Value.{Value}
use tinker_box.Messages.Table.{
  Db, Message, Details, user, system, get_messages, count_messages, is_of, earlier, message_of,
}
use tinker_box.Messages.Counts.{add_message-some, count_message_snoc, after_add}
use tinker_box.Messages.Context.{
  Entry, plain, is_multimodal_content, decode_multimodal_marker, hydrate_multimodal_content,
  is_in_context, entries_of, get_context, prompt_of, trim_context_to_budget, store_message,
}
use tinker_box.Messages.Trim.{trim_context_to_budget_exact}

count_own :
    (session_id : Text) (l : List Message) (m : Message)
    → m.session_id ≡ session_id
    → count_messages session_id (l ++ m ∷ []) ≡ suc (count_messages session_id l)
count_own session_id l m same = ground (arith, count_message_snoc session_id l m)

-- The end of the sorted messages of a session, behind one that is not older than the others.
newest :
    (session_id : Text) (n : ℕ) (l : List Message) (m : Message)
    → 0 < n
    → m.session_id ≡ session_id
    → All (λ (a : Message). a.created_at ≤ m.created_at) l
    → (k : ℕ) × (get_messages session_id n
          (count_messages session_id (l ++ m ∷ []) - n)
          (l ++ m ∷ [])
        ≡ drop k (sort earlier (keep (is_of session_id) l)) ++ m ∷ [])
unfolding get_messages count_messages is_of
newest session_id n l m positive same older =
    let s = sort earlier (keep (is_of session_id) l) in
    let k = count_messages session_id (l ++ m ∷ []) - n in
    let mine : keep (is_of session_id) (m ∷ []) ≡ m ∷ [] = unfold keep in ground arith in
    let total : count_messages session_id (l ++ m ∷ []) ≡ suc (count_messages session_id l) =
      count_own session_id l m same in
    let len : length s ≡ count_messages session_id l =
      length-sort earlier (keep (is_of session_id) l) ∙ length-keep (is_of session_id) l in
    let short : length (drop k s ++ m ∷ []) ≤ n =
      omega (arith, length-append (drop k s) (m ∷ []), length-drop k s, len, total, positive) in
    (
      k,
      rw
          (
            keep-append (is_of session_id) l (m ∷ []),
            mine,
            sort-snoc earlier m (keep (is_of session_id) l)
                (All-keep _ _ l (All_imp _ _ (λ a h. ground arith) l older)),
            drop-append k s (m ∷ []) (omega (arith, len, total, positive)),
          )
          (take_of_length-le n (drop k s ++ m ∷ []) short),
    )

module _ (loads : Text → Option Value) (truthy : Value → Bool) (format : Value → Text)
    (media_store : Option (Value → Option Text)) where
  -- The stored text does not make the building of the context raise.
  abbrev pub IsReadable : Message → Type 0
  IsReadable m = hydrate_multimodal_content loads truthy format media_store m.content ≢ none

  hydrate_text :
      (t : Text)
      → is_multimodal_content t ≡ false
      → hydrate_multimodal_content loads truthy format media_store t ≡ some (plain t)
  unfolding hydrate_multimodal_content decode_multimodal_marker
  hydrate_text t e = rw e refl

  entries_of-snoc :
      (l : List Message) (m : Message)
      → All IsReadable l
      → m.role ≡ user
      → is_multimodal_content m.content ≡ false
      → (es : List Entry) × (entries_of loads truthy format media_store (l ++ m ∷ [])
          ≡ some (es ++ (record { role = user; content = plain m.content }) ∷ []))
  unfolding entries_of
  entries_of-snoc [] m h role text = ([], ground (arith, hydrate_text m.content text, role))
  entries_of-snoc (a ∷ l) m h role text =
      let (es, e) = entries_of-snoc l m h.1 role text in
      elim (Bool-cases (is_in_context a.role)) [
        | inr out ↦ (es, rw out e)
        | inl on ↦
            elim (Option-cases
              (hydrate_multimodal_content loads truthy format media_store a.content)) [
                | inl raises ↦ absurd (h.0 raises)
                | inr (c, q) ↦ ((record { role = a.role; content = c }) ∷ es, rw (on, q, e) refl)
              ]
      ]

  get_context-some :
      (session_id : Text) (n : ℕ) (system_prompt : Option Text) (d : Db) (es : List Entry)
      → entries_of loads truthy format media_store
          (get_messages session_id n (count_messages session_id d.messages - n) d.messages)
        ≡ some es
      → get_context loads truthy format media_store session_id n system_prompt d
        ≡ some (
            (record {
              role = system;
              content = plain (prompt_of system_prompt (get_session session_id d.sessions));
            })
            ∷ es)
  unfolding get_context
  get_context-some session_id n system_prompt d es e = ground (arith, e)

  context-last :
      (session_id : Text) (n budget : ℕ) (system_prompt : Option Text) (d : Db) (m : Message)
      → 0 < n
      → m.session_id ≡ session_id
      → m.role ≡ user
      → is_multimodal_content m.content ≡ false
      → All IsReadable d.messages
      → All (λ (a : Message). a.created_at ≤ m.created_at) d.messages
      → (es : List Entry) × (Option.map
            (λ c. trim_context_to_budget c budget)
            (get_context loads truthy format media_store session_id n system_prompt
              (after_add session_id m d))
          ≡ some (
              (record {
                role = system;
                content = plain (
                    prompt_of system_prompt
                      (get_session session_id (after_add session_id m d).sessions));
              })
                ∷ es
              ++ (record { role = user; content = plain m.content }) ∷ []))
  context-last session_id n budget system_prompt d m positive same role text readable older =
      let s = sort earlier (keep (is_of session_id) d.messages) in
      let (k, got) = newest session_id n d.messages m positive same older in
      let held =
        All-drop IsReadable k s
          (All-sort earlier IsReadable _ (All-keep IsReadable _ d.messages readable)) in
      let (es, built) = entries_of-snoc (drop k s) m held role text in
      let head : Entry = record {
        role = system;
        content =
            plain (
              prompt_of system_prompt (get_session session_id (after_add session_id m d).sessions));
      } in
      let u : Entry = record { role = user; content = plain m.content } in
      let (j, is, kept, _, _) = trim_context_to_budget_exact head (es ++ u ∷ []) budget in
      let short : j ≤ length es = omega (arith, kept, length-append es (u ∷ [])) in
      (
        drop j es,
        ap (Option.map (λ c. trim_context_to_budget c budget)) (
              get_context-some session_id n system_prompt (after_add session_id m d) (es ++ u ∷ [])
                (ap (entries_of loads truthy format media_store) got ∙ built))
            ∙ ap some (is ∙ ap (head ∷◌) (drop-append j es (u ∷ []) short)),
      )

  -- Behind a text of the user that is stored when no message is later, and if the stored messages can
  -- be read, the trimmed context is there; it begins with the system prompt and ends with that text.
  pub store_message-context :
      (dumps : Value → Text) (id session_id text : Text) (x : Details) (now n budget : ℕ)
      (system_prompt : Option Text) (d d' : Db) (m : Message)
      → 0 < n
      → is_multimodal_content text ≡ false
      → All IsReadable d.messages
      → All (λ (a : Message). a.created_at ≤ now) d.messages
      → store_message dumps id session_id user text x none now d ≡ some (d', m)
      → (es : List Entry) × (Option.map
            (λ c. trim_context_to_budget c budget)
            (get_context loads truthy format media_store session_id n system_prompt d')
          ≡ some (
              (record {
                role = system;
                content = plain (prompt_of system_prompt (get_session session_id d'.sessions));
              })
                ∷ es
              ++ (record { role = user; content = plain text }) ∷ []))
  unfolding store_message get_context
  store_message-context dumps id session_id text x now n budget system_prompt d d' m positive
        plain_text readable older e =
      let (there, is, after) = add_message-some id session_id user text x now d d' m e in
      let new = message_of id session_id user text x now in
      let (es, q) =
        context-last session_id n budget system_prompt d new positive refl refl plain_text readable
          older in
      (es, rw (after ∙ ap (λ m. after_add session_id m d) is) q)
