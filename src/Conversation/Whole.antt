-- ===== src/Conversation/Whole.antt =====
-- A whole turn of the conversation: it ends, and what it stores.
use mathlib.Core.List.{append_assoc}
use tinker_box.Base.{
  ℕ, ◌≤◌, ◌≡◌, refl, ap, ◌∙◌, inl, inr, Option, none, some, Option-cases, List, [], ◌∷◌, ◌++◌,
  arith, Text,
}
use tinker_box.Messages.Table.{Role, user, assistant, Details, Db, Message, from_system}
use tinker_box.Messages.Counts.{add_message-some}
use tinker_box.Messages.Context.{store_message}
use tinker_box.Conversation.Engine.{
  Engine, State, Output, Turn, out_of_fuel, raised, ended, store, details,
}
use tinker_box.Conversation.Turns.{store_answer}
use tinker_box.Conversation.Rounds.{Exchange, Shape}

module _ {W : Type 0} (e : Engine W) (session_id : Text) where
  -- The messages of a whole turn: the user's, those of the rounds, and the last answer.
  abbrev pub IsTurn : (List Output → ℕ) → List Message → Turn W → Type 0
  IsTurn seen before out_of_fuel = ⊥
  IsTurn seen before raised = Unit
  IsTurn seen before (ended st l response) =
      (u : Message) × (k : ℕ) × (rounds : List Message) × (a : Message) × (st.db.messages
        ≡ before ++ u ∷ rounds ++ a ∷ [])
      × (u.role ≡ user)
      × Exchange k rounds
      × (a.role ≡ assistant)
      × (a.content ≡ response)
      × (seen l ≡ k)
      × (k ≤ 3)

  store-content :
      (role : Role) (content : Text) (x : Details) (st st' : State W)
      → store e session_id role content x none st ≡ some st'
      → (m : Message) × (m.role ≡ role)
        × (m.content ≡ content)
        × (st'.db.messages ≡ st.db.messages ++ m ∷ [])
  unfolding store store_message
  store-content role content x st st' q =
      elim (Option-cases (
        store_message e.dumps (e.new_id st.stored) session_id role content x none (e.now st.stored)
          st.db)) [
            | inl raises ↦ absurd (ground arith)
            | inr ((d, m), p) ↦
                let (there, is, after) =
                  add_message-some (e.new_id st.stored) session_id role content x (e.now st.stored)
                    st.db d m p in
                let same : st'.db ≡ d = ground arith in
                (
                  m,
                  ap (λ (m : Message). m.role) is,
                  ap (λ (m : Message). m.content) is,
                  ap (λ (d : Db). d.messages) same ∙ ap (λ (d : Db). d.messages) after,
                )
          ]

  pub store_answer-IsTurn :
      (seen : List Output → ℕ) (latency_ms : ℕ) (before : List Message) (u : Message)
      (turn : Turn W)
      → u.role ≡ user
      → Shape seen 3 (before ++ u ∷ []) turn
      → IsTurn seen before (store_answer e session_id latency_ms turn)
  unfolding store_answer
  store_answer-IsTurn seen latency_ms before u out_of_fuel ru h = h
  store_answer-IsTurn seen latency_ms before u raised ru h = tt
  store_answer-IsTurn seen latency_ms before u (ended st l response) ru
        (k, rounds, le, is, x, calls) =
      answer_stored
        (store e session_id assistant response
          (details from_system none (some e.llm_name) (some latency_ms)) none st)
        refl
    where
      answer_stored :
          (o : Option (State W))
          → store e session_id assistant response
              (details from_system none (some e.llm_name) (some latency_ms))
              none
              st
            ≡ o
          → IsTurn seen before (elim o [ none ↦ raised | some st' ↦ ended st' l response ])
      answer_stored none q = tt
      answer_stored (some st') q =
          let (a, ra, ca, ma) = store-content assistant response _ st st' q in
          (
            u,
            k,
            rounds,
            a,
            ma
                ∙ ap (λ l. l ++ a ∷ []) is
                ∙ ap (λ l. l ++ a ∷ []) (append_assoc before (u ∷ []) rounds),
            ru,
            x,
            ra,
            ca,
            calls,
            le,
          )
