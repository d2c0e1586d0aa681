-- ===== src/Conversation/Rounds.antt =====
-- The rounds of a turn: the calls of tools, and what they store.
use mathlib.Core.List.{append_assoc, append-nil}
use mathlib.Core.Path.{subst}
use tinker_box.Base.{
  ℕ, zero, suc, ◌+◌, ◌≤◌, ◌<◌, ◌≡◌, refl, sym, ap, ◌∙◌, inl, inr, Bool, true, false, ◌&&◌, Option,
  none, some, Option-cases, List, [], ◌∷◌, ◌++◌, map, arith, ltb, Text, if◌then◌else◌, codes,
}
use tinker_box.Tools.Value.{Fields}
use tinker_box.Tools.Parser.{ToolCall, ParseError, has_tool_call, parse_tool_calls_with_errors}
use tinker_box.Tools.Registry.{Tool, tool_names, execute}
use tinker_box.Messages.Table.{Role, assistant, tool, Details, Db, Message, from_system}
use tinker_box.Messages.Counts.{add_message-some}
use tinker_box.Messages.Context.{Entry, store_message}
use tinker_box.Conversation.Markers.{stream, join, strip_tool_markup}
use tinker_box.Conversation.Engine.{
  Engine, State, Output, text, on_tool_call, on_tool_result, on_tool_error, on_limit_reached,
  on_unknown_tool, Turn, out_of_fuel, raised, ended, store, max_tool_calls, details, context_of,
  with_session_id,
}
use tinker_box.Conversation.Turns.{
  yields, fields_of, use_tool, store_round, rebuilt, run_tool, result_of, streamed, limit_of,
  behind_outputs, go_on, first_call, answered, stream_loop,
}

-- What the rounds of a turn store: for each, the answer with the call, and the result of the tool.
pub data Exchange : ℕ → List Message → Type 0 where
  finished : Exchange 0 []
  round :
      {k : ℕ} {a t : Message} {l : List Message}
      → a.role ≡ assistant
      → t.role ≡ tool
      → Exchange k l
      → Exchange (suc k) (a ∷ t ∷ l)

abbrev pub calls_in : List Output → ℕ
calls_in [] = 0
calls_in (on_tool_call c ∷ l) = suc (calls_in l)
calls_in (_ ∷ l) = calls_in l

abbrev pub results_in : List Output → ℕ
results_in [] = 0
results_in (on_tool_result r ∷ l) = suc (results_in l)
results_in (_ ∷ l) = results_in l

module _ {W : Type 0} (seen : List Output → ℕ) where
  -- From these messages, at most so many rounds: as many as are seen, and their messages.
  abbrev pub Shape : ℕ → List Message → Turn W → Type 0
  Shape n before out_of_fuel = ⊥
  Shape n before raised = Unit
  Shape n before (ended st l response) =
      (k : ℕ) × (new : List Message) × (k ≤ n)
      × (st.db.messages ≡ before ++ new)
      × Exchange k new
      × (seen l ≡ k)

calls_in-append : (l m : List Output) → calls_in (l ++ m) ≡ calls_in l + calls_in m
calls_in-append [] m = omega arith
calls_in-append (on_tool_call c ∷ l) m = omega (arith, calls_in-append l m)
calls_in-append (text t ∷ l) m = omega (arith, calls_in-append l m)
calls_in-append (on_tool_result r ∷ l) m = omega (arith, calls_in-append l m)
calls_in-append (on_tool_error p ∷ l) m = omega (arith, calls_in-append l m)
calls_in-append (on_limit_reached ∷ l) m = omega (arith, calls_in-append l m)
calls_in-append (on_unknown_tool n ∷ l) m = omega (arith, calls_in-append l m)

calls_in-text : (l : List Text) → calls_in (map text l) ≡ 0
calls_in-text [] = refl
calls_in-text (t ∷ l) = calls_in-text l

calls_in-error : (l : List ParseError) → calls_in (map on_tool_error l) ≡ 0
calls_in-error [] = refl
calls_in-error (p ∷ l) = calls_in-error l

calls_in-yields : (t : Text) → calls_in (yields t) ≡ 0
calls_in-yields [] = refl
calls_in-yields (c ∷ t) = refl

module _ {W : Type 0} (e : Engine W) (session_id : Text) where
  calls_in-limit : (b : Bool) (made : ℕ) → calls_in (limit_of e session_id b made) ≡ 0
  calls_in-limit b made = ground arith

  calls_in-streamed :
      (o : Option (List (Text × Tool W))) (tokens : List Text)
      → calls_in (streamed e session_id o tokens).0 ≡ 0
  unfolding streamed
  calls_in-streamed none tokens = calls_in-text tokens
  calls_in-streamed (some tools) tokens = calls_in-text (stream (tool_names tools) [] tokens).0

  pub stored_message :
      (id : Text) (role : Role) (content : Text) (x : Details) (media_id : Option Text) (now : ℕ)
      (d d' : Db) (m : Message)
      → store_message e.dumps id session_id role content x media_id now d ≡ some (d', m)
      → (m.role ≡ role) × (d'.messages ≡ d.messages ++ m ∷ [])
  unfolding store_message
  stored_message id role content x media_id now d d' m q =
      let (there, is, after) = add_message-some id session_id role _ x now d d' m q in
      (ap (λ (m : Message). m.role) is, ap (λ (d : Db). d.messages) after)

  pub store-some :
      (role : Role) (content : Text) (x : Details) (media_id : Option Text) (st st' : State W)
      → store e session_id role content x media_id st ≡ some st'
      → (m : Message) × (m.role ≡ role) × (st'.db.messages ≡ st.db.messages ++ m ∷ [])
  unfolding store
  store-some role content x media_id st st' q =
      elim (Option-cases (
        store_message e.dumps (e.new_id st.stored) session_id role content x media_id
          (e.now st.stored) st.db)) [
            | inl raises ↦ absurd (ground arith)
            | inr ((d, m), p) ↦
                let (is, after) = stored_message _ role content x media_id _ st.db d m p in
                let same : st'.db ≡ d = ground arith in
                (m, is, ap (λ (d : Db). d.messages) same ∙ after)
          ]

  -- The two messages of a round.
  abbrev pub Pair : List Message → List Message → Type 0
  Pair before after =
      (a : Message) × (t : Message) × (a.role ≡ assistant)
      × (t.role ≡ tool)
      × (after ≡ before ++ a ∷ t ∷ [])

  store_round-some :
      (response : Text) (result : Fields) (st st' : State W)
      → store_round e session_id response result st ≡ some st'
      → Pair st.db.messages st'.db.messages
  unfolding store_round
  store_round-some response result st st' q =
      elim (Option-cases (
        store e session_id assistant response (details from_system none (some e.llm_name) none) none
          st)) [
            | inl raises ↦ absurd (ground arith)
            | inr (st1, p) ↦
                let content =
                  codes "<tool_result>" ++ (e.dumps (result_of result) ++ codes "</tool_result>") in
                let q' : store e session_id tool content (details from_system none none none) none
                      st1
                    ≡ some st' =
                  ground arith in
                let (a, ra, ma) = store-some assistant response _ none st st1 p in
                let (t, rt, mt) = store-some tool content _ none st1 st' q' in
                (
                  a,
                  t,
                  ra,
                  rt,
                  mt ∙ ap (λ l. l ++ t ∷ []) ma ∙ append_assoc st.db.messages (a ∷ []) (t ∷ []),
                )
          ]

  rebuilt-some :
      (result r : Fields) (o : Option (State W)) (st' : State W) (context : List Entry)
      → rebuilt e session_id result o ≡ some (st', r, context)
      → o ≡ some st'
  rebuilt-some result r none st' context q = ground arith
  rebuilt-some result r (some st) st' context q =
      elim (Option-cases (context_of e session_id 20 none st.db)) [
        | inl raises ↦ absurd (ground arith)
        | inr (c, p) ↦ ground arith
      ]

  run_tool-some :
      (tools : List (Text × Tool W)) (response name : Text) (st st' : State W) (o : Option Fields)
      (result : Fields) (context : List Entry)
      → run_tool e session_id tools response name st o ≡ some (st', result, context)
      → Pair st.db.messages st'.db.messages
  run_tool-some tools response name st st' none result context q = absurd (ground arith)
  run_tool-some tools response name st st' (some args) result context q =
      let (r, w) =
        execute tools name (with_session_id session_id args) (e.took st.stored) st.world in
      store_round-some response r (record st { world = w }) st'
        (rebuilt-some r result (store_round e session_id response r (record st { world = w })) st'
          context q)

  module _ (next : List Entry → State W → Turn W) (n : ℕ)
      (later : (c : List Entry) (st : State W) → Shape calls_in n st.db.messages (next c st)) where
    behind_outputs-Shape :
        (before : List Message) (a t : Message) (l : List Output) (turn : Turn W)
        → a.role ≡ assistant
        → t.role ≡ tool
        → calls_in l ≡ 1
        → Shape calls_in n (before ++ a ∷ t ∷ []) turn
        → Shape calls_in (suc n) before (behind_outputs e session_id l turn)
    behind_outputs-Shape before a t l out_of_fuel ra rt one h = h
    behind_outputs-Shape before a t l raised ra rt one h = h
    behind_outputs-Shape before a t l (ended st m response) ra rt one (k, new, le, is, x, calls) = (
      suc k,
      a ∷ t ∷ new,
      omega (arith, le),
      is ∙ append_assoc before (a ∷ t ∷ []) new,
      round ra rt x,
      omega (arith, calls_in-append l m, one, calls),
    )

    go_on-Shape :
        (tools : List (Text × Tool W)) (response : Text) (l : List Output) (c : ToolCall)
        (st : State W) (o : Option (State W × Fields × List Entry))
        → use_tool e session_id tools response c st ≡ o
        → calls_in l ≡ 0
        → Shape calls_in (suc n) st.db.messages (go_on e session_id next l c o)
    unfolding use_tool
    go_on-Shape tools response l c st none q zero_calls = tt
    go_on-Shape tools response l c st (some (st', result, context)) q zero_calls =
        let (a, t, ra, rt, is) =
          run_tool-some tools response c.tool st st' (fields_of e session_id c.args) result context
            q in
        behind_outputs-Shape st.db.messages a t (l ++ on_tool_call c ∷ on_tool_result result ∷ [])
          (next context st') ra rt
          (omega
            (arith, calls_in-append l (on_tool_call c ∷ on_tool_result result ∷ []), zero_calls))
          (subst (λ m. Shape calls_in n m (next context st')) is (later context st'))

    -- An answer that ends the turn.
    last-Shape :
        (m : ℕ) (st : State W) (l : List Output) (response : Text)
        → calls_in l ≡ 0
        → Shape calls_in m st.db.messages (ended st l response)
    last-Shape m st l response none_made =
        (0, [], omega arith, sym (append-nil st.db.messages), finished, none_made)

    first_call-Shape :
        (tools : List (Text × Tool W)) (response : Text) (l last : List Output) (st : State W)
        (cs : List ToolCall)
        → calls_in l ≡ 0
        → calls_in last ≡ 0
        → Shape calls_in
            (suc n)
            st.db.messages
            (first_call e session_id next tools response l last st cs)
    first_call-Shape tools response l last st [] a b =
        last-Shape (suc n) st (l ++ last) response (omega (arith, calls_in-append l last, a, b))
    first_call-Shape tools response l last st (c ∷ cs) a b =
        go_on-Shape tools response l c st (use_tool e session_id tools response c st) refl a

    answered-Shape :
        (made : ℕ) (response : Text) (l : List Output) (held : Text) (st : State W)
        (o : Option (List (Text × Tool W)))
        → made < 3
        → calls_in l ≡ 0
        → Shape calls_in
            (suc n)
            st.db.messages
            (answered e session_id next made response l held st o)
    answered-Shape made response l held st none lt zero_calls =
        last-Shape (suc n) st l response zero_calls
    answered-Shape made response l held st (some tools) lt zero_calls =
        let names = tool_names tools in
        let has_call = has_tool_call names response in
        let l1 = l ++ limit_of e session_id has_call made in
        let last = yields (strip_tool_markup held) in
        let (calls, errors) = parse_tool_calls_with_errors e.loads e.keywords names response in
        let c1 : calls_in l1 ≡ 0 = omega (
          arith,
          calls_in-append l (limit_of e session_id has_call made),
          zero_calls,
          calls_in-limit has_call made,
        ) in
        let c2 : calls_in (l1 ++ map on_tool_error errors) ≡ 0 =
          omega (arith, calls_in-append l1 (map on_tool_error errors), c1, calls_in-error errors) in
        let c3 : calls_in (l1 ++ last) ≡ 0 =
          omega (arith, calls_in-append l1 last, c1, calls_in-yields (strip_tool_markup held)) in
        elim (has_call && ltb made max_tool_calls)
          as (λ b. Shape calls_in (suc n) st.db.messages (
            if b
            then first_call e session_id next tools response (l1 ++ map on_tool_error errors) last
                st calls
            else ended st (l1 ++ last) response)) [
              | true ↦
                  first_call-Shape tools response (l1 ++ map on_tool_error errors) last st calls c2
                    (calls_in-yields (strip_tool_markup held))
              | false ↦ last-Shape (suc n) st (l1 ++ last) response c3
            ]

  -- With all calls made, an answer is the last whatever it holds.
  answered-last :
      (next : List Entry → State W → Turn W) (made : ℕ) (response : Text) (l : List Output)
      (held : Text) (st : State W) (o : Option (List (Text × Tool W)))
      → 3 ≤ made
      → calls_in l ≡ 0
      → Shape calls_in 0 st.db.messages (answered e session_id next made response l held st o)
  answered-last next made response l held st none le zero_calls =
      (0, [], omega arith, sym (append-nil st.db.messages), finished, zero_calls)
  answered-last next made response l held st (some tools) le zero_calls =
      let has_call = has_tool_call (tool_names tools) response in
      let l1 = l ++ limit_of e session_id has_call made in
      let last = yields (strip_tool_markup held) in
      let over : (has_call && ltb made max_tool_calls) ≡ false = ground arith in
      let c1 = calls_in-append l (limit_of e session_id has_call made) in
      let c2 = calls_in-append l1 last in
      rw over (
        0,
        [],
        omega arith,
        sym (append-nil st.db.messages),
        finished,
        omega (
          arith,
          c1,
          c2,
          zero_calls,
          calls_in-limit has_call made,
          calls_in-yields (strip_tool_markup held),
        ),
      )

  pub stream_loop-Shape :
      (fuel n made : ℕ) (context : List Entry) (st : State W)
      → made + n ≡ 3
      → n < fuel
      → Shape calls_in n st.db.messages (stream_loop e session_id fuel made context st)
  unfolding stream_loop
  stream_loop-Shape zero n made context st sum lt = absurd (omega (arith, lt))
  stream_loop-Shape (suc fuel) zero made context st sum lt =
      let (tokens, w) = e.generate context st.world in
      let (l, held) = streamed e session_id e.tools tokens in
      answered-last (stream_loop e session_id fuel (suc made)) made (join tokens) l held
        (record st { world = w }) e.tools (omega (arith, sum)) (calls_in-streamed e.tools tokens)
  stream_loop-Shape (suc fuel) (suc n) made context st sum lt =
      let (tokens, w) = e.generate context st.world in
      let (l, held) = streamed e session_id e.tools tokens in
      answered-Shape (stream_loop e session_id fuel (suc made)) n
        (λ c st. stream_loop-Shape fuel n (suc made) c st (omega (arith, sum)) (omega (arith, lt)))
        made (join tokens) l held (record st { world = w }) e.tools (omega (arith, sum))
        (calls_in-streamed e.tools tokens)
