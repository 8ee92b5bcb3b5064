-- ===== src/Web/Chats/Limits.antt =====
-- Exactly which chat requests are taken, and what their question is.
use local_graph_rag.Prelude.{
  ℕ, ◌+◌, ◌≤◌, ◌≡◌, ◌↔◌, refl, sym, ap, ◌∙◌, inl, inr, true, false, Bool-cases, none, some,
  Option-cases, List, [], ◌∷◌, ◌++◌, length, is_empty, All, In, contains, ltb, nat_eq, list_eq,
  arith,
}
use local_graph_rag.Prelude.Text.{Str, strip}
use local_graph_rag.Prelude.Members.{In-of_contains, contains-of_In}
use local_graph_rag.Web.Chats.{
  Content, plain, parts, Message, ChatLimits, message_size, has_too_many_items, valid,
  validate_messages, validate_chat_request, content_text, is_user, last_user_message, question,
  check_question, extract_question_from_messages,
}

-- The characters of all messages.
abbrev pub total_size : List Message → ℕ
total_size [] = 0
total_size (m ∷ ms) = message_size m.content + total_size ms

abbrev pub HasFewItems : ℕ → Content → Type 0
HasFewItems limit (plain s) = Unit
HasFewItems limit (parts ps) = length ps ≤ limit

module _ (limits : ChatLimits) where
  abbrev pub IsSmall : Message → Type 0
  IsSmall m =
      (message_size m.content ≤ limits.max_message_chars)
      × HasFewItems limits.max_content_items m.content

  few_items :
      (c : Content)
      → has_too_many_items limits.max_content_items c ≡ false
        ↔ HasFewItems limits.max_content_items c
  unfolding has_too_many_items
  few_items (plain s) = (λ h. tt, λ h. refl)
  few_items (parts ps) = (λ h. ground arith, λ h. ground arith)

  messages-valid :
      (total : ℕ) (ms : List Message)
      → total ≤ limits.max_total_chars
      → validate_messages limits total ms ≡ valid
      → (total + total_size ms ≤ limits.max_total_chars) × All IsSmall ms
  unfolding validate_messages
  messages-valid total [] fits h = (omega arith, tt)
  messages-valid total (m ∷ ms) fits h =
      elim (Bool-cases (ltb limits.max_message_chars (message_size m.content))) [
        | inl large ↦ absurd (cc (rw (large, validate_messages) at h))
        | inr small ↦
            elim (Bool-cases (ltb limits.max_total_chars (total + message_size m.content))) [
              | inl full ↦ absurd (cc (rw (small, full, validate_messages) at h))
              | inr fits' ↦
                  elim (Bool-cases (has_too_many_items limits.max_content_items m.content)) [
                    | inl many ↦ absurd (cc (rw (small, fits', many, validate_messages) at h))
                    | inr few ↦
                        let (sum, rest) =
                          messages-valid (total + message_size m.content) ms (ground arith)
                            (rw (small, fits', few, validate_messages) at h) in
                        (omega arith, ((ground arith, (few_items m.content).0 few), rest))
                  ]
            ]
      ]

  valid-messages :
      (total : ℕ) (ms : List Message)
      → total + total_size ms ≤ limits.max_total_chars
      → All IsSmall ms
      → validate_messages limits total ms ≡ valid
  unfolding validate_messages
  valid-messages total [] fits h = refl
  valid-messages total (m ∷ ms) fits h =
      let small : ltb limits.max_message_chars (message_size m.content) ≡ false =
        let k = h.0.0 in ground arith in
      let room : ltb limits.max_total_chars (total + message_size m.content) ≡ false =
        ground arith in
      rw (small, room, (few_items m.content).1 h.0.1)
        (valid-messages (total + message_size m.content) ms (omega arith) h.1)

  -- A chat request is valid exactly if its model is listed, each message is within the limits on its
  -- characters and items, and all messages together are within the limit on the request.
  pub validate_chat_request-exact :
      (model : Str) (messages : List Message)
      → validate_chat_request limits model messages ≡ valid ↔ (
          In model limits.chat_models
          × ((total_size messages ≤ limits.max_total_chars) × All IsSmall messages))
  unfolding validate_chat_request
  validate_chat_request-exact model messages =
      elim (Bool-cases (contains model limits.chat_models)) [
        | inl listed ↦ rw listed (
          λ h.
              let (sum, small) = messages-valid 0 messages (omega arith) h in
              (In-of_contains limits.chat_models model listed, (omega arith, small)),
          λ h. valid-messages 0 messages (let k = h.1.0 in omega arith) h.1.1,
        )
        | inr unlisted ↦ rw unlisted (
          λ h. absurd (cc h),
          λ h. absurd (cc (sym unlisted ∙ contains-of_In limits.chat_models model h.0)),
        )
      ]

  -- The last message of the user, and what stands around it.
  pub record IsLastOfUser (messages : List Message) (m : Message) : Type 0 where
    pub before : List Message
    pub after : List Message
    pub stands : messages ≡ before ++ m ∷ after
    pub of_user : is_user m ≡ true
    pub none_after : All (λ n. is_user n ≡ false) after

  none-All : (ms : List Message) → last_user_message ms ≡ none → All (λ n. is_user n ≡ false) ms
  unfolding last_user_message
  none-All [] h = tt
  none-All (m ∷ ms) h = elim (Option-cases (last_user_message ms)) [
    | inr (n, e) ↦ absurd (cc (rw (e, last_user_message) at h))
    | inl e ↦ elim (Bool-cases (is_user m)) [
      | inl own ↦ absurd (cc (rw (e, own, last_user_message) at h))
      | inr other ↦ (other, none-All ms e)
    ]
  ]

  last_user_message-Last :
      (ms : List Message) (m : Message) → last_user_message ms ≡ some m → IsLastOfUser ms m
  unfolding last_user_message
  last_user_message-Last [] m h = absurd (cc h)
  last_user_message-Last (n ∷ ms) m h = elim (Option-cases (last_user_message ms)) [
    | inr (k, e) ↦
        let l = last_user_message-Last ms m (e ∙ (rw (e, last_user_message) at h)) in
        record {
          before = n ∷ l.before;
          after = l.after;
          stands = ap (λ t. n ∷ t) l.stands;
          of_user = l.of_user;
          none_after = l.none_after;
        }
    | inl e ↦ elim (Bool-cases (is_user n)) [
      | inl own ↦
          let same : n ≡ m = cc (rw (e, own, last_user_message) at h) in
          record {
            before = [];
            after = ms;
            stands = ap (λ t. t ∷ ms) same;
            of_user = sym (ap is_user same) ∙ own;
            none_after = none-All ms e;
          }
      | inr other ↦ absurd (cc (rw (e, other, last_user_message) at h))
    ]
  ]

  -- A question that is taken is the stripped text of the user's last message; it is not empty and
  -- within the limit.
  pub extract_question-of_last :
      (messages : List Message) (q : Str)
      → extract_question_from_messages limits messages ≡ question q
      → (m : Message) × (IsLastOfUser messages m
          × ((q ≡ strip (content_text m.content))
              × ((is_empty q ≡ false) × (length q ≤ limits.max_question_chars))))
  unfolding extract_question_from_messages check_question
  extract_question-of_last messages q h = elim (Option-cases (last_user_message messages)) [
    | inl e ↦ absurd (cc (rw (e, extract_question_from_messages) at h))
    | inr (m, e) ↦ (
      m,
      (
        last_user_message-Last messages m e,
        checked (strip (content_text m.content)) (rw (e, extract_question_from_messages) at h),
      ),
    )
  ]
    where
      checked :
          (t : Str)
          → check_question limits t ≡ question q
          → (q ≡ t) × ((is_empty q ≡ false) × (length q ≤ limits.max_question_chars))
      checked t h = elim (Bool-cases (is_empty t)) [
        | inl e ↦ absurd (cc (rw (e, check_question) at h))
        | inr e ↦ elim (Bool-cases (ltb limits.max_question_chars (length t))) [
          | inl long ↦ absurd (cc (rw (e, long, check_question) at h))
          | inr short ↦
              let same : t ≡ q = cc (rw (e, short, check_question) at h) in
              (sym same, (sym (ap is_empty same) ∙ e, rw (← same) (ground arith)))
        ]
      ]
