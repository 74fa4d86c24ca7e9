-- ===== src/Server/Webhook/Replies.antt =====
-- Replies in review threads: whom the conversation handler is asked to answer.
use review_agent.Common.{
  ◌≡◌, ◌≢◌, inl, inr, refl, false, Option, none, some, or_default, Bool-cases, [], is_empty,
  text_eq, text_eq_iff, includes, Text, text, Result, ok, err, arith,
}
use review_agent.Server.Webhook.Bodies.{EventBody, comment_body}
use review_agent.Server.Webhook.Deps.{
  ConversationHandlerInput, ConversationReplyOutcome, WebhookHandlerDeps, Language,
}
use review_agent.Server.Webhook.Comments.{
  handle_reply, reply_input, reply_to, reply_as, reply_if, converse,
}
use review_agent.Server.Webhook.Frames.{Within, if-Within, Extends-refl, Extends-one}
use review_agent.Server.Webhook.Authorised.{
  CanWrite, IsFromOther, Sent, Asked, By, stay, then-By, checked-By,
}

differ : {a c : Text} → a ≡ c → text_eq a c ≢ false
differ {a} {c} p q = ground (arith, text_eq_iff a c)

module _ {D : Type 0} (lang : Language) (deps : WebhookHandlerDeps D) (b : EventBody)
    (handle : ConversationHandlerInput → Result Text ConversationReplyOutcome) where
  converse-By :
      CanWrite deps b
      → (i : ConversationHandlerInput) → IsFromOther deps b i
      → Within (By lang deps b) (converse lang deps handle i)
  converse-By w i o s = record {
    queue = Extends-refl (Sent lang deps b) s.queue;
    conversations = Extends-one (Asked lang deps b) s.conversations i (w, o);
    database = inl refl;
  }

  reply_as-By :
      (i : ConversationHandlerInput) (login : Text)
      → deps.get_bot_login ≡ some (ok login)
      → Within (By lang deps b) (reply_as lang deps handle b i login)
  reply_as-By i login known =
      if-Within (By lang deps b) (is_empty login) _ _ (λ e. stay lang deps b)
        (λ proper.
          if-Within (By lang deps b) (text_eq i.sender login) _ _ (λ e. stay lang deps b)
            (λ differs.
              checked-By lang deps b (λ authz. reply_if lang deps handle i authz)
                (λ w.
                  then-By lang deps b (converse lang deps handle i) _
                    (converse-By w i (record {
                      login = login;
                      known = known;
                      proper = proper;
                      other = λ q. differ q differs;
                    }))
                    (λ u r. stay lang deps b))
                (λ reason. stay lang deps b)))

  reply_to-By :
      (o : Option ConversationHandlerInput) (login : Option (Result Text Text))
      → deps.get_bot_login ≡ login
      → Within (By lang deps b) (reply_to lang deps handle b o login)
  reply_to-By none login h = stay lang deps b
  reply_to-By (some i) none h = stay lang deps b
  reply_to-By (some i) (some (ok login)) h = reply_as-By i login h
  reply_to-By (some i) (some (err e)) h = stay lang deps b

  pub handle_reply-By : Within (By lang deps b) (handle_reply lang deps handle b)
  unfolding handle_reply
  handle_reply-By = elim (Bool-cases (text_eq (or_default b.action []) (text "created"))) [
    | inr e ↦ rw e (stay lang deps b)
    | inl e ↦ rw e (elim (Bool-cases (includes (text "@review-agent") mention)) [
      | inr f ↦ rw f (stay lang deps b)
      | inl f ↦ rw f (reply_to-By (reply_input b) deps.get_bot_login refl)
    ])
  ]
    where
      mention : Text
      mention = lang.to_lower_case (or_default (comment_body b) [])
