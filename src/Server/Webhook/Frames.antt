-- ===== src/Server/Webhook/Frames.antt =====
-- Relations between the world before a handler and the world after it, and how they pass through a
-- sequence of calls.
use review_agent.Common.{
  ◌≡◌, ◌⊎◌, inl, inr, refl, sym, ◌∙◌, ap, Bool, true, false, List, [], ◌∷◌, ◌++◌, append-nil,
  append_assoc, All, All-append, All-mono, Text, Result, ok, err, if◌then◌else◌,
}
use review_agent.Core.Queue.{JobMessage}
use review_agent.Server.Webhook.Deps.{ConversationHandlerInput, World, Act, continue, ◌>>=◌}

-- `ys` is `xs`, followed by elements of which `P` holds
pub Extends {ℓ κ} : {A : Type ℓ} (P : A → Type κ) → List A → List A → Type (ℓ ⊔ κ)
Extends {A = A} P xs ys = (new : List A) × (ys ≡ xs ++ new) × All P new

module _ {ℓ κ} {A : Type ℓ} (P : A → Type κ) where
  pub Extends-refl : (xs : List A) → Extends P xs xs
  unfolding Extends
  Extends-refl xs = ([], sym (append-nil xs), tt)

  pub Extends-one : (xs : List A) (x : A) → P x → Extends P xs (xs ++ (x ∷ []))
  unfolding Extends
  Extends-one xs x h = (x ∷ [], refl, (h, tt))

  pub Extends-trans : (xs ys zs : List A) → Extends P xs ys → Extends P ys zs → Extends P xs zs
  unfolding Extends
  Extends-trans xs ys zs (a, p, h) (b, q, k) =
      (a ++ b, q ∙ ap (λ t. t ++ b) p ∙ append_assoc xs a b, All-append P a b h k)

pub Extends-mono {ℓ κ κ'} :
    {A : Type ℓ} (P : A → Type κ) (Q : A → Type κ') (xs ys : List A)
    → ((x : A) → P x → Q x)
    → Extends P xs ys
    → Extends Q xs ys
unfolding Extends
Extends-mono P Q xs ys f (new, p, h) = (new, p, All-mono f new h)

-- a relation that holds of no change, and of one change after another
pub record IsFrame {D : Type 0} (R : World D → World D → Type 0) : Type 0 where
  pub still : (s : World D) → R s s
  pub follow : (s t u : World D) → R s t → R t u → R s u

-- A step that keeps to the relation, wherever it starts.
abbrev pub Within : {D A : Type 0} → (World D → World D → Type 0) → Act D A → Type 0
Within {D} R m = (s : World D) → R s (m s).1

-- what a step can return
abbrev pub Returns : {D A : Type 0} → Act D A → A → Type 0
Returns {D} m a = (s : World D) × ((m s).0 ≡ ok a)

module _ {D : Type 0} (R : World D → World D → Type 0) (frame : IsFrame R) where
  continue-Within :
      {A B : Type 0} (s t : World D) (r : Result Text A) (f : A → Act D B)
      → R s t
      → ((a : A) → r ≡ ok a → Within R (f a))
      → R s (continue r f t).1
  continue-Within s t (ok a) f h k = frame.follow s t (f a t).1 h (k a refl t)
  continue-Within s t (err e) f h k = h

  pub >>=-Within :
      {A B : Type 0} (m : Act D A) (f : A → Act D B)
      → Within R m
      → ((a : A) → Returns m a → Within R (f a))
      → Within R (m >>= f)
  >>=-Within m f h k s = continue-Within s (m s).1 (m s).0 f (h s) (λ a e. k a (s, e))

module _ {D : Type 0} (R : World D → World D → Type 0) where
  pub if-Within :
      {A : Type 0} (b : Bool) (m n : Act D A)
      → (b ≡ true → Within R m)
      → (b ≡ false → Within R n)
      → Within R (if b then m else n)
  if-Within true m n h k = h refl
  if-Within false m n h k = k refl

-- What a step may have done: the messages that it sent, what it asked of the conversation handler,
-- and, if the database is another one, why.
pub record Moves {D : Type 0} (J : JobMessage → Type 0) (C : ConversationHandlerInput → Type 0)
    (W : Type 0) (s t : World D) : Type 0 where
  pub queue : Extends J s.queue t.queue
  pub conversations : Extends C s.conversations t.conversations
  pub database : (s.database ≡ t.database) ⊎ W

module _ {D : Type 0} (J : JobMessage → Type 0) (C : ConversationHandlerInput → Type 0)
    (W : Type 0) where
  either : {a b c : D} → (a ≡ b) ⊎ W → (b ≡ c) ⊎ W → (a ≡ c) ⊎ W
  either (inl p) (inl q) = inl (p ∙ q)
  either (inl p) (inr w) = inr w
  either (inr w) q = inr w

  pub Moves-IsFrame : IsFrame {D = D} (Moves J C W)
  Moves-IsFrame = record {
    still = λ s. record {
      queue = Extends-refl J s.queue;
      conversations = Extends-refl C s.conversations;
      database = inl refl;
    };
    follow = λ s t u h k. record {
      queue = Extends-trans J s.queue t.queue u.queue h.queue k.queue;
      conversations =
          Extends-trans C s.conversations t.conversations u.conversations h.conversations
            k.conversations;
      database = either h.database k.database;
    };
  }

pub Moves-mono :
    {D : Type 0} (J J' : JobMessage → Type 0) (C C' : ConversationHandlerInput → Type 0)
    (W W' : Type 0) (s t : World D)
    → ((m : JobMessage) → J m → J' m)
    → ((i : ConversationHandlerInput) → C i → C' i)
    → (W → W')
    → Moves J C W s t
    → Moves J' C' W' s t
Moves-mono J J' C C' W W' s t f g h k = record {
  queue = Extends-mono J J' s.queue t.queue f k.queue;
  conversations = Extends-mono C C' s.conversations t.conversations g k.conversations;
  database = elim k.database [ inl p ↦ inl p | inr w ↦ inr (h w) ];
}
