-- ===== src/Outbox/Bus.antt =====
-- event_bus.py, over any type of session. A handler returns the session that it leaves, or raises
-- with an error text.
use portfolio_copilot.Prelude.{
  ◌⊎◌, ◌∙◌, eq_iff, Bool-cases, ℕ, ◌+◌, ◌≡◌, refl, String, List, [], ◌∷◌, ◌++◌, Option, none, some,
  length, str_eq, if◌then◌else◌, inl, inr,
}
use portfolio_copilot.Prelude.Dict.{Dict, get, put, get-put}
use portfolio_copilot.Domain.Events.{EventType, value}
use portfolio_copilot.Outbox.Envelope.{Envelope}

-- A session after handlers that returned, or the text of the exception that one raised.
pub data Outcome (S : Type 0) : Type 0 where
  done : S → Outcome S
  raised : String → Outcome S

infixl 5 ◌>>=◌
abbrev pub ◌>>=◌ : {S T : Type 0} → Outcome S → (S → Outcome T) → Outcome T
done s >>= f = f s
raised e >>= f = raised e

-- A delivery that returned went through each part.
pub >>=-eq-done :
    {S T : Type 0} (m : Outcome S) (f : S → Outcome T) {t : T}
    → (m >>= f) ≡ done t
    → (s : S) × (m ≡ done s) × (f s ≡ done t)
>>=-eq-done (done s) f h = (s, refl, h)
>>=-eq-done (raised e) f h = cc

pub Outcome-cases :
    {S : Type 0} (o : Outcome S) → ((s : S) × (o ≡ done s)) ⊎ ((e : String) × (o ≡ raised e))
Outcome-cases (done s) = inl (s, refl)
Outcome-cases (raised e) = inr (e, refl)

pub done_injective : {S : Type 0} {s t : S} → done s ≡ done t → s ≡ t
done_injective h = cc

abbrev pub Handler : Type 0 → Type 0
Handler S = Envelope → S → Outcome S

pub record EventBus (S : Type 0) : Type 0 where
  pub async_handlers : Dict (List (Handler S))
  pub sync_handlers : Dict (List (Handler S))

abbrev or_empty {ℓ} : {A : Type ℓ} → Option (List A) → List A
or_empty none = []
or_empty (some l) = l

module _ {S : Type 0} where
  -- `self._handlers[key].append(handler)` of a `defaultdict(list)`
  subscribe_in : EventType → Handler S → Dict (List (Handler S)) → Dict (List (Handler S))
  subscribe_in t h d = put (value t) (or_empty (get (value t) d) ++ h ∷ []) d

  unfoldable pub subscribe : EventType → Handler S → EventBus S → EventBus S
  unfolding subscribe_in
  subscribe t h bus = record bus { async_handlers = subscribe_in t h bus.async_handlers }

  unfoldable pub subscribe_sync : EventType → Handler S → EventBus S → EventBus S
  unfolding subscribe_in
  subscribe_sync t h bus = record bus { sync_handlers = subscribe_in t h bus.sync_handlers }

  unfoldable pub handlers_for : EventType → Dict (List (Handler S)) → List (Handler S)
  handlers_for t d = or_empty (get (value t) d)

  -- `for handler in …: handler(envelope, session)`; an exception stops the delivery.
  unfoldable pub deliver : List (Handler S) → Envelope → S → Outcome S
  deliver [] env s = done s
  deliver (h ∷ hs) env s = h env s >>= deliver hs env

  unfoldable pub publish : EventBus S → Envelope → S → Outcome S
  publish bus env s = deliver (handlers_for env.type bus.async_handlers) env s

  unfoldable pub publish_sync : EventBus S → Envelope → S → Outcome S
  publish_sync bus env s = deliver (handlers_for env.type bus.sync_handlers) env s

  unfoldable pub handler_count : EventBus S → EventType → ℕ
  handler_count bus t =
      length (handlers_for t bus.async_handlers) + length (handlers_for t bus.sync_handlers)

abbrev pub empty_bus : (S : Type 0) → EventBus S
empty_bus S = record { async_handlers = []; sync_handlers = [] }

module _ {S : Type 0} where
  deliver-append :
      (hs ks : List (Handler S)) (env : Envelope) (s : S)
      → deliver (hs ++ ks) env s ≡ (deliver hs env s >>= deliver ks env)
  unfolding deliver
  deliver-append [] ks env s = refl
  deliver-append (h ∷ hs) ks env s = after (h env s) (deliver-append hs ks env)
    where
      after :
          (o : Outcome S)
          → ((s' : S) → deliver (hs ++ ks) env s' ≡ (deliver hs env s' >>= deliver ks env))
          → (o >>= deliver (hs ++ ks) env) ≡ (o >>= deliver hs env >>= deliver ks env)
      after (done s') step = step s'
      after (raised e) step = refl

  bind_done : (o : Outcome S) → (o >>= λ s. done s) ≡ o
  bind_done (done s) = refl
  bind_done (raised e) = refl

  deliver_one :
      (o : Outcome S) (h : Handler S) (env : Envelope)
      → (o >>= deliver (h ∷ []) env) ≡ (o >>= h env)
  unfolding deliver
  deliver_one (done s) h env = bind_done (h env s)
  deliver_one (raised e) h env = refl

  -- A new synchronous handler runs after those that were there, on the envelopes of its type and
  -- no others; an exception of an earlier one keeps it from running.
  pub publish_sync-subscribe_sync :
      (t : EventType) (h : Handler S) (bus : EventBus S) (env : Envelope) (s : S)
      → publish_sync (subscribe_sync t h bus) env s ≡ (
          if str_eq (value t) (value env.type)
          then publish_sync bus env s >>= h env
          else publish_sync bus env s)
  unfolding publish_sync subscribe_sync handlers_for
  publish_sync-subscribe_sync t h bus env s =
      elim (Bool-cases (str_eq (value t) (value env.type))) [
        | inl e ↦
            rw (get-put, e, (eq_iff (value t) (value env.type)).0 e)
              (deliver-append (handlers_for env.type bus.sync_handlers) (h ∷ []) env s
                ∙ deliver_one (deliver (handlers_for env.type bus.sync_handlers) env s) h env)
        | inr e ↦ rw (get-put, e)
      ]
