-- ===== src/Worker/Dispatcher/Draft.antt =====
-- `createPublicActionTokens`, `buildContext`, `draftMessage` and `deterministicDraft` of
-- apps/execution-worker/src/engagement/scheduled-action-dispatcher.ts. The agenda, the memory and the
-- facts on the company, which only the orchestrator's prompt gets, are left out.
use vigil_summit_agent.Prelude.{
  ℕ, ◌+◌, ◌*◌, String, Option, none, some, List, [], ◌∷◌, ◌++◌, ◌=ₛ◌, ◌<>◌, if◌then◌else◌,
  get_or_else,
}
use vigil_summit_agent.Json.{Fields, get, as_record}
use vigil_summit_agent.Engagement.Policy.{Purpose, event_communication, commercial_follow_up}
use vigil_summit_agent.Engagement.Cadence.{day_ms}
use vigil_summit_agent.Engagement.Tables.{
  Lead, Event, Registration, Signal, PublicAction, DraftContext, DraftReply, drafted, draft_refused,
  Services,
}
use vigil_summit_agent.Worker.State.{other_error}
use vigil_summit_agent.Worker.Effects.{M, pure, throw, ◌>>=◌, ◌>>◌, access, ask, call}
use vigil_summit_agent.Worker.Command.{text}

-- One round of the loop of `createPublicActionTokens`
unfoldable pub create_token : Registration → Purpose → ℕ → PublicAction → M String
create_token r purpose now action = do
  raw ← call (λ env n. env.services.random_token n)
  hash ← ask (λ env. env.services.sha256 raw)
  access (λ db. (
    tt,
    record db {
      engagement = record db.engagement {
        tokens =
            db.engagement.tokens
            ++ record {
              registration_id = r.id;
              token_hash = hash;
              action = action;
              purpose = purpose;
              expires_at = now + 30 * day_ms;
              consumed_at = none;
            }
              ∷ [];
      };
    },
  ))
  pure raw

abbrev link : Services → String → String
link services token = services.public_url <> "/engagement/action/" <> token

abbrev latest : String → Option String → List Signal → Option String
latest registration_id found [] = found
latest registration_id found (s ∷ ss) =
    latest registration_id (if s.registration_id =ₛ registration_id then some s.value else found) ss

-- `buildContext`
unfoldable pub build_context :
    Services
    → Registration
    → Lead
    → Event
    → List Signal
    → String
    → Purpose
    → String
    → String
    → String
    → DraftContext
build_context services r lead event signals action purpose t_confirm t_decline t_unsubscribe =
    record {
      action = action;
      purpose = purpose;
      first_name = services.first_word lead.full_name;
      event_name = event.name;
      interest = latest r.id none signals;
      confirm_link = link services t_confirm;
      decline_link = link services t_decline;
      unsubscribe_link = link services t_unsubscribe;
    }

pub record Draft : Type 0 where
  pub subject : String
  pub body : String
  pub rationale : String
  pub provider : String
  pub model : String

abbrev template : String → String → Draft
template subject body = record {
  subject = subject;
  body = body;
  rationale = "Deterministic fact-grounded fallback.";
  provider = "deterministic";
  model = "engagement-template-v2";
}

-- `deterministicDraft`, by the purpose
unfoldable pub deterministic_draft : Purpose → DraftContext → Draft
deterministic_draft commercial_follow_up c = template ("Proximo passo apos o " <> c.event_name) (
    "Ola, "
    <> c.first_name
    <> ". Obrigado pelo interesse no "
    <> c.event_name
    <> ". Podemos conversar sobre "
    <> get_or_else c.interest "os temas do evento"
    <> "?\n\nResponda com um horario conveniente.\n\nCancelar contato: "
    <> c.unsubscribe_link)
deterministic_draft event_communication c =
    template (c.first_name <> ", sua participacao no " <> c.event_name) (
      "Ola, " <> c.first_name <> ". Sua inscricao no " <> c.event_name
      <> " esta registrada.\n\nConfirmar: " <> c.confirm_link <> "\nNao poderei: " <> c.decline_link
      <> "\n\nCancelar comunicacoes: " <> c.unsubscribe_link)

abbrev unusable : Draft → Draft
unusable fallback = record fallback {
  rationale = "Model output failed schema validation; deterministic fallback used.";
}

abbrev from_texts :
    Services → Option String → Fields → Draft → Option String → Option String → Draft
from_texts services model fs fallback (some subject) (some body) = record {
  subject = services.slice 160 subject;
  body = services.slice 10000 body;
  rationale = get_or_else (text (get fs "rationale")) "Claude generated a fact-grounded draft.";
  provider = services.ai_provider;
  model = get_or_else model services.ai_provider;
}
from_texts services model fs fallback (some subject) none = unusable fallback
from_texts services model fs fallback none body = unusable fallback

abbrev from_summary : Services → Option String → Draft → Option Fields → Draft
from_summary services model fallback none = unusable fallback
from_summary services model fallback (some fs) =
    from_texts services model fs fallback (text (get fs "subject")) (text (get fs "body"))

unfoldable pub read_draft : Draft → DraftReply → M Draft
read_draft fallback (draft_refused message) = throw (other_error message)
read_draft fallback (drafted summary model) = ask (λ env.
    from_summary env.services model fallback (as_record (env.parse_json (get_or_else summary ""))))

-- `draftMessage`
unfoldable pub draft_message : DraftContext → M Draft
draft_message c = do
  provider ← ask (λ env. env.services.ai_provider)
  if provider =ₛ "deterministic"
      then pure (deterministic_draft c.purpose c)
      else call (λ env n. env.services.ask_draft n c)
        >>= read_draft (deterministic_draft c.purpose c)
