-- ===== src/Worker/Command/Redelivery.antt =====
-- A command that went through a retry queue is read again as the same command, with its attempt.
use vigil_summit_agent.Prelude.{String, ℕ, Option, none, some, ◌≡◌, refl, sym, ◌∙◌, ap}
use mathlib.Core.Option.{some-injective, none-ne-some}
use vigil_summit_agent.Json.{obj, Fields, as_record, get}
use vigil_summit_agent.Contracts.Message.{Command}
use vigil_summit_agent.Worker.State.{Env, Content, command}
use vigil_summit_agent.Worker.Command.{
  Delivery, ◌>>=◌, read_command, parse_command, retry_attempt, header,
}
use vigil_summit_agent.Worker.Delivery.{RetryQueue, retry_publication}

-- A command that is read has the object that it is read from as its body.
abbrev BodyIs : Fields → Option Command → Type 0
BodyIs fs none = Unit
BodyIs fs (some m) = m.body ≡ fs

bind-BodyIs :
    {A : Type 0} (fs : Fields) (o : Option A) (f : A → Option Command)
    → ((a : A) → BodyIs fs (f a))
    → BodyIs fs (o >>= f)
bind-BodyIs fs none f h = tt
bind-BodyIs fs (some a) f h = h a

read_command-BodyIs : (fs : Fields) → BodyIs fs (read_command fs)
unfolding read_command
read_command-BodyIs fs = search (bind-BodyIs) depth 30

body_of : (fs : Fields) (m : Command) (o : Option Command) → o ≡ some m → BodyIs fs o → m.body ≡ fs
body_of fs m none h b = absurd (none-ne-some m h)
body_of fs m (some m') h b = sym (ap (λ (x : Command). x.body) (some-injective m' m h)) ∙ b

read-body : (fs : Fields) (m : Command) → read_command fs ≡ some m → m.body ≡ fs
read-body fs m h = body_of fs m (read_command fs) h (read_command-BodyIs fs)

parsed-body :
    (m : Command) (o : Option Fields) → (o >>= read_command) ≡ some m → read_command m.body ≡ some m
parsed-body m none h = absurd (none-ne-some m h)
parsed-body m (some fs) h = ap read_command (read-body fs m h) ∙ h

read-parsed :
    (env : Env) (first : Delivery) (m : Command)
    → parse_command env first ≡ some m
    → read_command m.body ≡ some m
unfolding parse_command
read-parsed env first m h = parsed-body m _ h

-- Suppose that a delivery was read as a command, and that a second delivery is what the worker publishes
-- into a retry queue for it: its content is the text of what was published, by `JSON.stringify`, which
-- `JSON.parse` reads back, and it has the retry header that was published, beside any headers that the
-- broker adds on the way. Then the second one is read as the same command, and as the attempt that was
-- sent.
pub retry_publication-read :
    (env : Env) (stringify : Content → String) (first second : Delivery) (m : Command) (attempt : ℕ)
    (q : RetryQueue)
    → parse_command env first ≡ some m
    → env.parse_json (stringify (command m.body)) ≡ some (obj m.body)
    → second.content ≡ stringify (retry_publication m attempt q).content
    → header second.headers
      ≡ get (retry_publication m attempt q).headers "x-flowpilot-retry-attempt"
    → (parse_command env second ≡ some m) × (retry_attempt env second ≡ attempt)
unfolding parse_command retry_attempt retry_publication as_record
retry_publication-read env stringify first second m attempt q read parses content headers =
    (rw content (rw parses (read-parsed env first m read)), rw headers refl)
