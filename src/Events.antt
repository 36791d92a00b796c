-- ===== src/Events.antt =====
-- internal/events: what `Publisher` appends to the stream. No service of the program publishes yet.
use go_with_me.Base.{ℕ, String, Option, none, some, List, [], ◌∷◌, ◌++◌, ◌=ₛ◌, if◌then◌else◌}
use go_with_me.ApiError.{Error, wrapped, plain}

-- The `Event…` constants.
abbrev pub user_created : String
user_created = "user.created"

abbrev pub user_updated : String
user_updated = "user.updated"

abbrev pub user_invited : String
user_invited = "user.invited"

abbrev pub user_logged_in : String
user_logged_in = "user.logged_in"

abbrev pub user_logged_out : String
user_logged_out = "user.logged_out"

abbrev pub password_reset : String
password_reset = "user.password_reset"

abbrev pub user_deactivated : String
user_deactivated = "user.deactivated"

pub record Event : Type 0 where
  pub id : String
  pub kind : String
  pub payload : String
  pub occurred_at : ℕ

-- The values of an entry, by their keys.
abbrev pub Entry : Type 0
Entry = List (String × String)

-- Redis' streams by their names; XADD appends, or fails with an error.
pub record Streams : Type 0 where
  pub entries : String → List Entry
  pub fails : String → Option Error

-- `json.Marshal` of a raw message, and `Format(time.RFC3339Nano)` in UTC.
pub record Encoders : Type 0 where
  pub marshal_raw : String → Option String
  pub format_time : ℕ → String

abbrev pub entry_of : Encoders → Event → String → Entry
entry_of e event text =
    ("event_id", event.id)
    ∷ ("event_type", event.kind)
    ∷ ("payload", text)
    ∷ ("occurred_at", e.format_time event.occurred_at)
    ∷ []

abbrev pub appended : String → Entry → Streams → Streams
appended stream entry s = record s {
  entries = λ name. if name =ₛ stream then s.entries name ++ entry ∷ [] else s.entries name;
}

abbrev pub add_unless : Option Error → String → Entry → Streams → Option Error × Streams
add_unless (some e) stream entry s = (some e, s)
add_unless none stream entry s = (none, appended stream entry s)

abbrev pub publish_marshalled :
    Encoders → String → Event → Option String → Streams → Option Error × Streams
publish_marshalled enc stream event none s =
    (some (wrapped "marshal event payload" (plain "json")), s)
publish_marshalled enc stream event (some text) s =
    add_unless (s.fails stream) stream (entry_of enc event text) s

-- `Publish`, of a publisher for this stream.
unfoldable pub publish : Encoders → String → Event → Streams → Option Error × Streams
publish enc stream event s = publish_marshalled enc stream event (enc.marshal_raw event.payload) s

abbrev pub publish_text :
    Encoders → ℕ → String → String → Option String → Streams → Option Error × Streams
publish_text enc now stream kind none s = (some (wrapped "marshal payload" (plain "json")), s)
publish_text enc now stream kind (some text) s =
    publish enc stream (record { id = ""; kind = kind; payload = text; occurred_at = now }) s

-- `PublishRaw` at the time `now`, with how `json.Marshal` encodes the payload.
unfoldable pub publish_raw :
    {A : Type 0}
    → (A → Option String)
    → Encoders
    → ℕ
    → String
    → String
    → A
    → Streams
    → Option Error × Streams
publish_raw marshal enc now stream kind payload s =
    publish_text enc now stream kind (marshal payload) s
