-- ===== src/Transport/Outbox.antt =====
-- internal/transport/client.go: the outbound buffer, and `Send`.
use brother_connect.Base.{
  ℕ, ltb, ◌==◌, length, Bool, true, false, ◌++◌, List, [], ◌∷◌, if◌then◌else◌,
}
use brother_connect.Protocol.{Envelope}

-- The channel `out`. What `Send` was given and took is kept beside it, for the statements.
pub record Outbox : Type 0 where
  pub buffer_size : ℕ
  pub waiting : List Envelope
  pub accepted_messages : List Envelope

-- The buffer of `NewClient`.
unfoldable pub new_outbox : ℕ → Outbox
new_outbox size = record {
  buffer_size = if size == 0 then 128 else size;
  waiting = [];
  accepted_messages = [];
}

-- `Send`: whether the message was taken; `false` is the error for a full buffer.
unfoldable pub send_message : Outbox → Envelope → Outbox × Bool
send_message o e =
    if ltb (length o.waiting) o.buffer_size
    then (
      record o {
        waiting = o.waiting ++ (e ∷ []);
        accepted_messages = o.accepted_messages ++ (e ∷ []);
      },
      true,
    )
    else (o, false)
